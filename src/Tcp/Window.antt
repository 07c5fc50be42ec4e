-- ===== src/Tcp/Window.antt =====
-- What `runEst` does with the two queues of segments.
use moon_state.Prelude.{ℕ, ◌+◌, ◌-◌, ◌%◌, List, [], ◌∷◌, ◌++◌, ltb, ◌==◌, if◌then◌else◌, take, drop}
use moon_state.Tcp.Data.{u16, u32, Segment, Connection, min}

-- "Erase all the old acknowledged segments"
unfoldable pub erase_acked : ℕ → List Segment → List Segment
erase_acked ack [] = []
erase_acked ack (s ∷ ss) =
    let rest = erase_acked ack ss in
    if ltb ((s.seq_number + s.data_len) % u32) ack then rest else s ∷ rest

-- The segments to resend leave the second queue and go to the front of the first, one by one.
unfoldable pub resend : ℕ → List Segment → List Segment → List Segment × List Segment
resend reset_seq to_send [] = (to_send, [])
resend reset_seq to_send (s ∷ ss) =
    let again = ltb reset_seq s.seq_number in
    let (queue, kept) = resend reset_seq (if again then s ∷ to_send else to_send) ss in
    (queue, if again then kept else s ∷ kept)

module _ {C P : Type 0} where
  -- The part of the send loop that takes a segment, or a part of one, out of the queue: the
  -- segment to send, the value of `curSend`, and the connection afterwards.
  unfoldable pub take_segment :
      ℕ → Segment → List Segment → Connection C P → Segment × ℕ × Connection C P
  unfolding min
  take_segment budget seg queue c =
      let cur_send = min seg.data_len (budget % u16) in
      if cur_send == seg.data_len
      then (
        seg,
        cur_send,
        record c { data_to_send = queue; data_already_sent = c.data_already_sent ++ seg ∷ [] },
      )
      else (let part : Segment = record seg { data_len = cur_send } in
          let left = part.data_len - cur_send in
          let old : Segment = record {
            data_ptr = take (part.data_len - cur_send) (drop cur_send part.data_ptr);
            seq_number = (part.seq_number + cur_send) % u32;
            data_len = left;
          } in
          let moved =
            take (part.data_len - cur_send) (drop cur_send part.data_ptr)
            ++ drop (part.data_len - cur_send) part.data_ptr in
          let sent : Segment = record {
            data_ptr = moved;
            seq_number = part.seq_number;
            data_len = left;
          } in
          (
            sent,
            cur_send,
            record c {
              data_to_send = old ∷ queue;
              data_already_sent = c.data_already_sent ++ sent ∷ [];
            },
          ))
