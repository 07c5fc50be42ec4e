-- ===== src/Tcp/Handlers.antt =====
-- `TCP::Server`: the state functions.
use moon_state.Prelude.{
  ℕ, zero, suc, ◌+◌, ◌-◌, ◌%◌, Bool, true, false, not, ◌&&◌, ◌||◌, Option, none, some, List, [],
  ◌∷◌, ◌++◌, ltb, ◌==◌, if◌then◌else◌, length,
}
use moon_state.Fault.{Result, ok, err, ◌>>=◌, no_fuel}
use moon_state.BufArray.{Ptr}
use moon_state.Headers.Bytes.{Bytes}
use moon_state.Headers.Ipv4
use moon_state.Headers.Tcp.{fin, ack}
use moon_state.Headers.Tcp
use moon_state.Machine.Types.{Iface}
use moon_state.Machine.Iface.{free_pkt, get_pkt, transition}
use moon_state.Hello.Heap.{Heap, World, object, allocate}
use moon_state.Hello.Effects.{put_mem, put_heap, put_world}
use moon_state.Tcp.Data.{u16, u32, min, Segment, Connection, ConCtl, Proto, new_connection, serve}
use moon_state.Tcp.Window.{erase_acked, resend, take_segment}
use moon_state.Tcp.Packet.{
  ip_at, tcp_at, headers_len, read_bytes, set_data_len, swap_ends, not_syn, not_data, refuse_flags,
  reset_packet, acknowledge, go_back, write_segment,
}

-- `TCP::States`
abbrev pub syn_ack : ℕ
syn_ack = 0

abbrev pub est : ℕ
est = 1

abbrev pub ack_fin : ℕ
ack_fin = 3

abbrev pub end : ℕ
end = 4

-- Where the send loop ends: the address in `tcp`, whether anything was sent, and the rest of the
-- state.
pub record Sent (C P K F W : Type 0) : Type 0 where
  pub tcp : ℕ
  pub some_sent : Bool
  pub conn : Connection C P
  pub iface : Iface K F W

first_seq : List Segment → Option ℕ
first_seq [] = none
first_seq (s ∷ ss) = some s.seq_number

module _ {C P : Type 0} (ctl : ConCtl C) where
  -- What `runEst` takes from an acknowledgement: the queues, the congestion control, the window.
  unfoldable pub take_ack : ℕ → ℕ → Connection C P → Connection C P
  unfolding erase_acked resend
  take_ack ack_number window c =
      let kept = erase_acked ack_number c.data_already_sent in
      let con_ctl = ctl.handle_packet c.seq_local ack_number c.con_ctl in
      let (queue, sent) : List Segment × List Segment = elim (ctl.reset con_ctl) [
        | none ↦ (c.data_to_send, kept)
        | some reset_seq ↦ resend reset_seq c.data_to_send kept
      ] in
      record c {
        data_to_send = queue;
        data_already_sent = sent;
        send_window = window;
        con_ctl = con_ctl;
      }

  -- The number of the byte that is expected next, behind a packet that was expected.
  unfoldable pub take_seq : ℕ → ℕ → Bool → Connection C P → Connection C P
  take_seq seq received fin_set c =
      let seq_remote = (seq + received) % u32 in
      if fin_set
      then record c { seq_remote = (seq_remote + 1) % u32; close_connection_after_sending = true }
      else record c { seq_remote = seq_remote }

module _ {C P H : Type 0} (ctl : ConCtl C) (protocol : Proto P) (heap : Heap (Connection C P) H)
    (data_at : Ptr → ℕ) where
  -- `factory`
  unfoldable pub factory : World H → Result (Ptr × World H)
  unfolding new_connection
  factory w = allocate heap (new_connection ctl protocol) w

  module _ {K F : Type 0} (alloc : F → World H → Ptr × World H) where
    put_conn : Connection C P → Iface K F (World H) → Iface K F (World H)
    put_conn c i = put_world (put_heap (heap.save i.state.state_data c i.world.heap) i.world) i

    -- `runSynAck`
    unfoldable pub run_syn_ack : Ptr → Iface K F (World H) → Result (Iface K F (World H))
    unfolding put_conn swap_ends
    run_syn_ack pkt i = do
      c ← object heap i.state.state_data i.world.heap
      let d = data_at pkt
      let ip = ip_at d
      let tcp = tcp_at i.world.mem d
      let m1 = Ipv4.set_payload_length ip Tcp.header_size (swap_ends ip tcp i.world.mem)
      if not_syn m1 tcp
          then ok (transition end (put_world (put_mem (refuse_flags tcp m1) i.world) i))
          else (let seq_remote = (Tcp.get_seq m1 tcp + 1) % u32 in
              let m2 = Tcp.set_seq tcp 0 (Tcp.set_ack tcp seq_remote m1) in
              let m3 = Tcp.set_offset tcp 5 (Tcp.set_flag ack tcp m2) in
              let seg : Segment = record {
                data_ptr = read_bytes headers_len d m3;
                seq_number = 0;
                data_len = headers_len;
              } in
              let c' = record c {
                seq_remote = seq_remote;
                seq_local = 1;
                data_already_sent = c.data_already_sent ++ seg ∷ [];
              } in
              let j = put_world (set_data_len pkt headers_len (put_mem m3 i.world)) i in
              ok (transition est (put_conn c' j)))

    -- The loop that sends, with at most `fuel` rounds. `first` is `firstPacket`, `cur` is
    -- `curSendMbuf`, `tcp` the address of its TCP header; the length is set in `pkt`, whichever buffer is filled.
    unfoldable pub send_loop :
        ℕ
        → Bool
        → ℕ
        → ℕ
        → Ptr
        → Ptr
        → ℕ
        → Connection C P
        → Iface K F (World H)
        → Result (Sent C P K F (World H))
    unfolding take_segment write_segment set_data_len
    send_loop zero first max_send already pkt cur tcp c i = err no_fuel
    send_loop (suc n) first max_send already pkt cur tcp c i = elim (ltb already max_send) [
      | false ↦ ok (record { tcp = tcp; some_sent = not first; conn = c; iface = i })
      | true ↦ elim c.data_to_send [
        | [] ↦ ok (record { tcp = tcp; some_sent = not first; conn = c; iface = i })
        | seg ∷ queue ↦ do
          (buf, j) ← (if first then ok (cur, i) else get_pkt alloc i)
          let (sent, cur_send, c') = take_segment (max_send - already) seg queue c
          let m' = write_segment (data_at buf) c'.ip_id sent j.world.mem
          let w = set_data_len pkt (headers_len + sent.data_len) (put_mem m' j.world)
          send_loop n false max_send (already + cur_send) pkt buf (tcp_at j.world.mem (data_at buf))
              (record c' { ip_id = (c'.ip_id + 1) % u16 }) (put_world w j)
      ]
    ]

    -- The end of `runEst`: a FIN when everything is sent, and the decision about the packet.
    unfoldable pub close_or_free : Bool → Sent C P K F (World H) → Iface K F (World H)
    unfolding put_conn
    close_or_free free s =
        let c = s.conn in
        let fin_mem = Tcp.set_flag fin s.tcp s.iface.world.mem in
        let closed = put_world (put_mem fin_mem s.iface.world) s.iface in
        if c.close_connection_after_sending && (length c.data_to_send == 0)
        then transition ack_fin (put_conn (record c { seq_local = (c.seq_local + 1) % u32 }) closed)
        else if free && not s.some_sent
        then free_pkt (put_conn c s.iface)
        else put_conn c s.iface

    -- The part of `runEst` behind the acknowledgement, for a packet that was expected.
    unfoldable pub run_expected :
        Ptr → ℕ → Connection C P → Bytes → Iface K F (World H) → Result (Iface K F (World H))
    unfolding send_loop close_or_free take_seq acknowledge read_bytes serve
    run_expected pkt tcp c m1 i = do
      let ip = ip_at (data_at pkt)
      let received = (Ipv4.get_payload_length m1 ip + u16 - Tcp.get_header_len m1 tcp) % u16
      let c2 = take_seq ctl (Tcp.get_seq m1 tcp) received (Tcp.get_flag fin m1 tcp) c
      let m2 = acknowledge tcp c2.seq_local c2.seq_remote m1
      let data_len = (Ipv4.get_payload_length m2 ip + u16 - Tcp.get_header_len m2 tcp) % u16
      let (proto, requests) =
          protocol.handle_packet (read_bytes data_len (Tcp.get_payload tcp) m2) c2.proto
      let c3 = (if ltb 0 data_len then serve requests (record c2 { proto = proto }) else c2)
      let j = put_world (put_mem m2 i.world) i
      let max_send = min c3.send_window (ctl.con_window c3.con_ctl)
      s ← send_loop (suc (length c3.data_to_send)) true max_send 0 pkt pkt tcp c3 j
      ok (close_or_free (not (ltb 0 data_len)) s)

    -- `runEst`
    unfoldable pub run_est : Ptr → Iface K F (World H) → Result (Iface K F (World H))
    unfolding put_conn swap_ends take_ack run_expected first_seq go_back reset_packet set_data_len
    run_est pkt i = do
      c ← object heap i.state.state_data i.world.heap
      let d = data_at pkt
      let ip = ip_at d
      let tcp = tcp_at i.world.mem d
      let m1 = swap_ends ip tcp i.world.mem
      if not_data m1 tcp
          then ok (
              transition end (
                put_world
                  (set_data_len pkt headers_len
                    (put_mem (reset_packet ip tcp c.seq_local m1) i.world))
                  i))
          else (let c1 = take_ack ctl (Tcp.get_ack m1 tcp) (Tcp.get_window m1 tcp) c in
              if not (Tcp.get_seq m1 tcp == c1.seq_remote)
              then (let m2 =
                    go_back ip tcp c1.seq_local c1.seq_remote (first_seq c1.data_to_send) m1 in
                  ok
                    (put_conn c1 (put_world (set_data_len pkt headers_len (put_mem m2 i.world)) i)))
              else run_expected pkt tcp c1 m1 i)

    -- `runAckFin`
    unfoldable pub run_ack_fin : Ptr → Iface K F (World H) → Result (Iface K F (World H))
    unfolding put_conn swap_ends acknowledge
    run_ack_fin pkt i = do
      c ← object heap i.state.state_data i.world.heap
      let d = data_at pkt
      let ip = ip_at d
      let tcp = tcp_at i.world.mem d
      let m1 = swap_ends ip tcp i.world.mem
      if not_data m1 tcp
            || not (Tcp.get_ack m1 tcp == c.seq_local)
            || not (Tcp.get_seq m1 tcp == c.seq_remote)
          then ok (transition end (put_world (put_mem (refuse_flags tcp m1) i.world) i))
          else if Tcp.get_flag fin m1 tcp
          then (let c' = record c {
            seq_local = (c.seq_local + 1) % u32;
            seq_remote = Tcp.get_seq m1 tcp;
          } in
              let m2 = acknowledge tcp c'.seq_local ((c'.seq_remote + 1) % u32) m1 in
              ok (transition end (put_conn c' (put_world (put_mem m2 i.world) i))))
          else ok (free_pkt (put_world (put_mem m1 i.world) i))
