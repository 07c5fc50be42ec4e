-- ===== src/Tcp/Segments.antt =====
-- How `sendData` cuts what it is given into segments.
use moon_state.Prelude.{
  ℕ, zero, suc, ◌+◌, ◌-◌, ◌%◌, ◌<◌, ◌≤◌, ◌≡◌, ◌∙◌, refl, sym, ap, arith, true, false, inl, inr,
  List, [], ◌∷◌, ◌++◌, ltb, leb, if_true, if_false, length, take, drop, take-drop, take-take,
  drop-drop, take_all, drop_all, Bool-cases,
}
use mathlib.Core.List.{append-nil, append_assoc}
use moon_state.Tcp.Data.{mss, u32, Segment, Connection, min, enqueue, send_rest, send_data}

-- The bytes of a segment, and those of a queue of them.
abbrev pub payload : Segment → List ℕ
payload s = take s.data_len s.data_ptr

abbrev pub payloads : List Segment → List ℕ
payloads [] = []
payloads (s ∷ ss) = payload s ++ payloads ss

-- Segments of at most `mss` bytes that follow each other: the first one has the sequence number
-- `a`, and `b` is the number of the byte behind the last one.
pub data Follows : ℕ → List Segment → ℕ → Type 0 where
  done : {a : ℕ} → Follows a [] a
  more :
      {s : Segment} {ss : List Segment} {b : ℕ}
      → s.data_len ≤ mss
      → Follows ((s.seq_number + s.data_len) % u32) ss b
      → Follows s.seq_number (s ∷ ss) b

-- What a connection has after the bytes `bytes` were queued.
pub record Queued {C P : Type 0} (bytes : List ℕ) (c t : Connection C P) : Type 0 where
  pub added : List Segment
  pub queue : t.data_to_send ≡ c.data_to_send ++ added
  pub bytes_kept : payloads added ≡ bytes
  pub follow : Follows c.seq_local added t.seq_local
  pub others : t ≡ record c { data_to_send = t.data_to_send; seq_local = t.seq_local }

beyond : (total : ℕ) (bytes : List ℕ) → ltb total (length bytes) ≡ false → length bytes ≤ total
beyond total bytes e = ground arith

module _ {C P : Type 0} where
  -- One segment in front of what was queued after it.
  first-Queued :
      (buf rest bytes : List ℕ) (len : ℕ) (c t : Connection C P)
      → len ≤ mss
      → take len buf ++ rest ≡ bytes
      → Queued rest (enqueue buf len c) t
      → Queued bytes c t
  unfolding enqueue
  first-Queued buf rest bytes len c t small e q = record {
    added = seg ∷ q.added;
    queue = q.queue ∙ append_assoc c.data_to_send (seg ∷ []) q.added;
    bytes_kept = ap (λ bs. take len buf ++ bs) q.bytes_kept ∙ e;
    follow = more small q.follow;
    others = q.others;
  }
    where
      seg : Segment
      seg = record { data_ptr = buf; seq_number = c.seq_local; data_len = len }

  none-Queued : (c : Connection C P) → Queued [] c c
  none-Queued c = record {
    added = [];
    queue = sym (append-nil c.data_to_send);
    bytes_kept = refl;
    follow = done;
    others = refl;
  }

  send_rest_end : (total : ℕ) (bytes : List ℕ) (c : Connection C P) → send_rest 0 total bytes c ≡ c
  unfolding send_rest
  send_rest_end total bytes c = refl

  send_data_short :
      (bytes : List ℕ) (c : Connection C P)
      → leb (length bytes) mss ≡ true
      → send_data bytes c ≡ enqueue bytes (length bytes) c
  unfolding send_data
  send_data_short bytes c e = if_true _ _ _ e

  send_data_long :
      (bytes : List ℕ) (c : Connection C P)
      → leb (length bytes) mss ≡ false
      → send_data bytes c ≡ send_rest (length bytes) mss bytes (enqueue bytes mss c)
  unfolding send_data
  send_data_long bytes c e = if_false _ _ _ e

  module _ (n total : ℕ) (bytes : List ℕ) (c : Connection C P) where
    abbrev cur : ℕ
    cur = min (length bytes - total) mss

    send_rest_more :
        ltb total (length bytes) ≡ true
        → send_rest (suc n) total bytes c
          ≡ send_rest n (total + cur) bytes (enqueue (take cur (drop total bytes)) cur c)
    unfolding send_rest
    send_rest_more e = if_true _ _ _ e

    send_rest_stop : ltb total (length bytes) ≡ false → send_rest (suc n) total bytes c ≡ c
    unfolding send_rest
    send_rest_stop e = if_false _ _ _ e

    cur_bounds :
        ltb total (length bytes) ≡ true → (0 < cur) × (cur ≤ mss) × (total + cur ≤ length bytes)
    unfolding min
    cur_bounds e = ground arith

    -- The bytes of the next segment, and what is left behind it.
    cut : take cur (take cur (drop total bytes)) ++ drop (total + cur) bytes ≡ drop total bytes
    cut =
        rw (take-take cur (drop total bytes), ← drop-drop total cur bytes)
          (take-drop cur (drop total bytes))

  send_rest-Queued :
      (n total : ℕ) (bytes : List ℕ) (c : Connection C P)
      → length bytes ≤ total + n
      → Queued (drop total bytes) c (send_rest n total bytes c)
  send_rest-Queued zero total bytes c h =
      rw (drop_all total bytes (omega arith), send_rest_end total bytes c) (none-Queued c)
  send_rest-Queued (suc n) total bytes c h = elim (Bool-cases (ltb total (length bytes))) [
    | inl e ↦
        let (pos, small, inside) = cur_bounds n total bytes c e in
        let q =
          send_rest-Queued n (total + cur n total bytes c) bytes
            (enqueue (take (cur n total bytes c) (drop total bytes)) (cur n total bytes c) c)
            (omega arith) in
        rw (send_rest_more n total bytes c e) (
          first-Queued (take (cur n total bytes c) (drop total bytes))
            (drop (total + cur n total bytes c) bytes) (drop total bytes) (cur n total bytes c) c _
            small (cut n total bytes c) q)
    | inr e ↦
        rw (send_rest_stop n total bytes c e, drop_all total bytes (beyond total bytes e))
          (none-Queued c)
  ]

  -- `sendData` implements a stream of bytes: it adds segments behind the queue whose bytes are,
  -- one after the other, exactly the bytes that it was given; each has at most `MSS` bytes, their
  -- sequence numbers follow each other from `seqLocal` on, modulo 2^32, and `seqLocal` is then
  -- the number behind the last. Nothing else of the connection changes.
  pub send_data-Queued : (bytes : List ℕ) (c : Connection C P) → Queued bytes c (send_data bytes c)
  send_data-Queued bytes c = elim (Bool-cases (leb (length bytes) mss)) [
    | inl e ↦
        let small : length bytes ≤ mss = ground arith in
        rw (send_data_short bytes c e) (
          first-Queued bytes [] bytes (length bytes) c _ small
            (append-nil (take (length bytes) bytes) ∙ take_all (length bytes) bytes (omega arith))
            (none-Queued (enqueue bytes (length bytes) c)))
    | inr e ↦ rw (send_data_long bytes c e) (
        first-Queued bytes (drop mss bytes) bytes mss c _ (omega arith) (take-drop mss bytes)
          (send_rest-Queued (length bytes) mss bytes (enqueue bytes mss c) (omega arith)))
  ]
