-- ===== src/Tcp/Queues.antt =====
-- What becomes of the segments in the two queues.
use moon_state.Prelude.{
  ℕ, ◌+◌, ◌-◌, ◌%◌, ◌<◌, ◌≤◌, ◌≡◌, refl, arith, inl, inr, true, false, List, [], ◌∷◌, ◌++◌, Perm,
  ltb, ◌==◌, Bool-cases,
}
use mathlib.Core.List.{append-nil}
use mathlib.Core.List.{perm_middle}
use mathlib.Core.List.Perm
use moon_state.Tcp.Segments.{payload, payloads}
use moon_state.Tcp.Data.{u16, u32, Segment, Connection, min}
use moon_state.Tcp.Window.{resend, take_segment}

-- No segment of the list has a sequence number above `n`.
pub data Upto (n : ℕ) : List Segment → Type 0 where
  none_left : Upto n []
  one_more : {s : Segment} {ss : List Segment} → s.seq_number ≤ n → Upto n ss → Upto n (s ∷ ss)

module _ (reset_seq : ℕ) where
  resend_again :
      (s : Segment) (ss to_send : List Segment)
      → ltb reset_seq s.seq_number ≡ true
      → resend reset_seq to_send (s ∷ ss) ≡ resend reset_seq (s ∷ to_send) ss
  unfolding resend
  resend_again s ss to_send e = rw e refl

  resend_kept :
      (s : Segment) (ss to_send : List Segment)
      → ltb reset_seq s.seq_number ≡ false
      → resend reset_seq to_send (s ∷ ss)
        ≡ ((resend reset_seq to_send ss).0, s ∷ (resend reset_seq to_send ss).1)
  unfolding resend
  resend_kept s ss to_send e = rw e refl

resend_end : (reset_seq : ℕ) (to_send : List Segment) → resend reset_seq to_send [] ≡ (to_send, [])
unfolding resend
resend_end reset_seq to_send = refl

-- Room for as many bytes as the segment has, or for fewer.
module _ {C P : Type 0} (budget : ℕ) (seg : Segment) (queue : List Segment) (c : Connection C P)
    (small : budget < u16) where
  pub take_whole :
      seg.data_len ≤ budget
      → take_segment budget seg queue c ≡ (
        seg,
        seg.data_len,
        record c { data_to_send = queue; data_already_sent = c.data_already_sent ++ seg ∷ [] },
      )
  unfolding take_segment min
  take_whole h =
      let e : ltb (budget % u16) seg.data_len ≡ false = ground arith in
      let f : (seg.data_len == seg.data_len) ≡ true = ground arith in rw (e, f) refl

  -- What is left in the queue of a segment that does not fit, and what is sent of it.
  abbrev pub left : Segment
  left = record { data_ptr = []; seq_number = (seg.seq_number + budget) % u32; data_len = 0 }

  abbrev pub sent : Segment
  sent = record seg { data_len = 0 }

  pub take_part :
      budget < seg.data_len
      → take_segment budget seg queue c ≡ (
        sent,
        budget,
        record c {
          data_to_send = left ∷ queue;
          data_already_sent = c.data_already_sent ++ sent ∷ [];
        },
      )
  unfolding take_segment min
  take_part h =
      let e : ltb (budget % u16) seg.data_len ≡ true = ground arith in
      let f : (budget == seg.data_len) ≡ false = ground arith in
      let g : budget % u16 ≡ budget = omega arith in
      let z : budget - budget ≡ 0 = omega arith in rw (e, g, f, z) refl

  -- Where a segment is longer than what the window has left, its bytes are lost: the segment that
  -- is sent has none, the window counts as used up, and what remains in the queue has the bytes
  -- of the segments behind it only. Conditions: less than 2^16 bytes are left in the window.
  pub take_segment_loses :
      budget < seg.data_len
      → (payload (take_segment budget seg queue c).0 ≡ [])
        × ((take_segment budget seg queue c).1 ≡ budget)
        × (payloads (take_segment budget seg queue c).2.data_to_send ≡ payloads queue)
  take_segment_loses h = rw (take_part h) (refl, refl, refl)

-- The choice of segments to resend loses none and doubles none: both queues together hold, in
-- some order, what they held before, and no segment that stays among the sent ones has a number
-- above the one to go back to.
pub resend-Perm :
    (reset_seq : ℕ) (to_send sent : List Segment)
    → Perm
        ((resend reset_seq to_send sent).0 ++ (resend reset_seq to_send sent).1)
        (to_send ++ sent)
      × Upto reset_seq (resend reset_seq to_send sent).1
resend-Perm reset_seq to_send [] =
    rw (resend_end reset_seq to_send, append-nil to_send) (Perm.refl to_send, none_left)
resend-Perm reset_seq to_send (s ∷ ss) = elim (Bool-cases (ltb reset_seq s.seq_number)) [
  | inl e ↦
      let (perm, upto) = resend-Perm reset_seq (s ∷ to_send) ss in
      rw (resend_again reset_seq s ss to_send e)
        (Perm.trans perm (Perm.symm (perm_middle to_send ss)), upto)
  | inr e ↦
      let (perm, upto) = resend-Perm reset_seq to_send ss in
      let low : s.seq_number ≤ reset_seq = ground arith in
      rw (resend_kept reset_seq s ss to_send e) (
        Perm.trans (perm_middle (resend reset_seq to_send ss).0 (resend reset_seq to_send ss).1)
            (Perm.trans (Perm.cons s perm) (Perm.symm (perm_middle to_send ss))),
        one_more low upto,
      )
]
