-- ===== src/Dtls/Sending.antt =====
-- The loop of `writeAllDataAvailable`, which server and client share: the packet that came is
-- filled first, and further packets are asked for as long as there is something to send.
use moon_state.Prelude.{
  ℕ, zero, suc, ◌+◌, ◌<◌, ◌≡◌, ◌∙◌, arith, inl, inr, Bool, true, false, if◌then◌else◌, Bool-cases,
}
use moon_state.Fault.{Result, ok, err, ◌>>=◌, no_fuel}
use moon_state.BufArray.{Ptr}
use moon_state.Machine.Types.{Iface}
use moon_state.Machine.Iface.{free_pkt, get_pkt}

module _ {K F W : Type 0} (at_end : W → Bool) (alloc : F → W → Ptr × W)
    (fill : Ptr → Iface K F W → Result (Iface K F W)) where
  -- "Maybe there is more data to send": the loop, with the count `ret`.
  unfoldable pub send_extra : ℕ → ℕ → Iface K F W → Result (ℕ × Iface K F W)
  send_extra zero ret i = err no_fuel
  send_extra (suc fuel) ret i = elim (at_end i.world) [
    | true ↦ ok (ret, i)
    | false ↦ do (buf, j) ← get_pkt alloc i; k ← fill buf j; send_extra fuel (ret + 1) k
  ]

  -- What comes before the loop, where `first` fills the packet that came.
  unfoldable pub send_first :
      (Iface K F W → Result (Iface K F W)) → Iface K F W → Result (ℕ × Iface K F W)
  send_first first i = if at_end i.world then ok (0, free_pkt i) else (do j ← first i; ok (1, j))

  -- Packets that were asked for and filled, one after the other; the index is their number.
  pub data Sends : Iface K F W → ℕ → Iface K F W → Type 0 where
    done : {i : Iface K F W} → Sends i 0 i
    more :
        {n : ℕ} {i j k l : Iface K F W} (buf : Ptr)
        → at_end i.world ≡ false
        → get_pkt alloc i ≡ ok (buf, j)
        → fill buf j ≡ ok k
        → Sends k n l
        → Sends i (suc n) l

  -- A round of the loop.
  pub send_extra_ends :
      (fuel ret : ℕ) (i : Iface K F W)
      → at_end i.world ≡ true
      → send_extra (suc fuel) ret i ≡ ok (ret, i)
  unfolding send_extra
  send_extra_ends fuel ret i e = ground (arith, e)

  send_extra_step :
      (fuel ret : ℕ) (i j k : Iface K F W) (buf : Ptr)
      → at_end i.world ≡ false
      → get_pkt alloc i ≡ ok (buf, j)
      → fill buf j ≡ ok k
      → send_extra (suc fuel) ret i ≡ send_extra fuel (ret + 1) k
  unfolding send_extra
  send_extra_step fuel ret i j k buf e g f = ground (arith, e, g, f)

  -- With a measure that each filled packet lowers, and packets to be had, the loop ends with
  -- nothing left to send, and has counted its packets.
  module _ (Good : Iface K F W → Type 0) (measure : Iface K F W → ℕ)
      (can_fill : (i : Iface K F W)
        → Good i
        → at_end i.world ≡ false
        → (buf : Ptr) × (j : Iface K F W) × (k : Iface K F W) × (get_pkt alloc i ≡ ok (buf, j))
          × (fill buf j ≡ ok k)
          × Good k
          × (measure k < measure i)) where
    pub send_extra_lem :
        (fuel ret : ℕ) (i : Iface K F W)
        → Good i
        → measure i < fuel
        → (n : ℕ) × (j : Iface K F W) × (send_extra fuel ret i ≡ ok (ret + n, j))
          × Sends i n j
          × (at_end j.world ≡ true)
          × Good j
    send_extra_lem zero ret i good h = absurd (omega arith)
    send_extra_lem (suc fuel) ret i good h = elim (Bool-cases (at_end i.world)) [
      | inl e ↦
          let none_sent : ret + 0 ≡ ret = omega arith in
          (0, i, rw none_sent (send_extra_ends fuel ret i e), done, e, good)
      | inr e ↦
          let (buf, j, k, g, f, good', less) = can_fill i good e in
          let (n, l, ran, sends, end, last) = send_extra_lem fuel (ret + 1) k good' (omega arith) in
          let count : ret + suc n ≡ ret + 1 + n = omega arith in
          (
            suc n,
            l,
            rw count (send_extra_step fuel ret i j k buf e g f ∙ ran),
            more buf e g f sends,
            end,
            last,
          )
    ]
