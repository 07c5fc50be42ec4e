-- ===== src/Machine/Step.antt =====
-- What `runPkt` does to the batch and to the connections.
use moon_state.Prelude.{
  ℕ, zero, suc, ◌+◌, ◌^◌, ◌<◌, ◌≡◌, refl, sym, ap, ◌∙◌, inl, inr, Bool, false, Option, List, [],
  ◌∷◌, ◌++◌, arith, if◌then◌else◌, length, Bool-cases, if_true, if_false, length-append,
}
use moon_state.Fault.{Result, ok, ◌>>=◌, >>=-eq-ok}
use moon_state.BufArray.Entries.{Entry, to_send, decide_at, mark-Holds, length-decide_at}
use moon_state.BufArray.Copy.{all_ptrs}
use moon_state.Machine.Types.{Iface, Env}
use moon_state.Machine.Uses.{Extended, Extended-le, Uses-Extended, Uses-conn_id, WellBehaved}
use moon_state.Machine.Run.{packet_at, lookup_fun, mark_pkt, destroy}

decide_at-append :
    (es fs : List Entry) (i : ℕ) (s : Bool)
    → i < length es
    → decide_at (es ++ fs) i s ≡ decide_at es i s ++ fs
decide_at-append [] fs i s h = absurd (omega arith)
decide_at-append ((p, r) ∷ es) fs zero s h = refl
decide_at-append (e ∷ es) fs (suc i) s h = ap (◌∷◌ e) (decide_at-append es fs i s (omega arith))

pub all_ptrs-decide_at :
    (es : List Entry) (i : ℕ) (s : Bool) → all_ptrs (decide_at es i s) ≡ all_ptrs es
all_ptrs-decide_at [] i s = refl
all_ptrs-decide_at ((p, r) ∷ es) zero s = refl
all_ptrs-decide_at ((p, r) ∷ es) (suc i) s = ap (◌∷◌ p) (all_ptrs-decide_at es i s)

module _ {K F W TM PM : Type 0} (env : Env K F W TM PM) where
  -- The destructor records the decision about the packet, and nothing else.
  pub mark_pkt-Extended :
      (cur : ℕ) (i j : Iface K F W) {es : List Entry} {n : ℕ}
      → cur < length es
      → Extended es n i.bufs
      → mark_pkt env cur i ≡ ok j
      → Extended (decide_at es cur i.send_pkt) n j.bufs × (j ≡ record i { bufs = j.bufs })
  unfolding mark_pkt
  mark_pkt-Extended cur i j {es} {n} lt x h =
      let (b, e, held) =
        mark-Holds cur i.send_pkt x.holds (omega (arith, length-append es (to_send x.extra))) in
      let q : j ≡ record i { bufs = b } = ground (arith, e) in
      rw q (
        (
          record {
            extra = x.extra;
            holds = rw (← decide_at-append es (to_send x.extra) cur i.send_pkt lt) held;
            few = x.few;
          },
          refl,
        ))

  module _ (g : ℕ) (wb : WellBehaved env g) where
    -- The function of an immediate transition runs after the decision.
    pub destroy-Extended :
        (cur : ℕ) (fs : List (Option F)) (i j : Iface K F W) {es : List Entry} {n : ℕ}
        → cur < length es
        → length es + n + g < 2 ^ 31
        → Extended es n i.bufs
        → destroy env cur fs i ≡ ok j
        → Extended (decide_at es cur i.send_pkt) (n + g) j.bufs
          × (j.conn_id ≡ i.conn_id)
          × (i.immediate_transition ≡ false → j.state ≡ i.state)
    unfolding destroy
    destroy-Extended cur fs i j {es} {n} lt room x h =
        let (k, m, r) = >>=-eq-ok (mark_pkt env cur i) _ h in
        let (y, q) = mark_pkt-Extended cur i k lt x m in after k y q r
      where
        immediate : (k : Iface K F W) → Result (Iface K F W)
        immediate k = do
          f ← lookup_fun k.state.state fs
          p ← packet_at cur k.bufs
          env.run_fun f p k

        ran :
            (k : Iface K F W)
            → Extended (decide_at es cur i.send_pkt) n k.bufs
            → k ≡ record i { bufs = k.bufs }
            → immediate k ≡ ok j
            → Extended (decide_at es cur i.send_pkt) (n + g) j.bufs × (j.conn_id ≡ i.conn_id)
        ran k y q r =
            let (f, _, r') = >>=-eq-ok (lookup_fun k.state.state fs) _ r in
            let (p, _, r'') = >>=-eq-ok (packet_at cur k.bufs) _ r' in
            let (c, few, uses) = wb.fun_uses f p k j r'' in
            (
              Extended-le (Uses-Extended uses y (omega (arith, length-decide_at es cur i.send_pkt)))
                  (omega arith),
              Uses-conn_id uses ∙ ap (λ (l : Iface K F W). l.conn_id) q,
            )

        after :
            (k : Iface K F W)
            → Extended (decide_at es cur i.send_pkt) n k.bufs
            → k ≡ record i { bufs = k.bufs }
            → (if k.immediate_transition then immediate k else ok k) ≡ ok j
            → Extended (decide_at es cur i.send_pkt) (n + g) j.bufs
              × (j.conn_id ≡ i.conn_id)
              × (i.immediate_transition ≡ false → j.state ≡ i.state)
        after k y q r = elim (Bool-cases k.immediate_transition) [
          | inl now ↦
              let (x', c) =
                ran k y q (sym (if_true k.immediate_transition (immediate k) (ok k) now) ∙ r) in
              (x', c, λ late. cc (ap (λ (l : Iface K F W). l.immediate_transition) q))
          | inr late ↦
              let e : ok k ≡ ok j =
                sym (if_false k.immediate_transition (immediate k) (ok k) late) ∙ r in
              let e' : k ≡ j = cc in
              rw (← e') (
                Extended-le y (omega arith),
                ap (λ (l : Iface K F W). l.conn_id) q,
                λ _. ap (λ (l : Iface K F W). l.state) q,
              )
        ]
