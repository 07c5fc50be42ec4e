-- ===== src/Machine/Batch.antt =====
-- What a batch of packets can change: the connections that it names, and the packets' decisions.
use moon_state.Prelude.{
  inl, inr, ℕ, ◌+◌, ◌^◌, ◌<◌, ◌≡◌, ◌≢◌, refl, sym, ap, ◌∙◌, Bool, false, some, List, arith, length,
  Bool-cases,
}
use moon_state.Fault.{ok, ok-injective}
use moon_state.BufArray.{Ptr}
use moon_state.BufArray.Entries.{Entry, Holds, decide_at}
use moon_state.Machine.Types.{State, Machine, Sys, Env}
use moon_state.Machine.Uses.{Extended, Extended-le, Holds-Extended, WellBehaved}
use moon_state.Machine.Lookup.{tracked, waiting, Usable}
use moon_state.Machine.Outcome.{Outcome, unidentified, unwanted, handled, run_pkt-Outcome}
use moon_state.Machine.Run.{packet_at, run_pkt}

module _ {K F W TM PM : Type 0} (env : Env K F W TM PM) (g : ℕ) (wb : WellBehaved env g) where
  -- Every connection in the table is in a state that is not the end state.
  abbrev pub Live : Sys K F W TM PM → Type 0
  Live s =
      (k : K)
      → Usable env k
      → (st : State) → tracked env s k ≡ some st
      → st.state ≢ s.sm.end_state_id

  module _ (known : (p : Ptr) (w : W) (id : K) → env.identify p w ≡ some id → Usable env id) where
    module _ (cur : ℕ) {es : List Entry} (s t : Sys K F W TM PM) (lt : cur < length es)
        (room : length es + (g + g) < 2 ^ 31) (b : Holds s.bufs es)
        (h : run_pkt env cur s ≡ ok t) where
      -- A packet changes no connection but the one that it is identified with, neither in the
      -- machine's table nor in the pool. Conditions: `runPkt` returns, the functions work through
      -- the interface by at most `g` calls each, the identifier returns no reserved key, the
      -- other connection's key is not reserved, the index is one of the batch, and the batch is
      -- small enough not to overflow.
      pub run_pkt_isolated :
          (p : Ptr)
          → packet_at cur s.bufs ≡ ok p
          → (k : K) → Usable env k
          → env.identify p s.world ≢ some k
          → (tracked env t k ≡ tracked env s k) × (waiting env t k ≡ waiting env s k)
      run_pkt_isolated p at_cur k v other = go (run_pkt-Outcome env g wb known cur s t lt room b h)
        where
          go :
              Outcome env g wb cur es s t
              → (tracked env t k ≡ tracked env s k) × (waiting env t k ≡ waiting env s k)
          go (unidentified q at_q e d) = rw (d.sm, d.pool) (refl, refl)
          go (unwanted q id at_q e f d) = rw (d.sm, d.pool) (refl, refl)
          go (handled q id st u w at_q e f un (fn, i, l, r, fin)) =
              let same : p ≡ q = ok-injective (sym at_cur ∙ at_q) in
              let ne : k ≢ id = λ kid. other (rw (same, kid) e) in
              let (t1, w1) = fin.only.others k v ne in
              let (t2, w2) = un.others k v ne in (t1 ∙ t2, w1 ∙ w2)

      -- Only the packet's own decision is made, and only packets to be sent are added.
      pub run_pkt-Extended : (flag : Bool) × Extended (decide_at es cur flag) (g + g) t.bufs
      run_pkt-Extended = go (run_pkt-Outcome env g wb known cur s t lt room b h)
        where
          go :
              Outcome env g wb cur es s t
              → (flag : Bool) × Extended (decide_at es cur flag) (g + g) t.bufs
          go (unidentified q at_q e d) = (false, Extended-le (Holds-Extended d.batch) (omega arith))
          go (unwanted q id at_q e f d) =
              (false, Extended-le (Holds-Extended d.batch) (omega arith))
          go (handled q id st u w at_q e f un (fn, i, l, r, fin)) = (i.send_pkt, fin.batch)

      -- If no tracked connection is in the end state before a packet, then none is after it.
      -- Conditions: `runPkt` returns, the functions work through the interface by at most `g`
      -- calls each, the identifier returns no reserved key, the index is one of the batch, and
      -- the batch is small enough not to overflow.
      pub run_pkt-Live : Live s → Live t
      run_pkt-Live live k v = go (run_pkt-Outcome env g wb known cur s t lt room b h)
        where
          go :
              Outcome env g wb cur es s t
              → (st : State) → tracked env t k ≡ some st
              → st.state ≢ t.sm.end_state_id
          go (unidentified q at_q e d) st' here = rw d.sm (
              live k v st'
                (ap (λ (m : Machine K F TM). env.table.find k m.state_table) (sym d.sm) ∙ here))
          go (unwanted q id at_q e f d) st' here = rw d.sm (
              live k v st'
                (ap (λ (m : Machine K F TM). env.table.find k m.state_table) (sym d.sm) ∙ here))
          go (handled q id st u w at_q e f un (fn, i, l, r, fin)) st' here =
              elim (Bool-cases (env.keys.same k id)) [
                | inl it ↦ rw fin.only.end_state_id (
                    fin.alive st' (ap (tracked env t) (sym ((env.keys.same_iff k id).0 it)) ∙ here))
                | inr it ↦
                    let ne : k ≢ id = λ kid. cc ((env.keys.same_iff k id).1 kid) in
                    let (t1, _) = fin.only.others k v ne in
                    let (t2, _) = un.others k v ne in
                    rw (fin.only.end_state_id, un.end_state_id)
                      (live k v st' (sym (t1 ∙ t2) ∙ here))
              ]
