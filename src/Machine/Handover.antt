-- ===== src/Machine/Handover.antt =====
-- `addState`: how an opened connection gets into the pool, and from there into a machine's table.
use moon_state.Prelude.{
  ℕ, ◌≡◌, ◌≢◌, sym, ap, ◌∙◌, inl, inr, Bool, true, false, none, some, arith, ◌==◌, if◌then◌else◌,
  Bool-cases, ==_iff, if_true, if_false,
}
use moon_state.Fault.{ok, >>=-eq-ok, ok-injective}
use moon_state.BufArray.{Ptr}
use moon_state.Machine.Types.{State, Iface, Sys, Env}
use moon_state.Machine.Find.{pool_add, find_state}
use moon_state.Machine.Lookup.{
  same_self, tracked, waiting, Usable, adopt, find_state-adopt, find_state-hit,
}
use moon_state.Machine.Moves.{adopt-Found}
use moon_state.Machine.Run.{
  packet_at, lookup_fun, make_iface, destroy, removes, absorb, remove_state, drop_conn, add_state,
}

module _ {K F W TM PM : Type 0} (env : Env K F W TM PM) where
  open env use {keys, table, pooled}

  -- The pool that `addState` leaves behind when the function ended with the interface object `i`.
  pooled_by : K → Iface K F W → Sys K F W TM PM → Sys K F W TM PM
  pooled_by id i s =
      if i.state.state == s.sm.end_state_id
      then s
      else record s { pool = pool_add env id i.state s.pool }

  module _ (id : K) (u : Usable env id) (s : Sys K F W TM PM) (new : tracked env s id ≡ none) where
    -- The end of `addState` leaves the pool alone and puts nothing into the table.
    settled :
        (c : Bool) (i j : Iface K F W)
        → (let t =
              if c
              then drop_conn env id (absorb env j (pooled_by id i s))
              else absorb env j (pooled_by id i s) in
            (tracked env t id ≡ none) × (waiting env t id ≡ waiting env (pooled_by id i s) id))
    unfolding pooled_by absorb drop_conn remove_state
    settled true i j = elim (Bool-cases (i.state.state == s.sm.end_state_id)) [
      | inl e ↦ (
        ground (arith, table.find-erase id id s.sm.state_table u.0 u.0, same_self keys id),
        ground arith,
      )
      | inr e ↦ (
        ground (arith, table.find-erase id id s.sm.state_table u.0 u.0, same_self keys id),
        ground arith,
      )
    ]
    settled false i j = elim (Bool-cases (i.state.state == s.sm.end_state_id)) [
      | inl e ↦ (ground (arith, new), ground arith)
      | inr e ↦ (ground (arith, new), ground arith)
    ]

    waiting-pooled_by :
        (i : Iface K F W)
        → waiting env s id ≡ none
        → waiting env (pooled_by id i s) id
          ≡ (if i.state.state == s.sm.end_state_id then none else some i.state)
    unfolding pooled_by pool_add
    waiting-pooled_by i w = elim (Bool-cases (i.state.state == s.sm.end_state_id)) [
      | inl e ↦ ground (arith, w)
      | inr e ↦
          ground (arith, w, pooled.find-insert id id i.state s.pool u.1 u.1, same_self keys id)
    ]

    -- When `addState` returns for a new key, it has run the function of the given state; if the
    -- function brought the connection to the end state, then the connection is not in the pool,
    -- and otherwise the next search for the key finds it, in the state in which that function
    -- left it, and moves it from the pool into the table. Conditions: the key is not reserved,
    -- and neither table has it.
    pub add_state-found :
        (st : State) (t : Sys K F W TM PM)
        → waiting env s id ≡ none
        → add_state env id st s ≡ ok t
        → (f : F) × (p : Ptr) × (i : Iface K F W) × (lookup_fun st.state s.sm.functions ≡ ok f)
          × (packet_at 0 s.bufs ≡ ok p)
          × (env.run_fun f p (make_iface env id st s) ≡ ok i)
          × (i.state.state ≡ s.sm.end_state_id → waiting env t id ≡ none)
          × (i.state.state ≢ s.sm.end_state_id
              → find_state env 2 id t ≡ ok (some i.state, adopt env id i.state t))
    unfolding add_state pooled_by
    add_state-found st t w h =
        let (f, l, h1) = >>=-eq-ok (lookup_fun st.state s.sm.functions) _ h in
        let (p, at_0, h2) = >>=-eq-ok (packet_at 0 s.bufs) _ h1 in
        let (i, ran, h3) = >>=-eq-ok (env.run_fun f p (make_iface env id st s)) _ h2 in
        let (j, d, h4) = >>=-eq-ok (destroy env 0 s.sm.functions i) _ h3 in
        let e = ok-injective h4 in
        let (t1, t2) = settled (removes env i j s.sm) i j in
        let gone : tracked env t id ≡ none =
          sym (ap (λ (z : Sys K F W TM PM). tracked env z id) e) ∙ t1 in
        let held : waiting env t id
            ≡ (if i.state.state == s.sm.end_state_id then none else some i.state) =
          sym (ap (λ (z : Sys K F W TM PM). waiting env z id) e) ∙ t2 ∙ waiting-pooled_by i w in
        (
          f,
          p,
          i,
          l,
          at_0,
          ran,
          λ ends. held ∙ if_true _ _ _ ((==_iff _ _).1 ends),
          λ goes.
              found_pooled t i.state gone
                (held ∙ if_false _ _ _ (different i.state.state s.sm.end_state_id goes)),
        )
      where
        different : (m n : ℕ) → m ≢ n → (m == n) ≡ false
        different m n ne = elim (Bool-cases (m == n)) [
          | inl q ↦ absurd (ne ((==_iff m n).0 q))
          | inr q ↦ q
        ]

        found_pooled :
            (t : Sys K F W TM PM) (r : State)
            → tracked env t id ≡ none
            → waiting env t id ≡ some r
            → find_state env 2 id t ≡ ok (some r, adopt env id r t)
        found_pooled t r gone held =
            find_state-adopt env 1 id t r gone held
            ∙ find_state-hit env 0 id (adopt env id r t) r (adopt-Found env id t r u gone).0
