-- ===== src/Machine/Moves.antt =====
-- Where a connection is before and after `findState`.
use moon_state.Prelude.{
  ◌≡◌, ◌≢◌, refl, sym, ◌∙◌, inl, inr, true, false, Option, none, some, arith, Option-cases,
  Bool-cases,
}
use moon_state.Fault.{Fault, ok, err, Result-cases}
use moon_state.BufArray.{Ptr}
use moon_state.Machine.Types.{State, new_state, Sys, Env}
use moon_state.Machine.Find.{insert_state, start_data, find_state}
use moon_state.Machine.Lookup.{
  same_self, same-ne, tracked, waiting, Usable, adopt, find_once, find_state-once,
}

module _ {K F W TM PM : Type 0} (env : Env K F W TM PM) where
  open env use {keys, table, pooled}

  -- What the search for `id` leaves alone.
  pub record Untouched (id : K) (s t : Sys K F W TM PM) : Type 0 where
    pub bufs : t.bufs ≡ s.bufs
    pub timers : t.sm.timers ≡ s.sm.timers
    pub functions : t.sm.functions ≡ s.sm.functions
    pub end_state_id : t.sm.end_state_id ≡ s.sm.end_state_id
    pub closed : t.sm.stat_states_closed ≡ s.sm.stat_states_closed
    pub others :
        (j : K)
        → Usable env j
        → j ≢ id
        → (tracked env t j ≡ tracked env s j) × (waiting env t j ≡ waiting env s j)

  abbrev Found : K → Sys K F W TM PM → Option State → Sys K F W TM PM → Type 0
  Found id s r t =
      (tracked env t id ≡ r)
      × (tracked env s id ≡ none → waiting env t id ≡ none)
      × Untouched id s t

  -- A connection in the pool moves into the table.
  pub adopt-Found :
      (id : K) (s : Sys K F W TM PM) (st : State)
      → Usable env id
      → tracked env s id ≡ none
      → Found id s (some st) (adopt env id st s)
  unfolding adopt insert_state
  adopt-Found id s st u e = (
    ground (arith, table.find-insert id id st s.sm.state_table u.0 u.0, same_self keys id),
    λ _. ground (arith, pooled.find-erase id id s.pool u.1 u.1, same_self keys id),
    record {
      bufs = refl;
      timers = refl;
      functions = refl;
      end_state_id = refl;
      closed = refl;
      others = λ j uj ne. (
        ground (arith, table.find-insert j id st s.sm.state_table uj.0 u.0, same-ne keys j id ne),
        ground (arith, pooled.find-erase j id s.pool uj.1 u.1, same-ne keys j id ne),
      );
    },
  )

  new-Found :
      (id : K) (s : Sys K F W TM PM) (st : State) (w : W)
      → Usable env id
      → tracked env s id ≡ none
      → waiting env s id ≡ none
      → Found id s (some st) (record s { sm = insert_state env id st s.sm; world = w })
  unfolding insert_state
  new-Found id s st w u e p = (
    ground (arith, table.find-insert id id st s.sm.state_table u.0 u.0, same_self keys id),
    λ _. p,
    record {
      bufs = refl;
      timers = refl;
      functions = refl;
      end_state_id = refl;
      closed = refl;
      others = λ j uj ne. (
        ground (arith, table.find-insert j id st s.sm.state_table uj.0 u.0, same-ne keys j id ne),
        refl,
      );
    },
  )

  same-Found :
      (id : K) (s : Sys K F W TM PM) (r : Option State)
      → tracked env s id ≡ r
      → (tracked env s id ≡ none → waiting env s id ≡ none)
      → Found id s r s
  same-Found id s r e p = (
    e,
    p,
    record {
      bufs = refl;
      timers = refl;
      functions = refl;
      end_state_id = refl;
      closed = refl;
      others = λ j uj ne. (refl, refl);
    },
  )

  -- The four ways in which the search for `id` can end.
  pub data Finds (id : K) (s : Sys K F W TM PM) (r : Option State) (t : Sys K F W TM PM)
      : Type 0 where
    hit : (st : State) → tracked env s id ≡ some st → r ≡ some st → t ≡ s → Finds id s r t
    adopted :
        (st : State)
        → tracked env s id ≡ none
        → waiting env s id ≡ some st
        → r ≡ some st
        → t ≡ adopt env id st s
        → Finds id s r t
    accepted :
        (d : Ptr) (w : W)
        → tracked env s id ≡ none
        → waiting env s id ≡ none
        → s.sm.listen_to_connections ≡ true
        → start_data env id s.sm.start_state_fun s.world ≡ ok (d, w)
        → r ≡ some (new_state s.sm.start_state_id d)
        → t
          ≡ record s { sm = insert_state env id (new_state s.sm.start_state_id d) s.sm; world = w }
        → Finds id s r t
    rejected :
        tracked env s id ≡ none
        → waiting env s id ≡ none
        → s.sm.listen_to_connections ≡ false
        → r ≡ none
        → t ≡ s
        → Finds id s r t

  find_once-Finds :
      (id : K) (s t : Sys K F W TM PM) (r : Option State)
      → find_once env id s ≡ ok (r, t)
      → Finds id s r t
  unfolding find_once
  find_once-Finds id s t r h = elim (Option-cases (table.find id s.sm.state_table)) [
    | inr (st, e) ↦ hit st e (ground arith) (ground arith)
    | inl e ↦ elim (Option-cases (pooled.find id s.pool)) [
      | inr (st, p) ↦ adopted st e p (ground arith) (ground arith)
      | inl p ↦ elim (Bool-cases s.sm.listen_to_connections) [
        | inr l ↦ rejected e p l (ground arith) (ground arith)
        | inl l ↦ elim (Result-cases (start_data env id s.sm.start_state_fun s.world)) [
          | inl ((d, w), q) ↦ accepted d w e p l q (ground arith) (ground arith)
          | inr (f, q) ↦ absurd (ground arith)
        ]
      ]
    ]
  ]

  Finds-Found :
      (id : K) (s t : Sys K F W TM PM) (r : Option State)
      → Usable env id
      → Finds id s r t
      → Found id s r t
  Finds-Found id s t r u (hit st e q z) =
      rw (q, z) (same-Found id s (some st) e (λ n. absurd (ground arith)))
  Finds-Found id s t r u (adopted st e p q z) = rw (q, z) (adopt-Found id s st u e)
  Finds-Found id s t r u (accepted d w e p l a q z) = rw (q, z) (new-Found id s _ w u e p)
  Finds-Found id s t r u (rejected e p l q z) = rw (q, z) (same-Found id s none e (λ _. p))

  -- When `findState` returns, its result is the state in the table, one that it moved there from
  -- the pool, a new one, or nothing, each exactly if the ones before do not apply; the machine's
  -- table then holds the result, the pool no longer holds a connection that the table did not,
  -- and no other connection, no timeout and no packet has changed. Condition: the key is not
  -- reserved.
  pub find_state_lem :
      (id : K) (s t : Sys K F W TM PM) (r : Option State)
      → Usable env id
      → find_state env 2 id s ≡ ok (r, t)
      → Finds id s r t
        × (tracked env t id ≡ r)
        × (tracked env s id ≡ none → waiting env t id ≡ none)
        × Untouched id s t
  find_state_lem id s t r u h =
      let f : Finds id s r t =
        find_once-Finds id s t r (sym (find_state-once env 0 id s u.0) ∙ h) in
      let g : Found id s r t = Finds-Found id s t r u f in (f, g.0, g.1, g.2)

  find_once-fault :
      (id : K) (s : Sys K F W TM PM) (f : Fault)
      → find_once env id s ≡ err f
      → (g : F) × (s.sm.start_state_fun ≡ some g) × (env.run_start g id s.world ≡ err f)
  unfolding find_once start_data
  find_once-fault id s f h = elim (Option-cases (table.find id s.sm.state_table)) [
    | inr (st, e) ↦ absurd (ground arith)
    | inl e ↦ elim (Option-cases (pooled.find id s.pool)) [
      | inr (st, p) ↦ absurd (ground arith)
      | inl p ↦ elim (Option-cases s.sm.start_state_fun) [
        | inl q ↦ absurd (ground arith)
        | inr (g, q) ↦ (g, q, ground arith)
      ]
    ]
  ]

  -- `findState` ends within two rounds of its loop: the only fault that it can end in is one of
  -- the user's start function. Condition: the key is not reserved.
  pub find_state_fault :
      (id : K) (s : Sys K F W TM PM) (f : Fault)
      → Usable env id
      → find_state env 2 id s ≡ err f
      → (g : F) × (s.sm.start_state_fun ≡ some g) × (env.run_start g id s.world ≡ err f)
  find_state_fault id s f u h = find_once-fault id s f (sym (find_state-once env 0 id s u.0) ∙ h)
