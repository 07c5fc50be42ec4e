-- ===== src/Machine/Lookup.antt =====
-- What `findState` does: its loop ends, and it takes a connection from the table, from the pool,
-- or from nowhere.
use moon_state.Prelude.{
  ℕ, suc, ◌≡◌, ◌≢◌, refl, inl, inr, true, false, Option, none, some, arith, Option-cases,
  Bool-cases,
}
use moon_state.Fault.{Result, ok, err, ◌>>=◌}
use moon_state.BufArray.{Ptr}
use moon_state.Machine.Table.{Keys}
use moon_state.Machine.Types.{State, new_state, Machine, Sys, Env}
use moon_state.Machine.Find.{find_and_erase, insert_state, start_data, accept, find_state}

pub same_self : {K : Type 0} (keys : Keys K) (k : K) → keys.same k k ≡ true
same_self keys k = (keys.same_iff k k).1 refl

pub same-ne : {K : Type 0} (keys : Keys K) (j k : K) → j ≢ k → keys.same j k ≡ false
same-ne keys j k ne = elim (Bool-cases (keys.same j k)) [
  | inl e ↦ absurd (ne ((keys.same_iff j k).0 e))
  | inr e ↦ e
]

module _ {K F W TM PM : Type 0} (env : Env K F W TM PM) where
  open env use {keys, table, pooled}

  -- The state of a connection in the machine's own table, and in the pool.
  abbrev pub tracked : Sys K F W TM PM → K → Option State
  tracked s id = table.find id s.sm.state_table

  abbrev pub waiting : Sys K F W TM PM → K → Option State
  waiting s id = pooled.find id s.pool

  -- A key that neither table reserves.
  abbrev pub Usable : K → Type 0
  Usable id = (table.usable id ≡ true) × (pooled.usable id ≡ true)

  -- A connection from the pool, as the machine takes it over.
  unfoldable pub adopt : K → State → Sys K F W TM PM → Sys K F W TM PM
  adopt id st s = record s { sm = insert_state env id st s.sm; pool = pooled.erase id s.pool }

  -- `findState` with no loop.
  unfoldable pub find_once : K → Sys K F W TM PM → Result (Option State × Sys K F W TM PM)
  unfolding adopt
  find_once id s = elim (table.find id s.sm.state_table) [
    | some st ↦ ok (some st, s)
    | none ↦ elim (pooled.find id s.pool) [
      | some st ↦ ok (some st, adopt id st s)
      | none ↦ elim s.sm.listen_to_connections [
        | false ↦ ok (none, s)
        | true ↦ do
          (d, w) ← start_data env id s.sm.start_state_fun s.world
          let st = new_state s.sm.start_state_id d
          ok (some st, record s { sm = insert_state env id st s.sm; world = w })
      ]
    ]
  ]

  -- The rounds of the loop, by what they find.
  module _ (n : ℕ) (id : K) (s : Sys K F W TM PM) where
    pub find_state-hit :
        (st : State) → tracked s id ≡ some st → find_state env (suc n) id s ≡ ok (some st, s)
    unfolding find_state
    find_state-hit st e = ground arith

    pub find_state-adopt :
        (st : State)
        → tracked s id ≡ none
        → waiting s id ≡ some st
        → find_state env (suc n) id s ≡ find_state env n id (adopt id st s)
    unfolding find_state find_and_erase adopt
    find_state-adopt st e p = ground arith

    pub find_state-new :
        tracked s id ≡ none
        → waiting s id ≡ none
        → s.sm.listen_to_connections ≡ true
        → find_state env (suc n) id s ≡ (accept env id s >>= find_state env n id)
    unfolding find_state find_and_erase
    find_state-new e p l = ground arith

    pub find_state-reject :
        tracked s id ≡ none
        → waiting s id ≡ none
        → s.sm.listen_to_connections ≡ false
        → find_state env (suc n) id s ≡ ok (none, s)
    unfolding find_state find_and_erase
    find_state-reject e p l = ground arith

  -- A connection that was just inserted is found.
  find-insert_state :
      (id : K) (st : State) (sm : Machine K F TM)
      → table.usable id ≡ true
      → table.find id sm.state_table ≡ none
      → table.find id (insert_state env id st sm).state_table ≡ some st
  unfolding insert_state
  find-insert_state id st sm u e =
      rw (table.find-insert id id st sm.state_table u u, same_self keys id, e)

  accept-once :
      (n : ℕ) (id : K) (s : Sys K F W TM PM) (r : Result (Ptr × W))
      → table.usable id ≡ true
      → tracked s id ≡ none
      → start_data env id s.sm.start_state_fun s.world ≡ r
      → (accept env id s >>= find_state env (suc n) id) ≡ (do
        (d, w) ← r
        let st = new_state s.sm.start_state_id d
        ok (some st, record s { sm = insert_state env id st s.sm; world = w }))
  unfolding accept
  accept-once n id s (ok (d, w)) u e q =
      rw (q, accept)
        (find_state-hit n id _ _ (find-insert_state id (new_state s.sm.start_state_id d) s.sm u e))
  accept-once n id s (err f) u e q = rw (q, accept)

  -- With two rounds or more, the loop of `findState` does what a search without a loop does: look
  -- in the table, then in the pool, then accept if the machine listens. Condition: the table does
  -- not reserve the key.
  pub find_state-once :
      (n : ℕ) (id : K) (s : Sys K F W TM PM)
      → table.usable id ≡ true
      → find_state env (suc (suc n)) id s ≡ find_once id s
  unfolding find_once
  find_state-once n id s u = elim (Option-cases (table.find id s.sm.state_table)) [
    | inr (st, e) ↦ ground (arith, find_state-hit (suc n) id s st e)
    | inl e ↦ elim (Option-cases (pooled.find id s.pool)) [
      | inr (st, p) ↦ ground (
        arith,
        find_state-adopt (suc n) id s st e p,
        find_state-hit n id (adopt id st s) st (found_adopted st e),
      )
      | inl p ↦ ground (
        arith,
        find_state-new (suc n) id s e p,
        accept-once n id s _ u e refl,
        find_state-reject (suc n) id s e p,
      )
    ]
  ]
    where
      found_adopted : (st : State) → tracked s id ≡ none → tracked (adopt id st s) id ≡ some st
      found_adopted st e = unfold adopt in find-insert_state id st s.sm u e
