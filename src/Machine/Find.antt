-- ===== src/Machine/Find.antt =====
-- `ConnectionPool` and `StateMachine::findState`.
use moon_state.Prelude.{ℕ, zero, suc, ◌+◌, ◌%◌, ◌^◌, true, false, Option, none, some}
use moon_state.Fault.{Result, ok, err, ◌>>=◌, no_fuel}
use moon_state.BufArray.{Ptr}
use moon_state.Machine.Types.{State, new_state, Machine, Sys, Env}

abbrev pub u64_mod : ℕ
u64_mod = 2 ^ 64

module _ {K F W TM PM : Type 0} (env : Env K F W TM PM) where
  open env use {table, pooled, run_start}

  -- `ConnectionPool::add`
  unfoldable pub pool_add : K → State → PM → PM
  pool_add id st pool = pooled.insert id st pool

  -- `ConnectionPool::findAndErase`. What it writes through the pointer is its result.
  unfoldable pub find_and_erase : K → PM → Option State × PM
  find_and_erase id pool = elim (pooled.find id pool) [
    | some st ↦ (some st, pooled.erase id pool)
    | none ↦ (none, pool)
  ]

  -- `stateTable.insert({id, st})` and `stat_statesAdded++`, twice in `findState`.
  unfoldable pub insert_state : K → State → Machine K F TM → Machine K F TM
  insert_state id st sm = record sm {
    state_table = table.insert id st sm.state_table;
    stat_states_added = (sm.stat_states_added + 1) % u64_mod;
  }

  -- The user's data of a new connection, `nullptr` where no function is set.
  unfoldable pub start_data : K → Option F → W → Result (Ptr × W)
  start_data id none w = ok (0, w)
  start_data id (some f) w = run_start f id w

  -- The part of `findState` that accepts a new connection.
  unfoldable pub accept : K → Sys K F W TM PM → Result (Sys K F W TM PM)
  unfolding start_data insert_state
  accept id s = do
    (d, w) ← start_data id s.sm.start_state_fun s.world
    ok (record s { sm = insert_state id (new_state s.sm.start_state_id d) s.sm; world = w })

  -- `findState`: what the iterator points to (`none` for `end()`), and the state afterwards. Each
  -- `goto findStateLoop` takes one unit of fuel.
  unfoldable pub find_state : ℕ → K → Sys K F W TM PM → Result (Option State × Sys K F W TM PM)
  find_state zero id s = err no_fuel
  find_state (suc n) id s = elim (table.find id s.sm.state_table) [
    | some st ↦ ok (some st, s)
    | none ↦
        let (found, pool) = find_and_erase id s.pool in
        elim found [
          | some st ↦ find_state n id (record s { sm = insert_state id st s.sm; pool = pool })
          | none ↦ elim s.sm.listen_to_connections [
            | true ↦ accept id (record s { pool = pool }) >>= find_state n id
            | false ↦ ok (none, record s { pool = pool })
          ]
        ]
  ]
