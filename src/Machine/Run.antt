-- ===== src/Machine/Run.antt =====
-- `registerFunction` and its like, `runPkt`, `addState`, `removeState` and the destructor of
-- `FunIface`, which runs the function of an immediate transition.
use moon_state.Prelude.{
  ℕ, ◌+◌, ◌-◌, ◌%◌, Bool, true, false, Option, none, some, List, ltb, leb, ◌==◌, if◌then◌else◌,
  length, set, resize,
}
use moon_state.Fault.{
  Result, ok, err, ◌>>=◌, ◌>>◌, assert, at, assert_failed, out_of_range, dangling,
}
use moon_state.BufArray.{Ptr, BufArray, mark_drop, mark_send, index}
use moon_state.Machine.Types.{
  State, Timers, Iface, Machine, Sys, Env, timeout_id_invalid, state_id_invalid,
}
use moon_state.Machine.Iface.{erase_id}
use moon_state.Machine.Find.{u64_mod, find_state, pool_add}

-- `pktsIn[cur]`; a cell that was never written holds no packet.
unfoldable pub packet_at : ℕ → BufArray → Result Ptr
packet_at cur b = do c ← index b cur; elim c [ none ↦ err out_of_range | some p ↦ ok p ]

-- The lookup in the function table, with both of its assertions. `functions.size() - 1` is a
-- `size_t`, so that the first holds of an empty table.
unfoldable pub lookup_fun : {F : Type 0} → ℕ → List (Option F) → Result F
lookup_fun n fs = do
  assert (leb n ((length fs + u64_mod - 1) % u64_mod))
  f ← at fs n
  elim f [ none ↦ err assert_failed | some g ↦ ok g ]

module _ {K F TM : Type 0} where
  -- `registerFunction`: the comparison of the two `int`s is that of `size()` with `id + 1`.
  unfoldable pub register_function : ℕ → F → Machine K F TM → Machine K F TM
  register_function id f sm =
      let fs =
        if ltb (length sm.functions) (id + 1)
        then resize (id + 1) none sm.functions
        else sm.functions in
      record sm { functions = set fs id (some f) }

  unfoldable pub register_end_state_id : ℕ → Machine K F TM → Machine K F TM
  register_end_state_id n sm = record sm { end_state_id = n }

  unfoldable pub register_start_state_id : ℕ → Option F → Machine K F TM → Machine K F TM
  register_start_state_id n f sm = record sm {
    start_state_id = n;
    start_state_fun = f;
    listen_to_connections = true;
  }

  unfoldable pub register_get_pkt_cb : Option F → Machine K F TM → Machine K F TM
  register_get_pkt_cb f sm = record sm { get_pkt_cb = f }

  -- `StateMachine()`, over an empty table and a clock that was not read.
  unfoldable pub new_machine : TM → (ℕ → ℕ) → Machine K F TM
  new_machine empty clock = record {
    state_table = empty;
    functions = List.[];
    start_state_id = 0;
    start_state_fun = none;
    end_state_id = state_id_invalid;
    get_pkt_cb = none;
    listen_to_connections = false;
    timers = record {
      cur_timeout_id = 0;
      timeouts_q = List.[];
      timeout_functions = List.[];
      clock = clock;
      reads = 0;
    };
    stat_states_added = 0;
    stat_states_closed = 0;
  }

module _ {K F : Type 0} where
  -- "Invalidate any previous timeouts": the entry is erased and the state's ID reset.
  unfoldable pub cancel_timeout : State → Timers K F → State × Timers K F
  cancel_timeout st t = if st.timeout_id == timeout_id_invalid then (st, t) else (
    record { state_data = st.state_data; state = st.state; timeout_id = timeout_id_invalid },
    record t { timeout_functions = erase_id st.timeout_id t.timeout_functions },
  )

module _ {K F W TM PM : Type 0} (env : Env K F W TM PM) where
  open env use {table, identify, run_fun}

  -- `setConnectionPool`
  pub set_connection_pool : PM → Sys K F W TM PM → Sys K F W TM PM
  set_connection_pool pool s = record s { pool = pool }

  -- `removeState`
  unfoldable pub remove_state : K → Machine K F TM → Machine K F TM
  remove_state id sm = record sm { state_table = table.erase id sm.state_table }

  -- The constructor of `FunIface`.
  unfoldable pub make_iface : K → State → Sys K F W TM PM → Iface K F W
  make_iface id st s = record {
    conn_id = id;
    state = st;
    bufs = s.bufs;
    send_pkt = true;
    immediate_transition = false;
    get_pkt_cb = s.sm.get_pkt_cb;
    timers = s.sm.timers;
    world = s.world;
  }

  -- What a function did to the batch, the timeouts and the user's memory. The state is a
  -- reference into the table in `write_back`, and a local variable of the caller in `absorb`.
  unfoldable pub absorb : Iface K F W → Sys K F W TM PM → Sys K F W TM PM
  absorb i s = record s { sm = record (s.sm) { timers = i.timers }; bufs = i.bufs; world = i.world }

  unfoldable pub write_back : Iface K F W → Sys K F W TM PM → Sys K F W TM PM
  unfolding absorb
  write_back i s =
      let t = absorb i s in
      record t {
        sm = record (t.sm) { state_table = table.assign i.conn_id i.state t.sm.state_table };
      }

  unfoldable pub drop_conn : K → Sys K F W TM PM → Sys K F W TM PM
  unfolding remove_state
  drop_conn id s = record s { sm = remove_state id s.sm }

  unfoldable pub count_closed : Sys K F W TM PM → Sys K F W TM PM
  count_closed s = record s {
    sm = record (s.sm) { stat_states_closed = (s.sm.stat_states_closed + 1) % u64_mod };
  }

  -- The first half of `~FunIface`: the decision about the packet.
  unfoldable pub mark_pkt : ℕ → Iface K F W → Result (Iface K F W)
  mark_pkt cur i = do
    b ← (if i.send_pkt then mark_send cur i.bufs else mark_drop cur i.bufs)
    ok (record i { bufs = b })

  -- `~FunIface` without the removal at its end.
  unfoldable pub destroy : ℕ → List (Option F) → Iface K F W → Result (Iface K F W)
  unfolding mark_pkt
  destroy cur fs i = do
    j ← mark_pkt cur i
    if j.immediate_transition
        then (do f ← lookup_fun j.state.state fs; p ← packet_at cur j.bufs; run_fun f p j)
        else ok j

  -- Whether the destructor removes the connection.
  unfoldable pub removes : Iface K F W → Iface K F W → Machine K F TM → Bool
  removes i j sm = if i.immediate_transition then j.state.state == sm.end_state_id else false

  -- The end of `runPkt`, for a state that lives in the table: the check for the end state, and
  -- then the destructor, whose reference is dead if the connection was removed. `counts` is
  -- `stat_statesClosed++`, which the handling of a timeout leaves out.
  unfoldable pub finish : Bool → ℕ → Iface K F W → Sys K F W TM PM → Result (Sys K F W TM PM)
  unfolding destroy removes write_back drop_conn count_closed
  finish counts cur i s =
      if i.state.state == s.sm.end_state_id
      then (do
        j ← mark_pkt cur i
        if j.immediate_transition
            then err dangling
            else (let closed = drop_conn j.conn_id (write_back j s) in
                ok (if counts then count_closed closed else closed)))
      else (do
        j ← destroy cur s.sm.functions i
        ok (if removes i j s.sm then drop_conn j.conn_id (write_back j s) else write_back j s))

  -- `runPkt` for a packet of a connection that was found.
  unfoldable pub dispatch : ℕ → Ptr → K → State → Sys K F W TM PM → Result (Sys K F W TM PM)
  unfolding finish make_iface
  dispatch cur pkt id st s = do
    let (st', t) = cancel_timeout st s.sm.timers
    let s' = record s { sm = record (s.sm) { timers = t } }
    f ← lookup_fun st'.state s'.sm.functions
    i ← run_fun f pkt (make_iface id st' s')
    finish true cur i s'

  unfoldable pub drop_pkt : ℕ → Sys K F W TM PM → Result (Sys K F W TM PM)
  drop_pkt cur s = do b ← mark_drop cur s.bufs; ok (record s { bufs = b })

  -- `runPkt`
  unfoldable pub run_pkt : ℕ → Sys K F W TM PM → Result (Sys K F W TM PM)
  unfolding drop_pkt
  run_pkt cur s = do
    pkt ← packet_at cur s.bufs
    elim (identify pkt s.world) [
      | none ↦ drop_pkt cur s
      | some id ↦ do
        (found, s') ← find_state env 2 id s
        elim found [ none ↦ drop_pkt cur s' | some st ↦ dispatch cur pkt id st s' ]
    ]

  -- `addState`. `st` is a local variable, and the pool receives a copy of it before the
  -- destructor runs.
  unfoldable pub add_state : K → State → Sys K F W TM PM → Result (Sys K F W TM PM)
  unfolding destroy removes absorb drop_conn make_iface
  add_state id st s = do
    f ← lookup_fun st.state s.sm.functions
    p ← packet_at 0 s.bufs
    i ← run_fun f p (make_iface id st s)
    let s' =
        (if i.state.state == s.sm.end_state_id
          then s
          else record s { pool = pool_add env id i.state s.pool })
    j ← destroy 0 s.sm.functions i
    ok (if removes i j s.sm then drop_conn id (absorb j s') else absorb j s')

  -- `addStateNoFun`
  unfoldable pub add_state_no_fun : K → State → Sys K F W TM PM → Sys K F W TM PM
  add_state_no_fun id st s =
      if st.state == s.sm.end_state_id then s else record s { pool = pool_add env id st s.pool }
