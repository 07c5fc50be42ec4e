-- ===== src/Machine/Returns.antt =====
-- `runPkt` on a packet of a connection that is tracked, when nothing goes wrong in user code.
use moon_state.Prelude.{
  ℕ, ◌+◌, ◌%◌, ◌^◌, ◌<◌, ◌≡◌, ◌≢◌, refl, ap, ◌∙◌, inl, inr, true, false, none, some, List, arith,
  ◌==◌, if◌then◌else◌, if_true, if_false, Bool-cases, length,
}
use moon_state.Fault.{ok}
use moon_state.BufArray.{Ptr, BufArray}
use moon_state.BufArray.Entries.{Entry, Holds, decide_at, mark-Holds}
use moon_state.Machine.Types.{State, Timers, Iface, Sys, Env}
use moon_state.Machine.Finish.{
  Only, find-write_back, write_back-Only, drop_conn-none, drop_conn-Only,
}
use moon_state.Machine.Lookup.{same_self, tracked, Usable, find_state-hit}
use moon_state.Machine.Timeouts.{with_timers}
use moon_state.Machine.Packet.{cancel_timeout-state}
use moon_state.Machine.Run.{
  packet_at, lookup_fun, cancel_timeout, make_iface, mark_pkt, destroy, removes, write_back,
  drop_conn, count_closed, finish, dispatch, run_pkt,
}
use moon_state.Machine.Cancel.{Cancelled, cancel_timeout-Cancelled}

module _ {K F W TM PM : Type 0} (env : Env K F W TM PM) where
  mark_pkt-returns :
      (cur : ℕ) (i : Iface K F W) {es : List Entry}
      → cur < length es
      → Holds i.bufs es
      → (b : BufArray) × (mark_pkt env cur i ≡ ok (record i { bufs = b }))
        × Holds b (decide_at es cur i.send_pkt)
  unfolding mark_pkt
  mark_pkt-returns cur i lt h =
      let (b, e, held) = mark-Holds cur i.send_pkt h lt in (b, ground (arith, e), held)

  -- What `finish` does when the function asked for no immediate transition.
  finish-returns :
      (cur : ℕ) (i : Iface K F W) (s : Sys K F W TM PM) {es : List Entry}
      → cur < length es
      → Holds i.bufs es
      → i.immediate_transition ≡ false
      → (b : BufArray) × Holds b (decide_at es cur i.send_pkt)
        × (finish env true cur i s
            ≡ ok (
                if i.state.state == s.sm.end_state_id
                then count_closed env
                    (drop_conn env i.conn_id (write_back env (record i { bufs = b }) s))
                else write_back env (record i { bufs = b }) s))
  unfolding finish destroy removes
  finish-returns cur i s lt h late =
      let (b, e, held) = mark_pkt-returns cur i lt h in (b, held, ground (arith, e, late))

  -- What is left of the connection `id` after its function, which returned `i`.
  pub record Settled (id : K) (cur : ℕ) (es : List Entry) (i : Iface K F W) (s t : Sys K F W TM PM)
      : Type 0 where
    pub batch : Holds t.bufs (decide_at es cur i.send_pkt)
    pub world : t.world ≡ i.world
    pub timers : t.sm.timers ≡ i.timers
    pub pool : t.pool ≡ s.pool
    pub only : Only env id s t
    pub ended :
        i.state.state ≡ s.sm.end_state_id
        → (tracked env t id ≡ none)
          × (t.sm.stat_states_closed ≡ (s.sm.stat_states_closed + 1) % 2 ^ 64)
    pub stays :
        i.state.state ≢ s.sm.end_state_id
        → (tracked env t id ≡ some i.state) × (t.sm.stat_states_closed ≡ s.sm.stat_states_closed)

  module _ (id : K) (u : Usable env id) (cur : ℕ) (es : List Entry) (i j : Iface K F W)
      (s : Sys K F W TM PM) (same : j.conn_id ≡ id) (st : State) (here : tracked env s id ≡ some st)
      (held : Holds j.bufs (decide_at es cur i.send_pkt)) (world_same : j.world ≡ i.world)
      (timers_same : j.timers ≡ i.timers) (state_same : j.state ≡ i.state) where
    written_state : tracked env (write_back env j s) id ≡ some i.state
    written_state =
        find-write_back env id u j same s id u
        ∙ if_true _ _ _ (same_self env.keys id)
        ∙ rw (here, state_same) refl

    closed-Settled :
        i.state.state ≡ s.sm.end_state_id
        → Settled id cur es i s (count_closed env (drop_conn env j.conn_id (write_back env j s)))
    unfolding count_closed drop_conn write_back
    closed-Settled e =
        let only = drop_conn-Only env id u j same s in
        record {
          batch = held;
          world = world_same;
          timers = timers_same;
          pool = refl;
          only = record {
            functions = only.functions;
            end_state_id = only.end_state_id;
            listens = only.listens;
            others = only.others;
          };
          ended = λ _. (drop_conn-none env id u j same s, refl);
          stays = λ ne. absurd (ne e);
        }

    kept-Settled : i.state.state ≢ s.sm.end_state_id → Settled id cur es i s (write_back env j s)
    unfolding write_back
    kept-Settled ne = record {
      batch = held;
      world = world_same;
      timers = timers_same;
      pool = refl;
      only = write_back-Only env id u j same s;
      ended = λ e. absurd (ne e);
      stays = λ _. (written_state, refl);
    }

  -- What the timers are does not matter to `Settled`.
  retimed-Settled :
      (id : K) (cur : ℕ) (es : List Entry) (i : Iface K F W) (s t : Sys K F W TM PM)
      (q : Timers K F)
      → Settled id cur es i (with_timers q s) t
      → Settled id cur es i s t
  unfolding with_timers
  retimed-Settled id cur es i s t q x = record {
    batch = x.batch;
    world = x.world;
    timers = x.timers;
    pool = x.pool;
    only = record {
      functions = x.only.functions;
      end_state_id = x.only.end_state_id;
      listens = x.only.listens;
      others = x.only.others;
    };
    ended = x.ended;
    stays = x.stays;
  }

  -- For a packet of a tracked connection whose state has a function, `runPkt` returns, provided
  -- that the function returns and asks for no immediate transition. The function is called with
  -- the connection's timeout cancelled: its state names no timeout, the timeout's entry is gone,
  -- and every other entry and the queue are as before. After it the packet has the function's
  -- decision; if the connection is now in the end state, then the table does not find it any more
  -- and the count of closed connections is one higher (modulo 2^64), and otherwise the table
  -- finds it with the state as the function left it and the count is as before; memory and
  -- timeouts are as the function left them, and no other connection, in the table or in the pool,
  -- nor the registered functions have changed. Conditions: the connection's key is not reserved,
  -- the index is one of the batch, and the function leaves the interface's connection as it is
  -- and a well-formed array.
  pub run_pkt-returns :
      (cur : ℕ) (s : Sys K F W TM PM) (p : Ptr) (id : K) (st : State) (f : F) (i : Iface K F W)
      {es : List Entry}
      → Usable env id
      → packet_at cur s.bufs ≡ ok p
      → env.identify p s.world ≡ some id
      → tracked env s id ≡ some st
      → lookup_fun st.state s.sm.functions ≡ ok f
      → (let (st', q) = cancel_timeout st s.sm.timers in
          env.run_fun f p (make_iface env id st' (with_timers q s)) ≡ ok i)
      → i.conn_id ≡ id
      → i.immediate_transition ≡ false
      → Holds i.bufs es
      → cur < length es
      → Cancelled st s.sm.timers (cancel_timeout st s.sm.timers).0 (cancel_timeout st s.sm.timers).1
        × (t : Sys K F W TM PM) × (run_pkt env cur s ≡ ok t)
        × Settled id cur es i s t
  unfolding run_pkt dispatch with_timers
  run_pkt-returns cur s p id st f i {es} u at_cur e here has ran same late held lt =
      let q : Timers K F = (cancel_timeout st s.sm.timers).1 in
      let s' : Sys K F W TM PM = with_timers q s in
      let (b, h, fin) = finish-returns cur i s' lt held late in
      let has' : lookup_fun (cancel_timeout st s.sm.timers).0.state s.sm.functions ≡ ok f =
        ap (λ n. lookup_fun n s.sm.functions) (cancel_timeout-state st s.sm.timers) ∙ has in
      let dispatched : dispatch env cur p id st s ≡ finish env true cur i s' =
        rw (has', ran) refl in
      let ran_on : run_pkt env cur s ≡ dispatch env cur p id st s =
        rw (at_cur, e, find_state-hit env 1 id s st here) refl in
      let cancelled = cancel_timeout-Cancelled st s.sm.timers in
      elim (Bool-cases (i.state.state == s.sm.end_state_id)) [
        | inl z ↦ (
          cancelled,
          count_closed env (drop_conn env i.conn_id (write_back env (record i { bufs = b }) s')),
          ran_on ∙ dispatched ∙ fin ∙ ap ok (if_true _ _ _ z),
          retimed-Settled id cur es i s _ q (
              closed-Settled id u cur es i (record i { bufs = b }) s' same st here h refl refl refl
                (ground (arith, z))),
        )
        | inr z ↦ (
          cancelled,
          write_back env (record i { bufs = b }) s',
          ran_on ∙ dispatched ∙ fin ∙ ap ok (if_false _ _ _ z),
          retimed-Settled id cur es i s _ q (
              kept-Settled id u cur es i (record i { bufs = b }) s' same st here h refl refl refl
                (ground (arith, z))),
        )
      ]
