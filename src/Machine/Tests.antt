-- ===== src/Machine/Tests.antt =====
-- Runs of the framework on the sample program, and the theorems at work on them.
use moon_state.Prelude.{
  ℕ, ◌≡◌, ◌≢◌, ◌≤◌, refl, true, false, none, some, List, [], ◌∷◌, ◌++◌, Perm, length, arith,
}
use moon_state.Fault.{Result, ok, err}
use moon_state.BufArray.{
  Ptr, index, mark_drop, mark_send, get_total_count, get_send_bufs, get_free_bufs,
}
use moon_state.BufArray.Entries.{Entry}
use moon_state.BufArray.Copy.{as_cells}
use moon_state.Machine.Types.{State, Iface, new_state, timeout_id_invalid}
use moon_state.Machine.Iface.{free_pkt, get_pkt, transition, transition_now, set_state_id}
use moon_state.Machine.Find.{pool_add, find_state, find_and_erase, insert_state, accept, start_data}
use moon_state.Machine.Run.{
  packet_at, lookup_fun, cancel_timeout, make_iface, absorb, write_back, remove_state, drop_conn,
  count_closed, mark_pkt, destroy, removes, finish, dispatch, drop_pkt, run_pkt, add_state,
}
use moon_state.Machine.Timeouts.{extract, top, run_timeouts, run_pkts, run_pkt_batch, with_timers}
use moon_state.Machine.Lookup.{tracked, waiting, adopt}
use moon_state.Machine.Outcome.{Outcome, run_pkt-Outcome}
use moon_state.Machine.Batch.{Live, run_pkt_isolated, run_pkt-Live}
use moon_state.Machine.Batches.{run_pkt_batch-conserves}
use moon_state.Machine.Cancel.{Cancelled}
use moon_state.Machine.Returns.{Settled, run_pkt-returns}
use moon_state.Machine.Handover.{add_state-found}
use moon_state.Machine.Sample.{
  Script, greet, close, Sample, sample, sample_sm, no_timers, open_state, run_script,
  identify_number, sample_env, sample_env-WellBehaved, sample_bufs, sample_bufs-Holds, identified,
}

value_or : {A : Type 0} → A → Result A → A
value_or a (ok b) = b
value_or a (err f) = a

-- The machine after the first packet, which opens the connection 3.
after_first : Sample
after_first = value_or sample (run_pkt sample_env 0 sample)

first_runs : run_pkt sample_env 0 sample ≡ ok after_first
unfolding packet_at lookup_fun cancel_timeout make_iface absorb write_back remove_state drop_conn
    count_closed mark_pkt destroy removes finish dispatch drop_pkt run_pkt add_state pool_add index
    mark_drop mark_send find_state find_and_erase insert_state accept start_data new_state free_pkt
    get_pkt transition transition_now set_state_id run_timeouts run_pkts run_pkt_batch
    get_total_count extract top value_or after_first
first_runs = refl

abbrev entries : List Entry
entries = (103, true) ∷ (104, true) ∷ (7, true) ∷ []

run_pkt-Outcome_example : Outcome sample_env 2 sample_env-WellBehaved 0 entries sample after_first
run_pkt-Outcome_example =
    run_pkt-Outcome sample_env 2 sample_env-WellBehaved identified 0 sample after_first
      (omega arith) (omega arith) sample_bufs-Holds first_runs

three_four : identify_number 103 1000 ≢ some 4
three_four e = ground arith

run_pkt_isolated_example :
    (tracked sample_env after_first 4 ≡ tracked sample_env sample 4)
    × (waiting sample_env after_first 4 ≡ waiting sample_env sample 4)
unfolding packet_at lookup_fun cancel_timeout make_iface absorb write_back remove_state drop_conn
    count_closed mark_pkt destroy removes finish dispatch drop_pkt run_pkt add_state pool_add index
    mark_drop mark_send find_state find_and_erase insert_state accept start_data new_state free_pkt
    get_pkt transition transition_now set_state_id run_timeouts run_pkts run_pkt_batch
    get_total_count extract top
run_pkt_isolated_example =
    run_pkt_isolated sample_env 2 sample_env-WellBehaved identified 0 sample after_first
      (omega arith) (omega arith) sample_bufs-Holds first_runs 103 refl 4 (refl, refl) three_four

sample-Live : Live sample_env 2 sample_env-WellBehaved sample
sample-Live k u st e = ground arith

abbrev greeted : State
greeted = record { state_data = 500; state = 1; timeout_id = timeout_id_invalid }

first_tracks : tracked sample_env after_first 3 ≡ some greeted
unfolding packet_at lookup_fun cancel_timeout make_iface absorb write_back remove_state drop_conn
    count_closed mark_pkt destroy removes finish dispatch drop_pkt run_pkt add_state pool_add index
    mark_drop mark_send find_state find_and_erase insert_state accept start_data new_state free_pkt
    get_pkt transition transition_now set_state_id run_timeouts run_pkts run_pkt_batch
    get_total_count extract top after_first value_or
first_tracks = refl

run_pkt-Live_example : greeted.state ≢ after_first.sm.end_state_id
run_pkt-Live_example =
    run_pkt-Live sample_env 2 sample_env-WellBehaved identified 0 sample after_first (omega arith)
      (omega arith) sample_bufs-Holds first_runs sample-Live 3 (refl, refl) greeted first_tracks

after_batch : Sample
after_batch = value_or sample (run_pkt_batch sample_env sample)

batch_runs : run_pkt_batch sample_env sample ≡ ok after_batch
unfolding packet_at lookup_fun cancel_timeout make_iface absorb write_back remove_state drop_conn
    count_closed mark_pkt destroy removes finish dispatch drop_pkt run_pkt add_state pool_add index
    mark_drop mark_send find_state find_and_erase insert_state accept start_data new_state free_pkt
    get_pkt transition transition_now set_state_id run_timeouts run_pkts run_pkt_batch
    get_total_count extract top value_or after_batch
batch_runs = refl

-- The packet of the new connection is greeted; the other two are dropped.
batch_decides : after_batch.bufs.send_mask ≡ true ∷ false ∷ false ∷ []
unfolding packet_at lookup_fun cancel_timeout make_iface absorb write_back remove_state drop_conn
    count_closed mark_pkt destroy removes finish dispatch drop_pkt run_pkt add_state pool_add index
    mark_drop mark_send find_state find_and_erase insert_state accept start_data new_state free_pkt
    get_pkt transition transition_now set_state_id run_timeouts run_pkts run_pkt_batch
    get_total_count extract top value_or after_batch
batch_decides = refl

run_pkt_batch-conserves_example :
    (send free extra : List Ptr) × (get_send_bufs after_batch.bufs ≡ ok (as_cells send))
    × (get_free_bufs after_batch.bufs ≡ ok (as_cells free))
    × Perm (send ++ free) (103 ∷ 104 ∷ 7 ∷ extra)
    × (length extra ≤ 12)
run_pkt_batch-conserves_example =
    run_pkt_batch-conserves sample_env 2 sample_env-WellBehaved identified sample after_batch
      (omega arith) sample_bufs-Holds batch_runs

-- What the function of the state 1 leaves: the connection 4 at its end.
abbrev closed_iface : Iface ℕ Script ℕ
closed_iface = record {
  conn_id = 4;
  state = record { state_data = 600; state = 2; timeout_id = timeout_id_invalid };
  bufs = sample_bufs;
  send_pkt = false;
  immediate_transition = false;
  get_pkt_cb = some greet;
  timers = no_timers;
  world = 1000;
}

run_pkt-returns_example :
    Cancelled open_state sample.sm.timers
      (cancel_timeout open_state sample.sm.timers).0
      (cancel_timeout open_state sample.sm.timers).1
    × (t : Sample) × (run_pkt sample_env 1 sample ≡ ok t)
    × Settled sample_env 4 1 entries closed_iface sample t
unfolding packet_at lookup_fun cancel_timeout make_iface index free_pkt transition set_state_id
    with_timers
run_pkt-returns_example =
    run_pkt-returns sample_env 1 sample 104 4 open_state close closed_iface (refl, refl) refl refl
      refl refl refl refl refl sample_bufs-Holds (omega arith)

after_open : Sample
after_open = value_or sample (add_state sample_env 9 (new_state 0 700) sample)

opens : add_state sample_env 9 (new_state 0 700) sample ≡ ok after_open
unfolding packet_at lookup_fun cancel_timeout make_iface absorb write_back remove_state drop_conn
    count_closed mark_pkt destroy removes finish dispatch drop_pkt run_pkt add_state pool_add index
    mark_drop mark_send find_state find_and_erase insert_state accept start_data new_state free_pkt
    get_pkt transition transition_now set_state_id run_timeouts run_pkts run_pkt_batch
    get_total_count extract top value_or after_open
opens = refl

add_state-found_example :
    (f : Script) × (p : Ptr) × (i : Iface ℕ Script ℕ) × (lookup_fun 0 sample_sm.functions ≡ ok f)
    × (packet_at 0 sample_bufs ≡ ok p)
    × (run_script f (make_iface sample_env 9 (new_state 0 700) sample) ≡ ok i)
    × (i.state.state ≡ 2 → waiting sample_env after_open 9 ≡ none)
    × (i.state.state ≢ 2
        → find_state sample_env 2 9 after_open
          ≡ ok (some i.state, adopt sample_env 9 i.state after_open))
unfolding new_state
add_state-found_example =
    add_state-found sample_env 9 (refl, refl) sample refl (new_state 0 700) after_open refl opens
