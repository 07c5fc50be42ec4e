-- ===== src/Machine/Timeouts.antt =====
-- The timeout queue and `runPktBatch`.
use moon_state.Prelude.{
  ℕ, zero, suc, ◌+◌, ◌-◌, true, false, Option, none, some, List, [], ◌∷◌, ltb, if◌then◌else◌,
  length,
}
use moon_state.Fault.{Result, ok, err, ◌>>=◌, assert_failed, no_fuel}
use moon_state.BufArray.{u32_mod, get_total_count}
use moon_state.Machine.Types.{State, Timeout, TimeoutData, Timers, Sys, Env, timeout_id_invalid}
use moon_state.Machine.Iface.{find_id, erase_id}
use moon_state.Machine.Find.{find_state}
use moon_state.Machine.Run.{make_iface, finish, run_pkt}

-- `top()` and `pop()` of the priority queue under `Timeout::Compare`, which calls an element the
-- smaller one if its time is earlier: the top is an element that none is later than. Which of
-- several the library would take is left to the order of the list.
unfoldable pub extract : List Timeout → Option (Timeout × List Timeout)
extract [] = none
extract (t ∷ q) = elim (extract q) [
  | none ↦ some (t, [])
  | some (u, r) ↦ if ltb t.time u.time then some (u, t ∷ r) else some (t, u ∷ r)
]

unfoldable pub top : List Timeout → Option Timeout
unfolding extract
top q = elim (extract q) [ none ↦ none | some (t, r) ↦ some t ]

unfoldable pub pop : List Timeout → List Timeout
unfolding extract
pop q = elim (extract q) [ none ↦ [] | some (t, r) ↦ r ]

module _ {K F : Type 0} where
  -- A reading of the steady clock.
  unfoldable pub read_clock : Timers K F → ℕ × Timers K F
  read_clock t = (t.clock t.reads, record t { reads = t.reads + 1 })

  unfoldable pub pop_timeout : Timers K F → Timers K F
  unfolding pop
  pop_timeout t = record t { timeouts_q = pop t.timeouts_q }

  -- "Clean up", after the function of the timeout `n` has run.
  unfoldable pub retire : ℕ → Timers K F → Timers K F
  unfolding pop_timeout
  retire n t = record (pop_timeout t) { timeout_functions = erase_id n t.timeout_functions }

unfoldable pub clear_timeout_id : State → State
clear_timeout_id st = record st { timeout_id = timeout_id_invalid }

unfoldable pub with_timers : {K F W TM PM : Type 0} → Timers K F → Sys K F W TM PM → Sys K F W TM PM
with_timers t s = record s { sm = record (s.sm) { timers = t } }

module _ {K F W TM PM : Type 0} (env : Env K F W TM PM) where
  open env use {run_timeout}

  -- The part of the loop for a timeout that is due and valid. The interface object is made for
  -- the packet index `std::numeric_limits<uint32_t>::max()`.
  unfoldable pub fire : ℕ → TimeoutData K F → Sys K F W TM PM → Result (Sys K F W TM PM)
  unfolding clear_timeout_id
  fire n td s = do
    (found, s') ← find_state env 2 td.id s
    elim found [
      | none ↦ err assert_failed
      | some st ↦ do
        i ← run_timeout td.fun (make_iface env td.id (clear_timeout_id st) s')
        finish env false (u32_mod - 1) (record i { timers = retire n i.timers }) s'
    ]

  -- The `while` loop of `runPktBatch`.
  unfoldable pub run_timeouts : ℕ → Sys K F W TM PM → Result (Sys K F W TM PM)
  unfolding with_timers
  run_timeouts zero s = err no_fuel
  run_timeouts (suc n) s = elim (top s.sm.timers.timeouts_q) [
    | none ↦ ok s
    | some t ↦
        let (now, timers) = read_clock s.sm.timers in
        elim (ltb now t.time) [
          | true ↦ ok (with_timers timers s)
          | false ↦ elim (find_id t.timeout_id timers.timeout_functions) [
            | none ↦ run_timeouts n (with_timers (pop_timeout timers) s)
            | some td ↦ fire t.timeout_id td (with_timers timers s) >>= run_timeouts n
          ]
        ]
  ]

  -- The `for` loop of `runPktBatch`, with `n` packets to go.
  unfoldable pub run_pkts : ℕ → ℕ → Sys K F W TM PM → Result (Sys K F W TM PM)
  run_pkts zero cur s = ok s
  run_pkts (suc n) cur s = run_pkt env cur s >>= run_pkts n (cur + 1)

  -- `runPktBatch`. The fuel is one round for each timeout and one for the empty queue.
  unfoldable pub run_pkt_batch : Sys K F W TM PM → Result (Sys K F W TM PM)
  unfolding run_timeouts run_pkts
  run_pkt_batch s = do
    let in_count = get_total_count s.bufs
    s' ← run_timeouts (suc (length s.sm.timers.timeouts_q)) s
    run_pkts in_count 0 s'
