-- ===== src/Machine/Sample.antt =====
-- A small program on the framework, for the tests: packets are numbers, those from 100 on belong
-- to the connection that their last digit names.
use moon_state.Prelude.{
  ℕ, ◌+◌, ◌%◌, ◌≤◌, ◌≡◌, refl, sym, ap, ◌∙◌, true, false, Option, none, some, List, [], ◌∷◌, arith,
  ltb, ◌==◌, if◌then◌else◌, ==_iff,
}
use mathlib.Core.Option
use moon_state.Fault.{Result, ok, ◌>>=◌, ok-injective, >>=-eq-ok}
use moon_state.BufArray.{Ptr, BufArray}
use moon_state.BufArray.Entries.{Holds}
use moon_state.Machine.Table.{Keys, Table}
use moon_state.Machine.Types.{
  State, Timeout, TimeoutData, Timers, Iface, Machine, Sys, Env, timeout_id_invalid,
}
use moon_state.Machine.Iface.{
  free_pkt, get_pkt, transition, transition_now, frees, gets, transitions, transitions_now, Uses,
  here, next,
}
use moon_state.Machine.Uses.{WellBehaved}

abbrev pub number_keys : Keys ℕ
number_keys = record { same = λ a b. a == b; same_iff = ==_iff }

abbrev pub Map : Type 0
Map = ℕ → Option State

abbrev pub map_table : Table number_keys State Map
map_table = record {
  usable = λ k. true;
  find = λ k m. m k;
  insert = λ k v m j. if j == k then some (Option.get_or (m k) v) else m j;
  assign = λ k v m j. if j == k then Option.map (λ _. v) (m k) else m j;
  erase = λ k m j. if j == k then none else m j;
  find-insert = λ j k v m a b. refl;
  find-assign = λ j k v m a b. refl;
  find-erase = λ j k m a b. refl;
}

-- The user's functions.
pub data Script : Type 0 where
  greet close ask hop : Script

abbrev pub alloc : Script → ℕ → Ptr × ℕ
alloc f w = (w, w + 1)

abbrev pub run_script : Script → Iface ℕ Script ℕ → Result (Iface ℕ Script ℕ)
run_script greet i = ok (transition 1 i)
run_script close i = ok (transition 2 (free_pkt i))
run_script ask i = do (p, j) ← get_pkt alloc i; ok j
run_script hop i = ok (transition_now 1 i)

abbrev pub identify_number : Ptr → ℕ → Option ℕ
identify_number p w = if ltb p 100 then none else some (p % 10)

abbrev pub sample_env : Env ℕ Script ℕ Map Map
sample_env = record {
  keys = number_keys;
  table = map_table;
  pooled = map_table;
  identify = identify_number;
  run_fun = λ f p i. run_script f i;
  run_timeout = run_script;
  run_start = λ f id w. ok (500, w);
  run_get_pkt = alloc;
}

script-Uses :
    (f : Script) (i j : Iface ℕ Script ℕ)
    → run_script f i ≡ ok j
    → (n : ℕ) × (n ≤ 2) × Uses alloc i n j
script-Uses greet i j h = (1, omega arith, next here (transitions 1 (ok-injective (sym h))))
script-Uses close i j h =
    (2, omega arith, next (next here (frees refl)) (transitions 2 (ok-injective (sym h))))
script-Uses ask i j h =
    let ((p, k), e, r) = >>=-eq-ok (get_pkt alloc i) _ h in
    (
      1,
      omega arith,
      next here (gets p (e ∙ ap (λ (l : Iface ℕ Script ℕ). ok (p, l)) (ok-injective r))),
    )
script-Uses hop i j h = (1, omega arith, next here (transitions_now 1 (ok-injective (sym h))))

pub sample_env-WellBehaved : WellBehaved sample_env 2
sample_env-WellBehaved = record {
  fun_uses = λ f p i j h. script-Uses f i j h;
  timeout_uses = script-Uses;
}

pub identified :
    (p : Ptr) (w : ℕ) (id : ℕ) → identify_number p w ≡ some id → (true ≡ true) × (true ≡ true)
identified p w id h = (refl, refl)

-- Three packets: two of connections, and one that is not identified.
abbrev pub sample_bufs : BufArray
sample_bufs = record {
  pkts = some 103 ∷ some 104 ∷ some 7 ∷ [];
  send_mask = true ∷ true ∷ true ∷ [];
  num_bufs = 3;
  num_slots = 3;
  from_lua = false;
}

pub sample_bufs-Holds : Holds sample_bufs ((103, true) ∷ (104, true) ∷ (7, true) ∷ [])
sample_bufs-Holds = record {
  spare = 0;
  cells = refl;
  mask = refl;
  bufs = refl;
  slots = refl;
  used = omega arith;
  small = omega arith;
}

abbrev pub no_timers : Timers ℕ Script
no_timers = record {
  cur_timeout_id = 0;
  timeouts_q = [];
  timeout_functions = [];
  clock = λ n. n + 10;
  reads = 0;
}

-- Connection 4 is tracked, in the state 1; connection 3 is new.
abbrev pub open_state : State
open_state = record { state_data = 600; state = 1; timeout_id = timeout_id_invalid }

abbrev pub sample_sm : Machine ℕ Script Map
sample_sm = record {
  state_table = λ k. if k == 4 then some open_state else none;
  functions = some greet ∷ some close ∷ some ask ∷ some hop ∷ [];
  start_state_id = 0;
  start_state_fun = some greet;
  end_state_id = 2;
  get_pkt_cb = some greet;
  listen_to_connections = true;
  timers = no_timers;
  stat_states_added = 1;
  stat_states_closed = 0;
}

abbrev pub Sample : Type 0
Sample = Sys ℕ Script ℕ Map Map

abbrev pub sample : Sample
sample = record {
  sm = sample_sm;
  pool = λ k. if k == 5 then some open_state else none;
  bufs = sample_bufs;
  world = 1000;
}

-- One timeout that is due and one that is not.
abbrev pub due : Timeout
due = record { time = 5; timeout_id = 0 }

abbrev pub later : Timeout
later = record { time = 50; timeout_id = 1 }

abbrev pub data_of : ℕ → TimeoutData ℕ Script
data_of id = record { id = id; fun = close }

abbrev pub timed : List Timeout → Sample
timed q = record sample {
  sm = record sample_sm {
    timers = record {
      cur_timeout_id = 2;
      timeouts_q = q;
      timeout_functions = (0, data_of 4) ∷ (1, data_of 4) ∷ [];
      clock = λ n. n + 10;
      reads = 0;
    };
  };
}
