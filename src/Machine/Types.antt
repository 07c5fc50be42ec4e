-- ===== src/Machine/Types.antt =====
-- The data of include/stateMachine.hpp.
use moon_state.Prelude.{ℕ, ◌-◌, ◌^◌, Bool, Option, List}
use moon_state.Fault.{Result}
use moon_state.BufArray.{Ptr, BufArray}
use moon_state.Machine.Table.{Keys, Table}

-- `timeoutIDInvalid`, the largest `uint32_t`.
abbrev pub timeout_id_invalid : ℕ
timeout_id_invalid = 2 ^ 32 - 1

-- `StateIDInvalid`, the largest `uint16_t`.
abbrev pub state_id_invalid : ℕ
state_id_invalid = 2 ^ 16 - 1

-- `struct State`: one connection. The user's data is behind a pointer.
pub record State : Type 0 where
  pub state_data : Ptr
  pub state : ℕ
  pub timeout_id : ℕ

-- `State()`
pub default_state : State
default_state = record { state_data = 0; state = state_id_invalid; timeout_id = timeout_id_invalid }

-- `State(StateID, void *)`
unfoldable pub new_state : ℕ → Ptr → State
new_state id d = record { state_data = d; state = id; timeout_id = timeout_id_invalid }

-- `struct Timeout`; a time point of the steady clock is a number.
pub record Timeout : Type 0 where
  pub time : ℕ
  pub timeout_id : ℕ

-- `struct TimeoutData`
pub record TimeoutData (K F : Type 0) : Type 0 where
  pub id : K
  pub fun : F

-- The timeout members of `StateMachine`. `timeoutsQ` is a priority queue, so the order of the
-- list means nothing. `clock n` is the result of the reading `n` of the steady clock.
pub record Timers (K F : Type 0) : Type 0 where
  pub cur_timeout_id : ℕ
  pub timeouts_q : List Timeout
  pub timeout_functions : List (ℕ × TimeoutData K F)
  pub clock : ℕ → ℕ
  pub reads : ℕ

-- `class FunIface`, and what a state function can reach through it. `F` is the type of the
-- function objects that the user registers, `W` all the memory that only the user's code sees.
pub record Iface (K F W : Type 0) : Type 0 where
  pub conn_id : K
  pub state : State
  pub bufs : BufArray
  pub send_pkt : Bool
  pub immediate_transition : Bool
  pub get_pkt_cb : Option F
  pub timers : Timers K F
  pub world : W

-- The members of `StateMachine`. The value of a `std::function` that is not set is `none`.
pub record Machine (K F TM : Type 0) : Type 0 where
  pub state_table : TM
  pub functions : List (Option F)
  pub start_state_id : ℕ
  pub start_state_fun : Option F
  pub end_state_id : ℕ
  pub get_pkt_cb : Option F
  pub listen_to_connections : Bool
  pub timers : Timers K F
  pub stat_states_added : ℕ
  pub stat_states_closed : ℕ

-- A state machine with what it works on: the connection pool that `connPool` points to, the
-- current batch of packets, and the user's memory.
pub record Sys (K F W TM PM : Type 0) : Type 0 where
  pub sm : Machine K F TM
  pub pool : PM
  pub bufs : BufArray
  pub world : W

-- What the framework is given: the hash tables, `Identifier::identify` (`none` if it throws
-- `PacketNotIdentified`), and the meaning of the registered function objects.
pub record Env (K F W TM PM : Type 0) : Type 0 where
  pub keys : Keys K
  pub table : Table keys State TM
  pub pooled : Table keys State PM
  pub identify : Ptr → W → Option K
  pub run_fun : F → Ptr → Iface K F W → Result (Iface K F W)
  pub run_timeout : F → Iface K F W → Result (Iface K F W)
  pub run_start : F → K → W → Result (Ptr × W)
  pub run_get_pkt : F → W → Ptr × W
