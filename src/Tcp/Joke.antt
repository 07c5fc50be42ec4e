-- ===== src/Tcp/Joke.antt =====
-- src/tcpJoke.cpp: the server that echoes.
use moon_state.Prelude.{ℕ, Option, some, List}
use moon_state.Fault.{Result, err, assert_failed}
use moon_state.BufArray.{Ptr, BufArray}
use moon_state.Ident.{ConnectionId, identify}
use moon_state.Ident.Keys.{ident_keys}
use moon_state.Machine.Table.{Table}
use moon_state.Machine.Types.{State, Iface, Machine, Sys, Env}
use moon_state.Machine.Run.{
  new_machine, register_function, register_end_state_id, register_start_state_id,
  register_get_pkt_cb,
}
use moon_state.Machine.Timeouts.{run_pkt_batch}
use moon_state.Hello.Heap.{Heap, World}
use moon_state.Hello.Api.{Counted, with_packets, copy_both}
use moon_state.Tcp.Data.{Connection, ConCtl, Proto}
use moon_state.Tcp.ConCtl.{Simple}
use moon_state.Tcp.Handlers.{syn_ack, est, ack_fin, end, factory, run_syn_ack, run_est, run_ack_fin}

-- The functions that are registered; `alloc_fun` is the callback that takes a buffer from the pool.
pub data JokeFun : Type 0 where
  factory_fun syn_ack_fun est_fun ack_fin_fun alloc_fun : JokeFun

module _ {P H TM PM : Type 0} (ctl : ConCtl Simple) (protocol : Proto P)
    (heap : Heap (Connection Simple P) H) (data_at : Ptr → ℕ) (table : Table ident_keys State TM)
    (pooled : Table ident_keys State PM) (alloc : JokeFun → World H → Ptr × World H) where
  run_joke_fun :
      JokeFun
      → Ptr
      → Iface ConnectionId JokeFun (World H)
      → Result (Iface ConnectionId JokeFun (World H))
  run_joke_fun factory_fun p i = err assert_failed
  run_joke_fun syn_ack_fun p i = run_syn_ack ctl protocol heap data_at alloc p i
  run_joke_fun est_fun p i = run_est ctl protocol heap data_at alloc p i
  run_joke_fun ack_fin_fun p i = run_ack_fin ctl protocol heap data_at alloc p i
  run_joke_fun alloc_fun p i = err assert_failed

  -- The types of the source keep the start function and the callback apart from the others.
  joke_env : Env ConnectionId JokeFun (World H) TM PM
  unfolding run_joke_fun
  joke_env = record {
    keys = ident_keys;
    table = table;
    pooled = pooled;
    identify = λ p w. identify w.mem (data_at p);
    run_fun = run_joke_fun;
    run_timeout = λ f i. err assert_failed;
    run_start = λ f id w. factory ctl protocol heap data_at w;
    run_get_pkt = alloc;
  }

  -- `TCP_Server_Joke_process`
  pub joke_process :
      List Ptr
      → Sys ConnectionId JokeFun (World H) TM PM
      → Result (Counted (Sys ConnectionId JokeFun (World H) TM PM))
  unfolding joke_env with_packets
  joke_process ps s = with_packets (run_pkt_batch joke_env) ps s

-- `TCP_Server_Joke_init`
pub joke_init : {TM : Type 0} → TM → (ℕ → ℕ) → Machine ConnectionId JokeFun TM
unfolding new_machine register_function register_end_state_id register_start_state_id
    register_get_pkt_cb
joke_init empty clock =
    let obj0 = new_machine empty clock in
    let obj1 = register_get_pkt_cb (some alloc_fun) obj0 in
    let obj2 = register_end_state_id end obj1 in
    let obj3 = register_start_state_id syn_ack (some factory_fun) obj2 in
    let obj4 = register_function syn_ack syn_ack_fun obj3 in
    let obj5 = register_function est est_fun obj4 in register_function ack_fin ack_fin_fun obj5

-- `TCP_Server_Joke_getPkts`
pub joke_get_pkts : BufArray → Result (List (Option Ptr) × List (Option Ptr))
unfolding copy_both
joke_get_pkts b = copy_both b
