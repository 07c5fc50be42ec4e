-- ===== src/HelloBye2/Setup.antt =====
-- src/helloBye2_C.cpp: the C interface.
use moon_state.Prelude.{ℕ, Option, some, List}
use moon_state.Fault.{Result, err, ◌>>=◌, assert_failed}
use moon_state.BufArray.{Ptr, BufArray}
use moon_state.Machine.Table.{Table}
use moon_state.Machine.Types.{State, new_state, Iface, Machine, Sys, Env}
use moon_state.Machine.Run.{
  new_machine, register_function, register_end_state_id, register_start_state_id, add_state,
}
use moon_state.Machine.Timeouts.{run_pkt_batch}
use moon_state.Hello.Heap.{Heap, World}
use moon_state.Hello.Packet.{identify}
use moon_state.Hello.Api.{ident_keys, seed, Counted, with_packets, copy_both}
use moon_state.HelloBye2.Objects.{Object}
use moon_state.HelloBye2.Server
use moon_state.HelloBye2.Client.{Config, new_hello}
use moon_state.HelloBye2.Client

-- The functions that server and client register.
pub data ServerFun : Type 0 where
  start_fun hello_run bye_run : ServerFun

pub data ClientFun : Type 0 where
  client_hello_run client_bye_run client_recv_bye_run : ClientFun

-- `HelloBye2_Client_config`
unfoldable pub client_config : ℕ → ℕ → Config → Config
client_config src_ip dst_port config = record { src_ip = src_ip; dst_port = dst_port }

module _ {H : Type 0} (heap : Heap Object H) (data_at : Ptr → ℕ) (unset : ℕ) {TM PM : Type 0}
    (table : Table ident_keys State TM) (pooled : Table ident_keys State PM) where
  -- The types of the source keep the start function apart from the others.
  unfoldable pub run_server_fun :
      {K F : Type 0} → ServerFun → Ptr → Iface K F (World H) → Result (Iface K F (World H))
  run_server_fun start_fun p i = err assert_failed
  run_server_fun hello_run p i = Server.run_hello heap data_at p i
  run_server_fun bye_run p i = Server.run_bye heap data_at p i

  -- `StateMachine<Identifier<mbuf>, mbuf>` with the server's functions, which set no timeouts and
  -- ask for no packets.
  abbrev pub server_env : Env ℕ ServerFun (World H) TM PM
  server_env = record {
    keys = ident_keys;
    table = table;
    pooled = pooled;
    identify = λ p w. identify w.mem (data_at p);
    run_fun = run_server_fun;
    run_timeout = λ f i. err assert_failed;
    run_start = λ f id w. Server.factory heap data_at unset w;
    run_get_pkt = λ f w. (0, w);
  }

  unfoldable pub run_client_fun :
      {K F : Type 0} → Config → ClientFun → Ptr → Iface K F (World H) → Result (Iface K F (World H))
  run_client_fun config client_hello_run p i = Client.run_hello heap data_at config unset p i
  run_client_fun config client_bye_run p i = Client.run_bye heap data_at p i
  run_client_fun config client_recv_bye_run p i = Client.run_recv_bye heap data_at p i

  -- The client's state machine, which takes no connections from outside.
  abbrev pub client_env : Config → Env ℕ ClientFun (World H) TM PM
  client_env config = record {
    keys = ident_keys;
    table = table;
    pooled = pooled;
    identify = λ p w. identify w.mem (data_at p);
    run_fun = run_client_fun config;
    run_timeout = λ f i. err assert_failed;
    run_start = λ f id w. err assert_failed;
    run_get_pkt = λ f w. (0, w);
  }

  -- `HelloBye2_Server_process`
  unfoldable pub server_process :
      List Ptr
      → Sys ℕ ServerFun (World H) TM PM
      → Result (Counted (Sys ℕ ServerFun (World H) TM PM))
  unfolding with_packets
  server_process ps s = with_packets (run_pkt_batch server_env) ps s

  -- `HelloBye2_Client_process`
  unfoldable pub client_process :
      Config
      → List Ptr
      → Sys ℕ ClientFun (World H) TM PM
      → Result (Counted (Sys ℕ ClientFun (World H) TM PM))
  unfolding with_packets
  client_process config ps s = with_packets (run_pkt_batch (client_env config)) ps s

  -- `HelloBye2_Client_connect`
  unfoldable pub client_connect :
      Config
      → List Ptr
      → ℕ
      → ℕ
      → ℕ
      → Sys ℕ ClientFun (World H) TM PM
      → Result (Counted (Sys ℕ ClientFun (World H) TM PM))
  unfolding with_packets
  client_connect config ps dst_ip src_port ident s =
      with_packets
        (λ (t : Sys ℕ ClientFun (World H) TM PM). do
          (p, w) ← new_hello heap data_at dst_ip src_port ident t.world
          add_state (client_env config) ident (new_state Client.hello p) (record t { world = w }))
        ps s

module _ {H TM : Type 0} where
  -- `HelloBye2_Server_init`
  unfoldable pub server_init : TM → (ℕ → ℕ) → (ℕ → ℕ) → World H → Machine ℕ ServerFun TM × World H
  unfolding register_function register_end_state_id register_start_state_id new_machine seed
  server_init empty clock numbers w =
      let obj0 = new_machine empty clock in
      let obj1 = register_end_state_id Server.terminate obj0 in
      let obj2 = register_start_state_id Server.hello (some start_fun) obj1 in
      let obj3 = register_function Server.hello hello_run obj2 in
      (register_function Server.bye bye_run obj3, seed numbers w)

  -- `HelloBye2_Client_init`
  unfoldable pub client_init : TM → (ℕ → ℕ) → (ℕ → ℕ) → World H → Machine ℕ ClientFun TM × World H
  unfolding register_function register_end_state_id new_machine seed
  client_init empty clock numbers w =
      let obj0 = new_machine empty clock in
      let obj1 = register_end_state_id Client.terminate obj0 in
      let obj2 = register_function Client.hello client_hello_run obj1 in
      let obj3 = register_function Client.bye client_bye_run obj2 in
      (register_function Client.recv_bye client_recv_bye_run obj3, seed numbers w)

-- `HelloBye2_Server_getPkts` and `HelloBye2_Client_getPkts`
unfoldable pub get_pkts : BufArray → Result (List (Option Ptr) × List (Option Ptr))
unfolding copy_both
get_pkts b = copy_both b
