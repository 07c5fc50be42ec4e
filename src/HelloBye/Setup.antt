-- ===== src/HelloBye/Setup.antt =====
-- src/helloBye_C.cpp: the C interface. Nothing in it seeds the numbers that `rand` returns.
use moon_state.Prelude.{ℕ, Option, some, List}
use moon_state.Prelude.Int.{ℤ}
use moon_state.Fault.{Result, err, ◌>>=◌, assert_failed}
use moon_state.BufArray.{Ptr, BufArray}
use moon_state.Headers.Bytes.{swap16, swap32}
use moon_state.Headers.Ipv4
use moon_state.Ident.{ConnectionId, identify}
use moon_state.Ident.Keys.{ident_keys}
use moon_state.Machine.Table.{Table}
use moon_state.Machine.Types.{State, new_state, Iface, Machine, Sys, Env}
use moon_state.Machine.Run.{
  new_machine, register_function, register_end_state_id, register_start_state_id, add_state,
}
use moon_state.Machine.Timeouts.{run_pkt_batch}
use moon_state.Hello.Heap.{Heap, World}
use moon_state.Hello.Api.{Counted, with_packets, copy_both}
use moon_state.HelloBye.Objects.{Object}
use moon_state.HelloBye.Server
use moon_state.HelloBye.Client.{Config, create_instance, configured, new_hello}
use moon_state.HelloBye.Client

-- The functions that server and client register.
pub data ServerFun : Type 0 where
  start_fun hello_run bye_run : ServerFun

pub data ClientFun : Type 0 where
  client_hello_run client_bye_run client_recv_bye_run : ClientFun

-- `HelloByeClient_config`, with `setSrcIP` and `setDstPort`.
unfoldable pub client_config : ℕ → ℕ → Option Config → Result (Option Config)
unfolding create_instance
client_config src_ip dst_port instance_of = do
  config ← configured (create_instance instance_of)
  Result.ok (some (record config { src_ip = src_ip; dst_port = dst_port }))

-- The identifier of `HelloByeClient_connect`: that of the packets which the server will send.
unfoldable pub connection_id : Config → ℕ → ℕ → ConnectionId
connection_id config dst_ip src_port = record {
  dst_ip = swap32 config.src_ip;
  src_ip = swap32 dst_ip;
  dst_port = swap16 src_port;
  src_port = swap16 config.dst_port;
  proto = Ipv4.proto_udp;
}

module _ {H : Type 0} (heap : Heap Object H) (data_at : Ptr → ℕ) (unset : ℤ) {TM PM : Type 0}
    (table : Table ident_keys State TM) (pooled : Table ident_keys State PM) where
  -- The types of the source keep the start function apart from the others.
  unfoldable pub run_server_fun :
      {K F : Type 0} → ServerFun → Ptr → Iface K F (World H) → Result (Iface K F (World H))
  run_server_fun start_fun p i = err assert_failed
  run_server_fun hello_run p i = Server.run_hello heap data_at p i
  run_server_fun bye_run p i = Server.run_bye heap data_at p i

  -- `StateMachine<IPv4_5TupleL2Ident<mbuf>, mbuf>` with the server's functions.
  abbrev pub server_env : Env ConnectionId ServerFun (World H) TM PM
  server_env = record {
    keys = ident_keys;
    table = table;
    pooled = pooled;
    identify = λ p w. identify w.mem (data_at p);
    run_fun = run_server_fun;
    run_timeout = λ f i. err assert_failed;
    run_start = λ f id w. Server.factory heap data_at unset w;
    run_get_pkt = λ f w. (0, w);
  }

  unfoldable pub run_client_fun :
      {K F : Type 0}
      → Option Config
      → ClientFun
      → Ptr
      → Iface K F (World H)
      → Result (Iface K F (World H))
  run_client_fun instance_of client_hello_run p i = Client.run_hello heap data_at instance_of p i
  run_client_fun instance_of client_bye_run p i = Client.run_bye heap data_at p i
  run_client_fun instance_of client_recv_bye_run p i = Client.run_recv_bye heap data_at p i

  -- The client's state machine, which takes no connections from outside.
  abbrev pub client_env : Option Config → Env ConnectionId ClientFun (World H) TM PM
  client_env instance_of = record {
    keys = ident_keys;
    table = table;
    pooled = pooled;
    identify = λ p w. identify w.mem (data_at p);
    run_fun = run_client_fun instance_of;
    run_timeout = λ f i. err assert_failed;
    run_start = λ f id w. err assert_failed;
    run_get_pkt = λ f w. (0, w);
  }

  -- `HelloByeServer_process`
  unfoldable pub server_process :
      List Ptr
      → Sys ConnectionId ServerFun (World H) TM PM
      → Result (Counted (Sys ConnectionId ServerFun (World H) TM PM))
  unfolding with_packets
  server_process ps s = with_packets (run_pkt_batch server_env) ps s

  -- `HelloByeClient_process`
  unfoldable pub client_process :
      Option Config
      → List Ptr
      → Sys ConnectionId ClientFun (World H) TM PM
      → Result (Counted (Sys ConnectionId ClientFun (World H) TM PM))
  unfolding with_packets
  client_process instance_of ps s = with_packets (run_pkt_batch (client_env instance_of)) ps s

  -- `HelloByeClient_connect`
  unfoldable pub client_connect :
      Option Config
      → List Ptr
      → ℕ
      → ℕ
      → Sys ConnectionId ClientFun (World H) TM PM
      → Result (Counted (Sys ConnectionId ClientFun (World H) TM PM))
  unfolding with_packets connection_id
  client_connect instance_of ps dst_ip src_port s =
      with_packets
        (λ (t : Sys ConnectionId ClientFun (World H) TM PM). do
          config ← configured instance_of
          (p, w) ← new_hello heap data_at dst_ip src_port t.world
          add_state (client_env instance_of) (connection_id config dst_ip src_port)
              (new_state Client.hello p) (record t { world = w }))
        ps s

module _ {TM : Type 0} where
  -- `HelloByeServer_init`
  unfoldable pub server_init : TM → (ℕ → ℕ) → Machine ConnectionId ServerFun TM
  unfolding register_function register_end_state_id register_start_state_id new_machine
  server_init empty clock =
      let obj0 = new_machine empty clock in
      let obj1 = register_end_state_id Server.terminate obj0 in
      let obj2 = register_start_state_id Server.hello (some start_fun) obj1 in
      let obj3 = register_function Server.hello hello_run obj2 in
      register_function Server.bye bye_run obj3

  -- `HelloByeClient_init`
  unfoldable pub client_init : TM → (ℕ → ℕ) → Machine ConnectionId ClientFun TM
  unfolding register_function register_end_state_id new_machine
  client_init empty clock =
      let obj0 = new_machine empty clock in
      let obj1 = register_end_state_id Client.terminate obj0 in
      let obj2 = register_function Client.hello client_hello_run obj1 in
      let obj3 = register_function Client.bye client_bye_run obj2 in
      register_function Client.recv_bye client_recv_bye_run obj3

-- `HelloByeServer_getPkts` and `HelloByeClient_getPkts`
unfoldable pub get_pkts : BufArray → Result (List (Option Ptr) × List (Option Ptr))
unfolding copy_both
get_pkts b = copy_both b
