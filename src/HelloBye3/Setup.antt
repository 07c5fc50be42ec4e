-- ===== src/HelloBye3/Setup.antt =====
-- The C interface: how a server and a client are set up, and how packets get in and out.
use moon_state.Prelude.{ℕ, Option, some, List}
use moon_state.Fault.{Result, err, ◌>>=◌, assert_failed}
use moon_state.BufArray.{Ptr, BufArray}
use moon_state.Machine.Table.{Table}
use moon_state.Machine.Types.{State, Iface, Machine, Sys, Env}
use moon_state.Machine.Run.{
  new_machine, register_function, register_end_state_id, register_start_state_id, add_state,
}
use moon_state.Machine.Timeouts.{run_pkt_batch}
use moon_state.Hello.Heap.{Heap, World}
use moon_state.Hello.Packet.{identify}
use moon_state.Hello.Api.{ident_keys, seed, Counted, with_packets, copy_both}
use moon_state.HelloBye3.Server.{Cookies}
use moon_state.HelloBye3.Server
use moon_state.HelloBye3.Client.{Client, create_hello}
use moon_state.HelloBye3.Client

-- The functions that the server registers.
pub data ServerFun : Type 0 where
  factory_fun hello_fun bye_fun : ServerFun

-- The functions that the client registers.
pub data ClientFun : Type 0 where
  client_hello_fun client_bye_fun client_recv_bye_fun : ClientFun

module _ {H : Type 0} (data_at : Ptr → ℕ) {TM PM : Type 0} (table : Table ident_keys State TM)
    (pooled : Table ident_keys State PM) where
  unfoldable pub identify_pkt : Ptr → World H → Option ℕ
  identify_pkt p w = identify w.mem (data_at p)

  module _ (heap : Heap Cookies H) where
    -- The types of the source keep the three kinds of functions apart.
    unfoldable pub run_server_fun :
        {K F : Type 0} → ServerFun → Ptr → Iface K F (World H) → Result (Iface K F (World H))
    run_server_fun factory_fun p i = err assert_failed
    run_server_fun hello_fun p i = Server.run_hello heap data_at p i
    run_server_fun bye_fun p i = Server.run_bye heap data_at p i

    unfoldable pub run_server_start : ServerFun → ℕ → World H → Result (Ptr × World H)
    run_server_start factory_fun id w = Server.factory heap data_at w
    run_server_start hello_fun id w = err assert_failed
    run_server_start bye_fun id w = err assert_failed

    -- `StateMachine<Identifier<mbuf>, mbuf>` with the server's functions. None of them sets a
    -- timeout or asks for a packet.
    abbrev pub server_env : Env ℕ ServerFun (World H) TM PM
    server_env = record {
      keys = ident_keys;
      table = table;
      pooled = pooled;
      identify = identify_pkt;
      run_fun = run_server_fun;
      run_timeout = λ f i. err assert_failed;
      run_start = run_server_start;
      run_get_pkt = λ f w. (0, w);
    }

    -- `HelloBye3_Server_process`
    unfoldable pub server_process :
        List Ptr
        → Sys ℕ ServerFun (World H) TM PM
        → Result (Counted (Sys ℕ ServerFun (World H) TM PM))
    unfolding with_packets
    server_process ps s = with_packets (run_pkt_batch server_env) ps s

  -- `HelloBye3_Server_init`
  unfoldable pub server_init : TM → (ℕ → ℕ) → (ℕ → ℕ) → World H → Machine ℕ ServerFun TM × World H
  unfolding register_function register_end_state_id register_start_state_id new_machine seed
  server_init empty clock numbers w =
      let obj0 = new_machine empty clock in
      let obj1 = register_end_state_id Server.terminate obj0 in
      let obj2 = register_start_state_id Server.hello (some factory_fun) obj1 in
      let obj3 = register_function Server.hello hello_fun obj2 in
      let obj4 = register_function Server.bye bye_fun obj3 in (obj4, seed numbers w)

  module _ (heap : Heap Client H) where
    unfoldable pub run_client_fun :
        {K F : Type 0} → ClientFun → Ptr → Iface K F (World H) → Result (Iface K F (World H))
    run_client_fun client_hello_fun p i = Client.run_hello heap data_at p i
    run_client_fun client_bye_fun p i = Client.run_bye heap data_at p i
    run_client_fun client_recv_bye_fun p i = Client.run_recv_bye heap data_at p i

    -- The client's state machine, which takes no connections from outside.
    abbrev pub client_env : Env ℕ ClientFun (World H) TM PM
    client_env = record {
      keys = ident_keys;
      table = table;
      pooled = pooled;
      identify = identify_pkt;
      run_fun = run_client_fun;
      run_timeout = λ f i. err assert_failed;
      run_start = λ f id w. err assert_failed;
      run_get_pkt = λ f w. (0, w);
    }

    -- `HelloBye3_Client_process`
    unfoldable pub client_process :
        List Ptr
        → Sys ℕ ClientFun (World H) TM PM
        → Result (Counted (Sys ℕ ClientFun (World H) TM PM))
    unfolding with_packets
    client_process ps s = with_packets (run_pkt_batch client_env) ps s

    -- `HelloBye3_Client_connect`
    unfoldable pub client_connect :
        List Ptr
        → ℕ
        → ℕ
        → ℕ
        → ℕ
        → ℕ
        → Sys ℕ ClientFun (World H) TM PM
        → Result (Counted (Sys ℕ ClientFun (World H) TM PM))
    unfolding with_packets
    client_connect ps src dst src_port dst_port ident s =
        with_packets
          (λ (t : Sys ℕ ClientFun (World H) TM PM). do
            (st, w) ← create_hello heap data_at src dst src_port dst_port ident t.world
            add_state client_env ident st (record t { world = w }))
          ps s

  -- `HelloBye3_Client_init`
  unfoldable pub client_init : TM → (ℕ → ℕ) → (ℕ → ℕ) → World H → Machine ℕ ClientFun TM × World H
  unfolding register_function register_end_state_id new_machine seed
  client_init empty clock numbers w =
      let obj0 = new_machine empty clock in
      let obj1 = register_end_state_id Client.terminate obj0 in
      let obj2 = register_function Client.hello client_hello_fun obj1 in
      let obj3 = register_function Client.bye client_bye_fun obj2 in
      let obj4 = register_function Client.recv_bye client_recv_bye_fun obj3 in
      (obj4, seed numbers w)

-- `HelloBye3_Server_getPkts`
pub server_get_pkts : BufArray → Result (List (Option Ptr) × List (Option Ptr))
unfolding copy_both
server_get_pkts b = copy_both b

-- `HelloBye3_Client_getPkts`
pub client_get_pkts : BufArray → Result (List (Option Ptr) × List (Option Ptr))
unfolding copy_both
client_get_pkts b = copy_both b
