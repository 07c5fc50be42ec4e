-- ===== src/Dtls/Setup.antt =====
-- The C interfaces of the DTLS protocols, and how they set their state machines up.
use moon_state.Prelude.{ℕ, Option, some, List}
use moon_state.Fault.{Result, ok, err, ◌>>=◌, assert_failed}
use moon_state.BufArray.{Ptr, BufArray}
use moon_state.Headers.Bytes.{swap16, swap32}
use moon_state.Headers.Ipv4
use moon_state.Ident.{ConnectionId, identify}
use moon_state.Ident.Keys.{ident_keys}
use moon_state.Machine.Table.{Table}
use moon_state.Machine.Types.{State, new_state, Iface, Machine, Sys, Env}
use moon_state.Machine.Run.{
  new_machine, register_function, register_end_state_id, register_start_state_id,
  register_get_pkt_cb, add_state,
}
use moon_state.Machine.Timeouts.{run_pkt_batch}
use moon_state.Hello.Api.{Counted, with_packets, copy_both}
use moon_state.Hello.Heap.{Heap, object}
use moon_state.Dtls.Library.{Library}
use moon_state.Dtls.Store.{Store, Ends}
use moon_state.Dtls.Server.{Server}
use moon_state.Dtls.Server
use moon_state.Dtls.Client.{Client}
use moon_state.Dtls.Client
use moon_state.Dtls.Create.{not_null, made, factory, create_state_data}
use moon_state.Dtls.Context.{Contexts, create_server_ctx, create_client_ctx}

-- `Dtls_C_config`, less the state machine: a server's, and a client's with its peer.
pub record Config : Type 0 where
  pub ctx : Option Ptr
  pub mp : Ptr
  pub dst_ip : ℕ
  pub dst_port : ℕ

-- The functions that server and client register.
pub data ServerFun : Type 0 where
  start_fun server_handshake server_send server_teardown server_get_pkt : ServerFun

pub data ClientFun : Type 0 where
  client_init_handshake client_handshake client_send client_teardown client_get_pkt : ClientFun

module _ {TM : Type 0} where
  -- `DTLS_Server::configStateMachine`
  unfoldable pub config_server :
      Machine ConnectionId ServerFun TM → Machine ConnectionId ServerFun TM
  unfolding register_function register_end_state_id register_start_state_id register_get_pkt_cb
  config_server sm0 =
      let sm1 = register_function Server.handshake server_handshake sm0 in
      let sm2 = register_function Server.established server_send sm1 in
      let sm3 = register_function Server.run_teardown_state server_teardown sm2 in
      let sm4 = register_start_state_id Server.handshake (some start_fun) sm3 in
      let sm5 = register_get_pkt_cb (some server_get_pkt) sm4 in
      register_end_state_id Server.deleted sm5

  -- `DTLS_Client::configStateMachine`
  unfoldable pub config_client :
      Machine ConnectionId ClientFun TM → Machine ConnectionId ClientFun TM
  unfolding register_function register_end_state_id register_get_pkt_cb
  config_client sm0 =
      let sm1 = register_function Client.down client_init_handshake sm0 in
      let sm2 = register_function Client.handshake client_handshake sm1 in
      let sm3 = register_function Client.established client_send sm2 in
      let sm4 = register_function Client.run_teardown_state client_teardown sm3 in
      let sm5 = register_get_pkt_cb (some client_get_pkt) sm4 in
      register_end_state_id Client.deleted sm5

module _ {H L : Type 0} (lib : Library L) (data_at : Ptr → ℕ) where
  -- The types of the source keep the start function and the callback apart from the others.
  unfoldable pub run_server_fun :
      {K F : Type 0}
      → Heap Server H
      → (F → Store H L → Ptr × Store H L)
      → ServerFun
      → Ptr
      → Iface K F (Store H L)
      → Result (Iface K F (Store H L))
  run_server_fun heap alloc start_fun p i = err assert_failed
  run_server_fun heap alloc server_handshake p i = Server.run_handshake lib heap data_at alloc p i
  run_server_fun heap alloc server_send p i = Server.send_data lib heap data_at alloc p i
  run_server_fun heap alloc server_teardown p i = Server.run_teardown lib heap data_at alloc p i
  run_server_fun heap alloc server_get_pkt p i = err assert_failed

  unfoldable pub run_client_fun :
      {K F : Type 0}
      → Heap Client H
      → (F → Store H L → Ptr × Store H L)
      → ClientFun
      → Ptr
      → Iface K F (Store H L)
      → Result (Iface K F (Store H L))
  run_client_fun heap alloc client_init_handshake p i =
      Client.init_handshake lib heap data_at alloc p i
  run_client_fun heap alloc client_handshake p i = Client.run_handshake lib heap data_at alloc p i
  run_client_fun heap alloc client_send p i = Client.send_data lib heap data_at alloc p i
  run_client_fun heap alloc client_teardown p i = Client.run_teardown lib heap data_at alloc p i
  run_client_fun heap alloc client_get_pkt p i = err assert_failed

module _ {H L TM PM : Type 0} (lib : Library L) (data_at : Ptr → ℕ)
    (pkt_alloc : Store H L → Ptr × Store H L) (table : Table ident_keys State TM)
    (pooled : Table ident_keys State PM) where
  module _ (heap : Heap Server H) where
    abbrev pub server_env : Option Ptr → Env ConnectionId ServerFun (Store H L) TM PM
    server_env ctx = record {
      keys = ident_keys;
      table = table;
      pooled = pooled;
      identify = λ p w. identify w.mem (data_at p);
      run_fun = run_server_fun lib data_at heap (λ f w. pkt_alloc w);
      run_timeout = λ f i. err assert_failed;
      run_start = λ f id w. factory lib heap ctx w;
      run_get_pkt = λ f w. pkt_alloc w;
    }

    -- `DtlsServer_process`, with the static `DTLS_Server::ctx`
    unfoldable pub server_process :
        Option Ptr
        → List Ptr
        → Sys ConnectionId ServerFun (Store H L) TM PM
        → Result (Counted (Sys ConnectionId ServerFun (Store H L) TM PM))
    unfolding with_packets
    server_process ctx ps s = with_packets (run_pkt_batch (server_env ctx)) ps s

  module _ (heap : Heap Client H) where
    -- The client's state machine, which takes no connections from outside.
    abbrev pub client_env : Env ConnectionId ClientFun (Store H L) TM PM
    client_env = record {
      keys = ident_keys;
      table = table;
      pooled = pooled;
      identify = λ p w. identify w.mem (data_at p);
      run_fun = run_client_fun lib data_at heap (λ f w. pkt_alloc w);
      run_timeout = λ f i. err assert_failed;
      run_start = λ f id w. err assert_failed;
      run_get_pkt = λ f w. pkt_alloc w;
    }

    -- `DtlsClient_process`
    unfoldable pub client_process :
        List Ptr
        → Sys ConnectionId ClientFun (Store H L) TM PM
        → Result (Counted (Sys ConnectionId ClientFun (Store H L) TM PM))
    unfolding with_packets
    client_process ps s = with_packets (run_pkt_batch client_env) ps s

    -- `DtlsClient_connect`
    unfoldable pub client_connect :
        Config
        → List Ptr
        → ℕ
        → ℕ
        → Sys ConnectionId ClientFun (Store H L) TM PM
        → Result (Counted (Sys ConnectionId ClientFun (Store H L) TM PM))
    unfolding with_packets create_state_data
    client_connect config ps src_ip src_port s =
        let id : ConnectionId = record {
          dst_ip = swap32 src_ip;
          src_ip = swap32 config.dst_ip;
          dst_port = swap16 src_port;
          src_port = swap16 config.dst_port;
          proto = Ipv4.proto_udp;
        } in
        let ends : Ends = record {
          local_ip = src_ip;
          remote_ip = config.dst_ip;
          local_port = src_port;
          remote_port = config.dst_port;
        } in
        with_packets
          (λ (t : Sys ConnectionId ClientFun (Store H L) TM PM). do
            (p, w) ← create_state_data lib heap config.ctx ends t.world
            add_state client_env id (new_state Client.down p) (record t { world = w }))
          ps s

-- An exception that is caught ends in `std::abort`.
abbrev pub or_abort {ℓ} : {A : Type ℓ} → Result A → Result A
or_abort (ok a) = ok a
or_abort (err e) = err assert_failed

-- The configurations, which the callers of the interface hold by a pointer.
module _ {G L TM : Type 0} (configs : Heap Config G) (tls : Contexts L) where
  -- `DtlsServer_init`, with the pool of the caller. The static `ctx` and `mp` are those of the
  -- configuration that it returns.
  unfoldable pub server_init :
      TM → (ℕ → ℕ) → Option Ptr → G → L → Result (Machine ConnectionId ServerFun TM × Ptr × G × L)
  unfolding create_server_ctx config_server new_machine
  server_init empty clock memp g l = do
    (ctx, l') ← or_abort (create_server_ctx tls l)
    mp ← not_null memp
    (p, g') ← made (configs.create (record { ctx = ctx; mp = mp; dst_ip = 0; dst_port = 0 }) g)
    ok (config_server (new_machine empty clock), p, g', l')

  -- `DtlsClient_init`; `memp` is what `rte_pktmbuf_pool_create` gave.
  unfoldable pub client_init :
      TM
      → (ℕ → ℕ)
      → Option Ptr
      → ℕ
      → ℕ
      → G
      → L
      → Result (Machine ConnectionId ClientFun TM × Ptr × G × L)
  unfolding create_client_ctx config_client new_machine
  client_init empty clock memp dst_ip dst_port g l = do
    let (ctx, l') = create_client_ctx tls l
    mp ← not_null memp
    (p, g') ←
        made
          (configs.create (record { ctx = ctx; mp = mp; dst_ip = dst_ip; dst_port = dst_port }) g)
    ok (config_client (new_machine empty clock), p, g', l')

-- `DtlsServer_free` and `DtlsClient_free`, with the pool that is freed last. `OPENSSL_free` is no
-- use of the context by OpenSSL.
unfoldable pub free : {G : Type 0} → Heap Config G → Ptr → G → Result (Ptr × G)
free configs obj g = do
  config ← object configs obj g
  let g' = configs.drop obj g
  gone ← object configs obj g'
  ok (gone.mp, g')

-- `DtlsServer_getPkts` and `DtlsClient_getPkts`
unfoldable pub get_pkts : BufArray → Result (List (Option Ptr) × List (Option Ptr))
unfolding copy_both
get_pkts b = copy_both b
