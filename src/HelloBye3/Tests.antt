-- ===== src/HelloBye3/Tests.antt =====
-- Runs of the protocol on concrete packets, for the theorems about the state functions.
use moon_state.Prelude.{
  ℕ, ◌+◌, ◌≤◌, ◌≡◌, refl, false, true, none, some, [], arith, ◌==◌, if◌then◌else◌,
}
use moon_state.Fault.{ok}
use moon_state.BufArray.{Ptr}
use moon_state.Headers.Bytes.{Bytes}
use moon_state.Headers.Ipv4
use moon_state.Machine.Types.{Iface}
use moon_state.Machine.Uses.{WellBehaved}
use moon_state.Machine.Sample.{Map, map_table}
use moon_state.Hello.Heap.{World, object}
use moon_state.Hello.Packet.{ip_at, msg_at, message}
use moon_state.Hello.Rules.{Obeys}
use moon_state.Hello.Effects.{refuse}
use moon_state.Machine.Iface.{free_pkt, transition}
use moon_state.Hello.Sample.{Objects, sample_heap, packet, packet-IsBytes, world_of}
use moon_state.HelloBye3.Server.{Cookies}
use moon_state.HelloBye3.Server
use moon_state.HelloBye3.Client.{Client}
use moon_state.HelloBye3.Client
use moon_state.HelloBye3.ServerRules.{hello_rule, Small, run_hello-Obeys, run_bye-Obeys}
use moon_state.HelloBye3.ServerRules
use moon_state.HelloBye3.ClientRules.{client_bye-Obeys}
use moon_state.HelloBye3.ClientRules
use moon_state.HelloBye3.Setup.{hello_fun, run_server_fun, server_env, client_env, server_init}
use moon_state.HelloBye3.Greeting.{Greets, Sized, run_hello-Greets}
use moon_state.HelloBye3.Calls.{protocols-WellBehaved}
use moon_state.HelloBye3.States.{Served, server-Served}

abbrev pub at_start : Ptr → ℕ
at_start p = 0

abbrev pub iface_of : {O : Type 0} → ℕ → O → Bytes → Iface ℕ ℕ (World (Objects O))
iface_of n o m = record {
  conn_id = 7;
  state = record { state_data = 0; state = n; timeout_id = 0 };
  bufs = record { pkts = []; send_mask = []; num_bufs = 0; num_slots = 0; from_lua = false };
  send_pkt = true;
  immediate_transition = false;
  get_pkt_cb = none;
  timers = record {
    cur_timeout_id = 0;
    timeouts_q = [];
    timeout_functions = [];
    clock = λ n. n;
    reads = 0;
  };
  world = world_of o m;
}

abbrev pub cookies : Cookies
cookies = record { client_cookie = 21; server_cookie = 42 }

abbrev pub client : Client
client = record {
  ident = 7;
  src_ip = 1;
  dst_ip = 2;
  client_cookie = 21;
  server_cookie = 42;
  src_port = 3;
  dst_port = 4;
}

pub five : (role kind cookie : ℕ) → 5 ≤ Ipv4.ihl (packet role kind cookie) (ip_at 0)
unfolding Ipv4.ihl ip_at
five role kind cookie = omega arith

-- A client's hello with the cookie 21 reaches the server.
abbrev pub server_hears : Iface ℕ ℕ (World (Objects Cookies))
server_hears = iface_of 0 cookies (packet 0 0 21)

pub small : Small cookies
small = record { client = omega arith; server = omega arith }

run_hello-Obeys_example :
    (j : Iface ℕ ℕ (World (Objects Cookies))) × (Server.run_hello sample_heap at_start 0
        server_hears
      ≡ ok j)
    × Obeys sample_heap at_start Server.terminate 0 server_hears
        (hello_rule cookies (message (packet 0 0 21) (msg_at (packet 0 0 21) 0)))
        j
run_hello-Obeys_example =
    run_hello-Obeys sample_heap at_start 0 server_hears cookies refl small
      (packet-IsBytes 0 0 21 (omega arith) (omega arith) (omega arith)) (five 0 0 21)

-- A client's bye with the server's cookie.
abbrev pub server_parts : Iface ℕ ℕ (World (Objects Cookies))
server_parts = iface_of 1 cookies (packet 0 1 42)

run_bye-Obeys_example :
    (j : Iface ℕ ℕ (World (Objects Cookies))) × (Server.run_bye sample_heap at_start 0 server_parts
      ≡ ok j)
    × Obeys sample_heap at_start Server.terminate 0 server_parts
        (ServerRules.bye_rule cookies (message (packet 0 1 42) (msg_at (packet 0 1 42) 0)))
        j
run_bye-Obeys_example =
    run_bye-Obeys sample_heap at_start 0 server_parts cookies refl small
      (packet-IsBytes 0 1 42 (omega arith) (omega arith) (omega arith)) (five 0 1 42)

-- The server's hello with the cookie 42 reaches the client.
abbrev pub client_hears : Iface ℕ ℕ (World (Objects Client))
client_hears = iface_of 1 client (packet 1 0 42)

client_bye-Obeys_example :
    (j : Iface ℕ ℕ (World (Objects Client))) × (Client.run_bye sample_heap at_start 0 client_hears
      ≡ ok j)
    × Obeys sample_heap at_start Client.terminate 0 client_hears
        (ClientRules.bye_rule client (message (packet 1 0 42) (msg_at (packet 1 0 42) 0)))
        j
client_bye-Obeys_example =
    client_bye-Obeys sample_heap at_start 0 client_hears client refl
      (packet-IsBytes 1 0 42 (omega arith) (omega arith) (omega arith)) (five 1 0 42)

abbrev start_world : World (Objects Cookies)
start_world = world_of cookies (packet 0 0 21)

protocols-WellBehaved_example :
    WellBehaved (server_env {H = Objects Cookies} at_start map_table map_table sample_heap) 3
    × WellBehaved (client_env {H = Objects Client} at_start map_table map_table sample_heap) 3
protocols-WellBehaved_example =
    protocols-WellBehaved at_start map_table map_table sample_heap sample_heap

abbrev no_states : Map
no_states id = none

abbrev clock : ℕ → ℕ
clock n = n

abbrev numbers : ℕ → ℕ
numbers n = 300 + n

abbrev terminated : Iface ℕ ℕ (World (Objects Cookies))
terminated = record (server_parts) {
  state = record { state_data = 0; state = 2; timeout_id = 0 };
  send_pkt = false;
  world = record start_world {
    heap = record {
      at = λ q. if q == 0 then none else if q == 0 then some cookies else none;
      next = 1;
    };
    mem = packet 1 0 21;
  };
}

abbrev confused : Iface ℕ ℕ (World (Objects Cookies))
confused = iface_of 0 cookies (packet 1 0 21)

refuses :
    run_server_fun at_start map_table map_table sample_heap hello_fun 0 confused
    ≡ ok (record terminated { world = terminated.world })
unfolding run_server_fun Server.run_hello object message msg_at Ipv4.get_payload refuse free_pkt
    transition
refuses = refl

server-Served_example :
    Served
      (server_init {H = Objects Cookies} at_start map_table map_table no_states clock numbers
        start_world).0
      2
server-Served_example =
    server-Served at_start map_table map_table no_states clock numbers start_world 0 confused
      terminated sample_heap hello_fun refuses

-- The client starts.
abbrev client_starts : Iface ℕ ℕ (World (Objects Client))
client_starts = iface_of 0 client (packet 9 9 9)

sized : Sized client
sized = record {
  ident = omega arith;
  src_ip = omega arith;
  dst_ip = omega arith;
  cookie = omega arith;
  src_port = omega arith;
  dst_port = omega arith;
}

run_hello-Greets_example :
    (j : Iface ℕ ℕ (World (Objects Client))) × (Client.run_hello sample_heap at_start 0
        client_starts
      ≡ ok j)
    × (j.state.state ≡ Client.bye)
    × (j.send_pkt ≡ true)
    × (j.world.heap ≡ client_starts.world.heap)
    × Greets client 0 j.world.mem
run_hello-Greets_example =
    run_hello-Greets sample_heap at_start 0 client_starts client refl sized (omega arith)
