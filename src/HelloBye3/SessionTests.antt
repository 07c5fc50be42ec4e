-- ===== src/HelloBye3/SessionTests.antt =====
-- A whole run of a client and a server, for the theorem about sessions.
use moon_state.Prelude.{ℕ, ◌≡◌, refl, none, some, arith}
use moon_state.Fault.{ok}
use moon_state.Headers.Ipv4
use moon_state.Machine.Types.{Iface}
use moon_state.Machine.Iface.{transition}
use moon_state.Hello.Heap.{World, object}
use moon_state.Hello.Packet.{ip_at, udp_at, msg_at, message, set_message, turn, answer}
use moon_state.Hello.Effects.{put_mem, put_heap, put_world}
use moon_state.Hello.Rules.{Replied}
use moon_state.Hello.Sample.{Objects, sample_heap, packet, packet-IsBytes}
use moon_state.HelloBye3.Server.{Cookies}
use moon_state.HelloBye3.Server
use moon_state.HelloBye3.Client.{Client}
use moon_state.HelloBye3.Client
use moon_state.HelloBye3.Session.{Arrives, carried, session}
use moon_state.HelloBye3.Tests.{
  at_start, cookies, client, server_hears, server_parts, client_hears, small, five,
}

-- After the server's hello, and after the client's bye.
abbrev server_greeted : Iface ℕ ℕ (World (Objects Cookies))
server_greeted = transition Server.bye (
    put_world
      (put_mem (answer (record { role = 1; kind = 0; cookie = 42 }) 0 (packet 0 0 21)) (
        put_heap
          (sample_heap.save 0 (record cookies { client_cookie = 21 }) server_hears.world.heap)
          server_hears.world))
      server_hears)

abbrev client_parting : Iface ℕ ℕ (World (Objects Client))
client_parting = transition Client.recv_bye (
    put_world
      (put_mem (answer (record { role = 0; kind = 1; cookie = 42 }) 0 (packet 1 0 42)) (
        put_heap (sample_heap.save 0 (record client { server_cookie = 42 }) client_hears.world.heap)
          client_hears.world))
      client_hears)

server_runs : Server.run_hello sample_heap at_start 0 server_hears ≡ ok server_greeted
unfolding Server.run_hello object message msg_at ip_at Ipv4.get_payload
server_runs = refl

client_runs : Client.run_bye sample_heap at_start 0 client_hears ≡ ok client_parting
unfolding Client.run_bye object message msg_at ip_at Ipv4.get_payload
client_runs = refl

first :
    Arrives sample_heap at_start cookies (record { role = 0; kind = 0; cookie = 21 }) 0 server_hears
unfolding message msg_at udp_at ip_at Ipv4.get_payload
first = record {
  live = refl;
  carries = refl;
  is_bytes = packet-IsBytes 0 0 21 (omega arith) (omega arith) (omega arith);
  five = five 0 0 21;
}

second : Arrives sample_heap at_start client (carried at_start 0 server_greeted) 0 client_hears
unfolding message msg_at udp_at ip_at Ipv4.get_payload transition put_world put_mem put_heap answer
    turn set_message
second = record {
  live = refl;
  carries = refl;
  is_bytes = packet-IsBytes 1 0 42 (omega arith) (omega arith) (omega arith);
  five = five 1 0 42;
}

third : Arrives sample_heap at_start cookies (carried at_start 0 client_parting) 0 server_parts
unfolding message msg_at udp_at ip_at Ipv4.get_payload transition put_world put_mem put_heap answer
    turn set_message
third = record {
  live = refl;
  carries = refl;
  is_bytes = packet-IsBytes 0 1 42 (omega arith) (omega arith) (omega arith);
  five = five 0 1 42;
}

kept : sample_heap.load 0 server_greeted.world.heap ≡ some cookies
unfolding transition put_world put_mem put_heap
kept = refl

session_example :
    (j : Iface ℕ ℕ (World (Objects Cookies))) × (Server.run_bye sample_heap at_start 0 server_parts
      ≡ ok j)
    × Replied sample_heap at_start Server.terminate 0 server_parts
        (record { role = 1; kind = 1; cookie = 21 })
        none
        Server.terminate
        j
session_example =
    session at_start at_start sample_heap sample_heap cookies small client 0 server_hears
      server_greeted first server_runs 0 client_hears client_parting second client_runs 0
      server_parts cookies kept third
