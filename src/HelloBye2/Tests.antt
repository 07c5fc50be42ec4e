-- ===== src/HelloBye2/Tests.antt =====
-- A run of the server on a concrete packet.
use moon_state.Prelude.{ℕ, ◌≡◌, refl, arith}
use moon_state.Fault.{ok}
use moon_state.Machine.Types.{Iface}
use moon_state.Hello.Heap.{World}
use moon_state.Hello.Packet.{msg_at, message}
use moon_state.Hello.Sample.{Objects, sample_heap, packet, packet-IsBytes}
use moon_state.HelloBye2.Objects.{Pair, Object, server_hello}
use moon_state.HelloBye2.Server.{run_hello}
use moon_state.Hello.Moves.{Room}
use moon_state.HelloBye2.ServerRules.{Follows, run_hello-Follows}
use moon_state.HelloBye3.Tests.{at_start, iface_of, five}

abbrev pair : Pair
pair = record { client_cookie = 0; server_cookie = 42 }

-- A client's hello with the cookie 21 reaches the server.
abbrev hears : Iface ℕ ℕ (World (Objects Object))
hears = iface_of 0 (server_hello pair) (packet 0 0 21)

sample-Room : (o : Object) (h : Objects Object) → Room (sample_heap {O = Object}) o h
sample-Room o h = (h.next, _, refl)

run_hello-Follows_example :
    (j : Iface ℕ ℕ (World (Objects Object))) × (run_hello sample_heap at_start 0 hears ≡ ok j)
    × Follows sample_heap at_start 0 hears pair
        (message (packet 0 0 21) (msg_at (packet 0 0 21) 0))
        j
run_hello-Follows_example =
    run_hello-Follows sample_heap at_start 0 hears pair refl (sample-Room _ _) (omega arith)
      (packet-IsBytes 0 0 21 (omega arith) (omega arith) (omega arith)) (five 0 0 21)
