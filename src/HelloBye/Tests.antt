-- ===== src/HelloBye/Tests.antt =====
-- Runs of HelloBye on concrete packets.
use moon_state.Prelude.{ℕ, ◌≤◌, ◌≡◌, refl, true, some, List, arith, ◌==◌, if◌then◌else◌}
use moon_state.Prelude.Int.{pos, negsuc}
use moon_state.Fault.{ok}
use moon_state.Headers.Bytes.{Bytes}
use moon_state.Headers.Ipv4
use moon_state.Ident.{identify}
use moon_state.Machine.Types.{Iface}
use moon_state.Hello.Heap.{World}
use moon_state.Hello.Packet.{ip_at, msg_at}
use moon_state.Hello.Turn.{IsBytes}
use moon_state.Hello.Moves.{Room, Roomy}
use moon_state.Hello.Sample.{Objects, sample_heap}
use moon_state.HelloBye3.Tests.{at_start, iface_of}
use moon_state.HelloBye.Text.{
  codes, is_text, write_text, line, show_int, line-AllBytes, write_text-IsBytes,
}
use moon_state.HelloBye.Objects.{Pair, Greeter, Object, server_hello, server_bye, client_object}
use moon_state.HelloBye.Server.{client_hello_text, server_hello_text, client_bye_text}
use moon_state.HelloBye.Server
use moon_state.HelloBye.Client.{Config, hello_packet}
use moon_state.HelloBye.Client
use moon_state.HelloBye.ServerRules.{
  FollowsHello, FollowsBye, run_hello-FollowsHello, run_bye-FollowsBye,
}
use moon_state.HelloBye.ClientRules.{AnswersHello, run_bye-AnswersHello}
use moon_state.HelloBye.Greeting.{outgoing, run_hello-outgoing}

shown : show_int (pos 207) ≡ codes "207"
unfolding show_int
shown = refl

shown_negative : show_int (negsuc 47) ≡ codes "-48"
unfolding show_int
shown_negative = refl

-- A packet with a text behind headers of the usual size.
abbrev pub headers : Bytes
headers a = if a == 14 then 69 else 0

pub headers-IsBytes : IsBytes headers
headers-IsBytes a = ground arith

abbrev pub texted : List ℕ → Bytes
texted s = write_text 42 s headers

abbrev pub pair : Pair
pair = record { client_cookie = pos 7; server_cookie = pos 4 }

abbrev pub greeter : Greeter
greeter = record { client_cookie = pos 7; dst_ip = 9; src_port = 3 }

abbrev pub hears : Iface ℕ ℕ (World (Objects Object))
hears = iface_of 0 (server_hello pair) (texted (line client_hello_text (pos 7)))

abbrev parts : Iface ℕ ℕ (World (Objects Object))
parts = iface_of 1 (server_bye pair) (texted (line client_bye_text (pos 4)))

abbrev answers : Iface ℕ ℕ (World (Objects Object))
answers = iface_of 1 (client_object greeter) (texted (line server_hello_text (pos 4)))

pub sample-Room : (o : Object) (h : Objects Object) → Room (sample_heap {O = Object}) o h
sample-Room o h = (h.next, _, refl)

pub sample-Roomy : Roomy (sample_heap {O = Object})
unfolding Roomy
sample-Roomy o h = (h.next, _, refl)

pub hello-IsBytes : IsBytes (texted (line client_hello_text (pos 7)))
unfolding client_hello_text
hello-IsBytes =
    write_text-IsBytes 42 (line client_hello_text (pos 7)) headers
      (line-AllBytes client_hello_text (pos 7) (omega arith)) headers-IsBytes

bye-IsBytes : IsBytes (texted (line client_bye_text (pos 4)))
unfolding client_bye_text
bye-IsBytes =
    write_text-IsBytes 42 (line client_bye_text (pos 4)) headers
      (line-AllBytes client_bye_text (pos 4) (omega arith)) headers-IsBytes

answer-IsBytes : IsBytes (texted (line server_hello_text (pos 4)))
unfolding server_hello_text
answer-IsBytes =
    write_text-IsBytes 42 (line server_hello_text (pos 4)) headers
      (line-AllBytes server_hello_text (pos 4) (omega arith)) headers-IsBytes

pub five_hello : 5 ≤ Ipv4.ihl (texted (line client_hello_text (pos 7))) (ip_at 0)
unfolding Ipv4.ihl ip_at line write_text client_hello_text
five_hello = omega arith

five_bye : 5 ≤ Ipv4.ihl (texted (line client_bye_text (pos 4))) (ip_at 0)
unfolding Ipv4.ihl ip_at line write_text client_bye_text
five_bye = omega arith

five_answer : 5 ≤ Ipv4.ihl (texted (line server_hello_text (pos 4))) (ip_at 0)
unfolding Ipv4.ihl ip_at line write_text server_hello_text
five_answer = omega arith

run_hello-FollowsHello_example :
    (j : Iface ℕ ℕ (World (Objects Object))) × (Server.run_hello sample_heap at_start 0 hears
      ≡ ok j)
    × FollowsHello sample_heap at_start 0 hears pair j
run_hello-FollowsHello_example =
    run_hello-FollowsHello sample_heap at_start 0 hears pair refl (sample-Room _ _) hello-IsBytes
      five_hello

run_bye-FollowsBye_example :
    (j : Iface ℕ ℕ (World (Objects Object))) × (Server.run_bye sample_heap at_start 0 parts ≡ ok j)
    × FollowsBye sample_heap at_start 0 parts pair j
run_bye-FollowsBye_example =
    run_bye-FollowsBye sample_heap at_start 0 parts pair refl bye-IsBytes five_bye

run_bye-AnswersHello_example :
    (j : Iface ℕ ℕ (World (Objects Object))) × (Client.run_bye sample_heap at_start 0 answers
      ≡ ok j)
    × AnswersHello sample_heap at_start 0 answers greeter j
run_bye-AnswersHello_example =
    run_bye-AnswersHello sample_heap at_start 0 answers greeter refl answer-IsBytes five_answer

abbrev pub config : Config
config = record { src_ip = 5; dst_port = 80 }

abbrev starts : Iface ℕ ℕ (World (Objects Object))
starts = iface_of 0 (client_object greeter) headers

run_hello-outgoing_example :
    (j : Iface ℕ ℕ (World (Objects Object))) × (Client.run_hello sample_heap at_start
        (some config)
        0
        starts
      ≡ ok j)
    × (j.state.state ≡ Client.bye)
    × (j.send_pkt ≡ true)
    × (j.world.heap ≡ starts.world.heap)
    × (is_text (msg_at j.world.mem 0) (line client_hello_text (pos 7)) j.world.mem ≡ true)
    × (identify j.world.mem 0 ≡ some (outgoing config greeter))
run_hello-outgoing_example =
    run_hello-outgoing sample_heap at_start 0 starts config greeter refl (omega arith)
