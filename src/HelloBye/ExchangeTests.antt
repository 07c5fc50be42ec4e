-- ===== src/HelloBye/ExchangeTests.antt =====
-- A whole run of a client and a server of HelloBye, and an answer to a client's first packet.
use moon_state.Prelude.{ℕ, ◌≡◌, refl, false, arith}
use moon_state.Prelude.Int.{pos}
use moon_state.Fault.{ok}
use moon_state.Headers.Ipv4
use moon_state.Machine.Types.{Iface}
use moon_state.Hello.Heap.{World}
use moon_state.Hello.Packet.{msg_at}
use moon_state.Hello.Sample.{Objects, sample_heap}
use moon_state.HelloBye3.Tests.{at_start, iface_of}
use moon_state.HelloBye.Text.{write_text, line, is_text-write_text}
use moon_state.HelloBye.Objects.{Object, server_bye, client_object, set_server_cookie}
use moon_state.HelloBye.Server.{server_hello_text, server_bye_text, client_bye_text}
use moon_state.HelloBye.Server
use moon_state.HelloBye.Client
use moon_state.HelloBye.Spoken.{Spoken, ihl_same}
use moon_state.HelloBye.ServerRules.{run_hello-FollowsHello, run_bye-FollowsBye}
use moon_state.HelloBye.ClientRules.{run_bye-AnswersHello}
use moon_state.HelloBye.Session.{Says, Reaches, greets, parts, answers, keeps}
use moon_state.HelloBye.Exchange.{exchange, spoken_text}
use moon_state.HelloBye.Tests.{
  pair, greeter, hears, sample-Room, sample-Roomy, hello-IsBytes, five_hello, headers,
}

-- The client's hello.
first : Reaches sample_heap at_start 0 hears (Object.server_hello pair)
first = record { live = refl; is_bytes = hello-IsBytes; five = five_hello }

first-Says : Says sample_heap at_start 0 hears (line Server.client_hello_text (pos 7))
unfolding msg_at Ipv4.get_payload write_text line Server.client_hello_text
first-Says = is_text-write_text 42 (line Server.client_hello_text (pos 7)) headers

abbrev Face : Type 0
Face = Iface ℕ ℕ (World (Objects Object))

-- What the server's first function leaves.
greeted : Face
greeted =
    (run_hello-FollowsHello sample_heap at_start 0 hears pair refl (sample-Room _ _) hello-IsBytes
      five_hello).0

greeted_ran : Server.run_hello sample_heap at_start 0 hears ≡ ok greeted
unfolding greeted
greeted_ran =
    (run_hello-FollowsHello sample_heap at_start 0 hears pair refl (sample-Room _ _) hello-IsBytes
      five_hello).1

greeted_spoken : Spoken (line server_hello_text (pos 4)) hears.world.mem 0 greeted.world.mem
greeted_spoken =
    (greets sample_heap at_start 0 hears pair first 7 (omega arith) first-Says sample-Roomy
      greeted_ran).answered.spoken

-- The packet reaches the client as it is.
abbrev client_hears : Face
client_hears = iface_of 1 (client_object greeter) greeted.world.mem

second : Reaches sample_heap at_start 0 client_hears (client_object greeter)
second = record {
  live = refl;
  is_bytes = greeted_spoken.is_bytes;
  five = rw (ihl_same greeted_spoken) five_hello;
}

second-Says : Says sample_heap at_start 0 client_hears (line server_hello_text (pos 4))
second-Says = spoken_text greeted_spoken

parting : Face
parting =
    (run_bye-AnswersHello sample_heap at_start 0 client_hears greeter refl second.is_bytes
      second.five).0

parting_ran : Client.run_bye sample_heap at_start 0 client_hears ≡ ok parting
unfolding parting
parting_ran =
    (run_bye-AnswersHello sample_heap at_start 0 client_hears greeter refl second.is_bytes
      second.five).1

parting_spoken : Spoken (line client_bye_text (pos 4)) client_hears.world.mem 0 parting.world.mem
parting_spoken =
    (answers sample_heap at_start 0 client_hears greeter second 4 (omega arith) second-Says
      parting_ran).mem.spoken

abbrev server_hears : Face
server_hears = iface_of 1 (server_bye pair) parting.world.mem

third : Reaches sample_heap at_start 0 server_hears (server_bye pair)
third = record {
  live = refl;
  is_bytes = parting_spoken.is_bytes;
  five = rw (ihl_same parting_spoken) second.five;
}

parted : Face
parted =
    (run_bye-FollowsBye sample_heap at_start 0 server_hears pair refl third.is_bytes third.five).0

parted_ran : Server.run_bye sample_heap at_start 0 server_hears ≡ ok parted
unfolding parted
parted_ran =
    (run_bye-FollowsBye sample_heap at_start 0 server_hears pair refl third.is_bytes third.five).1

parted_spoken : Spoken (line server_bye_text (pos 7)) server_hears.world.mem 0 parted.world.mem
parted_spoken =
    (parts sample_heap at_start 0 server_hears pair third 4 (omega arith) refl
      (spoken_text parting_spoken) parted_ran).mem.spoken

abbrev after : Object
after = client_object (set_server_cookie (pos 4) greeter)

abbrev ends : Face
ends = iface_of 2 after parted.world.mem

fourth : Reaches sample_heap at_start 0 ends after
fourth = record {
  live = refl;
  is_bytes = parted_spoken.is_bytes;
  five = rw (ihl_same parted_spoken) third.five;
}

exchange_example :
    (j : Face) × (Client.run_recv_bye sample_heap at_start 0 ends ≡ ok j)
    × (j.state.state ≡ Client.terminate)
    × (j.send_pkt ≡ false)
    × (parted.state.state ≡ Server.terminate)
exchange_example =
    exchange at_start at_start sample_heap sample_heap sample-Roomy pair greeter 4 7 (omega arith)
      (omega arith) refl refl 0 hears greeted first first-Says greeted_ran 0 client_hears parting
      second (λ s e. e) parting_ran 0 server_hears parted (server_bye pair)
      (greets sample_heap at_start 0 hears pair first 7 (omega arith) first-Says sample-Roomy
        greeted_ran).live
      third (λ s e. e) parted_ran 0 ends after
      (keeps sample_heap at_start 0 client_hears greeter second 4 (omega arith) second-Says
        parting_ran)
      fourth (λ s e. e)
