-- ===== src/HelloBye/GreetingTests.antt =====
-- An answer to a client's first packet.
use moon_state.Prelude.{ℕ, ◌+◌, ◌≤◌, ◌≡◌, ◌%◌, ◌*◌, ◌/◌, some, arith}
use moon_state.Headers.Bytes.{Bytes, swap16, swap32, write8, write16, write32}
use moon_state.Headers.Ipv4
use moon_state.Headers.Udp
use moon_state.Ident.{identify}
use moon_state.Hello.Packet.{ip_at, udp_at, msg_at, zeroed, first_ip, first_udp}
use moon_state.Hello.Turn.{IsBytes}
use moon_state.HelloBye.Text.{line, write_text, write_text-IsBytes, line-AllBytes}
use moon_state.HelloBye.Server.{client_hello_text, server_hello_text, text_answer}
use moon_state.HelloBye.Client.{hello_packet}
use moon_state.HelloBye.Setup.{connection_id}
use moon_state.Prelude.Int.{pos}
use moon_state.HelloBye.Spoken.{
  Spoken, text_answer-SpokenInPlace, write8-IsBytes, write16-IsBytes, write32-IsBytes,
}
use moon_state.HelloBye.Greeting.{packet_first, hello_packet_is, identify-connection_id}
use moon_state.HelloBye.Tests.{greeter, config, headers, headers-IsBytes}

first_ip-IsBytes : (ip src dst : ℕ) (m : Bytes) → IsBytes m → IsBytes (first_ip ip src dst m)
unfolding first_ip Ipv4.set_version Ipv4.set_ihl Ipv4.set_length Ipv4.set_dst_ip Ipv4.set_src_ip
    Ipv4.set_proto_udp
first_ip-IsBytes ip src dst m b =
    let m1 : Bytes = write8 ip (m ip % 16 + 64) m in
    let b1 = write8-IsBytes m b ip (m ip % 16 + 64) (omega arith) in
    let m2 : Bytes = write8 ip (m1 ip / 16 % 16 * 16 + 5 % 16) m1 in
    let b2 = write8-IsBytes m1 b1 ip (m1 ip / 16 % 16 * 16 + 5 % 16) (omega arith) in
    let m3 : Bytes = write8 (ip + 8) 64 m2 in
    let b3 = write8-IsBytes m2 b2 (ip + 8) 64 (omega arith) in
    let m4 : Bytes = write16 (ip + 2) (swap16 86) m3 in
    let b4 = write16-IsBytes m3 b3 (ip + 2) (swap16 86) in
    let m5 : Bytes = write32 (ip + 16) (swap32 dst) m4 in
    let b5 = write32-IsBytes m4 b4 (ip + 16) (swap32 dst) in
    let m6 : Bytes = write32 (ip + 12) (swap32 src) m5 in
    let b6 = write32-IsBytes m5 b5 (ip + 12) (swap32 src) in
    let m7 : Bytes = write8 (ip + 9) 17 m6 in
    let b7 = write8-IsBytes m6 b6 (ip + 9) 17 (omega arith) in write16-IsBytes m7 b7 (ip + 10) 0

first_udp-IsBytes : (d udp sp dp : ℕ) (m : Bytes) → IsBytes m → IsBytes (first_udp d udp sp dp m)
unfolding first_udp Udp.set_dst_port Udp.set_src_port Udp.set_payload_length
first_udp-IsBytes d udp sp dp m b =
    let m1 : Bytes = write16 (d + 12) (swap16 2048) m in
    let b1 = write16-IsBytes m b (d + 12) (swap16 2048) in
    let m2 : Bytes = write16 (udp + 6) 0 m1 in
    let b2 = write16-IsBytes m1 b1 (udp + 6) 0 in
    let m3 : Bytes = write16 (udp + 2) (swap16 dp) m2 in
    let b3 = write16-IsBytes m2 b2 (udp + 2) (swap16 dp) in
    let m4 : Bytes = write16 udp (swap16 sp) m3 in
    let b4 = write16-IsBytes m3 b3 udp (swap16 sp) in
    write16-IsBytes m4 b4 (udp + 4) (swap16 ((50 + Udp.header_size) % 65536))

abbrev sent : Bytes
sent = hello_packet config greeter 0 100 headers

zeroed-IsBytes : IsBytes (zeroed 0 100 headers)
unfolding zeroed
zeroed-IsBytes a = ground (arith, headers-IsBytes a)

sent-IsBytes : IsBytes sent
unfolding hello_packet client_hello_text
sent-IsBytes =
    let m1 : Bytes = first_ip (ip_at 0) 5 9 (zeroed 0 100 headers) in
    let b1 = first_ip-IsBytes (ip_at 0) 5 9 (zeroed 0 100 headers) zeroed-IsBytes in
    first_udp-IsBytes 0 (udp_at m1 0) 3 80
      (write_text (msg_at m1 0) (line client_hello_text (pos 7)) m1)
      (write_text-IsBytes (msg_at m1 0) (line client_hello_text (pos 7)) m1
        (line-AllBytes client_hello_text (pos 7) (omega arith)) b1)

five : 5 ≤ Ipv4.ihl sent (ip_at 0)
unfolding Ipv4.ihl
five =
    rw (hello_packet_is config greeter 0 100 headers (omega arith))
      (omega (arith, packet_first config greeter 0 100 headers (omega arith)))

answer :
    Spoken
      (line server_hello_text (pos 4))
      sent
      0
      (text_answer (line server_hello_text (pos 4)) 0 sent)
unfolding server_hello_text
answer =
    (text_answer-SpokenInPlace sent 0 five sent-IsBytes server_hello_text (pos 4)
      (omega arith)).spoken

identify-connection_id_example :
    identify (text_answer (line server_hello_text (pos 4)) 0 sent) 0
    ≡ some (connection_id config 9 3)
identify-connection_id_example =
    identify-connection_id config greeter 0 100 headers (omega arith)
      (line server_hello_text (pos 4)) (text_answer (line server_hello_text (pos 4)) 0 sent) answer
