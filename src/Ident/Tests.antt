-- ===== src/Ident/Tests.antt =====
-- Packets and the connections that they are identified with.
use moon_state.Prelude.{◌≡◌, refl, none, some, arith}
use moon_state.Headers.Bytes.{Bytes, swap16, swap32}
use moon_state.Headers.Ipv4
use moon_state.Ident.{ConnectionId, identify}
use moon_state.Ident.Keys.{udp_packet, identify-udp_packet}

abbrev blank : Bytes
blank = λ a. 0

abbrev query : Bytes
query = udp_packet 0 5 1000 2000 53 80 blank

abbrev connection : ConnectionId
connection = record {
  dst_ip = swap32 2000;
  src_ip = swap32 1000;
  dst_port = swap16 80;
  src_port = swap16 53;
  proto = 17;
}

nothing : identify blank 0 ≡ none
unfolding identify Ipv4.proto
nothing = refl

identify-udp_packet_example : identify query 0 ≡ some connection
identify-udp_packet_example =
    identify-udp_packet 0 5 1000 2000 53 80 blank (omega arith) (omega arith)
