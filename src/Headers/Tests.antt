-- ===== src/Headers/Tests.antt =====
-- Headers written and read at an address.
use moon_state.Prelude.{◌≡◌, refl, arith}
use moon_state.Fault.{ok}
use moon_state.Headers.Bytes.{Bytes}
use moon_state.Headers.Udp
use moon_state.Headers.Ipv4
use moon_state.Headers.RoundTrips.{ipv4_round_trip}

abbrev blank : Bytes
blank = λ a. 0

-- The ports stand in the network's byte order.
port_bytes : (Udp.set_src_port 0 53 blank 0 ≡ 0) × (Udp.set_src_port 0 53 blank 1 ≡ 53)
unfolding Udp.set_src_port
port_bytes = (refl, refl)

ipv4_round_trip_example :
    (let n = Ipv4.set_src_ip 8 1000 (
        Ipv4.set_dst_ip 8 2000
          (Ipv4.set_payload_length 8 40 (Ipv4.set_version 8 (Ipv4.set_ihl 8 5 blank)))) in
      (Ipv4.get_src_ip n 8 ≡ 1000)
      × (Ipv4.get_dst_ip n 8 ≡ 2000)
      × (Ipv4.ihl n 8 ≡ 5)
      × (Ipv4.get_payload_length n 8 ≡ 40)
      × (Ipv4.get_length n 8 ≡ 60)
      × (Ipv4.version n 8 ≡ ok 4))
ipv4_round_trip_example =
    ipv4_round_trip 8 1000 2000 40 5 blank (omega arith) (omega arith) (omega arith) (omega arith)
