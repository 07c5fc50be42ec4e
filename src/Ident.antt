-- ===== src/Ident.antt =====
-- include/IPv4_5TupleL2Ident.hpp: the identifier that takes a packet's addresses, ports and
-- protocol for its connection.
pub mod Keys
mod Tests
use moon_state.Prelude.{ℕ, ◌+◌, Bool, ◌&&◌, Option, none, some, ◌==◌, if◌then◌else◌}
use moon_state.Headers.Bytes.{Bytes}
use moon_state.Headers.Ethernet
use moon_state.Headers.Ipv4
use moon_state.Headers.Tcp
use moon_state.Headers.Udp

-- `ConnectionID`: all fields in the network's byte order.
pub record ConnectionId : Type 0 where
  pub dst_ip : ℕ
  pub src_ip : ℕ
  pub dst_port : ℕ
  pub src_port : ℕ
  pub proto : ℕ

-- `operator==`
unfoldable pub same : ConnectionId → ConnectionId → Bool
same a b =
    (a.dst_ip == b.dst_ip)
    && (a.src_ip == b.src_ip)
    && (a.dst_port == b.dst_port)
    && (a.src_port == b.src_port)
    && (a.proto == b.proto)

-- `identify`, for a packet whose data starts at the address `d`; `none` if it throws
-- `PacketNotIdentified`.
unfoldable pub identify : Bytes → ℕ → Option ConnectionId
identify m d =
    let ip = d + Ethernet.header_size in
    let l4 = Ipv4.get_payload m ip in
    let proto = Ipv4.proto m ip in
    if proto == Ipv4.proto_udp
    then some (record {
      dst_ip = Ipv4.dst_ip m ip;
      src_ip = Ipv4.src_ip m ip;
      dst_port = Udp.dst_port m l4;
      src_port = Udp.src_port m l4;
      proto = proto;
    })
    else if proto == Ipv4.proto_tcp
    then some (record {
      dst_ip = Ipv4.dst_ip m ip;
      src_ip = Ipv4.src_ip m ip;
      dst_port = Tcp.dst_port m l4;
      src_port = Tcp.src_port m l4;
      proto = proto;
    })
    else none

-- `getDelKey`
unfoldable pub del_key : ConnectionId
del_key = record { dst_ip = 0; src_ip = 0; dst_port = 0; src_port = 0; proto = 253 }

-- `getEmptyKey`
unfoldable pub empty_key : ConnectionId
empty_key = record { dst_ip = 0; src_ip = 0; dst_port = 0; src_port = 0; proto = 254 }
