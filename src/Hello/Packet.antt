-- ===== src/Hello/Packet.antt =====
-- The packets of HelloBye2 and HelloBye3: a message behind the UDP header.
use moon_state.Prelude.{
  ℕ, ◌+◌, ◌-◌, ◌*◌, ◌%◌, ◌/◌, ◌^◌, Option, none, some, ltb, ◌==◌, if◌then◌else◌,
}
use moon_state.Headers.Bytes.{Bytes, write8, write16, read32, write32, swap16}
use moon_state.Headers.Ethernet
use moon_state.Headers.Ipv4
use moon_state.Headers.Udp

-- The three addresses that a state function computes from the start of the packet's data.
unfoldable pub ip_at : ℕ → ℕ
ip_at d = d + Ethernet.header_size

unfoldable pub udp_at : Bytes → ℕ → ℕ
unfolding ip_at
udp_at m d = Ipv4.get_payload m (ip_at d)

unfoldable pub msg_at : Bytes → ℕ → ℕ
unfolding udp_at
msg_at m d = udp_at m d + Udp.header_size

-- `struct msg`, at the address `p`: eight bytes `ident`, and one each of `role`, `msg`, `cookie`.
unfoldable pub ident : Bytes → ℕ → ℕ
ident m p = read32 m p + read32 m (p + 4) * 2 ^ 32

unfoldable pub set_ident : ℕ → ℕ → Bytes → Bytes
set_ident p v m = write32 p (v % 2 ^ 32) (write32 (p + 4) (v / 2 ^ 32 % 2 ^ 32) m)

pub record Message : Type 0 where
  pub role : ℕ
  pub kind : ℕ
  pub cookie : ℕ

abbrev pub role_client : ℕ
role_client = 0

abbrev pub role_server : ℕ
role_server = 1

abbrev pub msg_hello : ℕ
msg_hello = 0

abbrev pub msg_bye : ℕ
msg_bye = 1

unfoldable pub message : Bytes → ℕ → Message
message m p = record { role = m (p + 8); kind = m (p + 9); cookie = m (p + 10) }

-- The assignments to the three fields; a cookie is an `int` and the field has one byte.
unfoldable pub set_message : ℕ → Message → Bytes → Bytes
set_message p v m =
    write8 (p + 10) (v.cookie % 256) (write8 (p + 9) v.kind (write8 (p + 8) v.role m))

-- "Set the IP header stuff": the packet goes back to where it came from.
unfoldable pub turn : ℕ → ℕ → Bytes → Bytes
turn ip udp m0 =
    let m1 = write8 (ip + 8) 64 m0 in
    let tmp = Ipv4.dst_ip m1 ip in
    let m2 = write32 (ip + 16) (Ipv4.src_ip m1 ip) m1 in
    let m3 = write32 (ip + 12) tmp m2 in
    let m4 = write16 (ip + 10) 0 m3 in
    let m5 = write16 (udp + 6) 0 m4 in
    let tmp16 = Udp.dst_port m5 udp in
    let m6 = write16 (udp + 2) (Udp.src_port m5 udp) m5 in write16 udp tmp16 m6

-- The answer to a packet, in the same packet: a message, and the way back.
unfoldable pub answer : Message → ℕ → Bytes → Bytes
answer v d m = turn (ip_at d) (udp_at m d) (set_message (msg_at m d) v m)

-- `memset(d, 0, n)`
unfoldable pub zeroed : ℕ → ℕ → Bytes → Bytes
zeroed d n m a = if ltb a d then m a else if ltb a (d + n) then 0 else m a

-- The IP header of a client's first packet.
unfoldable pub first_ip : ℕ → ℕ → ℕ → Bytes → Bytes
first_ip ip src dst m0 =
    let m1 = Ipv4.set_version ip m0 in
    let m2 = Ipv4.set_ihl ip 5 m1 in
    let m3 = write8 (ip + 8) 64 m2 in
    let m4 = Ipv4.set_length ip (100 - 14) m3 in
    let m5 = Ipv4.set_dst_ip ip dst m4 in
    let m6 = Ipv4.set_src_ip ip src m5 in
    let m7 = Ipv4.set_proto_udp ip m6 in write16 (ip + 10) 0 m7

-- What follows its message: the ethertype and the UDP header.
unfoldable pub first_udp : ℕ → ℕ → ℕ → ℕ → Bytes → Bytes
first_udp d udp src_port dst_port m0 =
    let m1 = write16 (d + 12) (swap16 2048) m0 in
    let m2 = write16 (udp + 6) 0 m1 in
    let m3 = Udp.set_dst_port udp dst_port m2 in
    let m4 = Udp.set_src_port udp src_port m3 in Udp.set_payload_length udp 50 m4

-- `Identifier::identify`, for a packet whose data starts at `d`.
unfoldable pub identify : Bytes → ℕ → Option ℕ
unfolding ident msg_at ip_at
identify m d =
    if Ethernet.get_ethertype m d == 2048
    then if Ipv4.proto m (ip_at d) == Ipv4.proto_udp then some (ident m (msg_at m d)) else none
    else none

-- `getDelKey` and `getEmptyKey`
abbrev pub del_ident : ℕ
del_ident = 2 ^ 64 - 1

abbrev pub empty_ident : ℕ
empty_ident = 2 ^ 64 - 2
