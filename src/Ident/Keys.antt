-- ===== src/Ident/Keys.antt =====
-- The identifier fulfils what the framework and its tables expect of one.
use moon_state.Prelude.{
  ℕ, ◌+◌, ◌*◌, ◌%◌, ◌≤◌, ◌<◌, ◌≡◌, ◌↔◌, ap, ◌∙◌, inl, inr, true, false, some, arith,
}
use moon_state.Headers.Bytes.{
  Bytes, read16, write16, read32, write32, swap16, swap32, swap16-lt, swap32-lt, read16-write16,
  read32-write32, read16-write16-Apart, read32-write16-Apart, read32-write32-Apart,
  write16-byte-Apart, write32-byte-Apart,
}
use moon_state.Headers.Ethernet
use moon_state.Headers.Ipv4
use moon_state.Headers.Udp
use moon_state.Machine.Table.{Keys}
use moon_state.Ident.{ConnectionId, same, identify, del_key, empty_key}

-- `operator==` of `ConnectionID` holds exactly of two equal connections.
pub same_iff : (a b : ConnectionId) → (same a b ≡ true) ↔ (a ≡ b)
unfolding same
same_iff a b = (to, from)
  where
    to : same a b ≡ true → a ≡ b
    to h =
        let e1 : a.dst_ip ≡ b.dst_ip = ground arith in
        let e2 : a.src_ip ≡ b.src_ip = ground arith in
        let e3 : a.dst_port ≡ b.dst_port = ground arith in
        let e4 : a.src_port ≡ b.src_port = ground arith in
        let e5 : a.proto ≡ b.proto = ground arith in cc

    self : same b b ≡ true
    self = ground arith

    from : a ≡ b → same a b ≡ true
    from e = rw e self

-- So it can be the key of the framework's tables.
pub ident_keys : Keys ConnectionId
ident_keys = record { same = same; same_iff = same_iff }

-- The writes of a program that builds the header of a UDP packet.
abbrev pub udp_packet : ℕ → ℕ → ℕ → ℕ → ℕ → ℕ → Bytes → Bytes
udp_packet d hl src dst src_port dst_port m =
    let ip = d + Ethernet.header_size in
    Udp.set_src_port (ip + 4 * hl) src_port (
      Udp.set_dst_port (ip + 4 * hl) dst_port (
        Ipv4.set_src_ip ip src
          (Ipv4.set_dst_ip ip dst (Ipv4.set_proto_udp ip (Ipv4.set_ihl ip hl m)))))

-- A packet whose addresses, protocol and ports were written by the setters of the IPv4 and the
-- UDP header is identified with exactly these, in the network's byte order, whatever other bytes
-- it has. Conditions: the header length is at least five words and fits its four bits.
pub identify-udp_packet :
    (d hl src dst src_port dst_port : ℕ) (m : Bytes)
    → 5 ≤ hl
    → hl < 16
    → identify (udp_packet d hl src dst src_port dst_port m) d
      ≡ some (record {
        dst_ip = swap32 dst;
        src_ip = swap32 src;
        dst_port = swap16 dst_port;
        src_port = swap16 src_port;
        proto = Ipv4.proto_udp;
      })
unfolding identify Ipv4.ihl Ipv4.proto Ipv4.src_ip Ipv4.dst_ip Ipv4.get_payload Ipv4.set_ihl
    Ipv4.set_proto_udp Ipv4.set_src_ip Ipv4.set_dst_ip Udp.set_src_port Udp.set_dst_port
    Udp.src_port Udp.dst_port
identify-udp_packet d hl src dst src_port dst_port m five high =
    let ip : ℕ = d + 14 in
    let q : ℕ = ip + 4 * hl in
    let m1 : Bytes = Ipv4.set_ihl ip hl m in
    let m2 : Bytes = Ipv4.set_proto_udp ip m1 in
    let m3 : Bytes = write32 (ip + 16) (swap32 dst) m2 in
    let m4 : Bytes = write32 (ip + 12) (swap32 src) m3 in
    let m5 : Bytes = write16 (q + 2) (swap16 dst_port) m4 in
    let n : Bytes = write16 q (swap16 src_port) m5 in
    let byte : (a : ℕ) → ip ≤ a → a < ip + 12 → n a ≡ m2 a = λ a l h.
      write16-byte-Apart a q (swap16 src_port) m5 (inr (omega arith))
      ∙ write16-byte-Apart a (q + 2) (swap16 dst_port) m4 (inr (omega arith))
      ∙ write32-byte-Apart a (ip + 12) (swap32 src) m3 (inr (omega arith))
      ∙ write32-byte-Apart a (ip + 16) (swap32 dst) m2 (inr (omega arith)) in
    let first : n ip % 16 ≡ hl =
      ap (λ (x : ℕ). x % 16) (byte ip (omega arith) (omega arith)) ∙ low ip m in
    let protocol : n (ip + 9) ≡ 17 = byte (ip + 9) (omega arith) (omega arith) ∙ ninth ip m1 in
    let ip_src : read32 n (ip + 12) ≡ swap32 src =
      read32-write16-Apart (ip + 12) q (swap16 src_port) m5 (inr (omega arith))
      ∙ read32-write16-Apart (ip + 12) (q + 2) (swap16 dst_port) m4 (inr (omega arith))
      ∙ read32-write32 (ip + 12) (swap32 src) m3 (swap32-lt src) in
    let ip_dst : read32 n (ip + 16) ≡ swap32 dst =
      read32-write16-Apart (ip + 16) q (swap16 src_port) m5 (inr (omega arith))
      ∙ read32-write16-Apart (ip + 16) (q + 2) (swap16 dst_port) m4 (inr (omega arith))
      ∙ read32-write32-Apart (ip + 16) (ip + 12) (swap32 src) m3 (inl (omega arith))
      ∙ read32-write32 (ip + 16) (swap32 dst) m2 (swap32-lt dst) in
    let port_src : read16 n q ≡ swap16 src_port =
      read16-write16 q (swap16 src_port) m5 (swap16-lt src_port) in
    let port_dst : read16 n (q + 2) ≡ swap16 dst_port =
      read16-write16-Apart (q + 2) q (swap16 src_port) m5 (inl (omega arith))
      ∙ read16-write16 (q + 2) (swap16 dst_port) m4 (swap16-lt dst_port) in
    gather n d hl (swap32 src) (swap32 dst) (swap16 src_port) (swap16 dst_port) first protocol
      ip_src ip_dst port_src port_dst
  where
    low : (ip : ℕ) (m : Bytes) → Ipv4.set_proto_udp ip (Ipv4.set_ihl ip hl m) ip % 16 ≡ hl
    low ip m = ground arith

    ninth : (ip : ℕ) (m : Bytes) → Ipv4.set_proto_udp ip m (ip + 9) ≡ 17
    ninth ip m = ground arith

    gather :
        (n : Bytes) (d hl src dst sp dp : ℕ)
        → n (d + 14) % 16 ≡ hl
        → n (d + 14 + 9) ≡ 17
        → read32 n (d + 14 + 12) ≡ src
        → read32 n (d + 14 + 16) ≡ dst
        → read16 n (d + 14 + 4 * hl) ≡ sp
        → read16 n (d + 14 + 4 * hl + 2) ≡ dp
        → identify n d
          ≡ some (record { dst_ip = dst; src_ip = src; dst_port = dp; src_port = sp; proto = 17 })
    gather n d hl src dst sp dp e1 e2 e3 e4 e5 e6 = rw (e2, e1) cc

-- No packet is identified with one of the two keys that the connection table reserves.
pub identify-same :
    (m : Bytes) (d : ℕ) (id : ConnectionId)
    → identify m d ≡ some id
    → (same id del_key ≡ false) × (same id empty_key ≡ false)
unfolding identify same del_key empty_key
identify-same m d id h = ground arith
