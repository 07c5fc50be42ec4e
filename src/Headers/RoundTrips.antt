-- ===== src/Headers/RoundTrips.antt =====
-- What a setter of a header writes, the getter reads.
use moon_state.Prelude.{
  ℕ, ◌+◌, ◌*◌, ◌/◌, ◌%◌, ◌^◌, ◌<◌, ◌≡◌, ◌-◌, refl, ap, ◌∙◌, inl, inr, Bool, true, false, arith,
  if◌then◌else◌,
}
use moon_state.Fault.{ok}
use moon_state.Headers.Bytes.{
  Bytes, read16, write16, read32, write32, swap16, swap32, swap16-lt, swap32-lt, swap16-swap16,
  swap32-swap32, read16-write16, read32-write32, read16-write16-Apart, read16-write32-Apart,
  read32-write16-Apart, read32-write32-Apart, write16-byte-Apart, write32-byte-Apart,
}
use moon_state.Headers.Tcp.{
  Flag, fin, syn, rst, ack, get_flag, set_flag, clear_flags, has_bit, set_bit, set_offset,
  get_header_len,
}
use moon_state.Headers.Tcp
use moon_state.Headers.Udp
use moon_state.Headers.Ipv4

abbrev pub same_flag : Flag → Flag → Bool
same_flag fin fin = true
same_flag fin syn = false
same_flag fin rst = false
same_flag fin ack = false
same_flag syn fin = false
same_flag syn syn = true
same_flag syn rst = false
same_flag syn ack = false
same_flag rst fin = false
same_flag rst syn = false
same_flag rst rst = true
same_flag rst ack = false
same_flag ack fin = false
same_flag ack syn = false
same_flag ack rst = false
same_flag ack ack = true

-- Setting one of the four TCP flags sets that flag and leaves the other three as they were.
pub get_flag-set_flag :
    (f g : Flag) (p : ℕ) (m : Bytes)
    → get_flag g (set_flag f p m) p ≡ (if same_flag f g then true else get_flag g m p)
unfolding get_flag set_flag has_bit set_bit
get_flag-set_flag fin fin p m = ground arith
get_flag-set_flag fin syn p m = ground arith
get_flag-set_flag fin rst p m = ground arith
get_flag-set_flag fin ack p m = ground arith
get_flag-set_flag syn fin p m = ground arith
get_flag-set_flag syn syn p m = ground arith
get_flag-set_flag syn rst p m = ground arith
get_flag-set_flag syn ack p m = ground arith
get_flag-set_flag rst fin p m = ground arith
get_flag-set_flag rst syn p m = ground arith
get_flag-set_flag rst rst p m = ground arith
get_flag-set_flag rst ack p m = ground arith
get_flag-set_flag ack fin p m = ground arith
get_flag-set_flag ack syn p m = ground arith
get_flag-set_flag ack rst p m = ground arith
get_flag-set_flag ack ack p m = ground arith

-- After `setOffset`, `getHeaderLen` is four times the four low bits of the given offset.
pub get_header_len-set_offset :
    (p offset : ℕ) (m : Bytes) → get_header_len (set_offset p offset m) p ≡ offset % 16 * 4
unfolding get_header_len set_offset
get_header_len-set_offset p offset m = ground arith

-- After the TCP setters, the getters read what was written: both ports, the sequence number, the
-- acknowledgement number and the window. Conditions: each value fits its field.
pub tcp_round_trip :
    (p src dst s a window : ℕ) (m : Bytes)
    → src < 65536
    → dst < 65536
    → s < 2 ^ 32
    → a < 2 ^ 32
    → window < 65536
    → (let n = Tcp.set_src_port p src (
          Tcp.set_dst_port p dst (Tcp.set_seq p s (Tcp.set_ack p a (Tcp.set_window p window m)))) in
        (Tcp.get_src_port n p ≡ src)
        × (Tcp.get_dst_port n p ≡ dst)
        × (Tcp.get_seq n p ≡ s)
        × (Tcp.get_ack n p ≡ a)
        × (Tcp.get_window n p ≡ window))
unfolding Tcp.set_src_port Tcp.set_dst_port Tcp.set_seq Tcp.set_ack Tcp.set_window Tcp.get_src_port
    Tcp.get_dst_port Tcp.get_seq Tcp.get_ack Tcp.get_window Tcp.src_port Tcp.dst_port
tcp_round_trip p src dst s a window m h1 h2 h3 h4 h5 =
    let m1 : Bytes = Tcp.set_window p window m in
    let m2 : Bytes = Tcp.set_ack p a m1 in
    let m3 : Bytes = Tcp.set_seq p s m2 in
    let m4 : Bytes = Tcp.set_dst_port p dst m3 in
    let seq_is : read32 (write16 p (swap16 src) m4) (p + 4) ≡ swap32 s =
      read32-write16-Apart (p + 4) p (swap16 src) m4 (inl (omega arith))
      ∙ read32-write16-Apart (p + 4) (p + 2) (swap16 dst) m3 (inl (omega arith))
      ∙ read32-write32 (p + 4) (swap32 s) m2 (swap32-lt s) in
    let ack_is : read32 (write16 p (swap16 src) m4) (p + 8) ≡ swap32 a =
      read32-write16-Apart (p + 8) p (swap16 src) m4 (inl (omega arith))
      ∙ read32-write16-Apart (p + 8) (p + 2) (swap16 dst) m3 (inl (omega arith))
      ∙ read32-write32-Apart (p + 8) (p + 4) (swap32 s) m2 (inl (omega arith))
      ∙ read32-write32 (p + 8) (swap32 a) m1 (swap32-lt a) in
    let window_is : read16 (write16 p (swap16 src) m4) (p + 14) ≡ swap16 window =
      read16-write16-Apart (p + 14) p (swap16 src) m4 (inl (omega arith))
      ∙ read16-write16-Apart (p + 14) (p + 2) (swap16 dst) m3 (inl (omega arith))
      ∙ read16-write32-Apart (p + 14) (p + 4) (swap32 s) m2 (inl (omega arith))
      ∙ read16-write32-Apart (p + 14) (p + 8) (swap32 a) m1 (inl (omega arith))
      ∙ read16-write16 (p + 14) (swap16 window) m (swap16-lt window) in
    let dst_is : read16 (write16 p (swap16 src) m4) (p + 2) ≡ swap16 dst =
      read16-write16-Apart (p + 2) p (swap16 src) m4 (inl (omega arith))
      ∙ read16-write16 (p + 2) (swap16 dst) m3 (swap16-lt dst) in
    (
      ap swap16 (read16-write16 p (swap16 src) m4 (swap16-lt src)) ∙ swap16-swap16 src h1,
      ap swap16 dst_is ∙ swap16-swap16 dst h2,
      ap swap32 seq_is ∙ swap32-swap32 s h3,
      ap swap32 ack_is ∙ swap32-swap32 a h4,
      ap swap16 window_is ∙ swap16-swap16 window h5,
    )

-- After the UDP setters, the getters read what was written: both ports and the payload length.
-- Conditions: the ports fit their fields, and the payload length with the header does.
pub udp_round_trip :
    (p src dst len : ℕ) (m : Bytes)
    → src < 65536
    → dst < 65536
    → len + 8 < 65536
    → (let n = Udp.set_src_port p src (Udp.set_dst_port p dst (Udp.set_payload_length p len m)) in
        (Udp.get_src_port n p ≡ src)
        × (Udp.get_dst_port n p ≡ dst)
        × (Udp.get_payload_length n p ≡ len))
unfolding Udp.set_src_port Udp.set_dst_port Udp.set_payload_length Udp.get_src_port Udp.get_dst_port
    Udp.get_payload_length Udp.src_port Udp.dst_port
udp_round_trip p src dst len m h1 h2 h3 = (ground arith, ground arith, ground arith)

-- From the first byte, the length field and the two addresses.
lengths :
    (n : Bytes) (p hl len src dst first : ℕ)
    → n p ≡ 64 + hl
    → first ≡ 64 + hl
    → read16 n (p + 2) ≡ swap16 ((first % 16 * 4 + len) % 65536)
    → swap32 (read32 n (p + 12)) ≡ src
    → swap32 (read32 n (p + 16)) ≡ dst
    → hl < 16
    → hl * 4 + len < 65536
    → (Ipv4.get_src_ip n p ≡ src)
      × (Ipv4.get_dst_ip n p ≡ dst)
      × (Ipv4.ihl n p ≡ hl)
      × (Ipv4.get_payload_length n p ≡ len)
      × (Ipv4.get_length n p ≡ hl * 4 + len)
      × (Ipv4.version n p ≡ ok 4)
unfolding Ipv4.get_src_ip Ipv4.get_dst_ip Ipv4.ihl Ipv4.get_payload_length Ipv4.get_length
    Ipv4.version Ipv4.src_ip Ipv4.dst_ip
lengths n p hl len src dst first e f l a b h k =
    let low : n p % 16 ≡ hl = omega (arith, e) in
    let start : first % 16 ≡ hl = omega (arith, f) in
    let four : n p / 16 % 16 ≡ 4 = omega (arith, e) in
    let total : (first % 16 * 4 + len) % 65536 ≡ hl * 4 + len = omega (arith, start) in
    let long : swap16 (read16 n (p + 2)) ≡ hl * 4 + len =
      ap swap16 (l ∙ ap swap16 total) ∙ swap16-swap16 (hl * 4 + len) k in
    (a, b, low, rw (long, low) (back (hl * 4) len k), long, rw four refl)
  where
    back : (x y : ℕ) → x + y < 65536 → (x + y + 65536 - x) % 65536 ≡ y
    back x y h = omega arith

-- After the IPv4 setters, the getters read what was written: the addresses, the header length,
-- the payload length, the total length as the sum of both, and version four. Conditions: each
-- value fits its field.
pub ipv4_round_trip :
    (p src dst len hl : ℕ) (m : Bytes)
    → src < 2 ^ 32
    → dst < 2 ^ 32
    → hl < 16
    → hl * 4 + len < 65536
    → (let n = Ipv4.set_src_ip p src (
          Ipv4.set_dst_ip p dst
            (Ipv4.set_payload_length p len (Ipv4.set_version p (Ipv4.set_ihl p hl m)))) in
        (Ipv4.get_src_ip n p ≡ src)
        × (Ipv4.get_dst_ip n p ≡ dst)
        × (Ipv4.ihl n p ≡ hl)
        × (Ipv4.get_payload_length n p ≡ len)
        × (Ipv4.get_length n p ≡ hl * 4 + len)
        × (Ipv4.version n p ≡ ok 4))
unfolding Ipv4.set_src_ip Ipv4.set_dst_ip Ipv4.set_payload_length Ipv4.set_version Ipv4.set_ihl
    Ipv4.get_src_ip Ipv4.get_dst_ip Ipv4.ihl Ipv4.get_payload_length Ipv4.get_length Ipv4.version
    Ipv4.src_ip Ipv4.dst_ip
ipv4_round_trip p src dst len hl m h1 h2 h3 h4 =
    let m1 : Bytes = Ipv4.set_version p (Ipv4.set_ihl p hl m) in
    let first : m1 p ≡ 64 + hl = ground arith in
    let total : ℕ = swap16 ((m1 p % 16 * 4 + len) % 65536) in
    let m2 : Bytes = write16 (p + 2) total m1 in
    let m3 : Bytes = Ipv4.set_dst_ip p dst m2 in
    let n : Bytes = write32 (p + 12) (swap32 src) m3 in
    let byte : n p ≡ 64 + hl =
      write32-byte-Apart p (p + 12) (swap32 src) m3 (inr (omega arith))
      ∙ write32-byte-Apart p (p + 16) (swap32 dst) m2 (inr (omega arith))
      ∙ write16-byte-Apart p (p + 2) total m1 (inr (omega arith))
      ∙ first in
    let length_is : read16 n (p + 2) ≡ total =
      read16-write32-Apart (p + 2) (p + 12) (swap32 src) m3 (inr (omega arith))
      ∙ read16-write32-Apart (p + 2) (p + 16) (swap32 dst) m2 (inr (omega arith))
      ∙ read16-write16 (p + 2) total m1 (swap16-lt ((m1 p % 16 * 4 + len) % 65536)) in
    let dst_is : read32 n (p + 16) ≡ swap32 dst =
      read32-write32-Apart (p + 16) (p + 12) (swap32 src) m3 (inl (omega arith))
      ∙ read32-write32 (p + 16) (swap32 dst) m2 (swap32-lt dst) in
    lengths n p hl len src dst (m1 p) byte first length_is
      (ap swap32 (read32-write32 (p + 12) (swap32 src) m3 (swap32-lt src)) ∙ swap32-swap32 src h1)
      (ap swap32 dst_is ∙ swap32-swap32 dst h2) h3 h4
