-- ===== src/Hello/First.antt =====
-- What a client's first packet is built by: `set_ident`, `first_ip` and `first_udp`.
use moon_state.Prelude.{ℕ, ◌+◌, ◌%◌, ◌/◌, ◌^◌, ◌<◌, ◌≤◌, ◌≡◌, ◌⊎◌, ◌∙◌, refl, ap, inl, inr, arith}
use moon_state.Headers.Bytes.{
  Bytes, write8, read16, write16, read32, write32, swap16, swap32, swap16-lt, swap32-lt,
  read16-write16, read32-write32, read16-write16-Apart, read32-write16-Apart, read32-write32-Apart,
  write16-byte-Apart, write32-byte-Apart,
}
use moon_state.Headers.Ipv4
use moon_state.Headers.Udp
use moon_state.Hello.Packet.{ip_at, udp_at, msg_at, ident, set_ident, first_ip, first_udp}

-- Two memories with the same four, or two, bytes.
pub same32 :
    (n k : Bytes) (q : ℕ)
    → n q ≡ k q
    → n (q + 1) ≡ k (q + 1)
    → n (q + 2) ≡ k (q + 2)
    → n (q + 2 + 1) ≡ k (q + 2 + 1)
    → read32 n q ≡ read32 k q
same32 n k q e0 e1 e2 e3 = omega (arith, e0, e1, e2, e3)

module _ (p v : ℕ) (m : Bytes) where
  pub set_ident_other : (a : ℕ) → (a < p) ⊎ (p + 8 ≤ a) → set_ident p v m a ≡ m a
  unfolding set_ident
  set_ident_other a (inl h) =
      write32-byte-Apart a p (v % 2 ^ 32) (write32 (p + 4) (v / 2 ^ 32 % 2 ^ 32) m)
        (inr (omega arith))
      ∙ write32-byte-Apart a (p + 4) (v / 2 ^ 32 % 2 ^ 32) m (inr (omega arith))
  set_ident_other a (inr h) =
      write32-byte-Apart a p (v % 2 ^ 32) (write32 (p + 4) (v / 2 ^ 32 % 2 ^ 32) m)
        (inl (omega arith))
      ∙ write32-byte-Apart a (p + 4) (v / 2 ^ 32 % 2 ^ 32) m (inl (omega arith))

  pub ident-set_ident : v < 2 ^ 64 → ident (set_ident p v m) p ≡ v
  unfolding ident set_ident
  ident-set_ident h =
      let low : read32 (set_ident p v m) p ≡ v % 2 ^ 32 =
        read32-write32 p (v % 2 ^ 32) (write32 (p + 4) (v / 2 ^ 32 % 2 ^ 32) m) (omega arith) in
      let high : read32 (set_ident p v m) (p + 4) ≡ v / 2 ^ 32 % 2 ^ 32 =
        read32-write32-Apart (p + 4) p (v % 2 ^ 32) (write32 (p + 4) (v / 2 ^ 32 % 2 ^ 32) m)
          (inl (omega arith))
        ∙ read32-write32 (p + 4) (v / 2 ^ 32 % 2 ^ 32) m (omega arith) in
      omega (arith, low, high)

-- The IP header, in a buffer whose first byte of it is zero.
module _ (ip src dst : ℕ) (m : Bytes) (clear : m ip ≡ 0) where
  abbrev pub h1 : Bytes
  h1 = Ipv4.set_length ip 86 (write8 (ip + 8) 64 (Ipv4.set_ihl ip 5 (Ipv4.set_version ip m)))

  abbrev pub h2 : Bytes
  h2 = write32 (ip + 16) (swap32 dst) h1

  abbrev pub h3 : Bytes
  h3 = write32 (ip + 12) (swap32 src) h2

  h1_first : h1 ip ≡ 69
  unfolding Ipv4.set_length Ipv4.set_ihl Ipv4.set_version
  h1_first = ground (arith, clear)

  pub first_ip_first : first_ip ip src dst m ip ≡ 69
  unfolding first_ip Ipv4.set_proto_udp Ipv4.set_src_ip Ipv4.set_dst_ip
  first_ip_first =
      write16-byte-Apart ip (ip + 10) 0 (write8 (ip + 9) 17 h3) (inr (omega arith))
      ∙ skip h3
      ∙ write32-byte-Apart ip (ip + 12) (swap32 src) h2 (inr (omega arith))
      ∙ write32-byte-Apart ip (ip + 16) (swap32 dst) h1 (inr (omega arith))
      ∙ h1_first
    where
      skip : (k : Bytes) → write8 (ip + 9) 17 k ip ≡ k ip
      skip k = ground arith

  pub first_ip_proto : first_ip ip src dst m (ip + 9) ≡ 17
  unfolding first_ip Ipv4.set_proto_udp Ipv4.set_src_ip Ipv4.set_dst_ip
  first_ip_proto =
      write16-byte-Apart (ip + 9) (ip + 10) 0 (write8 (ip + 9) 17 h3) (inr (omega arith)) ∙ hit h3
    where
      hit : (k : Bytes) → write8 (ip + 9) 17 k (ip + 9) ≡ 17
      hit k = ground arith

  past : (k : Bytes) (q : ℕ) → ip + 12 ≤ q → read32 (write8 (ip + 9) 17 k) q ≡ read32 k q
  past k q h = ground arith

  pub first_ip_src : read32 (first_ip ip src dst m) (ip + 12) ≡ swap32 src
  unfolding first_ip Ipv4.set_proto_udp Ipv4.set_src_ip Ipv4.set_dst_ip
  first_ip_src =
      read32-write16-Apart (ip + 12) (ip + 10) 0 (write8 (ip + 9) 17 h3) (inl (omega arith))
      ∙ past h3 (ip + 12) (omega arith)
      ∙ read32-write32 (ip + 12) (swap32 src) h2 (swap32-lt src)

  pub first_ip_dst : read32 (first_ip ip src dst m) (ip + 16) ≡ swap32 dst
  unfolding first_ip Ipv4.set_proto_udp Ipv4.set_src_ip Ipv4.set_dst_ip
  first_ip_dst =
      read32-write16-Apart (ip + 16) (ip + 10) 0 (write8 (ip + 9) 17 h3) (inl (omega arith))
      ∙ past h3 (ip + 16) (omega arith)
      ∙ read32-write32-Apart (ip + 16) (ip + 12) (swap32 src) h2 (inl (omega arith))
      ∙ read32-write32 (ip + 16) (swap32 dst) h1 (swap32-lt dst)

-- What follows the message: the ethertype and the UDP header.
module _ (d udp sp dp : ℕ) (m : Bytes) (behind : d + 14 ≤ udp) where
  abbrev pub w1 : Bytes
  w1 = write16 (d + 12) (swap16 2048) m

  abbrev pub w2 : Bytes
  w2 = write16 (udp + 6) 0 w1

  abbrev pub w3 : Bytes
  w3 = write16 (udp + 2) (swap16 dp) w2

  abbrev pub w4 : Bytes
  w4 = write16 udp (swap16 sp) w3

  abbrev pub len : ℕ
  len = swap16 ((50 + 8) % 65536)

  first_udp_is : first_udp d udp sp dp m ≡ write16 (udp + 4) len w4
  unfolding first_udp Udp.set_dst_port Udp.set_src_port Udp.set_payload_length
  first_udp_is = refl

  -- The bytes between the Ethernet and the UDP header, and those behind.
  pub first_udp_other :
      (a : ℕ) → d + 14 ≤ a → (a < udp) ⊎ (udp + 8 ≤ a) → first_udp d udp sp dp m a ≡ m a
  first_udp_other a l (inl h) =
      ap (λ (k : Bytes). k a) first_udp_is
      ∙ write16-byte-Apart a (udp + 4) len w4 (inr (omega arith))
      ∙ write16-byte-Apart a udp (swap16 sp) w3 (inr (omega arith))
      ∙ write16-byte-Apart a (udp + 2) (swap16 dp) w2 (inr (omega arith))
      ∙ write16-byte-Apart a (udp + 6) 0 w1 (inr (omega arith))
      ∙ write16-byte-Apart a (d + 12) (swap16 2048) m (inl (omega arith))
  first_udp_other a l (inr h) =
      ap (λ (k : Bytes). k a) first_udp_is
      ∙ write16-byte-Apart a (udp + 4) len w4 (inl (omega arith))
      ∙ write16-byte-Apart a udp (swap16 sp) w3 (inl (omega arith))
      ∙ write16-byte-Apart a (udp + 2) (swap16 dp) w2 (inl (omega arith))
      ∙ write16-byte-Apart a (udp + 6) 0 w1 (inl (omega arith))
      ∙ write16-byte-Apart a (d + 12) (swap16 2048) m (inl (omega arith))

  pub first_udp_ethertype : read16 (first_udp d udp sp dp m) (d + 12) ≡ swap16 2048
  first_udp_ethertype =
      ap (λ (k : Bytes). read16 k (d + 12)) first_udp_is
      ∙ read16-write16-Apart (d + 12) (udp + 4) len w4 (inr (omega arith))
      ∙ read16-write16-Apart (d + 12) udp (swap16 sp) w3 (inr (omega arith))
      ∙ read16-write16-Apart (d + 12) (udp + 2) (swap16 dp) w2 (inr (omega arith))
      ∙ read16-write16-Apart (d + 12) (udp + 6) 0 w1 (inr (omega arith))
      ∙ read16-write16 (d + 12) (swap16 2048) m (omega arith)

  pub first_udp_src : read16 (first_udp d udp sp dp m) udp ≡ swap16 sp
  first_udp_src =
      ap (λ (k : Bytes). read16 k udp) first_udp_is
      ∙ read16-write16-Apart udp (udp + 4) len w4 (inr (omega arith))
      ∙ read16-write16 udp (swap16 sp) w3 (swap16-lt sp)

  pub first_udp_dst : read16 (first_udp d udp sp dp m) (udp + 2) ≡ swap16 dp
  first_udp_dst =
      ap (λ (k : Bytes). read16 k (udp + 2)) first_udp_is
      ∙ read16-write16-Apart (udp + 2) (udp + 4) len w4 (inr (omega arith))
      ∙ read16-write16-Apart (udp + 2) udp (swap16 sp) w3 (inl (omega arith))
      ∙ read16-write16 (udp + 2) (swap16 dp) w2 (swap16-lt dp)

-- Where everything is in a packet with an IP header of the usual length.
module _ (d : ℕ) (k : Bytes) (first : k (ip_at d) ≡ 69) where
  pub udp_at_is : udp_at k d ≡ d + 34
  unfolding udp_at ip_at Ipv4.get_payload Ipv4.ihl
  udp_at_is = omega (arith, first)

  pub msg_at_is : msg_at k d ≡ d + 42
  unfolding msg_at
  msg_at_is = omega (arith, udp_at_is)
