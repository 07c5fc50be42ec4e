-- ===== src/Dtls/Packets.antt =====
-- What the packets say that the DTLS protocols send.
use moon_state.Prelude.{
  ℕ, zero, suc, ◌+◌, ◌*◌, ◌%◌, ◌^◌, ◌<◌, ◌≤◌, ◌≡◌, ◌⊎◌, ◌∙◌, refl, ap, inl, inr, arith, List, [],
  ◌∷◌, length,
}
use moon_state.Headers.Bytes.{
  Bytes, write8, read16, write16, read32, write32, swap16, swap32, swap16-lt, swap32-lt,
  read16-write16, read32-write32, read16-write16-Apart, read32-write16-Apart, read32-write32-Apart,
  write16-byte-Apart, write32-byte-Apart, write8-other,
}
use moon_state.Headers.Ipv4
use moon_state.Headers.Udp
use moon_state.Hello.Packet.{ip_at, udp_at}
use moon_state.Tcp.Packet.{read_bytes, write_bytes}
use moon_state.Dtls.Store.{Ends, udp_payload, fill_ip, fill_udp}

-- Bytes that were written are read.
pub write_bytes_below :
    (p : ℕ) (bs : List ℕ) (m : Bytes) (a : ℕ) → a < p → write_bytes p bs m a ≡ m a
unfolding write_bytes
write_bytes_below p [] m a h = refl
write_bytes_below p (b ∷ bs) m a h =
    write_bytes_below (p + 1) bs (write8 p b m) a (omega arith)
    ∙ write8-other p b m a λ e. omega (arith, e)

pub read_bytes_same :
    (n p : ℕ) (m k : Bytes) → ((a : ℕ) → p ≤ a → m a ≡ k a) → read_bytes n p m ≡ read_bytes n p k
unfolding read_bytes
read_bytes_same zero p m k h = refl
read_bytes_same (suc n) p m k h =
    let first = h p (omega arith) in
    let rest = read_bytes_same n (p + 1) m k (λ a l. h a (omega arith)) in cc

pub read_bytes-write_bytes :
    (p : ℕ) (bs : List ℕ) (m : Bytes) → read_bytes (length bs) p (write_bytes p bs m) ≡ bs
unfolding read_bytes write_bytes
read_bytes-write_bytes p [] m = refl
read_bytes-write_bytes p (b ∷ bs) m =
    let first : write_bytes (p + 1) bs (write8 p b m) p ≡ b =
      write_bytes_below (p + 1) bs (write8 p b m) p (omega arith) ∙ ground arith in
    let rest = read_bytes-write_bytes (p + 1) bs (write8 p b m) in cc

-- The addresses and ports have the widths of their types.
pub record Sized (e : Ends) : Type 0 where
  pub local_ip : e.local_ip < 2 ^ 32
  pub remote_ip : e.remote_ip < 2 ^ 32
  pub local_port : e.local_port < 65536
  pub remote_port : e.remote_port < 65536

-- The packet at `d` is one with the data `bs` from one end of the connection to the other, where
-- its own header says that the UDP header is.
pub record Carries (e : Ends) (d : ℕ) (bs : List ℕ) (n : Bytes) : Type 0 where
  pub src_ip : Ipv4.get_src_ip n (ip_at d) ≡ e.local_ip
  pub dst_ip : Ipv4.get_dst_ip n (ip_at d) ≡ e.remote_ip
  pub src_port : Udp.get_src_port n (udp_at n d) ≡ e.local_port
  pub dst_port : Udp.get_dst_port n (udp_at n d) ≡ e.remote_port
  pub proto : Ipv4.proto n (ip_at d) ≡ Ipv4.proto_udp
  pub payload : udp_payload d n ≡ bs

-- The IP header.
module _ (e : Ends) (ip n : ℕ) (m : Bytes) where
  abbrev len : ℕ
  len = swap16 ((m ip % 16 * 4 + (n + 8)) % 65536)

  abbrev i2 : Bytes
  i2 = write8 (ip + 9) 17 (write16 (ip + 2) len m)

  abbrev i3 : Bytes
  i3 = write32 (ip + 12) (swap32 e.local_ip) i2

  abbrev i4 : Bytes
  i4 = write32 (ip + 16) (swap32 e.remote_ip) i3

  abbrev i5 : Bytes
  i5 = write16 (ip + 10) 0 i4

  fill_ip_is : fill_ip e ip n m ≡ write8 (ip + 8) 64 i5
  unfolding fill_ip Ipv4.set_payload_length Ipv4.ihl Ipv4.set_proto_udp Ipv4.set_src_ip
      Ipv4.set_dst_ip
  fill_ip_is = refl

  pub fill_ip_other : (a : ℕ) → (a < ip + 2) ⊎ (ip + 20 ≤ a) → fill_ip e ip n m a ≡ m a
  fill_ip_other a (inl h) =
      ap (λ (k : Bytes). k a) fill_ip_is
      ∙ write8-other (ip + 8) 64 i5 a (λ q. omega (arith, q))
      ∙ write16-byte-Apart a (ip + 10) 0 i4 (inr (omega arith))
      ∙ write32-byte-Apart a (ip + 16) (swap32 e.remote_ip) i3 (inr (omega arith))
      ∙ write32-byte-Apart a (ip + 12) (swap32 e.local_ip) i2 (inr (omega arith))
      ∙ write8-other (ip + 9) 17 (write16 (ip + 2) len m) a (λ q. omega (arith, q))
      ∙ write16-byte-Apart a (ip + 2) len m (inr (omega arith))
  fill_ip_other a (inr h) =
      ap (λ (k : Bytes). k a) fill_ip_is
      ∙ write8-other (ip + 8) 64 i5 a (λ q. omega (arith, q))
      ∙ write16-byte-Apart a (ip + 10) 0 i4 (inl (omega arith))
      ∙ write32-byte-Apart a (ip + 16) (swap32 e.remote_ip) i3 (inl (omega arith))
      ∙ write32-byte-Apart a (ip + 12) (swap32 e.local_ip) i2 (inl (omega arith))
      ∙ write8-other (ip + 9) 17 (write16 (ip + 2) len m) a (λ q. omega (arith, q))
      ∙ write16-byte-Apart a (ip + 2) len m (inl (omega arith))

  past : (k : Bytes) (q : ℕ) → ip + 9 ≤ q → read32 (write8 (ip + 8) 64 k) q ≡ read32 k q
  past k q h = ground arith

  pub fill_ip_src : read32 (fill_ip e ip n m) (ip + 12) ≡ swap32 e.local_ip
  fill_ip_src =
      ap (λ (k : Bytes). read32 k (ip + 12)) fill_ip_is
      ∙ past i5 (ip + 12) (omega arith)
      ∙ read32-write16-Apart (ip + 12) (ip + 10) 0 i4 (inl (omega arith))
      ∙ read32-write32-Apart (ip + 12) (ip + 16) (swap32 e.remote_ip) i3 (inr (omega arith))
      ∙ read32-write32 (ip + 12) (swap32 e.local_ip) i2 (swap32-lt e.local_ip)

  pub fill_ip_dst : read32 (fill_ip e ip n m) (ip + 16) ≡ swap32 e.remote_ip
  fill_ip_dst =
      ap (λ (k : Bytes). read32 k (ip + 16)) fill_ip_is
      ∙ past i5 (ip + 16) (omega arith)
      ∙ read32-write16-Apart (ip + 16) (ip + 10) 0 i4 (inl (omega arith))
      ∙ read32-write32 (ip + 16) (swap32 e.remote_ip) i3 (swap32-lt e.remote_ip)

  pub fill_ip_proto : fill_ip e ip n m (ip + 9) ≡ 17
  fill_ip_proto =
      ap (λ (k : Bytes). k (ip + 9)) fill_ip_is
      ∙ write8-other (ip + 8) 64 i5 (ip + 9) (λ q. omega (arith, q))
      ∙ write16-byte-Apart (ip + 9) (ip + 10) 0 i4 (inr (omega arith))
      ∙ write32-byte-Apart (ip + 9) (ip + 16) (swap32 e.remote_ip) i3 (inr (omega arith))
      ∙ write32-byte-Apart (ip + 9) (ip + 12) (swap32 e.local_ip) i2 (inr (omega arith))
      ∙ hit (write16 (ip + 2) len m)
    where
      hit : (k : Bytes) → write8 (ip + 9) 17 k (ip + 9) ≡ 17
      hit k = ground arith

-- The UDP header.
module _ (e : Ends) (udp n : ℕ) (m : Bytes) where
  abbrev u1 : Bytes
  u1 = write16 (udp + 2) (swap16 e.remote_port) m

  abbrev u2 : Bytes
  u2 = write16 udp (swap16 e.local_port) u1

  fill_udp_is : fill_udp e udp n m ≡ write16 (udp + 4) (swap16 ((n + 8) % 65536)) u2
  unfolding fill_udp Udp.set_dst_port Udp.set_src_port Udp.set_payload_length
  fill_udp_is = refl

  pub fill_udp_other : (a : ℕ) → (a < udp) ⊎ (udp + 8 ≤ a) → fill_udp e udp n m a ≡ m a
  fill_udp_other a (inl h) =
      ap (λ (k : Bytes). k a) fill_udp_is
      ∙ write16-byte-Apart a (udp + 4) (swap16 ((n + 8) % 65536)) u2 (inr (omega arith))
      ∙ write16-byte-Apart a udp (swap16 e.local_port) u1 (inr (omega arith))
      ∙ write16-byte-Apart a (udp + 2) (swap16 e.remote_port) m (inr (omega arith))
  fill_udp_other a (inr h) =
      ap (λ (k : Bytes). k a) fill_udp_is
      ∙ write16-byte-Apart a (udp + 4) (swap16 ((n + 8) % 65536)) u2 (inl (omega arith))
      ∙ write16-byte-Apart a udp (swap16 e.local_port) u1 (inl (omega arith))
      ∙ write16-byte-Apart a (udp + 2) (swap16 e.remote_port) m (inl (omega arith))

  pub fill_udp_src : read16 (fill_udp e udp n m) udp ≡ swap16 e.local_port
  fill_udp_src =
      ap (λ (k : Bytes). read16 k udp) fill_udp_is
      ∙ read16-write16-Apart udp (udp + 4) (swap16 ((n + 8) % 65536)) u2 (inr (omega arith))
      ∙ read16-write16 udp (swap16 e.local_port) u1 (swap16-lt e.local_port)

  pub fill_udp_dst : read16 (fill_udp e udp n m) (udp + 2) ≡ swap16 e.remote_port
  fill_udp_dst =
      ap (λ (k : Bytes). read16 k (udp + 2)) fill_udp_is
      ∙ read16-write16-Apart (udp + 2) (udp + 4) (swap16 ((n + 8) % 65536)) u2 (inr (omega arith))
      ∙ read16-write16-Apart (udp + 2) udp (swap16 e.local_port) u1 (inl (omega arith))
      ∙ read16-write16 (udp + 2) (swap16 e.remote_port) m (swap16-lt e.remote_port)

  pub fill_udp_len : read16 (fill_udp e udp n m) (udp + 4) ≡ swap16 ((n + 8) % 65536)
  fill_udp_len =
      ap (λ (k : Bytes). read16 k (udp + 4)) fill_udp_is
      ∙ read16-write16 (udp + 4) (swap16 ((n + 8) % 65536)) u2 (swap16-lt ((n + 8) % 65536))
