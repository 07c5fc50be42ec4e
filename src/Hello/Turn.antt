-- ===== src/Hello/Turn.antt =====
-- The way back of a packet: what `turn` changes, and what it leaves.
use moon_state.Prelude.{ℕ, ◌+◌, ◌^◌, ◌<◌, ◌≤◌, ◌≡◌, ◌⊎◌, inl, inr, refl, ◌∙◌, arith}
use moon_state.Headers.Bytes.{
  Bytes, Apart, write8, read16, write16, read32, write32, read16-write16, read32-write32,
  read16-write16-Apart, read16-write32-Apart, read32-write16-Apart, read32-write32-Apart,
  write16-byte-Apart, write32-byte-Apart, write8-other,
}
use moon_state.Headers.Ipv4
use moon_state.Headers.Udp
use moon_state.Hello.Packet.{turn}

-- Memory whose cells are bytes.
abbrev pub IsBytes : Bytes → Type 0
IsBytes m = (a : ℕ) → m a < 256

read16-lt : (m : Bytes) (p : ℕ) → IsBytes m → read16 m p < 65536
read16-lt m p h = omega (arith, h p, h (p + 1))

read32-lt : (m : Bytes) (p : ℕ) → IsBytes m → read32 m p < 2 ^ 32
read32-lt m p h = omega (arith, h p, h (p + 1), h (p + 2), h (p + 2 + 1))

-- The steps of `turn`, from the four values that they write.
module _ (ip udp s d sp dp : ℕ) (m0 : Bytes) where
  abbrev m1 : Bytes
  m1 = write8 (ip + 8) 64 m0

  abbrev m2 : Bytes
  m2 = write32 (ip + 16) s m1

  abbrev m3 : Bytes
  m3 = write32 (ip + 12) d m2

  abbrev m4 : Bytes
  m4 = write16 (ip + 10) 0 m3

  abbrev m5 : Bytes
  m5 = write16 (udp + 6) 0 m4

  abbrev m6 : Bytes
  m6 = write16 (udp + 2) sp m5

  abbrev steps : Bytes
  steps = write16 udp dp m6

  steps-Apart :
      (a : ℕ)
      → Apart udp 2 a 1
      → Apart (udp + 2) 2 a 1
      → Apart (udp + 6) 2 a 1
      → Apart (ip + 8) 12 a 1 ⊎ (a ≡ ip + 9)
      → steps a ≡ m0 a
  steps-Apart a h1 h2 h3 (inl (inl h)) =
      write16-byte-Apart a udp dp m6 h1
      ∙ write16-byte-Apart a (udp + 2) sp m5 h2
      ∙ write16-byte-Apart a (udp + 6) 0 m4 h3
      ∙ write16-byte-Apart a (ip + 10) 0 m3 (inl (omega arith))
      ∙ write32-byte-Apart a (ip + 12) d m2 (inl (omega arith))
      ∙ write32-byte-Apart a (ip + 16) s m1 (inl (omega arith))
      ∙ write8-other (ip + 8) 64 m0 a λ e. omega (arith, e)
  steps-Apart a h1 h2 h3 (inl (inr h)) =
      write16-byte-Apart a udp dp m6 h1
      ∙ write16-byte-Apart a (udp + 2) sp m5 h2
      ∙ write16-byte-Apart a (udp + 6) 0 m4 h3
      ∙ write16-byte-Apart a (ip + 10) 0 m3 (inr (omega arith))
      ∙ write32-byte-Apart a (ip + 12) d m2 (inr (omega arith))
      ∙ write32-byte-Apart a (ip + 16) s m1 (inr (omega arith))
      ∙ write8-other (ip + 8) 64 m0 a λ e. omega (arith, e)
  steps-Apart a h1 h2 h3 (inr e) =
      write16-byte-Apart a udp dp m6 h1
      ∙ write16-byte-Apart a (udp + 2) sp m5 h2
      ∙ write16-byte-Apart a (udp + 6) 0 m4 h3
      ∙ write16-byte-Apart a (ip + 10) 0 m3 (inr (omega arith))
      ∙ write32-byte-Apart a (ip + 12) d m2 (inr (omega arith))
      ∙ write32-byte-Apart a (ip + 16) s m1 (inr (omega arith))
      ∙ write8-other (ip + 8) 64 m0 a λ q. omega (arith, q)

  module _ (gap : ip + 20 ≤ udp) where
    steps-src_ip : d < 2 ^ 32 → read32 steps (ip + 12) ≡ d
    steps-src_ip h =
        read32-write16-Apart (ip + 12) udp dp m6 (inr (omega arith))
        ∙ read32-write16-Apart (ip + 12) (udp + 2) sp m5 (inr (omega arith))
        ∙ read32-write16-Apart (ip + 12) (udp + 6) 0 m4 (inr (omega arith))
        ∙ read32-write16-Apart (ip + 12) (ip + 10) 0 m3 (inl (omega arith))
        ∙ read32-write32 (ip + 12) d m2 h

    steps-dst_ip : s < 2 ^ 32 → read32 steps (ip + 16) ≡ s
    steps-dst_ip h =
        read32-write16-Apart (ip + 16) udp dp m6 (inr (omega arith))
        ∙ read32-write16-Apart (ip + 16) (udp + 2) sp m5 (inr (omega arith))
        ∙ read32-write16-Apart (ip + 16) (udp + 6) 0 m4 (inr (omega arith))
        ∙ read32-write16-Apart (ip + 16) (ip + 10) 0 m3 (inl (omega arith))
        ∙ read32-write32-Apart (ip + 16) (ip + 12) d m2 (inl (omega arith))
        ∙ read32-write32 (ip + 16) s m1 h

    steps-dst_port : sp < 65536 → read16 steps (udp + 2) ≡ sp
    steps-dst_port h =
        read16-write16-Apart (udp + 2) udp dp m6 (inl (omega arith))
        ∙ read16-write16 (udp + 2) sp m5 h

    -- A port, before its field is written, is the port that came in.
    ports-m4 : (q : ℕ) → udp ≤ q → q + 2 ≤ udp + 6 → read16 m5 q ≡ read16 m0 q
    ports-m4 q h k =
        read16-write16-Apart q (udp + 6) 0 m4 (inr (omega arith))
        ∙ read16-write16-Apart q (ip + 10) 0 m3 (inl (omega arith))
        ∙ read16-write32-Apart q (ip + 12) d m2 (inl (omega arith))
        ∙ read16-write32-Apart q (ip + 16) s m1 (inl (omega arith))
        ∙ omega (
          arith,
          write8-other (ip + 8) 64 m0 q (λ e. omega (arith, e)),
          write8-other (ip + 8) 64 m0 (q + 1) (λ e. omega (arith, e)),
        )

    -- So is an address, when it is read.
    ips-m1 : (q : ℕ) → ip + 12 ≤ q → read32 m1 q ≡ read32 m0 q
    ips-m1 q h = omega (
      arith,
      write8-other (ip + 8) 64 m0 q (λ e. omega (arith, e)),
      write8-other (ip + 8) 64 m0 (q + 1) (λ e. omega (arith, e)),
      write8-other (ip + 8) 64 m0 (q + 2) (λ e. omega (arith, e)),
      write8-other (ip + 8) 64 m0 (q + 2 + 1) (λ e. omega (arith, e)),
    )

-- What a packet that was turned round has: the addresses and the ports exchanged, and every byte
-- of the message, of the link header, of the length fields and of the protocol as it was.
pub record Turned (ip udp : ℕ) (m n : Bytes) : Type 0 where
  pub src_ip : Ipv4.src_ip n ip ≡ Ipv4.dst_ip m ip
  pub dst_ip : Ipv4.dst_ip n ip ≡ Ipv4.src_ip m ip
  pub src_port : Udp.src_port n udp ≡ Udp.dst_port m udp
  pub dst_port : Udp.dst_port n udp ≡ Udp.src_port m udp
  pub start : (a : ℕ) → a < ip + 8 → n a ≡ m a
  pub proto : Ipv4.proto n ip ≡ Ipv4.proto m ip
  pub payload : (a : ℕ) → udp + 8 ≤ a → n a ≡ m a

pub turn-Turned :
    (ip udp : ℕ) (m : Bytes) → ip + 20 ≤ udp → IsBytes m → Turned ip udp m (turn ip udp m)
unfolding turn Ipv4.src_ip Ipv4.dst_ip Ipv4.proto Udp.src_port Udp.dst_port
turn-Turned ip udp m gap b = record {
  src_ip = steps-src_ip ip udp s d sp dp m gap (rw d_is (read32-lt m (ip + 16) b)) ∙ d_is;
  dst_ip = steps-dst_ip ip udp s d sp dp m gap (rw s_is (read32-lt m (ip + 12) b)) ∙ s_is;
  src_port = read16-write16 udp dp t6 (rw dp_is (read16-lt m (udp + 2) b)) ∙ dp_is;
  dst_port = steps-dst_port ip udp s d sp dp m gap (rw sp_is (read16-lt m udp b)) ∙ sp_is;
  start = λ a h.
      steps-Apart ip udp s d sp dp m a (inr (omega arith)) (inr (omega arith)) (inr (omega arith))
        (inl (inr (omega arith)));
  proto =
      steps-Apart ip udp s d sp dp m (ip + 9) (inr (omega arith)) (inr (omega arith))
        (inr (omega arith)) (inr refl);
  payload = λ a h.
      steps-Apart ip udp s d sp dp m a (inl (omega arith)) (inl (omega arith)) (inl (omega arith))
        (inl (inl (omega arith)));
}
  where
    t1 : Bytes
    t1 = write8 (ip + 8) 64 m

    s : ℕ
    s = read32 t1 (ip + 12)

    d : ℕ
    d = read32 t1 (ip + 16)

    t5 : Bytes
    t5 = write16 (udp + 6) 0 (write16 (ip + 10) 0 (write32 (ip + 12) d (write32 (ip + 16) s t1)))

    sp : ℕ
    sp = read16 t5 udp

    dp : ℕ
    dp = read16 t5 (udp + 2)

    t6 : Bytes
    t6 = write16 (udp + 2) sp t5

    s_is : s ≡ read32 m (ip + 12)
    s_is = ips-m1 ip udp s d sp dp m gap (ip + 12) (omega arith)

    d_is : d ≡ read32 m (ip + 16)
    d_is = ips-m1 ip udp s d sp dp m gap (ip + 16) (omega arith)

    sp_is : sp ≡ read16 m udp
    sp_is = ports-m4 ip udp s d sp dp m gap udp (omega arith) (omega arith)

    dp_is : dp ≡ read16 m (udp + 2)
    dp_is = ports-m4 ip udp s d sp dp m gap (udp + 2) (omega arith) (omega arith)
