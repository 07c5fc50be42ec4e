-- ===== src/Headers/Bytes.antt =====
-- Bytes in memory, the host's little-endian integers in them, and the network's byte order.
use moon_state.Prelude.{
  ℕ, ◌+◌, ◌*◌, ◌/◌, ◌%◌, ◌^◌, ◌<◌, ◌≤◌, ◌≡◌, ◌≢◌, ◌∙◌, ◌⊎◌, inl, inr, arith, ◌==◌, if◌then◌else◌,
}

-- The byte at each address.
abbrev pub Bytes : Type 0
Bytes = ℕ → ℕ

abbrev pub write8 : ℕ → ℕ → Bytes → Bytes
write8 p v m a = if a == p then v else m a

abbrev pub read16 : Bytes → ℕ → ℕ
read16 m p = m p + m (p + 1) * 256

abbrev pub write16 : ℕ → ℕ → Bytes → Bytes
write16 p v m = write8 p (v % 256) (write8 (p + 1) (v / 256 % 256) m)

abbrev pub read32 : Bytes → ℕ → ℕ
read32 m p = read16 m p + read16 m (p + 2) * 65536

abbrev pub write32 : ℕ → ℕ → Bytes → Bytes
write32 p v m = write16 p (v % 65536) (write16 (p + 2) (v / 65536 % 65536) m)

-- `htons` and `ntohs`, which are one function.
abbrev pub swap16 : ℕ → ℕ
swap16 v = v % 256 * 256 + v / 256 % 256

-- `htonl` and `ntohl`.
abbrev pub swap32 : ℕ → ℕ
swap32 v = swap16 (v % 65536) * 65536 + swap16 (v / 65536 % 65536)

pub swap16-swap16 : (v : ℕ) → v < 65536 → swap16 (swap16 v) ≡ v
swap16-swap16 v h = omega arith

pub swap16-lt : (v : ℕ) → swap16 v < 65536
swap16-lt v = omega arith

pub swap32-swap32 : (v : ℕ) → v < 2 ^ 32 → swap32 (swap32 v) ≡ v
swap32-swap32 v h = omega arith

pub swap32-lt : (v : ℕ) → swap32 v < 2 ^ 32
swap32-lt v = omega arith

pub read16-write16 : (p v : ℕ) (m : Bytes) → v < 65536 → read16 (write16 p v m) p ≡ v
read16-write16 p v m h = ground arith

pub write8-other : (p v : ℕ) (m : Bytes) (a : ℕ) → a ≢ p → write8 p v m a ≡ m a
write8-other p v m a h = ground arith

-- `k` bytes from `p` on and `l` bytes from `q` on do not overlap.
abbrev pub Apart : ℕ → ℕ → ℕ → ℕ → Type 0
Apart p k q l = (p + k ≤ q) ⊎ (q + l ≤ p)

pub read16-write16-Apart :
    (q p v : ℕ) (m : Bytes) → Apart p 2 q 2 → read16 (write16 p v m) q ≡ read16 m q
read16-write16-Apart q p v m (inl h) = ground arith
read16-write16-Apart q p v m (inr h) = ground arith

pub read16-write32-Apart :
    (q p v : ℕ) (m : Bytes) → Apart p 4 q 2 → read16 (write32 p v m) q ≡ read16 m q
read16-write32-Apart q p v m (inl h) =
    read16-write16-Apart q p (v % 65536) (write16 (p + 2) (v / 65536 % 65536) m) (inl (omega arith))
    ∙ read16-write16-Apart q (p + 2) (v / 65536 % 65536) m (inl (omega arith))
read16-write32-Apart q p v m (inr h) =
    read16-write16-Apart q p (v % 65536) (write16 (p + 2) (v / 65536 % 65536) m) (inr (omega arith))
    ∙ read16-write16-Apart q (p + 2) (v / 65536 % 65536) m (inr (omega arith))

halves :
    (m n : Bytes) (q : ℕ)
    → read16 m q ≡ read16 n q
    → read16 m (q + 2) ≡ read16 n (q + 2)
    → read32 m q ≡ read32 n q
halves m n q e f = omega (arith, e, f)

pub read32-write16-Apart :
    (q p v : ℕ) (m : Bytes) → Apart p 2 q 4 → read32 (write16 p v m) q ≡ read32 m q
read32-write16-Apart q p v m (inl h) =
    halves (write16 p v m) m q (read16-write16-Apart q p v m (inl (omega arith)))
      (read16-write16-Apart (q + 2) p v m (inl (omega arith)))
read32-write16-Apart q p v m (inr h) =
    halves (write16 p v m) m q (read16-write16-Apart q p v m (inr (omega arith)))
      (read16-write16-Apart (q + 2) p v m (inr (omega arith)))

pub read32-write32-Apart :
    (q p v : ℕ) (m : Bytes) → Apart p 4 q 4 → read32 (write32 p v m) q ≡ read32 m q
read32-write32-Apart q p v m (inl h) =
    halves (write32 p v m) m q (read16-write32-Apart q p v m (inl (omega arith)))
      (read16-write32-Apart (q + 2) p v m (inl (omega arith)))
read32-write32-Apart q p v m (inr h) =
    halves (write32 p v m) m q (read16-write32-Apart q p v m (inr (omega arith)))
      (read16-write32-Apart (q + 2) p v m (inr (omega arith)))

pub read32-write32 : (p v : ℕ) (m : Bytes) → v < 2 ^ 32 → read32 (write32 p v m) p ≡ v
read32-write32 p v m h =
    let low = read16-write16 p (v % 65536) (write16 (p + 2) (v / 65536 % 65536) m) (omega arith) in
    let high =
      read16-write16-Apart (p + 2) p (v % 65536) (write16 (p + 2) (v / 65536 % 65536) m)
        (inl (omega arith))
      ∙ read16-write16 (p + 2) (v / 65536 % 65536) m (omega arith) in
    join (write32 p v m) p v low high h
  where
    join :
        (n : Bytes) (p v : ℕ)
        → read16 n p ≡ v % 65536
        → read16 n (p + 2) ≡ v / 65536 % 65536
        → v < 2 ^ 32
        → read32 n p ≡ v
    join n p v e f h = omega (arith, e, f)

pub write16-byte-Apart : (a p v : ℕ) (m : Bytes) → Apart p 2 a 1 → write16 p v m a ≡ m a
write16-byte-Apart a p v m (inl h) = ground arith
write16-byte-Apart a p v m (inr h) = ground arith

pub write32-byte-Apart : (a p v : ℕ) (m : Bytes) → Apart p 4 a 1 → write32 p v m a ≡ m a
write32-byte-Apart a p v m (inl h) =
    write16-byte-Apart a p (v % 65536) (write16 (p + 2) (v / 65536 % 65536) m) (inl (omega arith))
    ∙ write16-byte-Apart a (p + 2) (v / 65536 % 65536) m (inl (omega arith))
write32-byte-Apart a p v m (inr h) =
    write16-byte-Apart a p (v % 65536) (write16 (p + 2) (v / 65536 % 65536) m) (inr (omega arith))
    ∙ write16-byte-Apart a (p + 2) (v / 65536 % 65536) m (inr (omega arith))
