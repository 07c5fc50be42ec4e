-- ===== src/Wide/Order.antt =====
-- The byte order in which `uint24` and `uint48` write and read.
use moon_state.Prelude.{ℕ, ◌+◌, ◌*◌, ◌/◌, ◌%◌, ◌^◌, ◌<◌, ◌≡◌, ap, ◌∙◌, arith}
use moon_state.Fault.{ok}
use moon_state.Headers.Bytes.{Bytes, write8}
use moon_state.Wide.{set24, get24, set48, get48}

-- The number with its three, or six, bytes in the opposite order.
abbrev pub reverse24 : ℕ → ℕ
reverse24 v = v % 256 * 65536 + v / 256 % 256 * 256 + v / 65536 % 256

abbrev pub reverse48 : ℕ → ℕ
reverse48 v = reverse24 (v % 2 ^ 24) * 2 ^ 24 + reverse24 (v / 2 ^ 24)

reverse24-reverse24 : (v : ℕ) → v < 2 ^ 24 → reverse24 (reverse24 v) ≡ v
reverse24-reverse24 v h = omega arith

-- `uint24` reads back a number with its bytes reversed: it is written with the lowest byte first
-- and read with the highest first. Condition: the number fits in 24 bits, and then `set`
-- succeeds.
pub get24-set24 :
    (p v : ℕ) (m : Bytes)
    → v < 2 ^ 24
    → (n : Bytes) × (set24 p v m ≡ ok n) × (get24 n p ≡ reverse24 v) × (reverse24 (get24 n p) ≡ v)
unfolding set24 get24
get24-set24 p v m h =
    let n : Bytes =
      write8 (p + 2) (v / 65536 % 256) (write8 (p + 1) (v / 256 % 256) (write8 p (v % 256) m)) in
    let e : get24 n p ≡ reverse24 v = ground arith in
    (n, ground arith, e, ap reverse24 e ∙ reverse24-reverse24 v h)

-- `uint48` reads back a number with its bytes reversed: it is written with the lowest byte first
-- and read with the highest first. Condition: the number fits in 48 bits, and then `set`
-- succeeds.
pub get48-set48 :
    (p v : ℕ) (m : Bytes)
    → v < 2 ^ 48
    → (n : Bytes) × (set48 p v m ≡ ok n) × (get48 n p ≡ reverse48 v)
unfolding set48 get48
get48-set48 p v m h =
    let n : Bytes = write8 (p + 5) (v / 2 ^ 40 % 256) (
      write8 (p + 4) (v / 2 ^ 32 % 256) (
        write8 (p + 3) (v / 2 ^ 24 % 256) (
          write8 (p + 2) (v / 65536 % 256)
            (write8 (p + 1) (v / 256 % 256) (write8 p (v % 256) m))))) in
    let e0 : n p ≡ v % 256 = ground arith in
    let e1 : n (p + 1) ≡ v / 256 % 256 = ground arith in
    let e2 : n (p + 2) ≡ v / 65536 % 256 = ground arith in
    let e3 : n (p + 3) ≡ v / 2 ^ 24 % 256 = ground arith in
    let e4 : n (p + 4) ≡ v / 2 ^ 32 % 256 = ground arith in
    let e5 : n (p + 5) ≡ v / 2 ^ 40 % 256 = ground arith in
    (n, ground arith, bytes48 n p v h e0 e1 e2 e3 e4 e5)
  where
    bytes48 :
        (n : Bytes) (p v : ℕ)
        → v < 2 ^ 48
        → n p ≡ v % 256
        → n (p + 1) ≡ v / 256 % 256
        → n (p + 2) ≡ v / 65536 % 256
        → n (p + 3) ≡ v / 2 ^ 24 % 256
        → n (p + 4) ≡ v / 2 ^ 32 % 256
        → n (p + 5) ≡ v / 2 ^ 40 % 256
        → get48 n p ≡ reverse48 v
    bytes48 n p v h e0 e1 e2 e3 e4 e5 = omega (arith, e0, e1, e2, e3, e4, e5)

-- `uint24` and `uint48` read back a number with its bytes reversed: it is written with the lowest
-- byte first and read with the highest first, so that a second exchange gives the 24-bit number
-- back. Conditions: the numbers fit in 24 and 48 bits, and then `set` succeeds.
pub both_reverse :
    (p v w : ℕ) (m : Bytes)
    → v < 2 ^ 24
    → w < 2 ^ 48
    → ((n : Bytes) × (set24 p v m ≡ ok n) × (get24 n p ≡ reverse24 v) × (reverse24 (get24 n p) ≡ v))
      × ((n : Bytes) × (set48 p w m ≡ ok n) × (get48 n p ≡ reverse48 w))
both_reverse p v w m h k = (get24-set24 p v m h, get48-set48 p w m k)
