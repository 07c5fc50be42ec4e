-- ===== src/Wide.antt =====
-- include/common.hpp: `uint24` and `uint48`, as views on the bytes at the address `p`.
pub mod Order
use moon_state.Prelude.{ℕ, ◌+◌, ◌*◌, ◌/◌, ◌%◌, ◌^◌, ◌==◌, if◌then◌else◌}
use moon_state.Fault.{Result, ok, ◌>>=◌, ◌>>◌, assert}
use moon_state.Headers.Bytes.{Bytes, write8}

-- `uint24::set`
unfoldable pub set24 : ℕ → ℕ → Bytes → Result Bytes
set24 p v m = do
  assert (v / 2 ^ 24 == 0)
  ok (write8 (p + 2) (v / 65536 % 256) (write8 (p + 1) (v / 256 % 256) (write8 p (v % 256) m)))

-- `uint24::get`
unfoldable pub get24 : Bytes → ℕ → ℕ
get24 m p = ((m p * 256 + m (p + 1)) * 256) + m (p + 2)

-- `uint48::set`
unfoldable pub set48 : ℕ → ℕ → Bytes → Result Bytes
set48 p v m = do
  assert (v / 2 ^ 48 == 0)
  ok (
      write8 (p + 5) (v / 2 ^ 40 % 256) (
        write8 (p + 4) (v / 2 ^ 32 % 256) (
          write8 (p + 3) (v / 2 ^ 24 % 256) (
            write8 (p + 2) (v / 65536 % 256)
              (write8 (p + 1) (v / 256 % 256) (write8 p (v % 256) m))))))

-- `uint48::get`
unfoldable pub get48 : Bytes → ℕ → ℕ
get48 m p =
    ((((m p * 256 + m (p + 1)) * 256 + m (p + 2)) * 256 + m (p + 3)) * 256 + m (p + 4)) * 256
    + m (p + 5)
