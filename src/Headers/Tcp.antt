-- ===== src/Headers/Tcp.antt =====
-- `Headers::Tcp`, at the address `p`.
use moon_state.Prelude.{ℕ, ◌+◌, ◌*◌, ◌/◌, ◌%◌, Bool, ◌==◌, if◌then◌else◌}
use moon_state.Headers.Bytes.{Bytes, write8, read16, write16, read32, write32, swap16, swap32}

abbrev pub header_size : ℕ
header_size = 20

pub get_payload : ℕ → ℕ
get_payload p = p + header_size

-- The fields as they stand, in the network's byte order.
unfoldable pub src_port : Bytes → ℕ → ℕ
src_port m p = read16 m p

unfoldable pub dst_port : Bytes → ℕ → ℕ
dst_port m p = read16 m (p + 2)

unfoldable pub set_src_port : ℕ → ℕ → Bytes → Bytes
set_src_port p port m = write16 p (swap16 port) m

unfoldable pub set_dst_port : ℕ → ℕ → Bytes → Bytes
set_dst_port p port m = write16 (p + 2) (swap16 port) m

unfoldable pub get_src_port : Bytes → ℕ → ℕ
unfolding src_port
get_src_port m p = swap16 (src_port m p)

unfoldable pub get_dst_port : Bytes → ℕ → ℕ
unfolding dst_port
get_dst_port m p = swap16 (dst_port m p)

unfoldable pub get_seq : Bytes → ℕ → ℕ
get_seq m p = swap32 (read32 m (p + 4))

unfoldable pub get_ack : Bytes → ℕ → ℕ
get_ack m p = swap32 (read32 m (p + 8))

unfoldable pub set_seq : ℕ → ℕ → Bytes → Bytes
set_seq p s m = write32 (p + 4) (swap32 s) m

unfoldable pub set_ack : ℕ → ℕ → Bytes → Bytes
set_ack p a m = write32 (p + 8) (swap32 a) m

unfoldable pub get_window : Bytes → ℕ → ℕ
get_window m p = swap16 (read16 m (p + 14))

unfoldable pub set_window : ℕ → ℕ → Bytes → Bytes
set_window p w m = write16 (p + 14) (swap16 w) m

unfoldable pub clear_flags : ℕ → Bytes → Bytes
clear_flags p m = write8 (p + 13) 0 m

-- Whether the bit of weight `w` is set, and the number with it set.
unfoldable pub has_bit : ℕ → ℕ → Bool
has_bit w f = f / w % 2 == 1

unfoldable pub set_bit : ℕ → ℕ → ℕ
unfolding has_bit
set_bit w f = if has_bit w f then f else f + w

-- The four flags that the code knows.
pub data Flag : Type 0 where
  fin syn rst ack : Flag

-- The masks 0x1, 0x2, 0x4 and 0x10.
abbrev pub weight : Flag → ℕ
weight fin = 1
weight syn = 2
weight rst = 4
weight ack = 16

-- `getFinFlag`, `getSynFlag`, `getRstFlag` and `getAckFlag`.
unfoldable pub get_flag : Flag → Bytes → ℕ → Bool
unfolding has_bit
get_flag f m p = has_bit (weight f) (m (p + 13))

-- `setFinFlag`, `setSynFlag`, `setRstFlag` and `setAckFlag`.
unfoldable pub set_flag : Flag → ℕ → Bytes → Bytes
unfolding set_bit
set_flag f p m = write8 (p + 13) (set_bit (weight f) (m (p + 13))) m

unfoldable pub set_offset : ℕ → ℕ → Bytes → Bytes
set_offset p offset m = write8 (p + 12) (offset * 16 % 256) m

unfoldable pub get_header_len : Bytes → ℕ → ℕ
get_header_len m p = m (p + 12) / 16 * 4 % 256
