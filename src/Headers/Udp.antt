-- ===== src/Headers/Udp.antt =====
-- `Headers::Udp`, at the address `p`.
use moon_state.Prelude.{ℕ, ◌+◌, ◌-◌, ◌%◌}
use moon_state.Headers.Bytes.{Bytes, read16, write16, swap16}

abbrev pub header_size : ℕ
header_size = 8

-- The fields as they stand, in the network's byte order.
unfoldable pub src_port : Bytes → ℕ → ℕ
src_port m p = read16 m p

unfoldable pub dst_port : Bytes → ℕ → ℕ
dst_port m p = read16 m (p + 2)

unfoldable pub set_src_port : ℕ → ℕ → Bytes → Bytes
set_src_port p port m = write16 p (swap16 port) m

unfoldable pub set_dst_port : ℕ → ℕ → Bytes → Bytes
set_dst_port p port m = write16 (p + 2) (swap16 port) m

unfoldable pub get_src_port : Bytes → ℕ → ℕ
unfolding src_port
get_src_port m p = swap16 (src_port m p)

unfoldable pub get_dst_port : Bytes → ℕ → ℕ
unfolding dst_port
get_dst_port m p = swap16 (dst_port m p)

unfoldable pub get_payload_length : Bytes → ℕ → ℕ
get_payload_length m p = (swap16 (read16 m (p + 4)) + 65536 - header_size) % 65536

unfoldable pub set_payload_length : ℕ → ℕ → Bytes → Bytes
set_payload_length p len m = write16 (p + 4) (swap16 ((len + header_size) % 65536)) m

pub get_payload : ℕ → ℕ
get_payload p = p + header_size
