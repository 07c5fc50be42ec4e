-- ===== src/Headers/Ethernet.antt =====
-- `Headers::Ethernet`, at the address `p`: the destination, the source and the ethertype.
use moon_state.Prelude.{ℕ, ◌+◌}
use moon_state.Headers.Bytes.{Bytes, write8, read16, write16, swap16}

abbrev pub header_size : ℕ
header_size = 14

pub get_payload : ℕ → ℕ
get_payload p = p + header_size

unfoldable pub get_ethertype : Bytes → ℕ → ℕ
get_ethertype m p = swap16 (read16 m (p + 12))

unfoldable pub set_ethertype : ℕ → ℕ → Bytes → Bytes
set_ethertype p type m = write16 (p + 12) (swap16 type) m

-- `memcpy` of six bytes, which `addr` gives by their index.
unfoldable pub copy_addr : ℕ → (ℕ → ℕ) → Bytes → Bytes
copy_addr p addr m = write8 p (addr 0) (
    write8 (p + 1) (addr 1) (
      write8 (p + 2) (addr 2)
        (write8 (p + 3) (addr 3) (write8 (p + 4) (addr 4) (write8 (p + 5) (addr 5) m)))))

unfoldable pub set_src_addr : ℕ → (ℕ → ℕ) → Bytes → Bytes
unfolding copy_addr
set_src_addr p addr m = copy_addr (p + 6) addr m

unfoldable pub set_dst_addr : ℕ → (ℕ → ℕ) → Bytes → Bytes
unfolding copy_addr
set_dst_addr p addr m = copy_addr p addr m
