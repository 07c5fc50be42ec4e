-- ===== src/Headers/Ipv4.antt =====
-- `Headers::IPv4`, at the address `p`. A test or change of bits is written as division and
-- remainder.
use moon_state.Prelude.{ℕ, zero, suc, ◌+◌, ◌-◌, ◌*◌, ◌/◌, ◌%◌, ◌^◌, leb, ◌==◌, if◌then◌else◌}
use moon_state.Fault.{Result, ok, ◌>>◌, assert}
use moon_state.Headers.Bytes.{Bytes, write8, read16, write16, read32, write32, swap16, swap32}

-- `version()`, with its assertion.
unfoldable pub version : Bytes → ℕ → Result ℕ
version m p = do assert (leb 4 (m p / 16 % 16)); ok (m p / 16 % 16)

unfoldable pub ihl : Bytes → ℕ → ℕ
ihl m p = m p % 16

unfoldable pub set_version : ℕ → Bytes → Bytes
set_version p m = write8 p (m p % 16 + 64) m

unfoldable pub set_ihl : ℕ → ℕ → Bytes → Bytes
set_ihl p len m = write8 p (m p / 16 % 16 * 16 + len % 16) m

unfoldable pub set_payload_length : ℕ → ℕ → Bytes → Bytes
unfolding ihl
set_payload_length p len m = write16 (p + 2) (swap16 ((ihl m p * 4 + len) % 65536)) m

unfoldable pub get_payload_length : Bytes → ℕ → ℕ
unfolding ihl
get_payload_length m p = (swap16 (read16 m (p + 2)) + 65536 - ihl m p * 4) % 65536

pub fragmentation : Bytes → ℕ → ℕ
fragmentation m p = read16 m (p + 6) % 8192

-- The shift is by 18, of a field of 16 bits.
unfoldable pub flags : Bytes → ℕ → ℕ
flags m p = read16 m (p + 6) / 2 ^ 18

unfoldable pub proto : Bytes → ℕ → ℕ
proto m p = m (p + 9)

abbrev pub proto_icmp : ℕ
proto_icmp = 1

abbrev pub proto_tcp : ℕ
proto_tcp = 6

abbrev pub proto_udp : ℕ
proto_udp = 17

pub set_proto_icmp : ℕ → Bytes → Bytes
set_proto_icmp p m = write8 (p + 9) proto_icmp m

unfoldable pub set_proto_tcp : ℕ → Bytes → Bytes
set_proto_tcp p m = write8 (p + 9) proto_tcp m

unfoldable pub set_proto_udp : ℕ → Bytes → Bytes
set_proto_udp p m = write8 (p + 9) proto_udp m

-- The fields as they stand, in the network's byte order.
unfoldable pub src_ip : Bytes → ℕ → ℕ
src_ip m p = read32 m (p + 12)

unfoldable pub dst_ip : Bytes → ℕ → ℕ
dst_ip m p = read32 m (p + 16)

unfoldable pub set_src_ip : ℕ → ℕ → Bytes → Bytes
set_src_ip p ip m = write32 (p + 12) (swap32 ip) m

unfoldable pub set_dst_ip : ℕ → ℕ → Bytes → Bytes
set_dst_ip p ip m = write32 (p + 16) (swap32 ip) m

unfoldable pub get_src_ip : Bytes → ℕ → ℕ
unfolding src_ip
get_src_ip m p = swap32 (src_ip m p)

unfoldable pub get_dst_ip : Bytes → ℕ → ℕ
unfolding dst_ip
get_dst_ip m p = swap32 (dst_ip m p)

unfoldable pub get_payload : Bytes → ℕ → ℕ
unfolding ihl
get_payload m p = p + 4 * ihl m p

unfoldable pub set_length : ℕ → ℕ → Bytes → Bytes
set_length p len m = write16 (p + 2) (swap16 len) m

unfoldable pub get_length : Bytes → ℕ → ℕ
get_length m p = swap16 (read16 m (p + 2))

-- One round of the loop: the addition and the carry.
add_carry : ℕ → ℕ → ℕ
add_carry result word =
    let r = (result + word) % 2 ^ 32 in if r / 65536 % 2 == 1 then r % 65536 + 1 else r

-- The loop: `n` further words from the word `i` on.
sum_words : ℕ → Bytes → ℕ → ℕ → ℕ → ℕ
unfolding add_carry
sum_words zero m p i result = result
sum_words (suc n) m p i result =
    sum_words n m p (i + 1) (add_carry result (swap16 (read16 m (p + 2 * i))))

-- `calcChecksum`: the loop counts to `ihl() * 4` and reads a word of two bytes in each round.
unfoldable pub calc_checksum : ℕ → Bytes → Bytes
unfolding sum_words ihl
calc_checksum p m =
    let cleared = write16 (p + 10) 0 m in
    let result = sum_words (ihl cleared p * 4) cleared p 0 0 in
    write16 (p + 10) (swap16 ((2 ^ 32 - 1 - result) % 65536)) cleared
