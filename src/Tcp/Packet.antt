-- ===== src/Tcp/Packet.antt =====
-- What the TCP handlers write into packets.
use moon_state.Prelude.{
  ℕ, zero, suc, ◌+◌, ◌*◌, Bool, true, Option, none, some, List, [], ◌∷◌, ◌==◌, if◌then◌else◌, take,
}
use moon_state.BufArray.{Ptr}
use moon_state.Headers.Bytes.{Bytes, write8, write16, swap16}
use moon_state.Headers.Ethernet
use moon_state.Headers.Ipv4
use moon_state.Headers.Tcp.{fin, syn, rst, ack}
use moon_state.Headers.Tcp
use moon_state.Hello.Heap.{World}
use moon_state.Tcp.Data.{mss, Segment}

unfoldable pub ip_at : ℕ → ℕ
ip_at d = d + Ethernet.header_size

unfoldable pub tcp_at : Bytes → ℕ → ℕ
unfolding ip_at
tcp_at m d = Ipv4.get_payload m (ip_at d)

-- The length of the three headers: 14, 20 and 20 bytes.
abbrev pub headers_len : ℕ
headers_len = Ethernet.header_size + 20 + Tcp.header_size

-- `memcpy`, of the bytes `bs` to the address `p`, and of `n` bytes from it.
unfoldable pub write_bytes : ℕ → List ℕ → Bytes → Bytes
write_bytes p [] m = m
write_bytes p (b ∷ bs) m = write_bytes (p + 1) bs (write8 p b m)

unfoldable pub read_bytes : ℕ → ℕ → Bytes → List ℕ
read_bytes zero p m = []
read_bytes (suc n) p m = m p ∷ read_bytes n (p + 1) m

-- `setDataLen`
unfoldable pub set_data_len : {H : Type 0} → Ptr → ℕ → World H → World H
set_data_len p n w = record w { len = λ q. if q == p then n else w.len q }

-- The way back: addresses, ports, TTL and checksum.
unfoldable pub swap_ends : ℕ → ℕ → Bytes → Bytes
swap_ends ip tcp m0 =
    let tmp = Ipv4.get_src_ip m0 ip in
    let m1 = Ipv4.set_src_ip ip (Ipv4.get_dst_ip m0 ip) m0 in
    let m2 = Ipv4.set_dst_ip ip tmp m1 in
    let tmp16 = Tcp.get_src_port m2 tcp in
    let m3 = Tcp.set_src_port tcp (Tcp.get_dst_port m2 tcp) m2 in
    let m4 = Tcp.set_dst_port tcp tmp16 m3 in
    let m5 = write8 (ip + 8) 64 m4 in write16 (ip + 10) 0 m5

-- The tests of the flags at the start of `runSynAck`, `runEst` and `runAckFin`.
unfoldable pub not_syn : Bytes → ℕ → Bool
not_syn m tcp =
    if Tcp.get_flag syn m tcp
    then if Tcp.get_flag ack m tcp
      then true
      else if Tcp.get_flag fin m tcp
      then true
      else Tcp.get_flag rst m tcp
    else true

unfoldable pub not_data : Bytes → ℕ → Bool
not_data m tcp =
    if Tcp.get_flag syn m tcp
    then true
    else if Tcp.get_flag ack m tcp
    then Tcp.get_flag rst m tcp
    else true

-- `clearFlags` and `setRstFlag`
unfoldable pub refuse_flags : ℕ → Bytes → Bytes
refuse_flags tcp m = Tcp.set_flag rst tcp (Tcp.clear_flags tcp m)

-- The reset of an established connection, without the address and port changes.
unfoldable pub reset_packet : ℕ → ℕ → ℕ → Bytes → Bytes
unfolding refuse_flags
reset_packet ip tcp seq_local m =
    Ipv4.set_payload_length ip Tcp.header_size
      (Tcp.set_seq tcp seq_local (Tcp.set_ack tcp 0 (refuse_flags tcp m)))

-- The headers of a packet without data that acknowledges `ack_number`.
unfoldable pub acknowledge : ℕ → ℕ → ℕ → Bytes → Bytes
acknowledge tcp seq ack_number m = Tcp.set_offset tcp 5 (
    Tcp.set_ack tcp ack_number (Tcp.set_seq tcp seq (Tcp.set_flag ack tcp (Tcp.clear_flags tcp m))))

-- The packet that asks again for what is missing; `front` is the sequence number of the first
-- segment in the queue, if there is one.
unfoldable pub go_back : ℕ → ℕ → ℕ → ℕ → Option ℕ → Bytes → Bytes
unfolding acknowledge
go_back ip tcp seq_local seq_remote front m =
    let m1 = Ipv4.set_payload_length ip Tcp.header_size (acknowledge tcp seq_local seq_remote m) in
    let m2 : Bytes = elim front [
      | none ↦ Tcp.set_seq tcp seq_local m1
      | some n ↦ Tcp.set_seq tcp n m1
    ] in
    Tcp.set_window tcp (4 * mss) m2

-- A segment and its headers, in the buffer whose data starts at `d`.
unfoldable pub write_segment : ℕ → ℕ → Segment → Bytes → Bytes
unfolding write_bytes tcp_at ip_at
write_segment d ip_id seg m0 =
    let ip = ip_at d in
    let tcp = tcp_at m0 d in
    let m1 = write_bytes (Tcp.get_payload tcp) (take seg.data_len seg.data_ptr) m0 in
    let m2 = write16 (ip + 4) (swap16 ip_id) m1 in
    let m3 = Tcp.set_window tcp (4 * mss) m2 in
    let m4 = Ipv4.set_payload_length ip (Tcp.header_size + seg.data_len) m3 in
    Tcp.set_seq tcp seg.seq_number m4
