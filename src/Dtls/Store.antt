-- ===== src/Dtls/Store.antt =====
-- The memory that the DTLS protocols work on.
use moon_state.Prelude.{ℕ, ◌+◌, ◌==◌, ◌%◌, List, if◌then◌else◌}
use moon_state.BufArray.{Ptr}
use moon_state.Headers.Bytes.{Bytes, write8, write16}
use moon_state.Headers.Ethernet
use moon_state.Headers.Ipv4
use moon_state.Headers.Udp
use moon_state.Hello.Packet.{udp_at}
use moon_state.Tcp.Packet.{read_bytes}
use moon_state.Machine.Types.{Iface}

-- The objects, the state of OpenSSL, the bytes of the packets, the lengths of their data
-- (`data_len` of an `mbuf`) and of their buffers (`buf_len`).
pub record Store (H L : Type 0) : Type 0 where
  pub heap : H
  pub lib : L
  pub mem : Bytes
  pub len : Ptr → ℕ
  pub buf_len : Ptr → ℕ

-- `allHeaderLength`
abbrev pub all_header_length : ℕ
all_header_length = Ethernet.header_size + 20 + Udp.header_size

module _ {K F H L : Type 0} where
  unfoldable pub put_store : Store H L → Iface K F (Store H L) → Iface K F (Store H L)
  put_store w i = record i { world = w }

  unfoldable pub put_lib : L → Iface K F (Store H L) → Iface K F (Store H L)
  unfolding put_store
  put_lib l i = put_store (record (i.world) { lib = l }) i

  unfoldable pub put_heap : H → Iface K F (Store H L) → Iface K F (Store H L)
  unfolding put_store
  put_heap h i = put_store (record (i.world) { heap = h }) i

-- A packet that was filled: its bytes and, by `setDataLen`, its length.
unfoldable pub put_packet : {H L : Type 0} → Ptr → ℕ → Bytes → Store H L → Store H L
put_packet p n m w = record w { mem = m; len = λ q. if q == p then n % 65536 else w.len q }

-- The payload of the UDP packet whose data starts at `d`.
unfoldable pub udp_payload : ℕ → Bytes → List ℕ
unfolding read_bytes
udp_payload d m =
    let udp = udp_at m d in read_bytes (Udp.get_payload_length m udp) (udp + Udp.header_size) m

-- The two ends of a connection.
pub record Ends : Type 0 where
  pub local_ip : ℕ
  pub remote_ip : ℕ
  pub local_port : ℕ
  pub remote_port : ℕ

-- "Set the whole Header stuff", from the payload length on, for `n` bytes of data.
unfoldable pub fill_ip : Ends → ℕ → ℕ → Bytes → Bytes
fill_ip e ip n m0 =
    let m1 = Ipv4.set_payload_length ip (n + Udp.header_size) m0 in
    let m2 = Ipv4.set_proto_udp ip m1 in
    let m3 = Ipv4.set_src_ip ip e.local_ip m2 in
    let m4 = Ipv4.set_dst_ip ip e.remote_ip m3 in
    let m5 = write16 (ip + 10) 0 m4 in write8 (ip + 8) 64 m5

unfoldable pub fill_udp : Ends → ℕ → ℕ → Bytes → Bytes
fill_udp e udp n m0 =
    let m1 = Udp.set_dst_port udp e.remote_port m0 in
    let m2 = Udp.set_src_port udp e.local_port m1 in Udp.set_payload_length udp n m2

-- `setVersion` and `setIHL(5)`
unfoldable pub usual_ip : ℕ → Bytes → Bytes
usual_ip ip m = Ipv4.set_ihl ip 5 (Ipv4.set_version ip m)
