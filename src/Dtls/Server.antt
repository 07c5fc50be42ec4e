-- ===== src/Dtls/Server.antt =====
-- `DTLS_Server`: the state functions.
use moon_state.Prelude.{ℕ, suc, ◌+◌, ◌-◌, ◌==◌, Bool, List, length, ltb, if◌then◌else◌}
use moon_state.Prelude.Int.{pos, int_eq}
use moon_state.Fault.{Result, ok, err, ◌>>=◌, ◌>>◌, assert, uncaught}
use moon_state.BufArray.{Ptr}
use moon_state.Headers.Bytes.{Bytes}
use moon_state.Headers.Ethernet
use moon_state.Headers.Ipv4
use moon_state.Headers.Udp
use moon_state.Machine.Types.{Iface}
use moon_state.Machine.Iface.{free_pkt, transition}
use moon_state.Hello.Heap.{Heap, object}
use moon_state.Hello.Packet.{ip_at, udp_at}
use moon_state.Tcp.Data.{min}
use moon_state.Tcp.Packet.{write_bytes}
use moon_state.Dtls.Library.{Library}
use moon_state.Dtls.Sending.{send_extra, send_first}
use moon_state.Dtls.Store.{
  Store, Ends, all_header_length, put_store, put_lib, put_heap, put_packet, udp_payload, fill_ip,
  fill_udp, usual_ip,
}

-- `DTLS_Server::States`
abbrev pub handshake : ℕ
handshake = 1

abbrev pub established : ℕ
established = 2

abbrev pub run_teardown_state : ℕ
run_teardown_state = 3

abbrev pub deleted : ℕ
deleted = 4

-- `struct dtlsServer`; an address of the link is given by its six bytes.
pub record Server : Type 0 where
  pub ssl : Ptr
  pub wbio : Ptr
  pub rbio : Ptr
  pub ends : Ends
  pub local_mac : ℕ → ℕ
  pub remote_mac : ℕ → ℕ

-- The packet that is built in the buffer at `d` for the bytes `bs`: the first one, in the packet
-- that came, and a further one. They set the same fields in another order.
unfoldable pub first_packet : Server → ℕ → List ℕ → Bytes → Bytes
unfolding usual_ip write_bytes fill_ip fill_udp
first_packet s d bs m0 =
    let ip = ip_at d in
    let m1 = usual_ip ip m0 in
    let udp = udp_at m1 d in
    let m2 = write_bytes (udp + Udp.header_size) bs m1 in
    let m3 = Ethernet.set_dst_addr d s.remote_mac m2 in
    let m4 = Ethernet.set_src_addr d s.local_mac m3 in
    let m5 = Ethernet.set_ethertype d 2048 m4 in
    let m6 = fill_ip s.ends ip (length bs) (usual_ip ip m5) in fill_udp s.ends udp (length bs) m6

unfoldable pub extra_packet : Server → ℕ → List ℕ → Bytes → Bytes
unfolding usual_ip write_bytes fill_ip fill_udp
extra_packet s d bs m0 =
    let ip = ip_at d in
    let m1 = usual_ip ip m0 in
    let udp = udp_at m1 d in
    let m2 = write_bytes (udp + Udp.header_size) bs m1 in
    let m3 = Ethernet.set_ethertype d 2048 m2 in
    let m4 = Ethernet.set_dst_addr d s.remote_mac m3 in
    let m5 = Ethernet.set_src_addr d s.local_mac m4 in
    let m6 = fill_ip s.ends ip (length bs) m5 in fill_udp s.ends udp (length bs) m6

module _ {L : Type 0} (lib : Library L) where
  -- `BIO_eof(server->wbio)`
  abbrev pub at_end : {H : Type 0} → Server → Store H L → Bool
  at_end s w = lib.bio_eof s.wbio w.lib

  -- What the client sent is read and sent back.
  unfoldable pub reflect : Ptr → L → Result L
  reflect ssl l =
      let (bs, l1) = lib.ssl_read ssl 2048 l in
      if ltb 0 (length bs)
      then (let (k, l2) = lib.ssl_write ssl bs l1 in if k == length bs then ok l2 else err uncaught)
      else ok l1

-- `udpMaxLen`, which both parts of the loop take from the buffer of the packet that came.
unfoldable pub udp_max_len : {H L : Type 0} → Ptr → Store H L → ℕ
unfolding min
udp_max_len pkt w = min (w.buf_len pkt) 1500 - all_header_length

-- The addresses and ports of the packet that came, from the server's side.
unfoldable pub learn : Server → ℕ → Bytes → Server
learn s d m =
    let ip = ip_at d in
    let udp = udp_at m d in
    record s {
      ends = record {
        local_ip = Ipv4.get_dst_ip m ip;
        remote_ip = Ipv4.get_src_ip m ip;
        local_port = Udp.get_dst_port m udp;
        remote_port = Udp.get_src_port m udp;
      };
      local_mac = λ a. m (d + a);
      remote_mac = λ a. m (d + 6 + a);
    }

module _ {K F H L : Type 0} (lib : Library L) (data_at : Ptr → ℕ) where
  -- One packet: what `BIO_read` gives becomes its payload.
  unfoldable pub fill :
      (Server → ℕ → List ℕ → Bytes → Bytes)
      → Server
      → Ptr
      → Ptr
      → Iface K F (Store H L)
      → Result (Iface K F (Store H L))
  unfolding put_store put_packet
  fill build s pkt buf i =
      let w = i.world in
      let (bs, l) = lib.bio_read s.wbio (udp_max_len pkt w) w.lib in
      do
        assert (ltb 0 (length bs))
        ok (
            put_store
              (put_packet buf (length bs + all_header_length) (build s (data_at buf) bs w.mem)
                (record w { lib = l }))
              i)

  -- The incoming packet goes to the queue that OpenSSL reads from.
  unfoldable pub take_packet : Server → Ptr → Iface K F (Store H L) → Result (Iface K F (Store H L))
  unfolding put_lib udp_payload
  take_packet s pkt i =
      let (n, l) = lib.bio_write s.rbio (udp_payload (data_at pkt) i.world.mem) i.world.lib in
      do assert (ltb 0 n); ok (put_lib l i)

module _ {K F H L : Type 0} (lib : Library L) (heap : Heap Server H) (data_at : Ptr → ℕ)
    (alloc : F → Store H L → Ptr × Store H L) where
  -- `writeAllDataAvailable`, for the object behind the pointer.
  unfoldable pub write_all_data_available :
      Ptr → Ptr → Iface K F (Store H L) → Result (ℕ × Iface K F (Store H L))
  unfolding send_first send_extra fill
  write_all_data_available server pkt i = do
    s ← object heap server i.world.heap
    (ret, j) ←
        send_first (at_end lib s) alloc (fill lib data_at extra_packet s pkt)
          (fill lib data_at first_packet s pkt pkt) i
    send_extra (at_end lib s) alloc (fill lib data_at extra_packet s pkt)
        (suc (lib.bio_pending s.wbio j.world.lib)) ret j

  -- `runHandshake`
  unfoldable pub run_handshake : Ptr → Iface K F (Store H L) → Result (Iface K F (Store H L))
  unfolding put_heap put_lib learn take_packet reflect
  run_handshake pkt i = do
    let server = i.state.state_data
    s0 ← object heap server i.world.heap
    let s = learn s0 (data_at pkt) i.world.mem
    j ← take_packet lib data_at s pkt (put_heap (heap.save server s i.world.heap) i)
    let l = lib.ssl_accept s.ssl j.world.lib
    k ←
        (if lib.ssl_is_init_finished s.ssl l
          then (do l' ← reflect lib s.ssl l; ok (put_lib l' (transition established j)))
          else ok (put_lib l j))
    (ret, r) ← write_all_data_available server pkt k
    ok r

  -- `sendData`
  unfoldable pub send_data : Ptr → Iface K F (Store H L) → Result (Iface K F (Store H L))
  unfolding put_lib take_packet reflect
  send_data pkt i = do
    let server = i.state.state_data
    s ← object heap server i.world.heap
    j ← take_packet lib data_at s pkt i
    l ← reflect lib s.ssl j.world.lib
    let k =
        if lib.ssl_get_shutdown s.ssl l == 0
        then put_lib l j
        else transition deleted (put_lib (lib.ssl_shutdown s.ssl l).1 j)
    (ret, r) ← write_all_data_available server pkt k
    ok r

  -- `runTeardown`
  unfoldable pub run_teardown : Ptr → Iface K F (Store H L) → Result (Iface K F (Store H L))
  unfolding put_heap put_lib take_packet
  run_teardown pkt i = do
    let server = i.state.state_data
    s ← object heap server i.world.heap
    j ← take_packet lib data_at s pkt i
    let (r, l) = lib.ssl_shutdown s.ssl j.world.lib
    let k = put_lib l j
    let left =
        if int_eq r (pos 1)
        then free_pkt (
            transition deleted
              (put_heap (heap.drop server k.world.heap) (put_lib (lib.ssl_free s.ssl l) k)))
        else k
    (ret, t) ← write_all_data_available server pkt left
    ok t
