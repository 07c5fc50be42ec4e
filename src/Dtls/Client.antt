-- ===== src/Dtls/Client.antt =====
-- `DTLS_Client`: the state functions.
use moon_state.Prelude.{
  ℕ, suc, ◌+◌, ◌-◌, ◌==◌, Bool, List, [], ◌∷◌, ◌++◌, length, ltb, if◌then◌else◌,
}
use moon_state.Prelude.Int.{pos, int_eq}
use moon_state.Fault.{Result, ok, err, ◌>>=◌, ◌>>◌, assert, uncaught}
use moon_state.BufArray.{Ptr}
use moon_state.Headers.Bytes.{Bytes, write8, write16}
use moon_state.Headers.Ethernet
use moon_state.Headers.Ipv4
use moon_state.Headers.Udp
use moon_state.Machine.Types.{Iface}
use moon_state.Machine.Iface.{free_pkt, get_pkt, transition}
use moon_state.Hello.Heap.{Heap, object}
use moon_state.Hello.Packet.{ip_at, udp_at}
use moon_state.HelloBye.Text.{codes}
use moon_state.Tcp.Packet.{write_bytes}
use moon_state.Dtls.Library.{Library}
use moon_state.Dtls.Sending.{send_extra, send_first}
use moon_state.Dtls.Store.{
  Store, Ends, all_header_length, put_store, put_lib, put_heap, put_packet, udp_payload, fill_ip,
  fill_udp, usual_ip,
}

-- `DTLS_Client::States`
abbrev pub down : ℕ
down = 0

abbrev pub handshake : ℕ
handshake = 1

abbrev pub established : ℕ
established = 2

abbrev pub run_teardown_state : ℕ
run_teardown_state = 3

abbrev pub deleted : ℕ
deleted = 4

-- `struct dtlsClient`, less a counter that nothing reads.
pub record Client : Type 0 where
  pub ssl : Ptr
  pub wbio : Ptr
  pub rbio : Ptr
  pub ends : Ends

-- The packet that is built in the buffer at `d` for the bytes `bs`. Where the UDP header stands
-- is read from the buffer before the IP header is written.
unfoldable pub packet : Client → ℕ → List ℕ → Bytes → Bytes
unfolding usual_ip write_bytes fill_ip fill_udp
packet c d bs m0 =
    let ip = ip_at d in
    let udp = udp_at m0 d in
    let m1 = write_bytes (udp + Udp.header_size) bs m0 in
    let m2 = Ethernet.set_ethertype d 2048 m1 in
    let m3 = fill_ip c.ends ip (length bs) (usual_ip ip m2) in fill_udp c.ends udp (length bs) m3

-- "FIRST PACKET", with the zero that ends it.
unfoldable pub first_text : List ℕ
first_text = codes "FIRST PACKET" ++ 0 ∷ []

-- "Write out a first packet": the headers, up to where the UDP header is looked for, and the rest.
unfoldable pub start_headers : Client → ℕ → Bytes → Bytes
unfolding usual_ip
start_headers c d m0 =
    let ip = ip_at d in
    let m1 = usual_ip ip (Ethernet.set_ethertype d 2048 m0) in
    let m2 = Ipv4.set_proto_udp ip m1 in
    let m3 = Ipv4.set_src_ip ip c.ends.local_ip m2 in
    let m4 = Ipv4.set_dst_ip ip c.ends.remote_ip m3 in
    let m5 = write16 (ip + 10) 0 m4 in write8 (ip + 8) 64 m5

unfoldable pub finish_headers : Client → ℕ → List ℕ → Bytes → Bytes
unfolding fill_udp write_bytes
finish_headers c d bs m0 =
    let udp = udp_at m0 d in
    let m1 = write_bytes (udp + Udp.header_size) bs m0 in
    let m2 = Ipv4.set_payload_length (ip_at d) (length bs + Udp.header_size) m1 in
    fill_udp c.ends udp (length bs) m2

-- `udpMaxLen`, from the buffer that is filled.
unfoldable pub udp_max_len : {H L : Type 0} → Ptr → Store H L → ℕ
udp_max_len buf w = w.buf_len buf - all_header_length

-- `BIO_eof(client->wbio)`
abbrev pub at_end : {H L : Type 0} → Library L → Client → Store H L → Bool
at_end lib c w = lib.bio_eof c.wbio w.lib

module _ {K F H L : Type 0} (lib : Library L) (data_at : Ptr → ℕ) where
  -- One packet: what `BIO_read` gives becomes its payload.
  unfoldable pub fill : Client → Ptr → Iface K F (Store H L) → Result (Iface K F (Store H L))
  unfolding put_store put_packet packet udp_max_len
  fill c buf i =
      let w = i.world in
      let (bs, l) = lib.bio_read c.wbio (udp_max_len buf w) w.lib in
      do
        assert (ltb 0 (length bs))
        ok (
            put_store
              (put_packet buf (length bs + all_header_length) (packet c (data_at buf) bs w.mem)
                (record w { lib = l }))
              i)

  -- The incoming packet goes to the queue that OpenSSL reads from.
  unfoldable pub take_packet : Client → Ptr → Iface K F (Store H L) → Result (Iface K F (Store H L))
  unfolding put_lib udp_payload
  take_packet c pkt i =
      let (n, l) = lib.bio_write c.rbio (udp_payload (data_at pkt) i.world.mem) i.world.lib in
      do assert (ltb 0 n); ok (put_lib l i)

module _ {K F H L : Type 0} (lib : Library L) (heap : Heap Client H) (data_at : Ptr → ℕ)
    (alloc : F → Store H L → Ptr × Store H L) where
  -- `writeAllDataAvailable`, for the object behind the pointer.
  unfoldable pub write_all_data_available :
      Ptr → Ptr → Iface K F (Store H L) → Result (ℕ × Iface K F (Store H L))
  unfolding send_first send_extra fill
  write_all_data_available client pkt i = do
    c ← object heap client i.world.heap
    (ret, j) ← send_first (at_end lib c) alloc (fill lib data_at c) (fill lib data_at c pkt) i
    send_extra (at_end lib c) alloc (fill lib data_at c) (suc (lib.bio_pending c.wbio j.world.lib))
        ret j

  -- `initHandshake`
  unfoldable pub init_handshake : Ptr → Iface K F (Store H L) → Result (Iface K F (Store H L))
  unfolding put_lib
  init_handshake pkt i = do
    let client = i.state.state_data
    c ← object heap client i.world.heap
    (ret, j) ← write_all_data_available client pkt (put_lib (lib.ssl_connect c.ssl i.world.lib) i)
    assert (ltb 0 ret)
    ok (transition handshake j)

  -- "Write out a first packet", when the handshake is finished.
  unfoldable pub write_first : Client → Iface K F (Store H L) → Result (Iface K F (Store H L))
  unfolding put_store put_packet put_lib start_headers finish_headers
  write_first c i = do
    (buf, j) ← get_pkt alloc i
    let d = data_at buf
    let m = start_headers c d j.world.mem
    let (k, l) = lib.ssl_write c.ssl first_text j.world.lib
    (if k == length first_text then ok tt else err uncaught)
    let (bs, l') = lib.bio_read c.wbio 1280 l
    assert (ltb 0 (length bs))
    ok (
        put_store
          (put_packet buf (length bs + all_header_length) (finish_headers c d bs m)
            (record (j.world) { lib = l' }))
          j)

  -- `runHandshake`
  unfoldable pub run_handshake : Ptr → Iface K F (Store H L) → Result (Iface K F (Store H L))
  unfolding put_lib take_packet write_first
  run_handshake pkt i = do
    let client = i.state.state_data
    c ← object heap client i.world.heap
    j ← take_packet lib data_at c pkt i
    (ret, k) ← write_all_data_available client pkt (put_lib (lib.ssl_connect c.ssl j.world.lib) j)
    (if lib.ssl_is_init_finished c.ssl k.world.lib
        then write_first c (transition established k)
        else ok k)

  -- `sendData`
  unfoldable pub send_data : Ptr → Iface K F (Store H L) → Result (Iface K F (Store H L))
  unfolding put_lib take_packet
  send_data pkt i = do
    let client = i.state.state_data
    c ← object heap client i.world.heap
    j ← take_packet lib data_at c pkt i
    let (bs, l) = lib.ssl_read c.ssl 20 j.world.lib
    assert (ltb 0 (length bs))
    (ret, k) ← write_all_data_available client pkt (put_lib (lib.ssl_shutdown c.ssl l).1 j)
    ok k

  -- `runTeardown`
  unfoldable pub run_teardown : Ptr → Iface K F (Store H L) → Result (Iface K F (Store H L))
  unfolding put_heap put_lib take_packet
  run_teardown pkt i = do
    let client = i.state.state_data
    c ← object heap client i.world.heap
    j ← take_packet lib data_at c pkt i
    let (r, l) = lib.ssl_shutdown c.ssl j.world.lib
    let k = put_lib l j
    let left =
        if int_eq r (pos 1)
        then free_pkt (put_heap (heap.drop client k.world.heap) (put_lib (lib.ssl_free c.ssl l) k))
        else k
    (ret, t) ← write_all_data_available client pkt left
    ok t
