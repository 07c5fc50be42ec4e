-- ===== src/Dtls/Tests.antt =====
-- The DTLS protocols over a small stand-in for OpenSSL: a queue is a list of bytes.
use moon_state.Prelude.{
  ℕ, zero, suc, ◌+◌, ◌<◌, ◌≤◌, ◌≡◌, refl, ap, arith, true, false, some, none, List, [], ◌∷◌, ◌++◌,
  length, take, drop, length-append, take-drop, ◌==◌, if◌then◌else◌, Bool,
}
use moon_state.Prelude.Int.{pos}
use moon_state.Fault.{Result, ok, err, dangling}
use moon_state.BufArray.{Ptr}
use moon_state.Headers.Bytes.{Bytes}
use moon_state.Headers.Ipv4
use moon_state.Hello.Packet.{ip_at, udp_at}
use moon_state.Hello.Sample.{Objects, sample_heap}
use moon_state.Machine.Types.{Iface}
use moon_state.Dtls.Library.{Library, IsQueue}
use moon_state.Dtls.Store.{Store, Ends, udp_payload, put_lib, put_store}
use moon_state.Headers.Udp
use moon_state.Dtls.Server.{
  Server, at_end, first_packet, extra_packet, write_all_data_available, run_handshake, send_data,
  run_teardown, reflect,
}
use moon_state.Dtls.Client.{Client, packet, init_handshake}
use moon_state.Dtls.Client
use moon_state.Dtls.Sending.{send_first, send_extra}
use moon_state.Dtls.Setup.{client_init_handshake, run_client_fun}
use moon_state.Dtls.ClientStays.{Stays, client-Stays}
use moon_state.Hello.Heap.{object}
use moon_state.Dtls.Packets.{Sized, Carries}
use moon_state.Dtls.Carried.{packets_carry}
use moon_state.Dtls.ClientPackets.{packet_misplaced}
use moon_state.Dtls.Returns.{IsPool, Ready, Written, write_all-Written}
use moon_state.Dtls.Steps.{Through, run_teardown_dangles, send_data-Through}
use moon_state.Dtls.Handshake.{Learned, accepted, run_handshake-Through}

abbrev is_empty : List ℕ → Bool
is_empty [] = true
is_empty (b ∷ bs) = false

abbrev stream : Library (List ℕ)
stream = record {
  bio_new = λ l. some (1, l);
  bio_eof = λ b l. is_empty l;
  bio_pending = λ b l. length l;
  bio_read = λ b n l. (take n l, drop n l);
  bio_write = λ b bs l. (length bs, l);
  ssl_new = λ c l. some (2, l);
  ssl_set_accept_state = λ s l. l;
  ssl_set_connect_state = λ s l. l;
  ssl_set_bio = λ s r w l. l;
  ssl_set_mtu = λ s n l. l;
  ssl_accept = λ s l. l ++ 21 ∷ 22 ∷ [];
  ssl_connect = λ s l. l ++ 11 ∷ [];
  ssl_is_init_finished = λ s l. false;
  ssl_read = λ s n l. (7 ∷ 8 ∷ [], l);
  ssl_write = λ s bs l. (length bs, l ++ bs);
  ssl_get_shutdown = λ s l. 0;
  ssl_shutdown = λ s l. (pos 1, l);
  ssl_free = λ s l. l;
}

length-take : (n : ℕ) (l : List ℕ) → length (take n l) ≤ n
length-take zero l = omega arith
length-take (suc n) [] = omega arith
length-take (suc n) (x ∷ l) = omega (arith, length-take n l)

some_taken : (n : ℕ) (l : List ℕ) → is_empty l ≡ false → 0 < n → 0 < length (take n l)
some_taken zero l e h = absurd (omega arith)
some_taken (suc n) [] e h = absurd (cc)
some_taken (suc n) (x ∷ l) e h = omega arith

stream-IsQueue : IsQueue stream
stream-IsQueue = record {
  some_read = λ b n l e h. some_taken n l e h;
  at_most = λ b n l. length-take n l;
  taken = λ b n l.
      omega
        (arith, length-append (take n l) (drop n l), ap (λ (x : List ℕ). length x) (take-drop n l));
}

abbrev World : Type 0
World = Store (Objects Server) (List ℕ)

abbrev alloc : ℕ → World → Ptr × World
alloc f w = (5, w)

alloc-IsPool : IsPool alloc
alloc-IsPool = record { lib = λ f w. refl; heap = λ f w. refl; buf_len = λ f w. refl }

abbrev ends : Ends
ends = record { local_ip = 9; remote_ip = 5; local_port = 443; remote_port = 4000 }

abbrev server : Server
server = record {
  ssl = 2;
  wbio = 1;
  rbio = 3;
  ends = ends;
  local_mac = λ a. a;
  remote_mac = λ a. a + 8;
}

ends-Sized : Sized ends
ends-Sized = record {
  local_ip = omega arith;
  remote_ip = omega arith;
  local_port = omega arith;
  remote_port = omega arith;
}

-- A packet with two bytes of payload behind headers of the usual size.
abbrev arrived : Bytes
arrived a = if a == 14 then 69 else if a == 39 then 10 else if a == 42 then 1 else 0

abbrev data_at : Ptr → ℕ
data_at p = 0

abbrev face : ℕ → List ℕ → Iface ℕ ℕ World
face n l = record {
  conn_id = 7;
  state = record { state_data = 0; state = n; timeout_id = 0 };
  bufs = record { pkts = []; send_mask = []; num_bufs = 0; num_slots = 0; from_lua = false };
  send_pkt = true;
  immediate_transition = false;
  get_pkt_cb = some 0;
  timers = record {
    cur_timeout_id = 0;
    timeouts_q = [];
    timeout_functions = [];
    clock = λ n. n;
    reads = 0;
  };
  world = record {
    heap = record { at = λ q. if q == 0 then some server else none; next = 1 };
    lib = l;
    mem = arrived;
    len = λ p. 52;
    buf_len = λ p. 44;
  };
}

-- Five bytes to send, and room for two in each packet.
write_all-Written_example :
    (ret : ℕ) × (j : Iface ℕ ℕ World) × (write_all_data_available stream sample_heap data_at alloc 0
        0
        (face 2 (1 ∷ 2 ∷ 3 ∷ 4 ∷ 5 ∷ []))
      ≡ ok (ret, j))
    × (at_end stream server j.world ≡ true)
    × Ready stream stream-IsQueue sample_heap data_at alloc alloc-IsPool 0 server 0
        (face 2 (1 ∷ 2 ∷ 3 ∷ 4 ∷ 5 ∷ [])).world.heap
        (face 2 (1 ∷ 2 ∷ 3 ∷ 4 ∷ 5 ∷ [])).state
        j
    × Written stream stream-IsQueue sample_heap data_at alloc alloc-IsPool 0 server 0 ret
        (face 2 (1 ∷ 2 ∷ 3 ∷ 4 ∷ 5 ∷ []))
        j
write_all-Written_example =
    write_all-Written stream stream-IsQueue sample_heap data_at alloc alloc-IsPool 0 server 0 0
      (face 2 (1 ∷ 2 ∷ 3 ∷ 4 ∷ 5 ∷ [])) refl refl (omega arith)

abbrev bytes : List ℕ
bytes = 1 ∷ 2 ∷ 3 ∷ 4 ∷ 5 ∷ []

packets_carry_example :
    Carries ends 0 bytes (first_packet server 0 bytes arrived)
    × Carries ends 0 bytes (extra_packet server 0 bytes arrived)
packets_carry_example = packets_carry server ends-Sized 0 bytes (omega arith) arrived

got_some : 0 < length (udp_payload 0 arrived)
unfolding udp_payload udp_at ip_at Ipv4.get_payload Udp.get_payload_length
got_some = omega arith

run_teardown_dangles_example :
    run_teardown stream sample_heap data_at alloc 0 (face 3 bytes) ≡ err dangling
run_teardown_dangles_example =
    run_teardown_dangles stream sample_heap data_at alloc server 0 (face 3 bytes) refl got_some refl

reflects : reflect stream 2 bytes ≡ ok (bytes ++ 7 ∷ 8 ∷ [])
unfolding reflect
reflects = refl

send_data-Through_example :
    (j : Iface ℕ ℕ World) × (send_data stream sample_heap data_at alloc 0 (face 2 bytes) ≡ ok j)
    × Through stream sample_heap data_at alloc server 0 (face 2 bytes) server 2 j
send_data-Through_example =
    send_data-Through stream sample_heap data_at alloc server 0 (face 2 bytes) (bytes ++ 7 ∷ 8 ∷ [])
      refl got_some reflects stream-IsQueue alloc-IsPool 0 refl (omega arith)

run_handshake-Through_example :
    (o : Server) × (j : Iface ℕ ℕ World) × (run_handshake stream sample_heap data_at alloc 0
        (face 1 bytes)
      ≡ ok j)
    × Learned server o 0 arrived
    × Through stream sample_heap data_at alloc server 0 (face 1 bytes) o 1 j
run_handshake-Through_example =
    run_handshake-Through stream sample_heap data_at alloc server 0 (face 1 bytes)
      (accepted stream sample_heap data_at alloc server 0 (face 1 bytes)) refl got_some refl
      stream-IsQueue alloc-IsPool 0 refl (omega arith)

-- A buffer that last held a header of fifteen words.
abbrev stale : Bytes
stale a = if a == 14 then 79 else 0

long : 7 ≤ Ipv4.ihl stale (ip_at 0)
unfolding Ipv4.ihl ip_at
long = omega arith

packet_misplaced_example :
    (udp_at (packet (record { ssl = 2; wbio = 1; rbio = 3; ends = ends }) 0 bytes stale) 0 ≡ 34)
    × ((a : ℕ)
        → 34 ≤ a
        → a < 42
        → packet (record { ssl = 2; wbio = 1; rbio = 3; ends = ends }) 0 bytes stale a ≡ stale a)
packet_misplaced_example =
    packet_misplaced (record { ssl = 2; wbio = 1; rbio = 3; ends = ends }) 0 bytes stale long

-- The client's first step.
abbrev client : Client
client = record { ssl = 2; wbio = 1; rbio = 3; ends = ends }

abbrev client_face : Iface ℕ ℕ (Store (Objects Client) (List ℕ))
client_face = record {
  conn_id = 7;
  state = record { state_data = 0; state = 0; timeout_id = 0 };
  bufs = record { pkts = []; send_mask = []; num_bufs = 0; num_slots = 0; from_lua = false };
  send_pkt = true;
  immediate_transition = false;
  get_pkt_cb = some 0;
  timers = record {
    cur_timeout_id = 0;
    timeouts_q = [];
    timeout_functions = [];
    clock = λ n. n;
    reads = 0;
  };
  world = record {
    heap = record { at = λ q. if q == 0 then some client else none; next = 1 };
    lib = [];
    mem = arrived;
    len = λ p. 52;
    buf_len = λ p. 44;
  };
}

abbrev client_alloc : ℕ → Store (Objects Client) (List ℕ) → Ptr × Store (Objects Client) (List ℕ)
client_alloc f w = (5, w)

abbrev got : {A : Type 0} → A → Result A → A
got a (ok b) = b
got a (err e) = a

abbrev client_after : Iface ℕ ℕ (Store (Objects Client) (List ℕ))
client_after =
    got client_face
      (run_client_fun stream data_at sample_heap client_alloc client_init_handshake 0 client_face)

client_runs :
    run_client_fun stream data_at sample_heap client_alloc client_init_handshake 0 client_face
    ≡ ok client_after
unfolding run_client_fun init_handshake Client.write_all_data_available send_first send_extra
    Client.fill object put_lib put_store
client_runs = refl

client-Stays_example : Stays client_face client_after
client-Stays_example =
    client-Stays stream sample_heap data_at client_alloc client_init_handshake 0 client_face
      client_after client_runs
