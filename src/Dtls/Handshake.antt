-- ===== src/Dtls/Handshake.antt =====
-- The server's `runHandshake`: what it learns of the connection, and that it returns.
use moon_state.Prelude.{
  ℕ, ◌+◌, ◌<◌, ◌≡◌, refl, arith, inl, inr, true, false, some, if◌then◌else◌, Bool-cases,
}
use moon_state.Fault.{Result, ok}
use moon_state.BufArray.{Ptr}
use moon_state.Headers.Bytes.{Bytes}
use moon_state.Headers.Ipv4
use moon_state.Headers.Udp
use moon_state.Hello.Packet.{ip_at, udp_at}
use moon_state.Machine.Types.{Iface}
use moon_state.Machine.Iface.{transition, set_state_id}
use moon_state.Hello.Heap.{Heap, object, save_self}
use moon_state.Dtls.Library.{Library, IsQueue}
use moon_state.Dtls.Store.{Store, all_header_length, put_store, put_lib, put_heap}
use moon_state.Dtls.Server.{
  Server, established, learn, reflect, take_packet, write_all_data_available, run_handshake,
}
use moon_state.Dtls.Returns.{IsPool}
use moon_state.Dtls.Steps.{taken, Through, take_packet_ok, finish}

-- The object `o` is `s0` with both ends of the connection as the packet at `d` has them: the server
-- is where the packet went to, the peer where it came from.
pub record Learned (s0 o : Server) (d : ℕ) (m : Bytes) : Type 0 where
  pub ssl : o.ssl ≡ s0.ssl
  pub wbio : o.wbio ≡ s0.wbio
  pub rbio : o.rbio ≡ s0.rbio
  pub local_ip : o.ends.local_ip ≡ Ipv4.get_dst_ip m (ip_at d)
  pub remote_ip : o.ends.remote_ip ≡ Ipv4.get_src_ip m (ip_at d)
  pub local_port : o.ends.local_port ≡ Udp.get_dst_port m (udp_at m d)
  pub remote_port : o.ends.remote_port ≡ Udp.get_src_port m (udp_at m d)
  pub local_mac : (a : ℕ) → a < 6 → o.local_mac a ≡ m (d + a)
  pub remote_mac : (a : ℕ) → a < 6 → o.remote_mac a ≡ m (d + 6 + a)

learn-Learned : (s0 : Server) (d : ℕ) (m : Bytes) → Learned s0 (learn s0 d m) d m
unfolding learn
learn-Learned s0 d m = record {
  ssl = refl;
  wbio = refl;
  rbio = refl;
  local_ip = refl;
  remote_ip = refl;
  local_port = refl;
  remote_port = refl;
  local_mac = λ a h. refl;
  remote_mac = λ a h. refl;
}

-- The first packets of a connection, in which the server learns whom it speaks with.
module _ {K F H L : Type 0} (lib : Library L) (heap : Heap Server H) (data_at : Ptr → ℕ)
    (alloc : F → Store H L → Ptr × Store H L) (s0 : Server) (pkt : Ptr)
    (i : Iface K F (Store H L)) where
  -- The object with the ends of the connection, as the packet that came gives them.
  abbrev peer : Server
  peer = learn s0 (data_at pkt) i.world.mem

  abbrev saved : Iface K F (Store H L)
  saved = put_heap (heap.save i.state.state_data peer i.world.heap) i

  -- The state of OpenSSL after `SSL_accept`.
  abbrev pub accepted : L
  accepted = lib.ssl_accept s0.ssl (taken lib heap data_at alloc s0 pkt i).1

  -- What is done with data that came with the end of the handshake.
  abbrev pub greeted : Result L
  greeted =
      if lib.ssl_is_init_finished s0.ssl accepted then reflect lib s0.ssl accepted else ok accepted

  module _ (l : L) (live : heap.load i.state.state_data i.world.heap ≡ some s0)
      (took : 0 < (taken lib heap data_at alloc s0 pkt i).0) (reflected : greeted ≡ ok l) where
    abbrev shaking : Iface K F (Store H L)
    shaking = put_lib l (put_lib (taken lib heap data_at alloc s0 pkt i).1 saved)

    abbrev done : Iface K F (Store H L)
    done =
        put_lib l (transition established (put_lib (taken lib heap data_at alloc s0 pkt i).1 saved))

    saved_taken :
        take_packet lib data_at peer pkt saved
        ≡ ok (put_lib (taken lib heap data_at alloc s0 pkt i).1 saved)
    unfolding learn put_heap put_store
    saved_taken = take_packet_ok lib heap data_at alloc peer pkt saved took

    saved_live : heap.load i.state.state_data saved.world.heap ≡ some peer
    unfolding put_heap put_store
    saved_live = save_self heap i.world.heap i.state.state_data peer s0 live

    shaking_step :
        lib.ssl_is_init_finished s0.ssl accepted ≡ false
        → {ret : ℕ} {j : Iface K F (Store H L)}
        → write_all_data_available lib heap data_at alloc i.state.state_data pkt shaking
          ≡ ok (ret, j)
        → run_handshake lib heap data_at alloc pkt i ≡ ok j
    unfolding run_handshake object learn
    shaking_step e w = ground (arith, live, saved_taken, reflected, e, w)

    done_step :
        lib.ssl_is_init_finished s0.ssl accepted ≡ true
        → {ret : ℕ} {j : Iface K F (Store H L)}
        → write_all_data_available lib heap data_at alloc i.state.state_data pkt done ≡ ok (ret, j)
        → run_handshake lib heap data_at alloc pkt i ≡ ok j
    unfolding run_handshake object learn
    done_step e w = ground (arith, live, saved_taken, reflected, e, w)

    -- The server's `runHandshake` returns, with everything sent, and the object of the
    -- connection, which is otherwise as before, holds both ends: the server's address, port and
    -- link address are those that the packet went to, the peer's those that it came from. The
    -- connection is established if OpenSSL has finished the handshake, and stays in its state
    -- otherwise. Conditions: the object is live, OpenSSL takes some of the packet, data that came
    -- with the end of the handshake is written back as a whole, and those on the queue, the pool,
    -- the callback and the room.
    pub run_handshake-Through :
        IsQueue lib
        → IsPool alloc
        → (f : F) → i.get_pkt_cb ≡ some f
        → all_header_length < i.world.buf_len pkt
        → (o : Server) × (j : Iface K F (Store H L)) × (run_handshake lib heap data_at alloc pkt i
            ≡ ok j)
          × Learned s0 o (data_at pkt) i.world.mem
          × Through lib heap data_at alloc s0 pkt i o
              (if lib.ssl_is_init_finished s0.ssl accepted then established else i.state.state)
              j
    unfolding put_lib put_store put_heap transition set_state_id
    run_handshake-Through queue pool f cb room =
        elim (Bool-cases (lib.ssl_is_init_finished s0.ssl accepted)) [
          | inr e ↦
              let (ret, j, ran, through) =
                finish lib heap data_at alloc s0 pkt i queue pool f peer shaking i.state.state
                  saved_live cb room refl in
              (
                peer,
                j,
                shaking_step e ran,
                learn-Learned s0 (data_at pkt) i.world.mem,
                rw e through,
              )
          | inl e ↦
              let (ret, j, ran, through) =
                finish lib heap data_at alloc s0 pkt i queue pool f peer done established saved_live
                  cb room refl in
              (peer, j, done_step e ran, learn-Learned s0 (data_at pkt) i.world.mem, rw e through)
        ]
