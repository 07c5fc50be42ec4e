-- ===== src/Dtls/Steps.antt =====
-- The server's state functions: what they return, and where they cannot.
use moon_state.Prelude.{
  ℕ, ◌<◌, ◌≡◌, ◌∙◌, refl, ap, arith, inl, inr, true, false, some, ◌==◌, lt→ltb, if◌then◌else◌,
  Bool-cases,
}
use moon_state.Prelude.Int.{pos}
use moon_state.Fault.{ok, err, dangling}
use moon_state.BufArray.{Ptr}
use moon_state.Machine.Types.{State, Iface}
use moon_state.Machine.Iface.{free_pkt, transition, set_state_id}
use moon_state.Hello.Heap.{Heap, object, drop_self}
use moon_state.Dtls.Library.{Library, IsQueue}
use moon_state.Dtls.Store.{Store, all_header_length, put_store, put_lib, put_heap, udp_payload}
use moon_state.Dtls.Server.{
  Server, deleted, at_end, reflect, take_packet, write_all_data_available, send_data, run_teardown,
}
use moon_state.Dtls.Returns.{IsPool, write_all-Written}

module _ {K F H L : Type 0} (lib : Library L) (heap : Heap Server H) (data_at : Ptr → ℕ)
    (alloc : F → Store H L → Ptr × Store H L) (s : Server) (pkt : Ptr)
    (i : Iface K F (Store H L)) where
  abbrev server : Ptr
  server = i.state.state_data

  -- What OpenSSL does with the packet that came: how many bytes it takes, and its state then.
  abbrev pub taken : ℕ × L
  taken = lib.bio_write s.rbio (udp_payload (data_at pkt) i.world.mem) i.world.lib

  -- The server has gone through with the packet: everything is sent, the object is still there.
  pub record Through (o : Server) (n : ℕ) (j : Iface K F (Store H L)) : Type 0 where
    pub sent : at_end lib o j.world ≡ true
    pub state : j.state.state ≡ n
    pub kept : heap.load server j.world.heap ≡ some o

  pub take_packet_ok : 0 < taken.0 → take_packet lib data_at s pkt i ≡ ok (put_lib taken.1 i)
  unfolding take_packet
  take_packet_ok h = ground (arith, lt→ltb 0 taken.0 h)

  -- The last step, of an interface object whose connection is that of `i`.
  pub finish :
      IsQueue lib
      → IsPool alloc
      → (f : F) (o : Server) (k : Iface K F (Store H L)) (n : ℕ)
      → heap.load server k.world.heap ≡ some o
      → k.get_pkt_cb ≡ some f
      → all_header_length < k.world.buf_len pkt
      → k.state.state ≡ n
      → (ret : ℕ) × (j : Iface K F (Store H L)) × (write_all_data_available lib heap data_at alloc
            server pkt k
          ≡ ok (ret, j))
        × Through o n j
  finish queue pool f o k n live cb room e =
      let (ret, j, ran, end, ready, w) =
        write_all-Written lib queue heap data_at alloc pool f o pkt server k live cb room in
      (
        ret,
        j,
        ran,
        record {
          sent = end;
          state = ap (λ (x : State). x.state) ready.state_same ∙ e;
          kept = ap (heap.load server) ready.heap_same ∙ live;
        },
      )

  -- Where the shutdown is complete, the server's `runTeardown` does not return: it deletes the
  -- connection's object and then uses it in `writeAllDataAvailable`. Conditions: the object is
  -- live, OpenSSL takes some of the packet, and `SSL_shutdown` gives 1.
  pub run_teardown_dangles :
      heap.load server i.world.heap ≡ some s
      → 0 < taken.0
      → (lib.ssl_shutdown s.ssl taken.1).0 ≡ pos 1
      → run_teardown lib heap data_at alloc pkt i ≡ err dangling
  unfolding run_teardown object write_all_data_available put_heap put_lib put_store transition
      set_state_id free_pkt
  run_teardown_dangles live took down =
      ground (arith, live, take_packet_ok took, down, drop_self heap i.world.heap server)

  module _ (l : L) (live : heap.load server i.world.heap ≡ some s) (took : 0 < taken.0)
      (reflected : reflect lib s.ssl taken.1 ≡ ok l) where
    -- The interface object before the answer is written.
    abbrev open_still : Iface K F (Store H L)
    open_still = put_lib l (put_lib taken.1 i)

    abbrev closed : Iface K F (Store H L)
    closed = transition deleted (put_lib (lib.ssl_shutdown s.ssl l).1 (put_lib taken.1 i))

    open_step :
        (lib.ssl_get_shutdown s.ssl l == 0) ≡ true
        → {ret : ℕ} {j : Iface K F (Store H L)}
        → write_all_data_available lib heap data_at alloc server pkt open_still ≡ ok (ret, j)
        → send_data lib heap data_at alloc pkt i ≡ ok j
    unfolding send_data object put_lib put_store
    open_step e w = ground (arith, live, take_packet_ok took, reflected, e, w)

    closed_step :
        (lib.ssl_get_shutdown s.ssl l == 0) ≡ false
        → {ret : ℕ} {j : Iface K F (Store H L)}
        → write_all_data_available lib heap data_at alloc server pkt closed ≡ ok (ret, j)
        → send_data lib heap data_at alloc pkt i ≡ ok j
    unfolding send_data object put_lib put_store transition set_state_id
    closed_step e w = ground (arith, live, take_packet_ok took, reflected, e, w)

    -- The server's `sendData` returns, with everything sent. The connection goes to the state
    -- DELETED if a shutdown was seen, and keeps its state otherwise; its object is still there,
    -- unchanged, in both cases. Conditions: the object is live, OpenSSL takes some of the packet,
    -- what was read is written back as a whole, and those on the queue, the pool, the callback
    -- and the room.
    pub send_data-Through :
        IsQueue lib
        → IsPool alloc
        → (f : F) → i.get_pkt_cb ≡ some f
        → all_header_length < i.world.buf_len pkt
        → (j : Iface K F (Store H L)) × (send_data lib heap data_at alloc pkt i ≡ ok j)
          × Through s (if lib.ssl_get_shutdown s.ssl l == 0 then i.state.state else deleted) j
    unfolding put_lib put_store transition set_state_id
    send_data-Through queue pool f cb room = elim (Bool-cases (lib.ssl_get_shutdown s.ssl l == 0)) [
      | inl e ↦
          let (ret, j, ran, through) =
            finish queue pool f s open_still i.state.state live cb room refl in
          (j, open_step e ran, rw e through)
      | inr e ↦
          let (ret, j, ran, through) = finish queue pool f s closed deleted live cb room refl in
          (j, closed_step e ran, rw e through)
    ]
