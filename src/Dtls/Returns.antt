-- ===== src/Dtls/Returns.antt =====
-- The server's `writeAllDataAvailable` returns, with everything sent.
use moon_state.Prelude.{
  ℕ, suc, ◌+◌, ◌<◌, ◌≡◌, ◌∙◌, refl, ap, arith, inl, inr, true, false, some, List, length, lt→ltb,
  if◌then◌else◌, Bool-cases,
}
use moon_state.Fault.{Result, ok}
use moon_state.BufArray.{Ptr, add_pkt}
use moon_state.Headers.Bytes.{Bytes}
use moon_state.Machine.Types.{State, Iface}
use moon_state.Machine.Iface.{free_pkt, get_pkt}
use moon_state.Hello.Heap.{Heap, object}
use moon_state.Tcp.Data.{min}
use moon_state.Dtls.Library.{Library, IsQueue}
use moon_state.Dtls.Store.{Store, all_header_length, put_store, put_packet}
use moon_state.Dtls.Sending.{send_extra, send_first, Sends, send_extra_ends, send_extra_lem}
use moon_state.Dtls.Server.{
  Server, first_packet, extra_packet, at_end, udp_max_len, fill, write_all_data_available,
}

-- A callback that gives packets from a pool leaves the rest of the memory as it is.
pub record IsPool {F H L : Type 0} (alloc : F → Store H L → Ptr × Store H L) : Type 0 where
  pub lib : (f : F) (w : Store H L) → (alloc f w).1.lib ≡ w.lib
  pub heap : (f : F) (w : Store H L) → (alloc f w).1.heap ≡ w.heap
  pub buf_len : (f : F) (w : Store H L) → (alloc f w).1.buf_len ≡ w.buf_len

module _ {K F H L : Type 0} (lib : Library L) (queue : IsQueue lib) (heap : Heap Server H)
    (data_at : Ptr → ℕ) (alloc : F → Store H L → Ptr × Store H L) (pool : IsPool alloc) (f : F)
    (s : Server) (pkt : Ptr) where
  -- There are packets to be had, the packet that came has room for a payload, and the object and
  -- the connection's state are as at the start.
  pub record Ready (h : H) (c : State) (i : Iface K F (Store H L)) : Type 0 where
    pub callback : i.get_pkt_cb ≡ some f
    pub room : all_header_length < i.world.buf_len pkt
    pub heap_same : i.world.heap ≡ h
    pub state_same : i.state ≡ c

  abbrev pending : Iface K F (Store H L) → ℕ
  pending i = lib.bio_pending s.wbio i.world.lib

  module _ (h : H) (c : State) (build : Server → ℕ → List ℕ → Bytes → Bytes) (buf : Ptr)
      (i : Iface K F (Store H L)) (ready : Ready h c i) (more : at_end lib s i.world ≡ false) where
    abbrev max : ℕ
    max = udp_max_len pkt i.world

    max_pos : 0 < max
    unfolding udp_max_len min
    max_pos = ground (arith, ready.room)

    abbrev got : List ℕ
    got = (lib.bio_read s.wbio max i.world.lib).0

    some_got : 0 < length got
    some_got = queue.some_read s.wbio max i.world.lib more max_pos

    -- The interface object after a packet was filled.
    abbrev filled : Iface K F (Store H L)
    filled =
        put_store
          (put_packet buf (length got + all_header_length) (build s (data_at buf) got i.world.mem)
            (record (i.world) { lib = (lib.bio_read s.wbio max i.world.lib).1 }))
          i

    fill_ok : fill lib data_at build s pkt buf i ≡ ok filled
    unfolding fill
    fill_ok = ground (arith, lt→ltb 0 (length got) some_got)

    filled-Ready : Ready h c filled
    unfolding put_store put_packet
    filled-Ready = record {
      callback = ready.callback;
      room = ready.room;
      heap_same = ready.heap_same;
      state_same = ready.state_same;
    }

    filled_less : pending filled < pending i
    unfolding put_store put_packet
    filled_less = omega (arith, queue.taken s.wbio max i.world.lib, some_got)

  module _ (h : H) (c : State) (i : Iface K F (Store H L)) (ready : Ready h c i) where
    abbrev got_pkt : Iface K F (Store H L)
    got_pkt = record i { bufs = add_pkt (alloc f i.world).0 i.bufs; world = (alloc f i.world).1 }

    get_pkt_ok : get_pkt alloc i ≡ ok ((alloc f i.world).0, got_pkt)
    unfolding get_pkt
    get_pkt_ok = ground (arith, ready.callback)

    got-Ready : Ready h c got_pkt
    got-Ready = record {
      callback = ready.callback;
      room = rw (pool.buf_len f i.world) ready.room;
      heap_same = pool.heap f i.world ∙ ready.heap_same;
      state_same = ready.state_same;
    }

    -- A round of the loop.
    can_fill :
        at_end lib s i.world ≡ false
        → (buf : Ptr) × (j : Iface K F (Store H L)) × (k : Iface K F (Store H L)) × (get_pkt alloc i
            ≡ ok (buf, j))
          × (fill lib data_at extra_packet s pkt buf j ≡ ok k)
          × Ready h c k
          × (pending k < pending i)
    can_fill more =
        let still : at_end lib s got_pkt.world ≡ false =
          ap (lib.bio_eof s.wbio) (pool.lib f i.world) ∙ more in
        let same : pending got_pkt ≡ pending i = ap (lib.bio_pending s.wbio) (pool.lib f i.world) in
        (
          (alloc f i.world).0,
          got_pkt,
          filled h c extra_packet (alloc f i.world).0 got_pkt got-Ready still,
          get_pkt_ok,
          fill_ok h c extra_packet (alloc f i.world).0 got_pkt got-Ready still,
          filled-Ready h c extra_packet (alloc f i.world).0 got_pkt got-Ready still,
          omega (
            arith,
            same,
            filled_less h c extra_packet (alloc f i.world).0 got_pkt got-Ready still,
          ),
        )

  -- What `writeAllDataAvailable` does: where there is nothing to send, the packet that came is to
  -- be freed; otherwise it is filled, and then further packets are, and all are counted.
  unfoldable pub Written : ℕ → Iface K F (Store H L) → Iface K F (Store H L) → Type 0
  Written ret i j =
      if at_end lib s i.world
      then (ret ≡ 0) × (j ≡ free_pkt i)
      else (k : Iface K F (Store H L)) × (n : ℕ) × (fill lib data_at first_packet s pkt pkt i
          ≡ ok k)
        × Sends (at_end lib s) alloc (fill lib data_at extra_packet s pkt) k n j
        × (ret ≡ suc n)

  module _ (server : Ptr) (i : Iface K F (Store H L))
      (live : heap.load server i.world.heap ≡ some s) where
    abbrev looped : ℕ → ℕ → Iface K F (Store H L) → Result (ℕ × Iface K F (Store H L))
    looped = send_extra (at_end lib s) alloc (fill lib data_at extra_packet s pkt)

    empty_step :
        at_end lib s i.world ≡ true
        → write_all_data_available lib heap data_at alloc server pkt i
          ≡ looped (suc (pending (free_pkt i))) 0 (free_pkt i)
    unfolding write_all_data_available object send_first
    empty_step e = ground (arith, live, e)

    first_step :
        (k : Iface K F (Store H L))
        → at_end lib s i.world ≡ false
        → fill lib data_at first_packet s pkt pkt i ≡ ok k
        → write_all_data_available lib heap data_at alloc server pkt i
          ≡ looped (suc (pending k)) 1 k
    unfolding write_all_data_available object send_first
    first_step k e r = ground (arith, live, e, r)

    freed-Ready : {h : H} {c : State} → Ready h c i → Ready h c (free_pkt i)
    unfolding free_pkt
    freed-Ready r = record {
      callback = r.callback;
      room = r.room;
      heap_same = r.heap_same;
      state_same = r.state_same;
    }

    freed_end : at_end lib s i.world ≡ true → at_end lib s (free_pkt i).world ≡ true
    unfolding free_pkt
    freed_end e = e

    -- The server's `writeAllDataAvailable` ends, whatever OpenSSL has to send: then nothing is
    -- left to send, the connection's state and object are as before, and what it returns counts
    -- the packets that it filled, the packet that came first and then those that it asked for;
    -- with nothing to send it frees the packet that came. Conditions: the queue gives at least
    -- one byte and loses those that it gave, the packets' pool leaves OpenSSL, the objects and
    -- the buffers' sizes alone, a callback for packets is registered, and the packet that came
    -- has room for more than the headers.
    pub write_all-Written :
        i.get_pkt_cb ≡ some f
        → all_header_length < i.world.buf_len pkt
        → (ret : ℕ) × (j : Iface K F (Store H L)) × (write_all_data_available lib heap data_at alloc
              server pkt i
            ≡ ok (ret, j))
          × (at_end lib s j.world ≡ true)
          × Ready i.world.heap i.state j
          × Written ret i j
    unfolding Written
    write_all-Written cb room =
        let h : H = i.world.heap in
        let c : State = i.state in
        let ready : Ready h c i = record {
          callback = cb;
          room = room;
          heap_same = refl;
          state_same = refl;
        } in
        elim (Bool-cases (at_end lib s i.world)) [
          | inl e ↦ (
            0,
            free_pkt i,
            empty_step e
                ∙ send_extra_ends (at_end lib s) alloc (fill lib data_at extra_packet s pkt) _ 0
                    (free_pkt i) (freed_end e),
            freed_end e,
            freed-Ready ready,
            rw e (refl, refl),
          )
          | inr e ↦
              let k : Iface K F (Store H L) = filled h c first_packet pkt i ready e in
              let first = fill_ok h c first_packet pkt i ready e in
              let (n, j, ran, sends, end, last) =
                send_extra_lem (at_end lib s) alloc (fill lib data_at extra_packet s pkt)
                  (Ready h c) pending (λ x r m. can_fill h c x r m) (suc (pending k)) 1 k
                  (filled-Ready h c first_packet pkt i ready e) (omega arith) in
              let count : 1 + n ≡ suc n = omega arith in
              (
                suc n,
                j,
                first_step k e first ∙ ran ∙ ap (λ (x : ℕ). ok (x, j)) count,
                end,
                last,
                rw e (k, n, first, sends, refl),
              )
        ]
