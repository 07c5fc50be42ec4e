-- ===== src/Dtls/ClientStays.antt =====
-- No state function of the DTLS client leads into the teardown or to the end of the connection.
use moon_state.Prelude.{
  ℕ, zero, suc, ◌+◌, ◌≡◌, ◌∙◌, refl, sym, ap, arith, inl, inr, ◌⊎◌, Bool, true, false, ltb, length,
  if◌then◌else◌, Bool-cases,
}
use moon_state.Prelude.Int.{pos, int_eq}
use moon_state.Fault.{ok, assert, >>=-eq-ok, ok-injective, not-err-ok}
use moon_state.BufArray.{Ptr}
use moon_state.Machine.Types.{State, Iface}
use moon_state.Machine.Iface.{free_pkt, get_pkt, transition, set_state_id}
use moon_state.Hello.Heap.{Heap, object}
use moon_state.Dtls.Library.{Library}
use moon_state.Dtls.Store.{Store, put_store, put_lib, put_heap}
use moon_state.Dtls.Sending.{send_extra, send_first}
use moon_state.Dtls.Client.{
  Client, handshake, established, at_end, fill, take_packet, write_all_data_available, write_first,
  init_handshake, run_handshake, send_data, run_teardown,
}
use moon_state.Dtls.Setup.{
  ClientFun, client_init_handshake, client_handshake, client_send, client_teardown, client_get_pkt,
  run_client_fun,
}

-- The state is the same, or one of the first three.
abbrev pub Stays : {K F W : Type 0} → Iface K F W → Iface K F W → Type 0
Stays i j =
    (j.state.state ≡ i.state.state) ⊎ (j.state.state ≡ handshake) ⊎ (j.state.state ≡ established)

number : {x y : State} → x ≡ y → x.state ≡ y.state
number e = ap (λ (z : State). z.state) e

module _ {K F H L : Type 0} (lib : Library L) (heap : Heap Client H) (data_at : Ptr → ℕ)
    (alloc : F → Store H L → Ptr × Store H L) where
  get_pkt_state :
      (i j : Iface K F (Store H L)) (p : Ptr) → get_pkt alloc i ≡ ok (p, j) → j.state ≡ i.state
  unfolding get_pkt
  get_pkt_state i j p e = ground (arith, e)

  fill_state :
      (c : Client) (buf : Ptr) (i j : Iface K F (Store H L))
      → fill lib data_at c buf i ≡ ok j
      → j.state ≡ i.state
  unfolding fill put_store
  fill_state c buf i j e = ground (arith, e)

  take_packet_state :
      (c : Client) (pkt : Ptr) (i j : Iface K F (Store H L))
      → take_packet lib data_at c pkt i ≡ ok j
      → j.state ≡ i.state
  unfolding take_packet put_lib put_store
  take_packet_state c pkt i j e = ground (arith, e)

  send_extra_state :
      (c : Client) (fuel ret n : ℕ) (i j : Iface K F (Store H L))
      → send_extra (at_end lib c) alloc (fill lib data_at c) fuel ret i ≡ ok (n, j)
      → j.state ≡ i.state
  unfolding send_extra
  send_extra_state c zero ret n i j e = absurd (not-err-ok e)
  send_extra_state c (suc fuel) ret n i j e = elim (Bool-cases (at_end lib c i.world)) [
    | inl end ↦ ground (arith, e, end)
    | inr more ↦
        let ((buf, k), got, e1) = >>=-eq-ok (get_pkt alloc i) _ (rw (more, send_extra) at e) in
        let (l, filled, e2) = >>=-eq-ok (fill lib data_at c buf k) _ e1 in
        send_extra_state c fuel (ret + 1) n l j e2
        ∙ fill_state c buf k l filled
        ∙ get_pkt_state i k buf got
  ]

  send_first_state :
      (c : Client) (pkt : Ptr) (n : ℕ) (i j : Iface K F (Store H L))
      → send_first (at_end lib c) alloc (fill lib data_at c) (fill lib data_at c pkt) i ≡ ok (n, j)
      → j.state ≡ i.state
  unfolding send_first free_pkt
  send_first_state c pkt n i j e = elim (Bool-cases (at_end lib c i.world)) [
    | inl end ↦ ground (arith, e, end)
    | inr more ↦
        let (k, filled, e1) = >>=-eq-ok (fill lib data_at c pkt i) _ (rw more at e) in
        let same : k ≡ j = ground (arith, e1) in
        ap (λ (x : Iface K F (Store H L)). x.state) (sym same) ∙ fill_state c pkt i k filled
  ]

  write_all_state :
      (client pkt : Ptr) (n : ℕ) (i j : Iface K F (Store H L))
      → write_all_data_available lib heap data_at alloc client pkt i ≡ ok (n, j)
      → j.state ≡ i.state
  unfolding write_all_data_available
  write_all_state client pkt n i j e =
      let (c, live, e1) = >>=-eq-ok (object heap client i.world.heap) _ e in
      let ((ret, k), first, e2) =
        >>=-eq-ok (send_first (at_end lib c) alloc (fill lib data_at c) (fill lib data_at c pkt) i)
          _ e1 in
      send_extra_state c (suc (lib.bio_pending c.wbio k.world.lib)) ret n k j e2
      ∙ send_first_state c pkt ret i k first

  init_handshake-Stays :
      (pkt : Ptr) (i j : Iface K F (Store H L))
      → init_handshake lib heap data_at alloc pkt i ≡ ok j
      → Stays i j
  unfolding init_handshake transition set_state_id
  init_handshake-Stays pkt i j e =
      let (c, live, e1) = >>=-eq-ok (object heap i.state.state_data i.world.heap) _ e in
      let ((ret, k), wrote, e2) =
        >>=-eq-ok
          (write_all_data_available lib heap data_at alloc i.state.state_data pkt
            (put_lib (lib.ssl_connect c.ssl i.world.lib) i))
          _ e1 in
      let (u, asserted, done) = >>=-eq-ok (assert (ltb 0 ret)) _ e2 in
      inr (inl (ap (λ (x : Iface K F (Store H L)). x.state.state) (sym (ok-injective done))))

  send_data-Stays :
      (pkt : Ptr) (i j : Iface K F (Store H L))
      → send_data lib heap data_at alloc pkt i ≡ ok j
      → Stays i j
  unfolding send_data put_lib put_store
  send_data-Stays pkt i j e =
      let (c, live, e1) = >>=-eq-ok (object heap i.state.state_data i.world.heap) _ e in
      let (k, took, e2) = >>=-eq-ok (take_packet lib data_at c pkt i) _ e1 in
      let (u, asserted, e3) =
        >>=-eq-ok (assert (ltb 0 (length (lib.ssl_read c.ssl 20 k.world.lib).0))) _ e2 in
      let ((ret, l), wrote, done) =
        >>=-eq-ok
          (write_all_data_available lib heap data_at alloc i.state.state_data pkt
            (put_lib (lib.ssl_shutdown c.ssl (lib.ssl_read c.ssl 20 k.world.lib).1).1 k))
          _ e3 in
      let last : j.state ≡ l.state =
        ap (λ (x : Iface K F (Store H L)). x.state) (sym (ok-injective done)) in
      inl (
        number (
          last
          ∙ write_all_state i.state.state_data pkt ret _ l wrote
          ∙ take_packet_state c pkt i k took))

  write_first_state :
      (c : Client) (i j : Iface K F (Store H L))
      → write_first lib heap data_at alloc c i ≡ ok j
      → j.state ≡ i.state
  unfolding write_first put_store
  write_first_state c i j e =
      let ((buf, k), got, e1) = >>=-eq-ok (get_pkt alloc i) _ e in
      let same : j.state ≡ k.state = ground (arith, e1) in same ∙ get_pkt_state i k buf got

  either_state :
      (b : Bool) (c : Client) (k j : Iface K F (Store H L))
      → (if b then write_first lib heap data_at alloc c (transition established k) else ok k) ≡ ok j
      → (j.state.state ≡ k.state.state) ⊎ (j.state.state ≡ established)
  unfolding transition set_state_id
  either_state true c k j e = inr (number (write_first_state c (transition established k) j e))
  either_state false c k j e =
      inl (ap (λ (x : Iface K F (Store H L)). x.state.state) (sym (ok-injective e)))

  run_handshake-Stays :
      (pkt : Ptr) (i j : Iface K F (Store H L))
      → run_handshake lib heap data_at alloc pkt i ≡ ok j
      → Stays i j
  unfolding run_handshake put_lib put_store
  run_handshake-Stays pkt i j e =
      let (c, live, e1) = >>=-eq-ok (object heap i.state.state_data i.world.heap) _ e in
      let (k, took, e2) = >>=-eq-ok (take_packet lib data_at c pkt i) _ e1 in
      let ((ret, l), wrote, e3) =
        >>=-eq-ok
          (write_all_data_available lib heap data_at alloc i.state.state_data pkt
            (put_lib (lib.ssl_connect c.ssl k.world.lib) k))
          _ e2 in
      let same : l.state.state ≡ i.state.state =
        number (
          write_all_state i.state.state_data pkt ret _ l wrote
          ∙ take_packet_state c pkt i k took) in
      elim (either_state (lib.ssl_is_init_finished c.ssl l.world.lib) c l j e3) [
        | inl x ↦ inl (x ∙ same)
        | inr x ↦ inr (inr x)
      ]

  torn_state :
      (b : Bool) (h : H) (l : L) (k : Iface K F (Store H L))
      → (if b then free_pkt (put_heap h (put_lib l k)) else k).state ≡ k.state
  unfolding free_pkt put_heap put_lib put_store
  torn_state true h l k = refl
  torn_state false h l k = refl

  run_teardown-Stays :
      (pkt : Ptr) (i j : Iface K F (Store H L))
      → run_teardown lib heap data_at alloc pkt i ≡ ok j
      → Stays i j
  unfolding run_teardown put_lib put_store
  run_teardown-Stays pkt i j e =
      let (c, live, e1) = >>=-eq-ok (object heap i.state.state_data i.world.heap) _ e in
      let (k, took, e2) = >>=-eq-ok (take_packet lib data_at c pkt i) _ e1 in
      let r = lib.ssl_shutdown c.ssl k.world.lib in
      let torn : Bool = int_eq r.0 (pos 1) in
      let h : H = heap.drop i.state.state_data k.world.heap in
      let left : Iface K F (Store H L) =
        if torn
        then free_pkt (put_heap h (put_lib (lib.ssl_free c.ssl r.1) (put_lib r.1 k)))
        else put_lib r.1 k in
      let ((ret, l), wrote, done) =
        >>=-eq-ok (write_all_data_available lib heap data_at alloc i.state.state_data pkt left) _
          e2 in
      let last : j.state ≡ l.state =
        ap (λ (x : Iface K F (Store H L)). x.state) (sym (ok-injective done)) in
      inl (
        number (
          last
          ∙ write_all_state i.state.state_data pkt ret _ l wrote
          ∙ torn_state torn h (lib.ssl_free c.ssl r.1) (put_lib r.1 k)
          ∙ take_packet_state c pkt i k took))

  -- No state function of the DTLS client leads into the teardown or to the end of the connection:
  -- if one returns, the connection is in the state it was in, in the handshake or established.
  pub client-Stays :
      (f : ClientFun) (pkt : Ptr) (i j : Iface K F (Store H L))
      → run_client_fun lib data_at heap alloc f pkt i ≡ ok j
      → Stays i j
  unfolding run_client_fun
  client-Stays client_init_handshake pkt i j e = init_handshake-Stays pkt i j e
  client-Stays client_handshake pkt i j e = run_handshake-Stays pkt i j e
  client-Stays client_send pkt i j e = send_data-Stays pkt i j e
  client-Stays client_teardown pkt i j e = run_teardown-Stays pkt i j e
  client-Stays client_get_pkt pkt i j e = absurd (not-err-ok e)
