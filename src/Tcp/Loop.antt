-- ===== src/Tcp/Loop.antt =====
-- The send loop of `runEst` ends, and keeps to the window.
use moon_state.Prelude.{
  ℕ, zero, suc, ◌+◌, ◌-◌, ◌%◌, ◌<◌, ◌≤◌, ◌≡◌, ◌∙◌, refl, sym, ap, arith, inl, inr, Bool, true,
  false, not, some, List, [], ◌∷◌, ◌++◌, ltb, leb, ◌⊎◌, if◌then◌else◌, length, Bool-cases,
}
use mathlib.Core.List.{append-nil, append_assoc}
use moon_state.Fault.{Result, ok}
use moon_state.BufArray.{Ptr, add_pkt}
use moon_state.Machine.Types.{Iface}
use moon_state.Machine.Iface.{get_pkt}
use moon_state.Hello.Heap.{Heap, World}
use moon_state.Hello.Effects.{put_mem, put_world}
use moon_state.Tcp.Data.{u16, u32, Segment, Connection, ConCtl, Proto}
use moon_state.Tcp.Window.{take_segment}
use moon_state.Tcp.Packet.{tcp_at, headers_len, set_data_len, write_segment}
use moon_state.Tcp.Queues.{take_whole, take_part}
use moon_state.Tcp.Handlers.{Sent, send_loop}

-- How many bytes the segments of a queue have.
abbrev pub total : List Segment → ℕ
total [] = 0
total (s ∷ ss) = s.data_len + total ss

-- What the loop moved to the second queue fits the budget.
pub record Within {C P : Type 0} (budget : ℕ) (c d : Connection C P) : Type 0 where
  pub extra : List Segment
  pub moved : d.data_already_sent ≡ c.data_already_sent ++ extra
  pub fits : total extra ≤ budget

same-Within : {C P : Type 0} (budget : ℕ) (c : Connection C P) → Within budget c c
same-Within budget c = record {
  extra = [];
  moved = sym (append-nil c.data_already_sent);
  fits = omega arith;
}

List-cases : {A : Type 0} (xs : List A) → (xs ≡ []) ⊎ ((x : A) × (ys : List A) × (xs ≡ x ∷ ys))
List-cases [] = inl refl
List-cases (x ∷ xs) = inr (x, xs, refl)

-- The connection after a round.
abbrev next_conn : {C P : Type 0} → Connection C P → Connection C P
next_conn c = record c { ip_id = (c.ip_id + 1) % u16 }

module _ {C P : Type 0} where
  -- A round that moved the segment `s`, and what was moved after it.
  round-Within :
      (budget rest : ℕ) (s : Segment) (c d e : Connection C P)
      → s.data_len + rest ≤ budget
      → d.data_already_sent ≡ c.data_already_sent ++ s ∷ []
      → Within rest d e
      → Within budget c e
  round-Within budget rest s c d e h q w = record {
    extra = s ∷ w.extra;
    moved =
        w.moved ∙ ap (λ ss. ss ++ w.extra) q ∙ append_assoc c.data_already_sent (s ∷ []) w.extra;
    fits = omega (arith, w.fits);
  }

module _ {C P K F H : Type 0} (ctl : ConCtl C) (protocol : Proto P) (heap : Heap (Connection C P) H)
    (data_at : Ptr → ℕ) (alloc : F → World H → Ptr × World H) where
  abbrev loop :
      ℕ
      → Bool
      → ℕ
      → ℕ
      → Ptr
      → Ptr
      → ℕ
      → Connection C P
      → Iface K F (World H)
      → Result (Sent C P K F (World H))
  loop = send_loop ctl protocol heap data_at alloc

  loop_stop :
      (n : ℕ) (first : Bool) (max already : ℕ) (pkt cur : Ptr) (tcp : ℕ) (c : Connection C P)
      (i : Iface K F (World H))
      → ltb already max ≡ false
      → loop (suc n) first max already pkt cur tcp c i
        ≡ ok (record { tcp = tcp; some_sent = not first; conn = c; iface = i })
  unfolding send_loop
  loop_stop n first max already pkt cur tcp c i e = ground (arith, e)

  loop_empty :
      (n : ℕ) (first : Bool) (max already : ℕ) (pkt cur : Ptr) (tcp : ℕ) (c : Connection C P)
      (i : Iface K F (World H))
      → ltb already max ≡ true
      → c.data_to_send ≡ []
      → loop (suc n) first max already pkt cur tcp c i
        ≡ ok (record { tcp = tcp; some_sent = not first; conn = c; iface = i })
  unfolding send_loop
  loop_empty n first max already pkt cur tcp c i e q = ground (arith, e, q)

  -- The interface object after a round.
  abbrev next_iface : Ptr → Ptr → ℕ → Segment → Iface K F (World H) → Iface K F (World H)
  next_iface pkt buf ip_id s j =
      put_world
        (set_data_len pkt (headers_len + s.data_len)
          (put_mem (write_segment (data_at buf) ip_id s j.world.mem) j.world))
        j

  loop_step :
      (n : ℕ) (first : Bool) (max already : ℕ) (pkt cur : Ptr) (tcp : ℕ) (c : Connection C P)
      (i : Iface K F (World H)) (seg : Segment) (queue : List Segment) (buf : Ptr)
      (j : Iface K F (World H)) (s : Segment) (size : ℕ) (d : Connection C P)
      → ltb already max ≡ true
      → c.data_to_send ≡ seg ∷ queue
      → (if first then ok (cur, i) else get_pkt alloc i) ≡ ok (buf, j)
      → take_segment (max - already) seg queue c ≡ (s, size, d)
      → loop (suc n) first max already pkt cur tcp c i
        ≡ loop n false max
            (already + size)
            pkt
            buf
            (tcp_at j.world.mem (data_at buf))
            (next_conn d)
            (next_iface pkt buf d.ip_id s j)
  unfolding send_loop
  loop_step n first max already pkt cur tcp c i seg queue buf j s size d e q g t =
      ground (arith, e, q, g, t)

  -- A buffer for the next segment, where there is a callback.
  buffer :
      (first : Bool) (cur : Ptr) (i : Iface K F (World H)) (f : F)
      → i.get_pkt_cb ≡ some f
      → (buf : Ptr) × (j : Iface K F (World H)) × ((if first then ok (cur, i) else get_pkt alloc i)
          ≡ ok (buf, j))
        × (j.get_pkt_cb ≡ some f)
  unfolding get_pkt
  buffer true cur i f h = (cur, i, refl, h)
  buffer false cur i f h = (
    (alloc f i.world).0,
    record i { bufs = add_pkt (alloc f i.world).0 i.bufs; world = (alloc f i.world).1 },
    ground (arith, h),
    h,
  )

  loop_stops :
      (n : ℕ) (first : Bool) (max already : ℕ) (pkt cur : Ptr) (tcp : ℕ) (c : Connection C P)
      (i : Iface K F (World H))
      → 0 < n
      → ltb already max ≡ false
      → loop n first max already pkt cur tcp c i
        ≡ ok (record { tcp = tcp; some_sent = not first; conn = c; iface = i })
  loop_stops zero first max already pkt cur tcp c i h e = absurd (omega arith)
  loop_stops (suc n) first max already pkt cur tcp c i h e =
      loop_stop n first max already pkt cur tcp c i e

  next_iface_cb :
      (pkt buf : Ptr) (ip_id : ℕ) (s : Segment) (j : Iface K F (World H)) (f : F)
      → j.get_pkt_cb ≡ some f
      → (next_iface pkt buf ip_id s j).get_pkt_cb ≡ some f
  unfolding put_world
  next_iface_cb pkt buf ip_id s j f h = h

  -- The send loop of `runEst` ends, after at most one round for each queued segment and one more,
  -- without a fault, and keeps to the window: what it added behind the sent segments has no more
  -- bytes than the window had left. Conditions: the window is below 2^16, as the peer's is, and a
  -- callback for new packets is registered.
  pub send_loop_returns :
      (n : ℕ) (first : Bool) (max already : ℕ) (pkt cur : Ptr) (tcp : ℕ) (c : Connection C P)
      (i : Iface K F (World H)) (f : F)
      → length c.data_to_send < n
      → max < u16
      → i.get_pkt_cb ≡ some f
      → (s : Sent C P K F (World H)) × (send_loop ctl protocol heap data_at alloc n first max
            already pkt cur tcp c i
          ≡ ok s)
        × Within (max - already) c s.conn
  send_loop_returns zero first max already pkt cur tcp c i f fuel small cb = absurd (omega arith)
  send_loop_returns (suc n) first max already pkt cur tcp c i f fuel small cb =
      elim (Bool-cases (ltb already max)) [
        | inr e ↦ (
          record { tcp = tcp; some_sent = not first; conn = c; iface = i },
          loop_stop n first max already pkt cur tcp c i e,
          same-Within (max - already) c,
        )
        | inl e ↦ elim (List-cases c.data_to_send) [
          | inl q ↦ (
            record { tcp = tcp; some_sent = not first; conn = c; iface = i },
            loop_empty n first max already pkt cur tcp c i e q,
            same-Within (max - already) c,
          )
          | inr (seg, queue, q) ↦
              let (buf, j, g, cb') = buffer first cur i f cb in
              let budget : max - already < u16 = omega (arith, small) in
              elim (Bool-cases (leb seg.data_len (max - already))) [
                | inl fits ↦
                    let below : seg.data_len ≤ max - already = ground arith in
                    let d : Connection C P = record c {
                      data_to_send = queue;
                      data_already_sent = c.data_already_sent ++ seg ∷ [];
                    } in
                    let step =
                      loop_step n first max already pkt cur tcp c i seg queue buf j seg seg.data_len
                        d e q g (take_whole (max - already) seg queue c budget below) in
                    let count : length c.data_to_send ≡ suc (length queue) = ap length q in
                    let (s, r, w) =
                      send_loop_returns n false max (already + seg.data_len) pkt buf
                        (tcp_at j.world.mem (data_at buf)) (next_conn d)
                        (next_iface pkt buf d.ip_id seg j) f (omega arith) small
                        (next_iface_cb pkt buf d.ip_id seg j f cb') in
                    (
                      s,
                      step ∙ r,
                      round-Within (max - already) (max - (already + seg.data_len)) seg c
                          (next_conn d) s.conn (omega arith) refl w,
                    )
                | inr misfit ↦
                    let over : max - already < seg.data_len = ground arith in
                    let piece : Segment = record seg { data_len = 0 } in
                    let rest : Segment = record {
                      data_ptr = [];
                      seq_number = (seg.seq_number + (max - already)) % u32;
                      data_len = 0;
                    } in
                    let d : Connection C P = record c {
                      data_to_send = rest ∷ queue;
                      data_already_sent = c.data_already_sent ++ piece ∷ [];
                    } in
                    let step =
                      loop_step n first max already pkt cur tcp c i seg queue buf j piece
                        (max - already) d e q g
                        (take_part (max - already) seg queue c budget over) in
                    let count : length c.data_to_send ≡ suc (length queue) = ap length q in
                    let full : ltb (already + (max - already)) max ≡ false = ground arith in
                    (
                      record {
                        tcp = tcp_at j.world.mem (data_at buf);
                        some_sent = true;
                        conn = next_conn d;
                        iface = next_iface pkt buf d.ip_id piece j;
                      },
                      step
                          ∙ loop_stops n false max (already + (max - already)) pkt buf
                              (tcp_at j.world.mem (data_at buf)) (next_conn d)
                              (next_iface pkt buf d.ip_id piece j) (omega arith) full,
                      round-Within (max - already) 0 piece c (next_conn d) (next_conn d)
                          (omega arith) refl (same-Within 0 (next_conn d)),
                    )
              ]
        ]
      ]
