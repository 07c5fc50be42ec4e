-- ===== src/Machine/Uses.antt =====
-- What a function that works through `FunIface` cannot break.
use moon_state.Prelude.{
  ℕ, suc, ◌+◌, ◌^◌, ◌≤◌, ◌<◌, ◌≡◌, refl, ap, ◌∙◌, ◌⊎◌, inl, inr, true, List, [], ◌∷◌, ◌++◌, arith,
  length, length-append, Option-cases,
}
use mathlib.Core.List.{append-nil, append_assoc}
use moon_state.Fault.{ok}
use moon_state.BufArray.{Ptr, BufArray, u32_mod, add_pkt}
use moon_state.BufArray.Entries.{Entry, Holds, to_send, length-to_send}
use moon_state.BufArray.Ops.{add_pkt-Holds, num_bufs-add_pkt}
use moon_state.Machine.Types.{Iface, Env}
use moon_state.Machine.Iface.{
  free_pkt, get_pkt, transition, transition_now, set_timeout, Call, frees, gets, transitions,
  transitions_now, sets_timeout, touches, Uses, here, next,
}

-- The array `b` holds the entries `es` and behind them at most `n` others, which are to be sent.
pub record Extended (es : List Entry) (n : ℕ) (b : BufArray) : Type 0 where
  pub extra : List Ptr
  pub holds : Holds b (es ++ to_send extra)
  pub few : length extra ≤ n

to_send-append : (ps qs : List Ptr) → to_send (ps ++ qs) ≡ to_send ps ++ to_send qs
to_send-append [] qs = refl
to_send-append (p ∷ ps) qs = ap (◌∷◌ (p, true)) (to_send-append ps qs)

pub Holds-Extended : {b : BufArray} {es : List Entry} → Holds b es → Extended es 0 b
Holds-Extended {b} {es} h = record { extra = []; holds = rw (append-nil es) h; few = omega arith }

pub Extended-le :
    {es : List Entry} {m n : ℕ} {b : BufArray} → Extended es m b → m ≤ n → Extended es n b
Extended-le x h = record { extra = x.extra; holds = x.holds; few = omega (arith, x.few) }

pub add_pkt-Extended :
    {es : List Entry} {n : ℕ} {b : BufArray} (p : Ptr)
    → Extended es n b
    → length es + n < 2 ^ 31
    → Extended es (suc n) (add_pkt p b)
add_pkt-Extended {es} {n} {b} p x h = record {
  extra = x.extra ++ p ∷ [];
  holds =
      rw (to_send-append x.extra (p ∷ []), ← append_assoc es (to_send x.extra) (to_send (p ∷ [])))
        (add_pkt-Holds p x.holds size);
  few = omega (arith, x.few, length-append x.extra (p ∷ []));
}
  where
    size : length (es ++ to_send x.extra) < 2 ^ 31
    size = omega (arith, length-append es (to_send x.extra), length-to_send x.extra, x.few)

module _ {K F W : Type 0} {alloc : F → W → Ptr × W} where
  -- Either the array is as it was, or one packet was added.
  Call-bufs :
      {i j : Iface K F W}
      → Call alloc i j
      → (j.bufs ≡ i.bufs) ⊎ ((p : Ptr) × (j.bufs ≡ add_pkt p i.bufs))
  unfolding free_pkt get_pkt transition transition_now set_timeout
  Call-bufs (frees e) = inl (ground arith)
  Call-bufs {i} (gets p e) = elim (Option-cases i.get_pkt_cb) [
    | inl q ↦ absurd (ground arith)
    | inr (f, q) ↦ inr (p, ground arith)
  ]
  Call-bufs (transitions n e) = inl (ground arith)
  Call-bufs (transitions_now n e) = inl (ground arith)
  Call-bufs (sets_timeout t f e) = inl (ground arith)
  Call-bufs (touches d w e) = inl (ground arith)

  Call-conn_id : {i j : Iface K F W} → Call alloc i j → j.conn_id ≡ i.conn_id
  unfolding free_pkt get_pkt transition transition_now set_timeout
  Call-conn_id (frees e) = ground arith
  Call-conn_id (gets p e) = ground arith
  Call-conn_id (transitions n e) = ground arith
  Call-conn_id (transitions_now n e) = ground arith
  Call-conn_id (sets_timeout t f e) = ground arith
  Call-conn_id (touches d w e) = ground arith

  -- The connection that a function works on is not its own choice.
  pub Uses-conn_id :
      {i : Iface K F W} {n : ℕ} {j : Iface K F W} → Uses alloc i n j → j.conn_id ≡ i.conn_id
  Uses-conn_id here = refl
  Uses-conn_id (next u c) = Call-conn_id c ∙ Uses-conn_id u

  pub Uses-num_bufs :
      {i : Iface K F W} {n : ℕ} {j : Iface K F W}
      → Uses alloc i n j
      → i.bufs.num_bufs < u32_mod
      → j.bufs.num_bufs < u32_mod
  Uses-num_bufs here h = h
  Uses-num_bufs (next {j = j} u c) h = elim (Call-bufs c) [
    | inl e ↦ rw e (Uses-num_bufs u h)
    | inr (p, e) ↦ rw e (num_bufs-add_pkt p j.bufs)
  ]

  -- No function that works through the interface takes a packet out of the batch or decides about
  -- one: after `n` calls the array holds what it held and at most `n` further packets, which are
  -- to be sent. Condition: the array is small enough not to overflow.
  pub Uses-Extended :
      {i : Iface K F W} {es : List Entry} {m n : ℕ} {j : Iface K F W}
      → Uses alloc i n j
      → Extended es m i.bufs
      → length es + m + n < 2 ^ 31
      → Extended es (m + n) j.bufs
  Uses-Extended {es} {m} here x h = Extended-le x (omega arith)
  Uses-Extended {es} {m} (next {n = n} u c) x h = elim (Call-bufs c) [
    | inl e ↦ rw e (Extended-le (Uses-Extended u x (omega arith)) (omega arith))
    | inr (p, e) ↦ rw e (
        Extended-le (add_pkt-Extended p (Uses-Extended u x (omega arith)) (omega arith))
          (omega arith))
  ]

-- The user's functions work through the interface, each by at most `g` calls.
pub record WellBehaved {K F W TM PM : Type 0} (env : Env K F W TM PM) (g : ℕ) : Type 0 where
  pub fun_uses :
      (f : F) (p : Ptr) (i j : Iface K F W)
      → env.run_fun f p i ≡ ok j
      → (n : ℕ) × (n ≤ g) × Uses env.run_get_pkt i n j
  pub timeout_uses :
      (f : F) (i j : Iface K F W)
      → env.run_timeout f i ≡ ok j
      → (n : ℕ) × (n ≤ g) × Uses env.run_get_pkt i n j
