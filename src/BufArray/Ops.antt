-- ===== src/BufArray/Ops.antt =====
-- The constructor, `addPkt` and `markDropPkt(Packet *)` against the list of entries.
use moon_state.Prelude.{
  ℕ, zero, suc, ◌+◌, ◌-◌, ◌*◌, ◌%◌, ◌^◌, ◌<◌, ◌≡◌, ◌≢◌, refl, ap, sym, ◌∙◌, Bool, true, false,
  Option, none, some, List, [], ◌∷◌, ◌++◌, arith, ◌==◌, if◌then◌else◌, length, set, replicate,
  resize, length-append, Bool-cases, inl, inr, ==_iff, le→ltb, ◌≤◌,
}
use moon_state.Fault.{ok, err, assert_failed}
use moon_state.BufArray.{
  Ptr, u32_mod, BufArray, mark_drop, mark_send, some_all, make, mark_drop_ptr, drop_loop, add_pkt,
  grow, put,
}
use moon_state.BufArray.Entries.{
  Entry, Holds, ptrs, flags, to_send, drop_all, length-flags, length-ptrs, length-drop_all,
  length-to_send,
}
use mathlib.Core.List.{append-nil}

some_all-ptrs : (ps : List Ptr) → some_all ps ≡ ptrs (to_send ps)
unfolding some_all
some_all-ptrs [] = refl
some_all-ptrs (p ∷ ps) = ap (◌∷◌ (some p)) (some_all-ptrs ps)

flags-to_send : (ps : List Ptr) → replicate (length ps) true ≡ flags (to_send ps)
flags-to_send [] = refl
flags-to_send (p ∷ ps) = ap (◌∷◌ true) (flags-to_send ps)

ne→== : (a b : ℕ) → a ≢ b → (a == b) ≡ false
ne→== a b h = ground arith

-- A new array holds exactly the given packets, all to be sent. Conditions: there is at least one
-- packet, and fewer than `2 ^ 32`.
pub make-Holds :
    (ps : List Ptr) (lua : Bool)
    → 0 < length ps
    → length ps < u32_mod
    → (b : BufArray) × (make ps lua ≡ ok b) × Holds b (to_send ps)
unfolding make
make-Holds [] lua h s = absurd (omega arith)
make-Holds (p ∷ ps) lua h s = (
  record {
    pkts = some_all (p ∷ ps);
    send_mask = replicate (length (p ∷ ps)) true;
    num_bufs = length (p ∷ ps);
    num_slots = length (p ∷ ps);
    from_lua = lua;
  },
  rw some_slot,
  record {
    spare = 0;
    cells = rw (append-nil, some_all-ptrs (p ∷ ps));
    mask = rw (append-nil, flags-to_send (p ∷ ps));
    bufs = omega (arith, length-to_send (p ∷ ps));
    slots = omega (arith, length-to_send (p ∷ ps));
    used = omega (arith, length-to_send (p ∷ ps));
    small = omega (arith, length-to_send (p ∷ ps));
  },
)
  where
    some_slot : (length (p ∷ ps) == 0) ≡ false
    some_slot = ground arith

-- Writing the first spare cell, whatever it holds.
set_append {ℓ} :
    {A : Type ℓ} (xs : List A) (a v : A) (ys : List A) (i : ℕ)
    → i ≡ length xs
    → set (xs ++ a ∷ ys) i v ≡ (xs ++ v ∷ []) ++ ys
set_append [] a v ys zero e = refl
set_append [] a v ys (suc i) e = absurd (omega arith)
set_append (x ∷ xs) a v ys zero e = absurd (omega arith)
set_append (x ∷ xs) a v ys (suc i) e = ap (◌∷◌ x) (set_append xs a v ys i (omega arith))

ptrs-snoc : (es : List Entry) (p : Ptr) → ptrs (es ++ (p, true) ∷ []) ≡ ptrs es ++ some p ∷ []
ptrs-snoc [] p = refl
ptrs-snoc ((q, s) ∷ es) p = ap (◌∷◌ (some q)) (ptrs-snoc es p)

flags-snoc : (es : List Entry) (p : Ptr) → flags (es ++ (p, true) ∷ []) ≡ flags es ++ true ∷ []
flags-snoc [] p = refl
flags-snoc ((q, s) ∷ es) p = ap (◌∷◌ s) (flags-snoc es p)

-- The write of `addPkt` into an array with a spare cell.
put-Holds :
    {b : BufArray} {es : List Entry} (p : Ptr) (k : ℕ) (h : Holds b es)
    → h.spare ≡ suc k
    → Holds (put p b) (es ++ (p, true) ∷ [])
unfolding put
put-Holds {b} {es} p k h e = record {
  spare = k;
  cells =
      rw (h.cells, e, ptrs-snoc es p)
        (set_append (ptrs es) none (some p) _ b.num_bufs (h.bufs ∙ sym (length-ptrs es)));
  mask =
      rw (h.mask, e, flags-snoc es p)
        (set_append (flags es) false true _ b.num_bufs (h.bufs ∙ sym (length-flags es)));
  bufs = omega (arith, h.bufs, h.small, e, length-append es ((p, true) ∷ []));
  slots = omega (arith, h.slots, e, length-append es ((p, true) ∷ []));
  used = omega (arith, length-append es ((p, true) ∷ []));
  small = omega (arith, h.small, e, length-append es ((p, true) ∷ []));
}

resize_append {ℓ} :
    {A : Type ℓ} (xs : List A) (a : A) (n k : ℕ)
    → n ≡ length xs + k
    → resize n a xs ≡ xs ++ replicate k a
resize_append [] a zero zero e = refl
resize_append [] a zero (suc k) e = absurd (omega arith)
resize_append [] a (suc n) zero e = absurd (omega arith)
resize_append [] a (suc n) (suc k) e = ap (λ m. a ∷ replicate m a) (omega arith)
resize_append (x ∷ xs) a zero k e = absurd (omega arith)
resize_append (x ∷ xs) a (suc n) k e = ap (◌∷◌ x) (resize_append xs a n k (omega arith))

-- A full array doubles.
grow-Holds :
    {b : BufArray} {es : List Entry} (h : Holds b es)
    → h.spare ≡ 0
    → length es < 2 ^ 31
    → (h' : Holds (grow b) es) × (h'.spare ≡ length es)
unfolding grow
grow-Holds {b} {es} h e lt = (
  record {
    spare = length es;
    cells = rw (h.cells, e, append-nil) (ap (λ n. ptrs es ++ replicate n none) n);
    mask = rw (h.mask, e, append-nil) (resize_append (flags es) false _ (length es) twice);
    bufs = h.bufs;
    slots = omega (arith, n);
    used = h.used;
    small = omega arith;
  },
  refl,
)
  where
    n : b.num_slots ≡ length es
    n = omega (arith, h.slots, e)

    twice : b.num_slots * 2 % u32_mod ≡ length (flags es) + length es
    twice = omega (arith, n, length-flags es)

-- `addPkt` appends one packet, to be sent, and changes no other, whether the array has to grow or
-- not. Conditions: the array is well formed and has fewer than `2 ^ 31` packets.
pub add_pkt-Holds :
    {b : BufArray} {es : List Entry} (p : Ptr)
    → Holds b es
    → length es < 2 ^ 31
    → Holds (add_pkt p b) (es ++ (p, true) ∷ [])
unfolding add_pkt
add_pkt-Holds {b} {es} p h lt = elim (Bool-cases (b.num_bufs == b.num_slots)) [
  | inl full ↦
      let e : b.num_bufs ≡ b.num_slots = (==_iff _ _).0 full in
      let grown : (h' : Holds (grow b) es) × (h'.spare ≡ length es) =
        grow-Holds h (omega (arith, e, h.bufs, h.slots)) lt in
      rw full (put-Holds p (length es - 1) grown.0 (omega (arith, grown.1, h.used)))
  | inr room ↦ rw room (put-Holds p (h.spare - 1) h (omega (arith, some_spare room)))
]
  where
    some_spare : (b.num_bufs == b.num_slots) ≡ false → 0 < h.spare
    some_spare = ground (arith, h.bufs, h.slots)

drop_loop-flags :
    (p : Ptr) (es : List Entry) (cs : List (Option Ptr)) (ms : List Bool)
    → drop_loop (length es) p (ptrs es ++ cs) (flags es ++ ms) ≡ flags (drop_all p es) ++ ms
unfolding drop_loop
drop_loop-flags p [] cs ms = refl
drop_loop-flags p ((q, s) ∷ es) cs ms =
    ap (◌∷◌ (if p == q then false else s)) (drop_loop-flags p es cs ms)

ptrs-drop_all : (p : Ptr) (es : List Entry) → ptrs (drop_all p es) ≡ ptrs es
ptrs-drop_all p [] = refl
ptrs-drop_all p ((q, s) ∷ es) = ap (◌∷◌ (some q)) (ptrs-drop_all p es)

-- `markDropPkt` with a pointer marks every entry for the packet to be freed, and changes no
-- other. Conditions: the array is well formed, and the pointer is not null.
pub mark_drop_ptr-Holds :
    {b : BufArray} {es : List Entry} (p : Ptr)
    → Holds b es
    → p ≢ 0
    → (b' : BufArray) × (mark_drop_ptr p b ≡ ok b') × Holds b' (drop_all p es)
unfolding mark_drop_ptr
mark_drop_ptr-Holds {b} {es} p h ne = (
  record b { send_mask = drop_loop b.num_bufs p b.pkts b.send_mask },
  rw (ne→== p 0 ne),
  record {
    spare = h.spare;
    cells = rw (ptrs-drop_all p es) h.cells;
    mask = rw (h.cells, h.mask, h.bufs) (drop_loop-flags p es _ _);
    bufs = omega (arith, h.bufs, length-drop_all p es);
    slots = omega (arith, h.slots, length-drop_all p es);
    used = omega (arith, h.used, length-drop_all p es);
    small = omega (arith, h.small, length-drop_all p es);
  },
)

-- The counter is a `uint32_t`.
pub num_bufs-add_pkt : (p : Ptr) (b : BufArray) → (add_pkt p b).num_bufs < u32_mod
unfolding add_pkt grow put
num_bufs-add_pkt p b = omega arith

-- Both marking methods fail their assertion at an index behind the last packet.
pub mark_beyond :
    (i : ℕ) (b : BufArray)
    → b.num_bufs ≤ i
    → (mark_send i b ≡ err assert_failed) × (mark_drop i b ≡ err assert_failed)
unfolding mark_send mark_drop
mark_beyond i b h = rw (le→ltb i b.num_bufs h) (refl, refl)
