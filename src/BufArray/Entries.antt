-- ===== src/BufArray/Entries.antt =====
-- What a `BufArray` stands for: a list of packets, each with its decision to send or to free.
use moon_state.Prelude.{
  ℕ, zero, suc, ◌+◌, ◌<◌, ◌≡◌, refl, ap, Bool, true, false, Option, none, some, List, [], ◌∷◌, ◌++◌,
  arith, ◌==◌, if◌then◌else◌, length, set, replicate, lt→ltb,
}
use moon_state.Fault.{ok}
use moon_state.BufArray.{Ptr, u32_mod, BufArray, mark_drop, mark_send}

abbrev pub Entry : Type 0
Entry = Ptr × Bool

abbrev pub ptrs : List Entry → List (Option Ptr)
ptrs [] = []
ptrs ((p, s) ∷ es) = some p ∷ ptrs es

abbrev pub flags : List Entry → List Bool
flags [] = []
flags ((p, s) ∷ es) = s ∷ flags es

-- Entry `i` gets the decision `s`.
abbrev pub decide_at : List Entry → ℕ → Bool → List Entry
decide_at [] i s = []
decide_at ((p, r) ∷ es) zero s = (p, s) ∷ es
decide_at (e ∷ es) (suc i) s = e ∷ decide_at es i s

-- Every entry for the packet `p` is to be freed.
abbrev pub drop_all : Ptr → List Entry → List Entry
drop_all p [] = []
drop_all p ((q, s) ∷ es) = (q, if p == q then false else s) ∷ drop_all p es

abbrev pub to_send : List Ptr → List Entry
to_send [] = []
to_send (p ∷ ps) = (p, true) ∷ to_send ps

-- The array holds the entries `es` and has `spare` cells left, whose mask says "do not send".
pub record Holds (b : BufArray) (es : List Entry) : Type 0 where
  pub spare : ℕ
  pub cells : b.pkts ≡ ptrs es ++ replicate spare none
  pub mask : b.send_mask ≡ flags es ++ replicate spare false
  pub bufs : b.num_bufs ≡ length es
  pub slots : b.num_slots ≡ length es + spare
  pub used : 0 < length es
  pub small : length es + spare < u32_mod

pub length-ptrs : (es : List Entry) → length (ptrs es) ≡ length es
length-ptrs [] = refl
length-ptrs ((p, s) ∷ es) = ap suc (length-ptrs es)

pub length-flags : (es : List Entry) → length (flags es) ≡ length es
length-flags [] = refl
length-flags ((p, s) ∷ es) = ap suc (length-flags es)

pub length-decide_at : (es : List Entry) (i : ℕ) (s : Bool) → length (decide_at es i s) ≡ length es
length-decide_at [] i s = refl
length-decide_at ((p, r) ∷ es) zero s = refl
length-decide_at (e ∷ es) (suc i) s = ap suc (length-decide_at es i s)

pub length-drop_all : (p : Ptr) (es : List Entry) → length (drop_all p es) ≡ length es
length-drop_all p [] = refl
length-drop_all p ((q, s) ∷ es) = ap suc (length-drop_all p es)

pub length-to_send : (ps : List Ptr) → length (to_send ps) ≡ length ps
length-to_send [] = refl
length-to_send (p ∷ ps) = ap suc (length-to_send ps)

ptrs-decide_at : (es : List Entry) (i : ℕ) (s : Bool) → ptrs (decide_at es i s) ≡ ptrs es
ptrs-decide_at [] i s = refl
ptrs-decide_at ((p, r) ∷ es) zero s = refl
ptrs-decide_at ((p, r) ∷ es) (suc i) s = ap (◌∷◌ (some p)) (ptrs-decide_at es i s)

flags-decide_at :
    (es : List Entry) (i : ℕ) (s : Bool) (rest : List Bool)
    → i < length es
    → set (flags es ++ rest) i s ≡ flags (decide_at es i s) ++ rest
flags-decide_at [] i s rest h = absurd (omega arith)
flags-decide_at ((p, r) ∷ es) zero s rest h = refl
flags-decide_at ((p, r) ∷ es) (suc i) s rest h =
    ap (◌∷◌ r) (flags-decide_at es i s rest (omega arith))

-- The same write, by either of the two marking methods.
mark_lem :
    {b : BufArray} {es : List Entry} (i : ℕ) (s : Bool)
    → Holds b es
    → i < length es
    → Holds (record b { send_mask = set b.send_mask i s }) (decide_at es i s)
mark_lem {b} {es} i s h lt = record {
  spare = h.spare;
  cells = rw (ptrs-decide_at es i s) h.cells;
  mask = rw h.mask (flags-decide_at es i s _ lt);
  bufs = omega (arith, h.bufs, length-decide_at es i s);
  slots = omega (arith, h.slots, length-decide_at es i s);
  used = omega (arith, h.used, length-decide_at es i s);
  small = omega (arith, h.small, length-decide_at es i s);
}

-- `markDropPkt` with an index succeeds, marks that entry to be freed, and changes no other.
-- Conditions: the array is well formed, and the index is one of its packets.
pub mark_drop-Holds :
    {b : BufArray} {es : List Entry} (i : ℕ)
    → Holds b es
    → i < length es
    → (b' : BufArray) × (mark_drop i b ≡ ok b') × Holds b' (decide_at es i false)
unfolding mark_drop
mark_drop-Holds {b} {es} i h lt =
    (_, rw (lt→ltb i b.num_bufs (omega (arith, h.bufs))), mark_lem i false h lt)

-- `markSendPkt` succeeds, marks the entry to be sent, and changes no other. Conditions: the array
-- is well formed, and the index is one of its packets.
pub mark_send-Holds :
    {b : BufArray} {es : List Entry} (i : ℕ)
    → Holds b es
    → i < length es
    → (b' : BufArray) × (mark_send i b ≡ ok b') × Holds b' (decide_at es i true)
unfolding mark_send
mark_send-Holds {b} {es} i h lt =
    (_, rw (lt→ltb i b.num_bufs (omega (arith, h.bufs))), mark_lem i true h lt)

-- Either method, by the decision that it records.
pub mark-Holds :
    {b : BufArray} {es : List Entry} (i : ℕ) (s : Bool)
    → Holds b es
    → i < length es
    → (b' : BufArray) × ((if s then mark_send i b else mark_drop i b) ≡ ok b')
      × Holds b' (decide_at es i s)
mark-Holds i true h lt = mark_send-Holds i h lt
mark-Holds i false h lt = mark_drop-Holds i h lt
