-- ===== src/BufArray/Copy.antt =====
-- `getSendCount`, `getFreeCount`, `getSendBufs` and `getFreeBufs` against the list of entries.
use moon_state.Prelude.{
  ℕ, zero, suc, ◌+◌, ◌≤◌, ◌≡◌, refl, ap, Bool, true, false, Option, none, some, List, [], ◌∷◌, ◌++◌,
  arith, ltb, length, get_elem?, replicate, Perm, Bool-cases, inl, inr, lt→ltb, le→ltb,
  length-append, ltb-false→le,
}
use moon_state.Fault.{ok, at}
use moon_state.BufArray.{
  Ptr, BufArray, count_true, get_send_count, get_free_count, copy_loop, get_send_bufs,
  get_free_bufs,
}
use moon_state.BufArray.Entries.{Entry, Holds, ptrs, flags, length-flags}
use mathlib.Core.List.{perm_middle}
use mathlib.Core.List.Perm

-- The packets whose decision is `want`, in the order of the array.
abbrev pub picked : Bool → List Entry → List Ptr
picked want [] = []
picked true ((p, true) ∷ es) = p ∷ picked true es
picked true ((p, false) ∷ es) = picked true es
picked false ((p, true) ∷ es) = picked false es
picked false ((p, false) ∷ es) = p ∷ picked false es

abbrev pub sent : List Entry → List Ptr
sent es = picked true es

abbrev pub freed : List Entry → List Ptr
freed es = picked false es

abbrev pub all_ptrs : List Entry → List Ptr
all_ptrs [] = []
all_ptrs ((p, s) ∷ es) = p ∷ all_ptrs es

-- `some`, at each pointer.
abbrev pub as_cells : List Ptr → List (Option Ptr)
as_cells [] = []
as_cells (p ∷ ps) = some p ∷ as_cells ps

pub sent-freed-perm : (es : List Entry) → Perm (sent es ++ freed es) (all_ptrs es)
sent-freed-perm [] = Perm.nil
sent-freed-perm ((p, true) ∷ es) = Perm.cons p (sent-freed-perm es)
sent-freed-perm ((p, false) ∷ es) =
    Perm.trans (perm_middle (sent es) (freed es)) (Perm.cons p (sent-freed-perm es))

pub length-sent-freed : (es : List Entry) → length (sent es) + length (freed es) ≡ length es
length-sent-freed [] = omega arith
length-sent-freed ((p, true) ∷ es) = omega (arith, length-sent-freed es)
length-sent-freed ((p, false) ∷ es) = omega (arith, length-sent-freed es)

count_true-replicate : (k : ℕ) → count_true (replicate k false) ≡ 0
unfolding count_true
count_true-replicate zero = refl
count_true-replicate (suc k) = count_true-replicate k

count_true-flags :
    (es : List Entry) (k : ℕ) → count_true (flags es ++ replicate k false) ≡ length (sent es)
unfolding count_true
count_true-flags [] k = count_true-replicate k
count_true-flags ((p, true) ∷ es) k = ap suc (count_true-flags es k)
count_true-flags ((p, false) ∷ es) k = count_true-flags es k

pub get_send_count_lem :
    {b : BufArray} {es : List Entry} → Holds b es → get_send_count b ≡ length (sent es)
unfolding get_send_count
get_send_count_lem {b} {es} h = rw h.mask (count_true-flags es h.spare)

pub get_free_count_lem :
    {b : BufArray} {es : List Entry} → Holds b es → get_free_count b ≡ length (freed es)
unfolding get_free_count
get_free_count_lem {b} {es} h =
    omega (arith, get_send_count_lem h, length-sent-freed es, h.bufs, h.small)

-- The list from index `cur` on is `ys`.
abbrev From {ℓ} : {A : Type ℓ} → List A → ℕ → List A → Type ℓ
From {A = A} xs cur ys = (i : ℕ) → get_elem? xs (cur + i) ≡ get_elem? ys i

From-suc {ℓ} :
    {A : Type ℓ} (xs : List A) (cur : ℕ) (y : A) (ys : List A)
    → From xs cur (y ∷ ys)
    → From xs (cur + 1) ys
From-suc xs cur y ys h i = let e : cur + 1 + i ≡ cur + suc i = omega arith in rw e (h (suc i))

From-head {ℓ} :
    {A : Type ℓ} (xs : List A) (cur : ℕ) (y : A) (ys : List A)
    → From xs cur (y ∷ ys)
    → at xs cur ≡ ok y
From-head xs cur y ys h = let e : get_elem? xs cur ≡ some y = head in rw (e, at)
  where
    head : get_elem? xs cur ≡ some y
    head = let e : cur + 0 ≡ cur = omega arith in rw e at (h 0)

From-here {ℓ} : {A : Type ℓ} (xs : List A) → From xs 0 xs
From-here xs i = let e : 0 + i ≡ i = omega arith in rw e

nil_of_length {ℓ} : {A : Type ℓ} (xs : List A) → length xs ≡ 0 → xs ≡ []
nil_of_length [] h = refl
nil_of_length (x ∷ xs) h = absurd (omega arith)

-- An entry that is not wanted is passed over, unless the loop has all that it looks for.
copy_loop_lem :
    (want : Bool) (mask : List Bool) (cells : List (Option Ptr)) (es : List Entry) (k : ℕ)
    (fuel done count cur : ℕ)
    → From mask cur (flags es ++ replicate k false)
    → From cells cur (ptrs es ++ replicate k none)
    → length es ≤ fuel
    → done + length (picked want es) ≡ count
    → copy_loop want mask cells fuel done count cur ≡ ok (as_cells (picked want es))
unfolding copy_loop
copy_loop_lem want mask cells [] k zero done count cur hm hc hf hd =
    rw (le→ltb done count (omega arith))
copy_loop_lem want mask cells [] k (suc fuel) done count cur hm hc hf hd =
    rw (le→ltb done count (omega arith))
copy_loop_lem want mask cells (e ∷ es) k zero done count cur hm hc hf hd = absurd (omega arith)
copy_loop_lem true mask cells ((p, true) ∷ es) k (suc fuel) done count cur hm hc hf hd = rw (
  lt→ltb done count (omega arith),
  From-head mask cur _ _ hm,
  From-head cells cur _ _ hc,
  copy_loop_lem true mask cells es k fuel (done + 1) count (cur + 1) (From-suc mask cur _ _ hm)
      (From-suc cells cur _ _ hc) (omega arith) (omega arith),
)
copy_loop_lem true mask cells ((p, false) ∷ es) k (suc fuel) done count cur hm hc hf hd =
    elim (Bool-cases (ltb done count)) [
      | inl more ↦
          rw (more, From-head mask cur _ _ hm)
            (copy_loop_lem true mask cells es k fuel done count (cur + 1) (From-suc mask cur _ _ hm)
              (From-suc cells cur _ _ hc) (omega arith) hd)
      | inr enough ↦
          rw
            (enough, nil_of_length (picked true es) (omega (arith, ltb-false→le done count enough)))
    ]
copy_loop_lem false mask cells ((p, true) ∷ es) k (suc fuel) done count cur hm hc hf hd =
    elim (Bool-cases (ltb done count)) [
      | inl more ↦
          rw (more, From-head mask cur _ _ hm)
            (copy_loop_lem false mask cells es k fuel done count (cur + 1)
              (From-suc mask cur _ _ hm) (From-suc cells cur _ _ hc) (omega arith) hd)
      | inr enough ↦
          rw (
            enough,
            nil_of_length (picked false es) (omega (arith, ltb-false→le done count enough)),
          )
    ]
copy_loop_lem false mask cells ((p, false) ∷ es) k (suc fuel) done count cur hm hc hf hd = rw (
  lt→ltb done count (omega arith),
  From-head mask cur _ _ hm,
  From-head cells cur _ _ hc,
  copy_loop_lem false mask cells es k fuel (done + 1) count (cur + 1) (From-suc mask cur _ _ hm)
      (From-suc cells cur _ _ hc) (omega arith) (omega arith),
)

enough : {b : BufArray} {es : List Entry} → Holds b es → length es ≤ length b.send_mask
enough {b} {es} h =
    rw h.mask (omega (arith, length-append (flags es) (replicate h.spare false), length-flags es))

-- `getSendBufs` copies exactly the packets marked to be sent, in the order of the array, reads
-- no cell outside it, and ends.
pub get_send_bufs_lem :
    {b : BufArray} {es : List Entry} → Holds b es → get_send_bufs b ≡ ok (as_cells (sent es))
unfolding get_send_bufs
get_send_bufs_lem {b} {es} h =
    copy_loop_lem true b.send_mask b.pkts es h.spare (length b.send_mask) 0 (get_send_count b) 0
      (rw h.mask (From-here _)) (rw h.cells (From-here _)) (enough h)
      (omega (arith, get_send_count_lem h))

-- `getFreeBufs` copies exactly the packets marked to be freed, in the order of the array, reads
-- no cell outside it, and ends.
pub get_free_bufs_lem :
    {b : BufArray} {es : List Entry} → Holds b es → get_free_bufs b ≡ ok (as_cells (freed es))
unfolding get_free_bufs
get_free_bufs_lem {b} {es} h =
    copy_loop_lem false b.send_mask b.pkts es h.spare (length b.send_mask) 0 (get_free_count b) 0
      (rw h.mask (From-here _)) (rw h.cells (From-here _)) (enough h)
      (omega (arith, get_free_count_lem h))

-- For a well-formed array, `getSendBufs` and `getFreeBufs` end without an access out of bounds,
-- their results have the lengths that `getSendCount` and `getFreeCount` promise, and together
-- they hold each packet of the array exactly as often as the array does.
pub copies_split :
    {b : BufArray} {es : List Entry}
    → Holds b es
    → (send free : List Ptr) × (get_send_bufs b ≡ ok (as_cells send))
      × (get_free_bufs b ≡ ok (as_cells free))
      × (get_send_count b ≡ length send)
      × (get_free_count b ≡ length free)
      × Perm (send ++ free) (all_ptrs es)
copies_split {b} {es} h = (
  sent es,
  freed es,
  get_send_bufs_lem h,
  get_free_bufs_lem h,
  get_send_count_lem h,
  get_free_count_lem h,
  sent-freed-perm es,
)
