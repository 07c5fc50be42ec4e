-- ===== src/Machine/Registry.antt =====
-- `registerFunction` against the lookup in the function table.
use moon_state.Prelude.{
  ℕ, zero, suc, ◌+◌, ◌-◌, ◌%◌, ◌≤◌, ◌<◌, ◌≡◌, ◌≢◌, refl, sym, ap, ◌∙◌, inl, inr, true, false,
  Option, none, some, List, [], ◌∷◌, arith, ltb, leb, ◌==◌, if◌then◌else◌, length, get_elem?, set,
  resize, replicate, length-resize, length-set, ==_iff, Bool-cases, ltb→lt, ltb-false→le, if_true,
  if_false,
}
use moon_state.Fault.{ok, err, assert_failed}
use moon_state.Machine.Types.{Machine}
use moon_state.Machine.Find.{u64_mod}
use moon_state.Machine.Run.{lookup_fun, register_function}

set-get {ℓ} :
    {A : Type ℓ} (xs : List A) (i : ℕ) (x : A) → i < length xs → get_elem? (set xs i x) i ≡ some x
set-get [] i x h = absurd (omega arith)
set-get (y ∷ xs) zero x h = refl
set-get (y ∷ xs) (suc i) x h = set-get xs i x (omega arith)

set-other {ℓ} :
    {A : Type ℓ} (xs : List A) (i j : ℕ) (x : A) → j ≢ i → get_elem? (set xs i x) j ≡ get_elem? xs j
set-other [] i j x ne = refl
set-other (y ∷ xs) zero zero x ne = absurd (ne refl)
set-other (y ∷ xs) zero (suc j) x ne = refl
set-other (y ∷ xs) (suc i) zero x ne = refl
set-other (y ∷ xs) (suc i) (suc j) x ne = set-other xs i j x (λ e. ne (ap suc e))

get-replicate {ℓ} :
    {A : Type ℓ} (n : ℕ) (a : A) (i : ℕ) → i < n → get_elem? (replicate n a) i ≡ some a
get-replicate zero a i h = absurd (omega arith)
get-replicate (suc n) a zero h = refl
get-replicate (suc n) a (suc i) h = get-replicate n a i (omega arith)

-- A resized list has the old elements, and the given one behind them.
resize-old {ℓ} :
    {A : Type ℓ} (n : ℕ) (a : A) (xs : List A) (i : ℕ)
    → i < n
    → i < length xs
    → get_elem? (resize n a xs) i ≡ get_elem? xs i
resize-old zero a xs i h l = absurd (omega arith)
resize-old (suc n) a [] i h l = absurd (omega arith)
resize-old (suc n) a (x ∷ xs) zero h l = refl
resize-old (suc n) a (x ∷ xs) (suc i) h l = resize-old n a xs i (omega arith) (omega arith)

resize-new {ℓ} :
    {A : Type ℓ} (n : ℕ) (a : A) (xs : List A) (i : ℕ)
    → i < n
    → length xs ≤ i
    → get_elem? (resize n a xs) i ≡ some a
resize-new zero a xs i h l = absurd (omega arith)
resize-new (suc n) a [] i h l = get-replicate (suc n) a i h
resize-new (suc n) a (x ∷ xs) zero h l = absurd (omega arith)
resize-new (suc n) a (x ∷ xs) (suc i) h l = resize-new n a xs i (omega arith) (omega arith)

module _ {F : Type 0} (n : ℕ) (fs : List (Option F)) (small : length fs < u64_mod) where
  in_table : n < length fs → leb n ((length fs + u64_mod - 1) % u64_mod) ≡ true
  in_table h = ground arith

  not_in_table : length fs ≤ n → 0 < length fs → leb n ((length fs + u64_mod - 1) % u64_mod) ≡ false
  not_in_table h used = ground arith

  lookup_fun-some :
      (f : F) → n < length fs → get_elem? fs n ≡ some (some f) → lookup_fun n fs ≡ ok f
  unfolding lookup_fun
  lookup_fun-some f h e = ground (arith, in_table h, e)

  lookup_fun-none : n < length fs → get_elem? fs n ≡ some none → lookup_fun n fs ≡ err assert_failed
  unfolding lookup_fun
  lookup_fun-none h e = ground (arith, in_table h, e)

  lookup_fun-beyond : length fs ≤ n → 0 < length fs → lookup_fun n fs ≡ err assert_failed
  unfolding lookup_fun
  lookup_fun-beyond h used = rw (not_in_table h used) refl

lookup_fun-same :
    {F : Type 0} (n : ℕ) (fs gs : List (Option F))
    → n < length fs
    → n < length gs
    → length fs < u64_mod
    → length gs < u64_mod
    → get_elem? fs n ≡ get_elem? gs n
    → lookup_fun n fs ≡ lookup_fun n gs
unfolding lookup_fun
lookup_fun-same n fs gs l m small_f small_g e =
    ground (arith, in_table n fs small_f l, in_table n gs small_g m, e)

module _ {K F TM : Type 0} (id : ℕ) (f : F) (sm : Machine K F TM) (low : id + 1 < u64_mod)
    (small : length sm.functions < u64_mod) where
  -- The table with room for the entry `id`.
  roomy : List (Option F)
  roomy =
      if ltb (length sm.functions) (id + 1) then resize (id + 1) none sm.functions else sm.functions

  length-roomy : length roomy < u64_mod × id < length roomy × length sm.functions ≤ length roomy
  unfolding roomy
  length-roomy = elim (Bool-cases (ltb (length sm.functions) (id + 1))) [
    | inl e ↦ ground (arith, length-resize (id + 1) none sm.functions)
    | inr e ↦ ground arith
  ]

  roomy-old : (n : ℕ) → n < length sm.functions → get_elem? roomy n ≡ get_elem? sm.functions n
  unfolding roomy
  roomy-old n h = elim (Bool-cases (ltb (length sm.functions) (id + 1))) [
    | inl e ↦ ground (arith, resize-old (id + 1) none sm.functions n)
    | inr e ↦ ground arith
  ]

  roomy-new : (n : ℕ) → n < length roomy → length sm.functions ≤ n → get_elem? roomy n ≡ some none
  unfolding roomy
  roomy-new n h l = elim (Bool-cases (ltb (length sm.functions) (id + 1))) [
    | inl e ↦
        ground
          (arith, resize-new (id + 1) none sm.functions n, length-resize (id + 1) none sm.functions)
    | inr e ↦ absurd (ground arith)
  ]

  -- After `registerFunction`, the lookup of a state gives the function if it was registered for
  -- that state, what it gave before for another state that the table had, and a failed assertion
  -- for one that the table did not have. Conditions: the state and the size of the table are less
  -- than `2 ^ 64`.
  pub register_function-lookup_fun :
      (n : ℕ)
      → lookup_fun n (register_function id f sm).functions ≡ (
          if n == id
          then ok f
          else if ltb n (length sm.functions)
          then lookup_fun n sm.functions
          else err assert_failed)
  unfolding register_function roomy
  register_function-lookup_fun n =
      let table : List (Option F) = set roomy id (some f) in
      let (room, fits, grown) = length-roomy in
      let l : length table ≡ length roomy = length-set roomy id (some f) in
      let size : length table < u64_mod = omega (arith, l, room) in
      elim (Bool-cases (n == id)) [
        | inl e ↦
            let here : n ≡ id = (==_iff n id).0 e in
            lookup_fun-some n table size f (omega (arith, here, fits, l))
              (ap (get_elem? table) here ∙ set-get roomy id (some f) fits)
            ∙ sym (if_true _ _ _ e)
        | inr e ↦
            let ne : n ≢ id = λ q. cc ((==_iff n id).1 q) in
            let same : get_elem? table n ≡ get_elem? roomy n = set-other roomy id n (some f) ne in
            elim (Bool-cases (ltb n (length sm.functions))) [
              | inl old ↦
                  let o : n < length sm.functions = ltb→lt _ _ old in
                  lookup_fun-same n table sm.functions (omega (arith, l, grown, o)) o size small
                    (same ∙ roomy-old n o)
                  ∙ sym (if_false _ _ _ e ∙ if_true _ _ _ old)
              | inr new ↦
                  let o : length sm.functions ≤ n = ltb-false→le _ _ new in
                  elim (Bool-cases (ltb n (length table))) [
                    | inl row ↦
                        let r : n < length table = ltb→lt _ _ row in
                        lookup_fun-none n table size r (same ∙ roomy-new n (omega (arith, l, r)) o)
                        ∙ sym (if_false _ _ _ e ∙ if_false _ _ _ new)
                    | inr out ↦
                        lookup_fun-beyond n table size (ltb-false→le _ _ out)
                          (omega (arith, l, fits))
                        ∙ sym (if_false _ _ _ e ∙ if_false _ _ _ new)
                  ]
            ]
      ]
