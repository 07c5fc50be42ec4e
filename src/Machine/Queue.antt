-- ===== src/Machine/Queue.antt =====
-- The timeout queue: its top is the latest timeout, not the nearest.
use moon_state.Prelude.{
  suc, ◌≤◌, ◌≡◌, refl, sym, ◌∙◌, ◌⊎◌, inl, inr, Option, none, some, List, [], ◌∷◌, arith, ltb,
  if◌then◌else◌, length, Option-cases, Bool-cases,
}
use mathlib.Core.Path.{subst}
use moon_state.Machine.Types.{Timeout}
use moon_state.Machine.Timeouts.{extract, top, pop}

-- `u` is one of the queued timeouts.
abbrev pub Queued : Timeout → List Timeout → Type 0
Queued u [] = ⊥
Queued u (t ∷ q) = (u ≡ t) ⊎ Queued u q

-- What `extract` returns for a queue that is not empty.
abbrev pub Splits : List Timeout → Timeout → List Timeout → Type 0
Splits q t r = (length q ≡ suc (length r)) × ((u : Timeout) → Queued u q → u.time ≤ t.time)

extract-nil : (q : List Timeout) → extract q ≡ none → q ≡ []
unfolding extract
extract-nil [] h = refl
extract-nil (x ∷ q) h = elim (Option-cases (extract q)) [
  | inl e ↦ absurd (ground arith)
  | inr ((y, r), e) ↦ absurd (ground arith)
]

abbrev later_of : Timeout → Timeout → List Timeout → Option (Timeout × List Timeout)
later_of x y r = if ltb x.time y.time then some (y, x ∷ r) else some (x, y ∷ r)

-- The element taken out of a longer queue is the later one of its head and of that of its tail.
extract-cons :
    (x y : Timeout) (q r : List Timeout)
    → extract q ≡ some (y, r)
    → extract (x ∷ q) ≡ later_of x y r
unfolding extract
extract-cons x y q r e = rw (e, extract)

Splits-cons :
    (x y : Timeout) (q r : List Timeout) (t : Timeout) (r' : List Timeout)
    → Splits q y r
    → later_of x y r ≡ some (t, r')
    → Splits (x ∷ q) t r'
Splits-cons x y q r t r' (n, latest) h =
    (ground arith, λ u. elim [ inl e ↦ ground arith | inr m ↦ ground (arith, latest u m) ])

extract-Splits :
    (q : List Timeout) (t : Timeout) (r : List Timeout) → extract q ≡ some (t, r) → Splits q t r
extract-Splits [] t r h = absurd (unfold extract in ground arith)
extract-Splits (x ∷ []) t r h =
    unfold extract in (ground arith, λ u. elim [ inl e ↦ ground arith | inr m ↦ absurd m ])
extract-Splits (x ∷ z ∷ q) t r h = elim (Option-cases (extract (z ∷ q))) [
  | inl e ↦ absurd (cc (extract-nil (z ∷ q) e))
  | inr ((y, r'), e) ↦
      Splits-cons x y (z ∷ q) r' t r (extract-Splits (z ∷ q) y r' e)
        (sym (extract-cons x y (z ∷ q) r' e) ∙ h)
]

pub top-Splits : (q : List Timeout) (t : Timeout) → top q ≡ some t → Splits q t (pop q)
unfolding top pop
top-Splits q t h = elim (Option-cases (extract q)) [
  | inl e ↦ absurd (ground arith)
  | inr ((y, r), e) ↦ ground (arith, extract-Splits q y r e)
]

pub top-none : (q : List Timeout) → top q ≡ none → q ≡ []
unfolding top
top-none q h = elim (Option-cases (extract q)) [
  | inl e ↦ extract-nil q e
  | inr ((y, r), e) ↦ absurd (ground arith)
]

-- What is taken out of the queue, and what stays, was in it.
abbrev pub Drawn : List Timeout → Timeout → List Timeout → Type 0
Drawn q t r = Queued t q × ((u : Timeout) → Queued u r → Queued u q)

same-Drawn :
    (q : List Timeout) (t y : Timeout) (r r' : List Timeout)
    → t ≡ y
    → r' ≡ r
    → Drawn q y r
    → Drawn q t r'
same-Drawn q t y r r' a b d = subst (λ z. Drawn q z r') (sym a) (subst (λ z. Drawn q y z) (sym b) d)

Drawn-cons :
    (x y : Timeout) (q r : List Timeout) (t : Timeout) (r' : List Timeout)
    → Drawn q y r
    → later_of x y r ≡ some (t, r')
    → Drawn (x ∷ q) t r'
Drawn-cons x y q r t r' (head, rest) h = elim (Bool-cases (ltb x.time y.time)) [
  | inl e ↦
      let (a, b) : (t ≡ y) × (r' ≡ x ∷ r) = ground (arith, h, e) in
      same-Drawn (x ∷ q) t y (x ∷ r) r' a b
        (inr head, λ u. elim [ inl z ↦ inl z | inr m ↦ inr (rest u m) ])
  | inr e ↦
      let (a, b) : (t ≡ x) × (r' ≡ y ∷ r) = ground (arith, h, e) in
      same-Drawn (x ∷ q) t x (y ∷ r) r' a b (
        inl refl,
        λ u. elim [ inl z ↦ inr (subst (λ v. Queued v q) (sym z) head) | inr m ↦ inr (rest u m) ],
      )
]

extract-Drawn :
    (q : List Timeout) (t : Timeout) (r : List Timeout) → extract q ≡ some (t, r) → Drawn q t r
extract-Drawn [] t r h = absurd (unfold extract in ground arith)
extract-Drawn (x ∷ []) t r h =
    let (a, b) : (t ≡ x) × (r ≡ []) = unfold extract in ground (arith, h) in
    same-Drawn (x ∷ []) t x [] r a b (inl refl, λ u m. absurd m)
extract-Drawn (x ∷ z ∷ q) t r h = elim (Option-cases (extract (z ∷ q))) [
  | inl e ↦ absurd (cc (extract-nil (z ∷ q) e))
  | inr ((y, r'), e) ↦
      Drawn-cons x y (z ∷ q) r' t r (extract-Drawn (z ∷ q) y r' e)
        (sym (extract-cons x y (z ∷ q) r' e) ∙ h)
]

pub top-Drawn : (q : List Timeout) (t : Timeout) → top q ≡ some t → Drawn q t (pop q)
unfolding top pop
top-Drawn q t h = elim (Option-cases (extract q)) [
  | inl e ↦ absurd (ground arith)
  | inr ((y, r), e) ↦
      let same : t ≡ y = ground (arith, h, e) in
      let rest : pop q ≡ r = ground (arith, e) in
      same-Drawn q t y r (pop q) same rest (extract-Drawn q y r e)
]
