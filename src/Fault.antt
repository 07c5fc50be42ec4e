-- ===== src/Fault.antt =====
-- How a run of the C++ code can stop short: a failed `assert` or `std::abort`, an access outside
-- an array or through a dead reference, an exception that nothing catches, or (in the model only)
-- fuel that ran out.
use moon_state.Prelude.{ℕ, ◌⊎◌, inl, inr, ◌≡◌, refl, Bool, true, false, none, some, List, get_elem?}

pub data Fault : Type 0 where
  assert_failed out_of_range dangling uncaught no_fuel : Fault

-- What a run returns, or the fault that it ended in.
module _ {ℓ} where
  pub data Result (V : Type ℓ) : Type ℓ where
    err : Fault → Result V
    ok : V → Result V

module _ {ℓ κ} {V : Type ℓ} {U : Type κ} where
  infixl 5 ◌>>=◌
  -- The next step runs only if there was no fault.
  abbrev pub ◌>>=◌ : Result V → (V → Result U) → Result U
  err fault >>= next = err fault
  ok v >>= next = next v

module _ {κ} {U : Type κ} where
  infixl 5 ◌>>◌
  abbrev pub ◌>>◌ : Result (Unit {0}) → Result U → Result U
  first >> second = first >>= λ _. second

-- `assert(b)`. The build files never define NDEBUG, so assertions are checked.
abbrev pub assert : Bool → Result (Unit {0})
assert true = ok tt
assert false = err Fault.assert_failed

-- `xs[i]`, an access that the code does not check.
abbrev pub at {ℓ} : {A : Type ℓ} → List A → ℕ → Result A
at xs i = elim (get_elem? xs i) [ none ↦ err Fault.out_of_range | some x ↦ ok x ]

-- A chain that returned has returned at each step.
module _ {ℓ κ} {V : Type ℓ} {U : Type κ} where
  pub >>=-eq-ok :
      (first : Result V) (next : V → Result U) {u : U}
      → (first >>= next) ≡ ok u
      → (v : V) × (first ≡ ok v) × (next v ≡ ok u)
  >>=-eq-ok (err fault) next returned = cc
  >>=-eq-ok (ok v) next returned = (v, refl, returned)

pub Result-cases {ℓ} :
    {A : Type ℓ} (r : Result A) → ((a : A) × (r ≡ ok a)) ⊎ ((f : Fault) × (r ≡ err f))
Result-cases (ok a) = inl (a, refl)
Result-cases (err f) = inr (f, refl)

pub ok-injective {ℓ} : {A : Type ℓ} {a b : A} → ok a ≡ ok b → a ≡ b
ok-injective h = cc

pub not-err-ok {ℓ} : {A : Type ℓ} {f : Fault} {a : A} → err f ≡ ok a → ⊥
not-err-ok h = cc
