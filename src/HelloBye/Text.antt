-- ===== src/HelloBye/Text.antt =====
-- The text of HelloBye's packets: what `memcmp`, `memcpy` and an output stream do with it.
use Prim.Native.Char.{code}
use Prim.Native.String.{String}
use moon_state.Prelude.{
  ℕ, zero, suc, ◌+◌, ◌/◌, ◌%◌, ◌<◌, ◌≤◌, ◌≡◌, ◌∙◌, refl, sym, ap, arith, Bool, true, false, List,
  [], ◌∷◌, ◌++◌, length, ltb, ◌==◌, if◌then◌else◌, inl, inr, Bool-cases, ltb→lt,
}
use moon_state.Prelude.Int.{ℤ, pos, negsuc, sub_ℕ}
use moon_state.Hello.Turn.{IsBytes}
use moon_state.Headers.Bytes.{Bytes, write8, write8-other}

-- The bytes of an ASCII text.
abbrev pub codes : String → List ℕ
codes String.[] = []
codes (String.◌∷◌ c s) = code c ∷ codes s

-- `memcpy` of a text to the address `p`.
unfoldable pub write_text : ℕ → List ℕ → Bytes → Bytes
write_text p [] m = m
write_text p (c ∷ s) m = write_text (p + 1) s (write8 p c m)

-- `memcmp(p, s, n) == 0`, for all the bytes of the text.
unfoldable pub is_text : ℕ → List ℕ → Bytes → Bool
is_text p [] m = true
is_text p (c ∷ s) m = if m p == c then is_text (p + 1) s m else false

-- The decimal digits of a number; as many rounds are enough as it has digits.
unfoldable pub decimal : ℕ → ℕ → List ℕ
decimal zero n = []
decimal (suc rounds) n =
    let before = decimal rounds (n / 10) in
    if ltb n 10 then (b'0' + n) ∷ [] else before ++ (b'0' + n % 10) ∷ []

-- `stream << n`, for an `int`, which has at most ten digits.
unfoldable pub show_int : ℤ → List ℕ
unfolding decimal
show_int (pos n) = decimal 10 n
show_int (negsuc n) = b'-' ∷ decimal 10 (n + 1)

-- `stream << "…" << n << std::endl`
unfoldable pub line : List ℕ → ℤ → List ℕ
unfolding show_int
line s n = s ++ (show_int n ++ (b'\n' ∷ []))

-- `static_cast<int>(cookieChar) - 48`
unfoldable pub cookie_at : ℕ → Bytes → ℤ
cookie_at p m = sub_ℕ (m p) 48

-- Where a text is written and where it is not.
pub write_text_below : (p : ℕ) (s : List ℕ) (m : Bytes) (a : ℕ) → a < p → write_text p s m a ≡ m a
unfolding write_text
write_text_below p [] m a h = refl
write_text_below p (c ∷ s) m a h =
    write_text_below (p + 1) s (write8 p c m) a (omega arith)
    ∙ write8-other p c m a λ e. omega (arith, e)

pub write_text_behind :
    (p : ℕ) (s : List ℕ) (m : Bytes) (a : ℕ) → p + length s ≤ a → write_text p s m a ≡ m a
unfolding write_text
write_text_behind p [] m a h = refl
write_text_behind p (c ∷ s) m a h =
    write_text_behind (p + 1) s (write8 p c m) a (omega arith)
    ∙ write8-other p c m a λ e. omega (arith, e)

-- A text that was written is found.
pub is_text-write_text : (p : ℕ) (s : List ℕ) (m : Bytes) → is_text p s (write_text p s m) ≡ true
unfolding is_text write_text
is_text-write_text p [] m = refl
is_text-write_text p (c ∷ s) m =
    let first : write_text (p + 1) s (write8 p c m) p ≡ c =
      write_text_below (p + 1) s (write8 p c m) p (omega arith) ∙ ground arith in
    ground (arith, first, is_text-write_text (p + 1) s (write8 p c m))

-- A test of a text depends on its bytes only.
pub is_text_same :
    (p : ℕ) (s : List ℕ) (m n : Bytes)
    → ((a : ℕ) → p ≤ a → m a ≡ n a)
    → is_text p s m ≡ is_text p s n
unfolding is_text
is_text_same p [] m n h = refl
is_text_same p (c ∷ s) m n h =
    ground (arith, h p (omega arith), is_text_same (p + 1) s m n λ a l. h a (omega arith))

-- The start of a text that is there, and the byte after it.
pub is_text-append :
    (p : ℕ) (s t : List ℕ) (m : Bytes) → is_text p (s ++ t) m ≡ true → is_text p s m ≡ true
unfolding is_text
is_text-append p [] t m h = refl
is_text-append p (c ∷ s) t m h = ground (arith, is_text-append (p + 1) s t m)

pub is_text_next :
    (p : ℕ) (s : List ℕ) (c : ℕ) (t : List ℕ) (m : Bytes)
    → is_text p (s ++ c ∷ t) m ≡ true
    → m (p + length s) ≡ c
unfolding is_text
is_text_next p [] c t m h = ground arith
is_text_next p (b ∷ s) c t m h =
    let there : is_text (p + 1) (s ++ c ∷ t) m ≡ true = ground arith in
    let shift : p + length (b ∷ s) ≡ p + 1 + length s = omega arith in
    ap m shift ∙ is_text_next (p + 1) s c t m there

-- A cookie of one digit is read back.
decimal_digit : (rounds n : ℕ) → n < 10 → decimal (suc rounds) n ≡ (b'0' + n) ∷ []
unfolding decimal
decimal_digit rounds n h = ground arith

pub line_digit : (s : List ℕ) (c : ℕ) → c < 10 → line s (pos c) ≡ s ++ (b'0' + c) ∷ b'\n' ∷ []
unfolding line
line_digit s c h = ap (λ (x : List ℕ). s ++ (x ++ (b'\n' ∷ []))) (decimal_digit 9 c h)

-- The text of a packet with a cookie of one digit, as it is read.
pub line-cookie_at :
    (p : ℕ) (s : List ℕ) (c : ℕ) (m : Bytes)
    → c < 10
    → is_text p (line s (pos c)) m ≡ true
    → (is_text p s m ≡ true) × (cookie_at (p + length s) m ≡ pos c)
unfolding cookie_at
line-cookie_at p s c m h t =
    let there : is_text p (s ++ (b'0' + c) ∷ b'\n' ∷ []) m ≡ true =
      sym (ap (λ (x : List ℕ). is_text p x m) (line_digit s c h)) ∙ t in
    let byte : m (p + length s) ≡ b'0' + c = is_text_next p s (b'0' + c) (b'\n' ∷ []) m there in
    (is_text-append p s ((b'0' + c) ∷ b'\n' ∷ []) m there, rw byte (ground (arith, h)))

-- What is written are bytes.
abbrev pub AllBytes : List ℕ → Type 0
AllBytes [] = Unit
AllBytes (c ∷ s) = (c < 256) × AllBytes s

pub AllBytes-append : (s t : List ℕ) → AllBytes s → AllBytes t → AllBytes (s ++ t)
AllBytes-append [] t a b = b
AllBytes-append (c ∷ s) t a b = (a.0, AllBytes-append s t a.1 b)

decimal-AllBytes : (rounds n : ℕ) → AllBytes (decimal rounds n)
unfolding decimal
decimal-AllBytes zero n = tt
decimal-AllBytes (suc rounds) n = elim (Bool-cases (ltb n 10)) [
  | inl small ↦ rw small (omega (arith, ltb→lt n 10 small), tt)
  | inr large ↦ rw large (
      AllBytes-append (decimal rounds (n / 10)) ((b'0' + n % 10) ∷ [])
        (decimal-AllBytes rounds (n / 10)) (omega arith, tt))
]

show_int-AllBytes : (n : ℤ) → AllBytes (show_int n)
unfolding show_int
show_int-AllBytes (pos n) = decimal-AllBytes 10 n
show_int-AllBytes (negsuc n) = (omega arith, decimal-AllBytes 10 (n + 1))

pub line-AllBytes : (s : List ℕ) (n : ℤ) → AllBytes s → AllBytes (line s n)
unfolding line
line-AllBytes s n b =
    AllBytes-append s (show_int n ++ (b'\n' ∷ [])) b
      (AllBytes-append (show_int n) (b'\n' ∷ []) (show_int-AllBytes n) (omega arith, tt))

pub write_text-IsBytes :
    (p : ℕ) (s : List ℕ) (m : Bytes) → AllBytes s → IsBytes m → IsBytes (write_text p s m)
unfolding write_text
write_text-IsBytes p [] m b h = h
write_text-IsBytes p (c ∷ s) m b h =
    write_text-IsBytes (p + 1) s (write8 p c m) b.1 λ a. ground (arith, h a, b.0)
