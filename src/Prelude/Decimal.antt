-- ===== src/Prelude/Decimal.antt =====
-- Decimal numbers as the program prints and parses them: `%d` and `strconv.FormatInt`, `ParseInt`
-- and `Atoi` (base 10, 64 bits), and `ParseUint`.
use Prim.Native.Nat.{ℕ, zero, suc, ◌+◌, ◌-◌, ◌*◌, ◌/◌, ◌%◌, ◌^◌, ◌≤◌, ◌<◌}
use mathlib.Core.Path.{◌≡◌, refl, ◌∙◌}
use mathlib.Core.Logic.{◌⊎◌, inl, inr}
use mathlib.Core.Bool.{true, false, ◌&&◌}
use mathlib.Core.Option.{Option, none, some}
use mathlib.Core.List.{[], ◌∷◌}
use native.Mathlib.Omega.{arith}
use pluto_feed.Prelude.Tests.{◌==◌, ltb, leb, if◌then◌else◌, Bool-cases}
use pluto_feed.Prelude.Lists.{All}
use pluto_feed.Prelude.Text.{Bytes}
use pluto_feed.Prelude.Int.{ℤ, pos, negsuc}

abbrev pub int64_half : ℕ
int64_half = 2 ^ 63

abbrev pub InInt64 : ℤ → Type 0
InInt64 (pos n) = n < int64_half
InInt64 (negsuc n) = n < int64_half

-- The digits of `n` in front of `rest`; `n + 1` rounds are enough.
unfoldable pub digits_onto : ℕ → ℕ → Bytes → Bytes
digits_onto zero n rest = rest
digits_onto (suc f) n rest =
    let more = digits_onto f (n / 10) ((48 + n % 10) ∷ rest) in
    if ltb n 10 then (48 + n) ∷ rest else more

unfoldable pub format_uint : ℕ → Bytes
unfolding digits_onto
format_uint n = digits_onto (suc n) n []

unfoldable pub format_int : ℤ → Bytes
unfolding format_uint
format_int (pos n) = format_uint n
format_int (negsuc n) = b'-' ∷ format_uint (suc n)

unfoldable pub parse_digits : ℕ → Bytes → Option ℕ
parse_digits acc [] = some acc
parse_digits acc (c ∷ cs) =
    let rest = parse_digits (acc * 10 + (c - 48)) cs in if leb 48 c && leb c 57 then rest else none

-- At least one digit.
unfoldable pub parse_magnitude : Bytes → Option ℕ
parse_magnitude [] = none
parse_magnitude (c ∷ cs) = parse_digits 0 (c ∷ cs)

within : ℕ → (ℕ → ℤ) → Option ℕ → Option ℤ
within limit sign none = none
within limit sign (some n) = if ltb n limit then some (sign n) else none

negated : ℕ → ℤ
negated zero = pos 0
negated (suc n) = negsuc n

-- `strconv.ParseInt(s, 10, 64)`; `none` is its error, a syntax error or a value out of range.
unfoldable pub parse_int : Bytes → Option ℤ
unfolding within negated
parse_int [] = none
parse_int (c ∷ cs) =
    if c == b'-'
    then within (int64_half + 1) negated (parse_magnitude cs)
    else if c == b'+'
    then within int64_half pos (parse_magnitude cs)
    else within int64_half pos (parse_magnitude (c ∷ cs))

below_word : Option ℕ → Option ℕ
below_word none = none
below_word (some n) = if ltb n (2 ^ 64) then some n else none

-- `strconv.ParseUint(s, 10, 64)`.
unfoldable pub parse_uint : Bytes → Option ℕ
unfolding below_word
parse_uint s = below_word (parse_magnitude s)

module _ (f n : ℕ) (rest : Bytes) where
  digits_small : ltb n 10 ≡ true → digits_onto (suc f) n rest ≡ (48 + n) ∷ rest
  unfolding digits_onto
  digits_small h = rw h

  digits_large :
      ltb n 10 ≡ false → digits_onto (suc f) n rest ≡ digits_onto f (n / 10) ((48 + n % 10) ∷ rest)
  unfolding digits_onto
  digits_large h = rw h

parse-digits :
    (f n : ℕ) (rest : Bytes) → n < f → parse_digits 0 (digits_onto f n rest) ≡ parse_digits n rest
unfolding parse_digits
parse-digits zero n rest h = absurd (omega arith)
parse-digits (suc f) n rest h = elim (Bool-cases (ltb n 10)) [
  | inl small ↦ rw (digits_small f n rest small) (ground arith)
  | inr large ↦
      let e : n / 10 * 10 + n % 10 ≡ n = omega arith in
      rw (digits_large f n rest large)
        (ground (arith, parse-digits f (n / 10) ((48 + n % 10) ∷ rest)))
]

abbrev pub IsDigit : ℕ → Type 0
IsDigit c = (48 ≤ c) × (c ≤ 57)

digits-IsDigit : (f n : ℕ) (rest : Bytes) → All IsDigit rest → All IsDigit (digits_onto f n rest)
digits-IsDigit zero n rest h = unfold digits_onto in h
digits-IsDigit (suc f) n rest h = elim (Bool-cases (ltb n 10)) [
  | inl small ↦ rw (digits_small f n rest small) ((omega arith, ground arith), h)
  | inr large ↦
      rw (digits_large f n rest large) (digits-IsDigit f (n / 10) _ ((omega arith, omega arith), h))
]

digits-cons :
    (f n : ℕ) (rest : Bytes) → n < f → (c : ℕ) × (cs : Bytes) × (digits_onto f n rest ≡ c ∷ cs)
digits-cons zero n rest h = absurd (omega arith)
digits-cons (suc f) n rest h = elim (Bool-cases (ltb n 10)) [
  | inl small ↦ (48 + n, rest, digits_small f n rest small)
  | inr large ↦
      let (c, cs, e) = digits-cons f (n / 10) ((48 + n % 10) ∷ rest) (ground arith) in
      (c, cs, digits_large f n rest large ∙ e)
]

pub format_uint-IsDigit : (n : ℕ) → All IsDigit (format_uint n)
unfolding format_uint
format_uint-IsDigit n = digits-IsDigit (suc n) n [] tt

-- A printed number is some digit and further digits.
format_uint-cons : (n : ℕ) → (c : ℕ) × (cs : Bytes) × (format_uint n ≡ c ∷ cs) × IsDigit c
unfolding format_uint
format_uint-cons n =
    let (c, cs, e) = digits-cons (suc n) n [] (omega arith) in
    let digits : All IsDigit (c ∷ cs) = rw e at (format_uint-IsDigit n) in (c, cs, e, digits.0)

magnitude-format : (n : ℕ) → parse_magnitude (format_uint n) ≡ some n
magnitude-format n =
    let (c, cs, e, _) = format_uint-cons n in
    let parsed : parse_digits 0 (format_uint n) ≡ some n =
      unfold format_uint parse_digits in parse-digits (suc n) n [] (omega arith) in
    rw e (unfold parse_magnitude in rw e at parsed)

-- Printing a word and parsing it gives it back.
pub parse_uint-format : (n : ℕ) → n < 2 ^ 64 → parse_uint (format_uint n) ≡ some n
unfolding parse_uint
parse_uint-format n h = rw (magnitude-format n) (ground arith)

pub parse_uint-format_eq : (n k : ℕ) → parse_uint (format_uint n) ≡ some k → n ≡ k
unfolding parse_uint
parse_uint-format_eq n k h = ground (arith, magnitude-format n)

-- Printing an int64 and parsing it gives it back.
pub parse_int-format : (z : ℤ) → InInt64 z → parse_int (format_int z) ≡ some z
unfolding parse_int format_int
parse_int-format (pos n) h =
    let (c, cs, e, d) = format_uint-cons n in
    let parsed : parse_magnitude (c ∷ cs) ≡ some n = rw e at (magnitude-format n) in
    rw e (ground (arith, parsed))
parse_int-format (negsuc n) h = ground (arith, magnitude-format (suc n))

-- The printed bytes of an int64: a sign or digits.
abbrev pub IsIntByte : ℕ → Type 0
IsIntByte c = (c ≡ b'-') ⊎ IsDigit c

All-digits : (s : Bytes) → All IsDigit s → All IsIntByte s
All-digits [] h = tt
All-digits (c ∷ cs) h = (inr h.0, All-digits cs h.1)

pub format_int-IsIntByte : (z : ℤ) → All IsIntByte (format_int z)
unfolding format_int
format_int-IsIntByte (pos n) = All-digits _ (format_uint-IsDigit n)
format_int-IsIntByte (negsuc n) = (inl refl, All-digits _ (format_uint-IsDigit (suc n)))

prints : format_int (negsuc 1022) ≡ b'-' ∷ b'1' ∷ b'0' ∷ b'2' ∷ b'3' ∷ []
unfolding format_int digits_onto
prints = refl

parses : parse_int (b'-' ∷ b'0' ∷ b'7' ∷ []) ≡ some (negsuc 6)
unfolding parse_int parse_magnitude parse_digits
parses = refl
