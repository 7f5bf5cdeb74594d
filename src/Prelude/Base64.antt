-- ===== src/Prelude/Base64.antt =====
-- `base64.URLEncoding` of Go's standard library: the URL-safe alphabet with padding. Decoding skips
-- line breaks and does not look at the unused bits of a last group.
use Prim.Native.Nat.{ℕ, ◌+◌, ◌-◌, ◌*◌, ◌/◌, ◌%◌, ◌≤◌, ◌<◌}
use mathlib.Core.Path.{◌≡◌, refl, ap}
use mathlib.Core.Bool.{Bool, false, not, ◌&&◌, ◌||◌}
use mathlib.Core.List.{[], ◌∷◌}
use mathlib.Core.Option.{Option, none, some}
use native.Mathlib.Omega.{arith}
use pluto_feed.Prelude.Tests.{◌==◌, ltb, leb, if◌then◌else◌}
use pluto_feed.Prelude.Lists.{All, select}
use pluto_feed.Prelude.Text.{Bytes}

char_of : ℕ → ℕ
char_of n =
    if ltb n 26
    then n + 65
    else if ltb n 52
    then n + 71
    else if ltb n 62
    then n - 4
    else if n == 62
    then 45
    else 95

value_of : ℕ → Option ℕ
value_of c =
    if leb 65 c && leb c 90
    then some (c - 65)
    else if leb 97 c && leb c 122
    then some (c - 71)
    else if leb 48 c && leb c 57
    then some (c + 4)
    else if c == 45
    then some 62
    else if c == 95
    then some 63
    else none

abbrev padding : ℕ
padding = 61

unfoldable pub encode : Bytes → Bytes
unfolding char_of
encode [] = []
encode (a ∷ []) = char_of (a / 4) ∷ char_of (a % 4 * 16) ∷ padding ∷ padding ∷ []
encode (a ∷ b ∷ []) =
    char_of (a / 4) ∷ char_of (a % 4 * 16 + b / 16) ∷ char_of (b % 16 * 4) ∷ padding ∷ []
encode (a ∷ b ∷ c ∷ rest) =
    char_of (a / 4)
    ∷ char_of (a % 4 * 16 + b / 16)
    ∷ char_of (b % 16 * 4 + c / 64)
    ∷ char_of (c % 64)
    ∷ encode rest

-- The bytes of a group of two, three and four values.
one_byte : Option ℕ → Option ℕ → Option Bytes
one_byte (some w) (some x) = some ((w * 4 + x / 16) ∷ [])
one_byte _ _ = none

two_bytes : Option ℕ → Option ℕ → Option ℕ → Option Bytes
two_bytes (some w) (some x) (some y) = some ((w * 4 + x / 16) ∷ (x % 16 * 16 + y / 4) ∷ [])
two_bytes _ _ _ = none

three_bytes : Option ℕ → Option ℕ → Option ℕ → Option ℕ → Option Bytes → Option Bytes
three_bytes (some w) (some x) (some y) (some z) (some rest) =
    some ((w * 4 + x / 16) ∷ (x % 16 * 16 + y / 4) ∷ (y % 4 * 64 + z) ∷ rest)
three_bytes _ _ _ _ _ = none

-- The last group may be padded, and nothing follows a padded one.
last_group : ℕ → ℕ → ℕ → Bytes → Option Bytes
last_group w x y [] =
    if y == padding
    then one_byte (value_of w) (value_of x)
    else two_bytes (value_of w) (value_of x) (value_of y)
last_group w x y (_ ∷ _) = none

decode_groups : Bytes → Option Bytes
decode_groups [] = some []
decode_groups (w ∷ x ∷ y ∷ z ∷ rest) =
    let later = decode_groups rest in
    if z == padding
    then last_group w x y rest
    else three_bytes (value_of w) (value_of x) (value_of y) (value_of z) later
decode_groups _ = none

abbrev line_break : ℕ → Bool
line_break c = c == 10 || c == 13

unfoldable pub decode : Bytes → Option Bytes
unfolding decode_groups last_group one_byte two_bytes three_bytes value_of
decode s = decode_groups (select (λ c. not (line_break c)) s)

value_of-char : (n : ℕ) → n < 64 → value_of (char_of n) ≡ some n
unfolding value_of char_of
value_of-char n h = ground arith

abbrev IsChar : ℕ → Type 0
IsChar c = (line_break c ≡ false) × (45 ≤ c)

char_of-IsChar : (n : ℕ) → n < 64 → ((char_of n == padding) ≡ false) × IsChar (char_of n)
unfolding char_of
char_of-IsChar n h = (ground arith, (ground arith, ground arith))

abbrev pub IsByte : ℕ → Type 0
IsByte b = b < 256

-- The groups of an encoding decode to the bytes.
three_of :
    (a b c : ℕ) (rest : Bytes)
    → IsByte a
    → IsByte b
    → IsByte c
    → three_bytes
        (value_of (char_of (a / 4)))
        (value_of (char_of (a % 4 * 16 + b / 16)))
        (value_of (char_of (b % 16 * 4 + c / 64)))
        (value_of (char_of (c % 64)))
        (some rest)
      ≡ some (a ∷ b ∷ c ∷ rest)
unfolding three_bytes
three_of a b c rest ha hb hc =
    rw
      (
        value_of-char (a / 4) (omega arith),
        value_of-char (a % 4 * 16 + b / 16) (omega arith),
        value_of-char (b % 16 * 4 + c / 64) (omega arith),
        value_of-char (c % 64) (omega arith),
      )
      (cc (first, second, third))
  where
    first : a / 4 * 4 + (a % 4 * 16 + b / 16) / 16 ≡ a
    first = omega arith

    second : (a % 4 * 16 + b / 16) % 16 * 16 + (b % 16 * 4 + c / 64) / 4 ≡ b
    second = omega arith

    third : (b % 16 * 4 + c / 64) % 4 * 64 + c % 64 ≡ c
    third = omega arith

two_of :
    (a b : ℕ)
    → IsByte a
    → IsByte b
    → two_bytes
        (value_of (char_of (a / 4)))
        (value_of (char_of (a % 4 * 16 + b / 16)))
        (value_of (char_of (b % 16 * 4)))
      ≡ some (a ∷ b ∷ [])
unfolding two_bytes
two_of a b ha hb =
    rw
      (
        value_of-char (a / 4) (omega arith),
        value_of-char (a % 4 * 16 + b / 16) (omega arith),
        value_of-char (b % 16 * 4) (omega arith),
      )
      (cc (first, second))
  where
    first : a / 4 * 4 + (a % 4 * 16 + b / 16) / 16 ≡ a
    first = omega arith

    second : (a % 4 * 16 + b / 16) % 16 * 16 + b % 16 * 4 / 4 ≡ b
    second = omega arith

one_of :
    (a : ℕ)
    → IsByte a
    → one_byte (value_of (char_of (a / 4))) (value_of (char_of (a % 4 * 16))) ≡ some (a ∷ [])
unfolding one_byte
one_of a ha =
    rw (value_of-char (a / 4) (omega arith), value_of-char (a % 4 * 16) (omega arith)) (cc (first))
  where
    first : a / 4 * 4 + a % 4 * 16 / 16 ≡ a
    first = omega arith

decode_groups-encode : (s : Bytes) → All IsByte s → decode_groups (encode s) ≡ some s
unfolding decode_groups encode last_group
decode_groups-encode [] h = refl
decode_groups-encode (a ∷ []) h = one_of a h.0
decode_groups-encode (a ∷ b ∷ []) h =
    rw ((char_of-IsChar (b % 16 * 4) (omega arith)).0) (two_of a b h.0 h.1.0)
decode_groups-encode (a ∷ b ∷ c ∷ rest) h =
    rw ((char_of-IsChar (c % 64) (omega arith)).0, decode_groups-encode rest h.1.1.1)
      (three_of a b c rest h.0 h.1.0 h.1.1.0)

first_bound : (a : ℕ) → IsByte a → a / 4 < 64
first_bound a h = omega arith

second_bound : (a b : ℕ) → IsByte b → a % 4 * 16 + b / 16 < 64
second_bound a b h = omega arith

third_bound : (b c : ℕ) → IsByte c → b % 16 * 4 + c / 64 < 64
third_bound b c h = omega arith

padding-IsChar : IsChar padding
padding-IsChar = (refl, omega arith)

encode-IsChar : (s : Bytes) → All IsByte s → All IsChar (encode s)
unfolding encode
encode-IsChar [] h = tt
encode-IsChar (a ∷ []) h =
    let first = (char_of-IsChar (a / 4) (first_bound a h.0)).1 in
    let second = (char_of-IsChar (a % 4 * 16) (omega arith)).1 in
    (first, (second, (padding-IsChar, (padding-IsChar, tt))))
encode-IsChar (a ∷ b ∷ []) h =
    let first = (char_of-IsChar (a / 4) (first_bound a h.0)).1 in
    let second = (char_of-IsChar (a % 4 * 16 + b / 16) (second_bound a b h.1.0)).1 in
    let third = (char_of-IsChar (b % 16 * 4) (omega arith)).1 in
    (first, (second, (third, (padding-IsChar, tt))))
encode-IsChar (a ∷ b ∷ c ∷ rest) h =
    let first = (char_of-IsChar (a / 4) (first_bound a h.0)).1 in
    let second = (char_of-IsChar (a % 4 * 16 + b / 16) (second_bound a b h.1.0)).1 in
    let third = (char_of-IsChar (b % 16 * 4 + c / 64) (third_bound b c h.1.1.0)).1 in
    let fourth = (char_of-IsChar (c % 64) (omega arith)).1 in
    (first, (second, (third, (fourth, encode-IsChar rest h.1.1.1))))

select-All : (s : Bytes) → All IsChar s → select (λ c. not (line_break c)) s ≡ s
select-All [] h = refl
select-All (c ∷ cs) h = rw (h.0.0) (ap (◌∷◌ c) (select-All cs h.1))

pub decode-encode : (s : Bytes) → All IsByte s → decode (encode s) ≡ some s
unfolding decode
decode-encode s h = rw (select-All (encode s) (encode-IsChar s h)) (decode_groups-encode s h)

pub decode_nil : decode [] ≡ some []
unfolding decode decode_groups
decode_nil = refl
