-- ===== src/Prelude/Text.antt =====
-- Go strings as lists of bytes, and `unicode/utf8` as the program uses it.
use Prim.Native.Nat.{ℕ, zero, suc}
use Prim.Native.Char.{code}
use Prim.Native.String.{String}
use mathlib.Core.Path.{◌≡◌, refl}
use mathlib.Core.Logic.{◌↔◌}
use mathlib.Core.Bool.{Bool, true, false, ◌&&◌, ◌||◌}
use mathlib.Core.List.{List, [], ◌∷◌}
use native.Mathlib.Omega.{arith}
use pluto_feed.Prelude.Tests.{◌==◌, leb, if◌then◌else◌}

abbrev pub Bytes : Type 0
Bytes = List ℕ

-- The bytes of an ASCII literal.
abbrev pub codes : String → Bytes
codes String.[] = []
codes (String.◌∷◌ c s) = code c ∷ codes s

unfoldable pub bytes_eq : Bytes → Bytes → Bool
bytes_eq [] [] = true
bytes_eq (x ∷ xs) (y ∷ ys) = let rest = bytes_eq xs ys in if x == y then rest else false
bytes_eq _ _ = false

pub bytes_eq_iff : (s t : Bytes) → (bytes_eq s t ≡ true) ↔ (s ≡ t)
unfolding bytes_eq
bytes_eq_iff [] [] = ground arith
bytes_eq_iff [] (y ∷ ys) = ground arith
bytes_eq_iff (x ∷ xs) [] = ground arith
bytes_eq_iff (x ∷ xs) (y ∷ ys) = ground (arith, bytes_eq_iff xs ys)

pub bytes_eq_refl : (s : Bytes) → bytes_eq s s ≡ true
bytes_eq_refl s = (bytes_eq_iff s s).1 refl

between : ℕ → ℕ → ℕ → Bool
between lo hi b = leb lo b && leb b hi

-- Whether the bytes start with continuation bytes, the first one in the given range.
cont2 : ℕ → ℕ → Bytes → Bool
cont2 lo hi (b ∷ _) = between lo hi b
cont2 lo hi [] = false

cont3 : ℕ → ℕ → Bytes → Bool
cont3 lo hi (b ∷ c ∷ _) = between lo hi b && between 0x80 0xbf c
cont3 lo hi _ = false

cont4 : ℕ → ℕ → Bytes → Bool
cont4 lo hi (b ∷ c ∷ d ∷ _) = between lo hi b && (between 0x80 0xbf c && between 0x80 0xbf d)
cont4 lo hi _ = false

-- How many bytes the rune takes that starts with `b`, less one; an invalid byte is a rune alone.
extra_bytes : ℕ → Bytes → ℕ
extra_bytes b rest =
    if between 0xc2 0xdf b && cont2 0x80 0xbf rest
    then 1
    else if (b == 0xe0 && cont3 0xa0 0xbf rest)
        || (b == 0xed && cont3 0x80 0x9f rest)
        || ((between 0xe1 0xec b || between 0xee 0xef b) && cont3 0x80 0xbf rest)
    then 2
    else if (b == 0xf0 && cont4 0x90 0xbf rest)
        || (b == 0xf4 && cont4 0x80 0x8f rest)
        || (between 0xf1 0xf3 b && cont4 0x80 0xbf rest)
    then 3
    else 0

count_from : ℕ → Bytes → ℕ
count_from skip [] = 0
count_from zero (b ∷ bs) = suc (count_from (extra_bytes b bs) bs)
count_from (suc skip) (b ∷ bs) = count_from skip bs

-- `utf8.RuneCountInString`.
unfoldable pub rune_count : Bytes → ℕ
unfolding between cont2 cont3 cont4 extra_bytes count_from
rune_count s = count_from 0 s

valid_from : ℕ → Bytes → Bool
valid_from skip [] = true
valid_from zero (b ∷ bs) =
    (leb b 0x7f || leb 1 (extra_bytes b bs)) && valid_from (extra_bytes b bs) bs
valid_from (suc skip) (b ∷ bs) = valid_from skip bs

-- `utf8.ValidString`: what encoding/json keeps as it is.
unfoldable pub is_utf8 : Bytes → Bool
unfolding between cont2 cont3 cont4 extra_bytes valid_from
is_utf8 s = valid_from 0 s

rune_count_mixed : rune_count (0x61 ∷ 0xe4 ∷ 0xbd ∷ 0xa0 ∷ 0xff ∷ 0xc3 ∷ 0xa9 ∷ []) ≡ 4
unfolding rune_count
rune_count_mixed = refl
