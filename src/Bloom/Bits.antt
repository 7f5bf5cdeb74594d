-- ===== src/Bloom/Bits.antt =====
-- What `set` and `get` of internal/bloom/bloom.go do to one another, through every byte value.
use Prim.Native.Nat.{bit_and, bit_or}
use pluto_feed.Prelude.{
  ℕ, zero, suc, ◌+◌, ◌/◌, ◌%◌, ◌^◌, ◌<◌, ◌≡◌, refl, ap, ◌∙◌, Bool, true, false, not, ◌&&◌, ◌||◌, [],
  ◌∷◌, arith, ltb, ◌==◌, ==_iff, Bool-cases, inl, inr, if◌then◌else◌, length, All, Bytes, replicate,
}
use pluto_feed.Bloom.{Bloom, byte_at, or_at, set, get, position, word}

-- Whether the test holds of each number below the bound.
each : (ℕ → Bool) → ℕ → Bool
each test zero = true
each test (suc bound) = let lower = each test bound in if test bound then lower else false

each-lt : (test : ℕ → Bool) (bound k : ℕ) → k < bound → each test bound ≡ true → test k ≡ true
unfolding each
each-lt test zero k lt checked = absurd (omega arith)
each-lt test (suc bound) k lt checked = elim (Bool-cases (k == bound)) [
  | inl top ↦ ground (arith, ap test ((==_iff k bound).0 top))
  | inr below ↦ ground (arith, each-lt test bound k)
]

abbrev has_bit : ℕ → ℕ → Bool
has_bit x k = not (bit_and x (2 ^ k) == 0)

-- Setting bit `j` of a byte leaves a byte, in which bit `k` is set where it was or where k = j.
abbrev or_law : ℕ → ℕ → ℕ → Bool
or_law x j k =
    ltb (bit_or x (2 ^ j)) 256
    && (if has_bit (bit_or x (2 ^ j)) k then has_bit x k || j == k else not (has_bit x k || j == k))

abbrev bits_agree : ℕ → ℕ → Bool
bits_agree x j = each (or_law x j) 8

or_table : each (λ x. each (bits_agree x) 8) 256 ≡ true
unfolding each
or_table = refl

or_law_holds : (x j k : ℕ) → x < 256 → j < 8 → k < 8 → or_law x j k ≡ true
or_law_holds x j k hx hj hk =
    each-lt (or_law x j) 8 k hk
      (each-lt (bits_agree x) 8 j hj (each-lt (λ x. each (bits_agree x) 8) 256 x hx or_table))

abbrev pub IsByte : ℕ → Type 0
IsByte x = x < 256

module _ (x j k : ℕ) (hx : x < 256) (hj : j < 8) where
  or_byte : bit_or x (2 ^ j) < 256
  or_byte = ground (arith, or_law_holds x j 0 hx hj (omega arith))

  or_bit : k < 8 → has_bit (bit_or x (2 ^ j)) k ≡ (has_bit x k || j == k)
  or_bit hk = ground (arith, or_law_holds x j k hx hj hk)

byte_at-or_at :
    (xs : Bytes) (i j mask : ℕ)
    → i < length xs
    → byte_at (or_at xs i mask) j ≡ (if i == j then bit_or (byte_at xs i) mask else byte_at xs j)
unfolding byte_at or_at
byte_at-or_at [] i j mask h = elim h [ ]
byte_at-or_at (x ∷ xs) zero zero mask h = ground arith
byte_at-or_at (x ∷ xs) zero (suc j) mask h = ground arith
byte_at-or_at (x ∷ xs) (suc i) zero mask h = ground arith
byte_at-or_at (x ∷ xs) (suc i) (suc j) mask h =
    byte_at-or_at xs i j mask (omega arith) ∙ ground arith

length-or_at : (xs : Bytes) (i mask : ℕ) → length (or_at xs i mask) ≡ length xs
unfolding or_at
length-or_at [] i mask = refl
length-or_at (x ∷ xs) zero mask = refl
length-or_at (x ∷ xs) (suc i) mask = ap suc (length-or_at xs i mask)

byte_at-IsByte : (xs : Bytes) (i : ℕ) → All IsByte xs → byte_at xs i < 256
unfolding byte_at
byte_at-IsByte [] i h = omega arith
byte_at-IsByte (x ∷ xs) zero h = h.0
byte_at-IsByte (x ∷ xs) (suc i) h = byte_at-IsByte xs i h.1

or_at-IsByte : (xs : Bytes) (i j : ℕ) → j < 8 → All IsByte xs → All IsByte (or_at xs i (2 ^ j))
unfolding or_at
or_at-IsByte [] i j hj h = tt
or_at-IsByte (x ∷ xs) zero j hj h = (or_byte x j 0 h.0 hj, h.1)
or_at-IsByte (x ∷ xs) (suc i) j hj h = (h.0, or_at-IsByte xs i j hj h.1)

-- A filter as `New` makes it and `Add` keeps it: some bits, a length that `uint64` holds, and as
-- many bytes as the bits need.
pub record IsValid (b : Bloom) : Type 0 where
  pub positive : 0 < b.m
  pub fits : b.m + 7 < word
  pub sized : length b.bits ≡ (b.m + 7) / 8
  pub bytes : All IsByte b.bits

pub position-lt : (b : Bloom) (h : ℕ × ℕ) (i : ℕ) → 0 < b.m → position b h i < b.m
unfolding position
position-lt b h i p = omega arith

pub set-IsValid : (b : Bloom) (p : ℕ) → IsValid b → IsValid (set b p)
unfolding set
set-IsValid b p v = record {
  positive = v.positive;
  fits = v.fits;
  sized = length-or_at b.bits (p / 8) (2 ^ (p % 8)) ∙ v.sized;
  bytes = or_at-IsByte b.bits (p / 8) (p % 8) (omega arith) v.bytes;
}

same_bit : (p q : ℕ) → (if p / 8 == q / 8 then p % 8 == q % 8 else false) ≡ (p == q)
same_bit p q = ground arith

-- After `set`, a bit is set where it was set before, and at the position of the `set`.
pub get-set : (b : Bloom) (p q : ℕ) → IsValid b → p < b.m → get (set b p) q ≡ (get b q || p == q)
unfolding set get
get-set b p q v h =
    let room : p / 8 < length b.bits = omega (arith, v.sized) in
    rw (byte_at-or_at b.bits (p / 8) (q / 8) (2 ^ (p % 8)) room) (
      ground (
        arith,
        or_bit (byte_at b.bits (p / 8)) (p % 8) (q % 8) (byte_at-IsByte b.bits (p / 8) v.bytes)
            (omega arith) (omega arith),
        same_bit p q,
      ))

pub zeros-IsByte : (n : ℕ) → All IsByte (replicate n 0)
zeros-IsByte zero = tt
zeros-IsByte (suc n) = (omega arith, zeros-IsByte n)
