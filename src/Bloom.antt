-- ===== src/Bloom.antt =====
-- internal/bloom/bloom.go: the hand-written Bloom filter, and the ids that internal/service and
-- cmd/server put into it. A bit is read and written with the byte operations of the source.
pub mod Bits
pub mod Membership
use Prim.Native.Nat.{bit_and, bit_or, bit_xor}
use pluto_feed.Prelude.{
  ℕ, zero, suc, ◌+◌, ◌-◌, ◌*◌, ◌/◌, ◌%◌, ◌^◌, Bool, true, false, not, ◌||◌, Option, none, some,
  List, [], ◌∷◌, ltb, ◌==◌, if◌then◌else◌, replicate, Bytes,
}
use pluto_feed.Prelude.Int.{ℤ, pos, negsuc}

pub record Bloom : Type 0 where
  pub bits : Bytes  -- the bit array, by bytes
  pub m : ℕ  -- uint64, the number of bits
  pub k : ℕ  -- uint32, the number of hash functions

-- The floating-point computations of `New`, over a type of floats that the model does not fix.
pub record FloatMath : Type 1 where
  pub Float : Type 0
  pub le_zero : Float → Bool  -- p <= 0
  pub ge_one : Float → Bool  -- p >= 1
  pub optimal_bits : ℕ → Float → ℕ  -- uint64(ceil(-n * ln p / ln2^2))
  pub optimal_hashes : ℕ → ℕ → ℕ  -- uint32(round(m / n * ln2))

module _ (f : FloatMath) where
  open f use {Float, le_zero, ge_one, optimal_bits, optimal_hashes}

  -- `none` is the error of invalid parameters.
  unfoldable pub new : ℕ → Float → Option Bloom
  new expected_items fp_rate =
      if (expected_items == 0) || (le_zero fp_rate || ge_one fp_rate)
      then none
      else (let m = optimal_bits expected_items fp_rate in
          let k = optimal_hashes expected_items m in
          some (record {
            bits = replicate ((m + 7) % 2 ^ 64 / 8) 0;
            m = m;
            k = if ltb k 1 then 1 else k;
          }))

abbrev pub word : ℕ
word = 2 ^ 64

-- FNV-1a over 64 bits (hash/fnv), from the state `h`.
pub fnv : ℕ → Bytes → ℕ
fnv h [] = h
fnv h (b ∷ bs) = fnv (bit_xor h b * 1_099_511_628_211 % word) bs

abbrev pub fnv_offset : ℕ
fnv_offset = 14_695_981_039_346_656_037

unfoldable pub double_hash : Bloom → Bytes → ℕ × ℕ
double_hash b input =
    let h1 = fnv fnv_offset input in
    let h2 = fnv (fnv fnv_offset input) (0x9e ∷ []) in (h1 % b.m, (if h2 == 0 then 1 else h2) % b.m)

-- `h1 + uint64(i)*h2` wraps at 2^64 before the remainder by m.
unfoldable pub position : Bloom → ℕ × ℕ → ℕ → ℕ
position b (h1, h2) i = (h1 + i * h2 % word) % word % b.m

-- `bits[i]` read, and `bits[i] |= mask`; the positions of the program are in range (`Bits`).
unfoldable pub byte_at : Bytes → ℕ → ℕ
byte_at [] i = 0
byte_at (x ∷ xs) zero = x
byte_at (x ∷ xs) (suc i) = byte_at xs i

unfoldable pub or_at : Bytes → ℕ → ℕ → Bytes
or_at [] i mask = []
or_at (x ∷ xs) zero mask = bit_or x mask ∷ xs
or_at (x ∷ xs) (suc i) mask = x ∷ or_at xs i mask

unfoldable pub set : Bloom → ℕ → Bloom
set b bit = record b { bits = or_at b.bits (bit / 8) (2 ^ (bit % 8)) }

unfoldable pub get : Bloom → ℕ → Bool
get b bit = not (bit_and (byte_at b.bits (bit / 8)) (2 ^ (bit % 8)) == 0)

-- The loop of `Add` from round `i`, with `n` rounds left.
unfoldable pub add_from : ℕ → ℕ → ℕ × ℕ → Bloom → Bloom
add_from zero i h b = b
add_from (suc n) i h b = add_from n (i + 1) h (set b (position b h i))

unfoldable pub add : Bloom → Bytes → Bloom
add b input = add_from b.k 0 (double_hash b input) b

-- The loop of `Test`.
unfoldable pub test_from : ℕ → ℕ → ℕ × ℕ → Bloom → Bool
test_from zero i h b = true
test_from (suc n) i h b =
    let rest = test_from n (i + 1) h b in if get b (position b h i) then rest else false

unfoldable pub test : Bloom → Bytes → Bool
test b input = test_from b.k 0 (double_hash b input) b

-- `uint64(id)` of an int64.
abbrev pub to_uint64 : ℤ → ℕ
to_uint64 (pos n) = n % word
to_uint64 (negsuc n) = (word - 1 - n % word) % word

-- `binary.BigEndian.PutUint64` into eight bytes.
unfoldable pub id_bytes : ℤ → Bytes
id_bytes id =
    let n = to_uint64 id in
    (n / 2 ^ 56 % 256)
    ∷ (n / 2 ^ 48 % 256)
    ∷ (n / 2 ^ 40 % 256)
    ∷ (n / 2 ^ 32 % 256)
    ∷ (n / 2 ^ 24 % 256)
    ∷ (n / 2 ^ 16 % 256)
    ∷ (n / 2 ^ 8 % 256)
    ∷ (n % 256)
    ∷ []

-- The start of the server: every post id goes into the filter.
unfoldable pub load : Bloom → List ℤ → Bloom
load b [] = b
load b (id ∷ ids) = load (add b (id_bytes id)) ids
