-- ===== src/Bloom/Membership.antt =====
-- `Add` and `Test` of internal/bloom/bloom.go: no id that was added is reported missing.
use pluto_feed.Prelude.{
  ℕ, zero, suc, ◌+◌, ◌/◌, ◌%◌, ◌^◌, ◌<◌, ◌≡◌, refl, sym, ◌∙◌, inl, inr, any, Bool-cases, true, some,
  List, [], ◌∷◌, arith, ==_refl, length-replicate, Bytes,
}
use mathlib.Core.Path.{ap₂, subst}
use pluto_feed.Prelude.Int.{ℤ, eqb_ℤ, eqb_ℤ_iff}
use pluto_feed.Bloom.{
  Bloom, FloatMath, new, set, get, position, double_hash, add_from, add, test_from, test, id_bytes,
  load, word,
}
use pluto_feed.Bloom.Bits.{IsValid, position-lt, set-IsValid, get-set, zeros-IsByte}

-- `c` has the shape of `b`, and every bit that `b` has.
record Extends (b c : Bloom) : Type 0 where
  same_m : c.m ≡ b.m
  same_k : c.k ≡ b.k
  bits : (q : ℕ) → get b q ≡ true → get c q ≡ true

Extends-refl : (b : Bloom) → Extends b b
Extends-refl b = record { same_m = refl; same_k = refl; bits = λ q h. h }

Extends-trans : {a b c : Bloom} → Extends a b → Extends b c → Extends a c
Extends-trans f g = record {
  same_m = g.same_m ∙ f.same_m;
  same_k = g.same_k ∙ f.same_k;
  bits = λ q h. g.bits q (f.bits q h);
}

set-Extends : (b : Bloom) (p : ℕ) → IsValid b → p < b.m → Extends b (set b p)
set-Extends b p v h = record {
  same_m = unfold set in refl;
  same_k = unfold set in refl;
  bits = λ q e. ground (arith, get-set b p q v h);
}

position-same : (c b : Bloom) (h : ℕ × ℕ) (i : ℕ) → c.m ≡ b.m → position c h i ≡ position b h i
unfolding position
position-same c b h i e = rw e

module _ (h : ℕ × ℕ) where
  add_from-IsValid : (n i : ℕ) (b : Bloom) → IsValid b → IsValid (add_from n i h b)
  unfolding add_from
  add_from-IsValid zero i b v = v
  add_from-IsValid (suc n) i b v = add_from-IsValid n (i + 1) _ (set-IsValid b (position b h i) v)

  add_from-Extends : (n i : ℕ) (b : Bloom) → IsValid b → Extends b (add_from n i h b)
  unfolding add_from
  add_from-Extends zero i b v = Extends-refl b
  add_from-Extends (suc n) i b v =
      Extends-trans (set-Extends b (position b h i) v (position-lt b h i v.positive))
        (add_from-Extends n (i + 1) _ (set-IsValid b (position b h i) v))

  -- A passed test stays passed.
  test_from-Extends :
      (n i : ℕ) {b c : Bloom} → Extends b c → test_from n i h b ≡ true → test_from n i h c ≡ true
  unfolding test_from position
  test_from-Extends zero i e t = refl
  test_from-Extends (suc n) i {b} {c} e t =
      ground (arith, e.same_m, e.bits (position b h i), test_from-Extends n (i + 1) e)

  test_from-add_from : (n i : ℕ) (b : Bloom) → IsValid b → test_from n i h (add_from n i h b) ≡ true
  unfolding test_from add_from
  test_from-add_from zero i b v = refl
  test_from-add_from (suc n) i b v =
      let p = position b h i in
      let b1 = set b p in
      let below : p < b.m = position-lt b h i v.positive in
      let more : Extends b1 (add_from n (i + 1) h b1) =
        add_from-Extends n (i + 1) b1 (set-IsValid b p v) in
      let hit : get b1 p ≡ true = ground (arith, get-set b p p v below, ==_refl p) in
      let c = add_from n (i + 1) h b1 in
      let same : position c h i ≡ p =
        position-same c b h i (more.same_m ∙ (set-Extends b p v below).same_m) in
      ground (
        arith,
        subst (λ q. get c q ≡ true) (sym same) (more.bits p hit),
        test_from-add_from n (i + 1) b1 (set-IsValid b p v),
      )

double_hash-same :
    (c b : Bloom) (input : Bytes) → c.m ≡ b.m → double_hash c input ≡ double_hash b input
unfolding double_hash
double_hash-same c b input e = rw e

test-eq :
    (c : Bloom) (input : Bytes) {k : ℕ} {h : ℕ × ℕ}
    → c.k ≡ k
    → double_hash c input ≡ h
    → test c input ≡ test_from k 0 h c
unfolding test
test-eq c input e f = ap₂ (λ k h. test_from k 0 h c) e f

module _ (b : Bloom) (input : Bytes) (v : IsValid b) where
  pub add-IsValid : IsValid (add b input)
  unfolding add
  add-IsValid = add_from-IsValid _ b.k 0 b v

  add-Extends : Extends b (add b input)
  unfolding add
  add-Extends = add_from-Extends _ b.k 0 b v

  -- An input that was added passes the test.
  pub test-add_self : test (add b input) input ≡ true
  test-add_self =
      let e = add-Extends in
      test-eq (add b input) input e.same_k (double_hash-same (add b input) b input e.same_m)
      ∙ (unfold add in test_from-add_from (double_hash b input) b.k 0 b v)

test-Extends :
    {b c : Bloom} (input : Bytes) → Extends b c → test b input ≡ true → test c input ≡ true
unfolding test
test-Extends {b} {c} input e t =
    test-eq c input e.same_k (double_hash-same c b input e.same_m)
    ∙ test_from-Extends (double_hash b input) b.k 0 e t

pub load-IsValid : (b : Bloom) (ids : List ℤ) → IsValid b → IsValid (load b ids)
unfolding load
load-IsValid b [] v = v
load-IsValid b (id ∷ ids) v = load-IsValid (add b (id_bytes id)) ids (add-IsValid b (id_bytes id) v)

load-Extends : (b : Bloom) (ids : List ℤ) → IsValid b → Extends b (load b ids)
unfolding load
load-Extends b [] v = Extends-refl b
load-Extends b (id ∷ ids) v =
    Extends-trans (add-Extends b (id_bytes id) v)
      (load-Extends (add b (id_bytes id)) ids (add-IsValid b (id_bytes id) v))

-- Adding an input to a valid filter makes the test of that input pass, and every test that passed
-- before still passes.
pub test-add :
    (b : Bloom) (input other : Bytes)
    → IsValid b
    → (test (add b input) input ≡ true) × (test b other ≡ true → test (add b input) other ≡ true)
test-add b input other v = (test-add_self b input v, test-Extends other (add-Extends b input v))

pub load-test :
    (b : Bloom) (ids : List ℤ) (id : ℤ)
    → IsValid b
    → any (eqb_ℤ id) ids ≡ true
    → test (load b ids) (id_bytes id) ≡ true
unfolding load
load-test b [] id v h = cc
load-test b (x ∷ ids) id v h = elim (Bool-cases (eqb_ℤ id x)) [
  | inl same ↦ rw ((eqb_ℤ_iff id x).0 same) (
      test-Extends (id_bytes x) (load-Extends (add b (id_bytes x)) ids valid)
        (test-add_self b (id_bytes x) v))
  | inr other ↦ load-test (add b (id_bytes x)) ids id valid (ground arith)
]
  where
    valid : IsValid (add b (id_bytes x))
    valid = add-IsValid b (id_bytes x) v

module _ (f : FloatMath) where
  open f use {Float, optimal_bits, optimal_hashes}

  pub new-IsValid :
      (n : ℕ) (p : Float) {b : Bloom}
      → 0 < optimal_bits n p
      → optimal_bits n p + 7 < word
      → new f n p ≡ some b
      → IsValid b × (0 < b.k)
  unfolding new
  new-IsValid n p {b} positive fits h = ground (
    arith,
    zeros-IsByte ((optimal_bits n p + 7) % 2 ^ 64 / 8),
    length-replicate ((optimal_bits n p + 7) % 2 ^ 64 / 8) (ℕ.zero),
  )

  -- When the number of bits is positive and, rounded up to bytes, below 2^64: a filter that `New`
  -- returns, loaded with a list of ids, passes every one of them.
  pub new-load-test :
      (n : ℕ) (p : Float) (ids : List ℤ) (id : ℤ) {b : Bloom}
      → 0 < optimal_bits n p
      → optimal_bits n p + 7 < word
      → new f n p ≡ some b
      → any (eqb_ℤ id) ids ≡ true
      → test (load b ids) (id_bytes id) ≡ true
  new-load-test n p ids id {b} positive fits h m =
      load-test b ids id (new-IsValid n p positive fits h).0 m
