-- ===== src/Cache/Ranking.antt =====
-- The hot ranking of internal/cache/cache.go: the sums of the buckets, and their order.
use pluto_feed.Prelude.{
  ℕ, suc, ◌≡◌, ◌⊎◌, inl, inr, refl, sym, ap, ◌∙◌, arith, Bool, true, false, Bool-cases, Option,
  none, some, List, [], ◌∷◌, All, select, length, if◌then◌else◌,
}
use pluto_feed.Prelude.Int.{
  ℤ, pos, ◌+ℤ◌, ◌<ℤ◌, ◌≤ℤ◌, eqb_ℤ, ltb_ℤ_iff, eqb_ℤ_iff, +ℤ_assoc, +ℤ_zero, zero_+ℤ, +ℤ_left_comm,
}
use pluto_feed.Prelude.Decimal.{parse_int}
use pluto_feed.Cache.{Member, HotItem, accumulate, merge_members, hotter, insert_hot, sort_hot}

hotter_asymm : (x y : HotItem) → hotter x y ≡ true → hotter y x ≡ false
unfolding hotter
hotter_asymm x y h = ground (
  arith,
  ltb_ℤ_iff x.score y.score,
  ltb_ℤ_iff y.score x.score,
  eqb_ℤ_iff x.score y.score,
  eqb_ℤ_iff y.score x.score,
  ltb_ℤ_iff x.post_id y.post_id,
  ltb_ℤ_iff y.post_id x.post_id,
)

-- What is hotter than the first is hotter than what comes after it.
hotter_trans : (x y z : HotItem) → hotter x y ≡ true → hotter z y ≡ false → hotter z x ≡ false
unfolding hotter
hotter_trans x y z h k = ground (
  arith,
  ltb_ℤ_iff y.score x.score,
  ltb_ℤ_iff y.score z.score,
  ltb_ℤ_iff x.score z.score,
  eqb_ℤ_iff x.score y.score,
  eqb_ℤ_iff z.score y.score,
  eqb_ℤ_iff z.score x.score,
  ltb_ℤ_iff y.post_id x.post_id,
  ltb_ℤ_iff y.post_id z.post_id,
  ltb_ℤ_iff x.post_id z.post_id,
)

-- Nothing later is hotter.
abbrev Ranked : List HotItem → Type 0
Ranked [] = Unit
Ranked (x ∷ xs) = All (λ z. hotter z x ≡ false) xs × Ranked xs

-- `z` may come after `x`: its score is lower, or the same with an id that is not higher.
abbrev pub NotBefore : HotItem → HotItem → Type 0
NotBefore x z = (z.score <ℤ x.score) ⊎ ((z.score ≡ x.score) × (z.post_id ≤ℤ x.post_id))

-- The scores fall, and among equal scores the ids.
abbrev pub Ordered : List HotItem → Type 0
Ordered [] = Unit
Ordered (x ∷ xs) = All (NotBefore x) xs × Ordered xs

hotter-NotBefore : (x z : HotItem) → hotter z x ≡ false → NotBefore x z
unfolding hotter
hotter-NotBefore x z h = elim (Bool-cases (eqb_ℤ z.score x.score)) [
  | inl same ↦
      inr
        ((eqb_ℤ_iff z.score x.score).0 same, ground (arith, h, same, ltb_ℤ_iff x.post_id z.post_id))
  | inr other ↦ inl (ground (arith, h, other, ltb_ℤ_iff x.score z.score, eqb_ℤ_iff z.score x.score))
]

All-NotBefore :
    (x : HotItem) (zs : List HotItem) → All (λ z. hotter z x ≡ false) zs → All (NotBefore x) zs
All-NotBefore x [] h = tt
All-NotBefore x (z ∷ zs) h = (hotter-NotBefore x z h.0, All-NotBefore x zs h.1)

Ranked-Ordered : (xs : List HotItem) → Ranked xs → Ordered xs
Ranked-Ordered [] h = tt
Ranked-Ordered (x ∷ xs) h = (All-NotBefore x xs h.0, Ranked-Ordered xs h.1)

All-hotter :
    (x y : HotItem) (zs : List HotItem)
    → hotter x y ≡ true
    → All (λ z. hotter z y ≡ false) zs
    → All (λ z. hotter z x ≡ false) zs
All-hotter x y [] h k = tt
All-hotter x y (z ∷ zs) h k = (hotter_trans x y z h k.0, All-hotter x y zs h k.1)

All-insert_hot :
    (P : HotItem → Type 0) (x : HotItem) (ys : List HotItem)
    → P x
    → All P ys
    → All P (insert_hot x ys)
unfolding insert_hot
All-insert_hot P x [] p ps = (p, tt)
All-insert_hot P x (y ∷ ys) p ps = elim (Bool-cases (hotter x y)) [
  | inl first ↦ rw first (p, ps)
  | inr later ↦ rw later (ps.0, All-insert_hot P x ys p ps.1)
]

insert_hot-Ranked : (x : HotItem) (ys : List HotItem) → Ranked ys → Ranked (insert_hot x ys)
unfolding insert_hot
insert_hot-Ranked x [] h = (tt, tt)
insert_hot-Ranked x (y ∷ ys) h = elim (Bool-cases (hotter x y)) [
  | inl first ↦ rw first ((hotter_asymm x y first, All-hotter x y ys first h.0), h)
  | inr later ↦
      rw later (All-insert_hot (λ z. hotter z y ≡ false) x ys later h.0, insert_hot-Ranked x ys h.1)
]

-- How many items have a property.
abbrev pub count : (HotItem → Bool) → List HotItem → ℕ
count p xs = length (select p xs)

count-insert_hot :
    (p : HotItem → Bool) (x : HotItem) (ys : List HotItem)
    → count p (insert_hot x ys) ≡ count p (x ∷ ys)
unfolding insert_hot
count-insert_hot p x [] = refl
count-insert_hot p x (y ∷ ys) = elim (Bool-cases (hotter x y)) [
  | inl first ↦ rw first refl
  | inr later ↦ rw later (swapped (p x) (p y) (count-insert_hot p x ys))
]
  where
    swapped :
        (a b : Bool)
        → count p (insert_hot x ys) ≡ length (if a then x ∷ select p ys else select p ys)
        → length (if b then y ∷ select p (insert_hot x ys) else select p (insert_hot x ys))
          ≡ length (
              if a
              then x ∷ (if b then y ∷ select p ys else select p ys)
              else if b
              then y ∷ select p ys
              else select p ys)
    swapped true true h = ap suc h
    swapped true false h = h
    swapped false true h = ap suc h
    swapped false false h = h

sort_hot-Ranked :
    (xs : List HotItem)
    → Ranked (sort_hot xs) × ((p : HotItem → Bool) → count p (sort_hot xs) ≡ count p xs)
unfolding sort_hot
sort_hot-Ranked [] = (tt, λ p. refl)
sort_hot-Ranked (x ∷ xs) =
    let (ordered, same) = sort_hot-Ranked xs in
    (
      insert_hot-Ranked x (sort_hot xs) ordered,
      λ p. count-insert_hot p x (sort_hot xs) ∙ with_head p (p x) (same p),
    )
  where
    with_head :
        (p : HotItem → Bool) (a : Bool)
        → count p (sort_hot xs) ≡ count p xs
        → length (if a then x ∷ select p (sort_hot xs) else select p (sort_hot xs))
          ≡ length (if a then x ∷ select p xs else select p xs)
    with_head p true h = ap suc h
    with_head p false h = h

-- The sorted ranking is in order: by falling score, and among equal scores by falling id; and it has the
-- items it was made of, each as often as before.
pub sort_hot-Ordered :
    (xs : List HotItem)
    → Ordered (sort_hot xs) × ((p : HotItem → Bool) → count p (sort_hot xs) ≡ count p xs)
sort_hot-Ordered xs =
    let (ranked, same) = sort_hot-Ranked xs in (Ranked-Ordered (sort_hot xs) ranked, same)

-- The score of a post in a list of items, and what the members of a bucket add to it.
abbrev if_zero : Bool → ℤ → ℤ
if_zero true a = a
if_zero false a = pos 0

abbrev pub score_of : ℤ → List HotItem → ℤ
score_of id [] = pos 0
score_of id (x ∷ xs) = if_zero (eqb_ℤ x.post_id id) x.score +ℤ score_of id xs

abbrev named : ℤ → Option ℤ → Bool
named id none = false
named id (some i) = eqb_ℤ i id

abbrev pub heat_of : ℤ → List Member → ℤ
heat_of id [] = pos 0
heat_of id (m ∷ ms) = if_zero (named id (parse_int m.name)) m.score +ℤ heat_of id ms

score_of-accumulate :
    (id i score : ℤ) (xs : List HotItem)
    → score_of id (accumulate i score xs) ≡ if_zero (eqb_ℤ i id) score +ℤ score_of id xs
unfolding accumulate
score_of-accumulate id i score [] = refl
score_of-accumulate id i score (x ∷ xs) = elim (Bool-cases (eqb_ℤ x.post_id i)) [
  | inl same ↦ rw (same, ← (eqb_ℤ_iff x.post_id i).0 same) (both (eqb_ℤ x.post_id id))
  | inr other ↦
      rw (other, score_of-accumulate id i score xs)
        (+ℤ_left_comm (if_zero (eqb_ℤ x.post_id id) x.score) (if_zero (eqb_ℤ i id) score)
          (score_of id xs))
]
  where
    both :
        (b : Bool)
        → if_zero b (x.score +ℤ score) +ℤ score_of id xs
          ≡ if_zero b score +ℤ (if_zero b x.score +ℤ score_of id xs)
    both true =
        cc (+ℤ_assoc x.score score (score_of id xs), +ℤ_left_comm x.score score (score_of id xs))
    both false = sym (zero_+ℤ (pos 0 +ℤ score_of id xs))

-- Merging a bucket adds to each post's score the scores of the members that are its id, however they are
-- written; members that are no number are passed over.
pub score_of-merge_members :
    (id : ℤ) (ms : List Member) (acc : List HotItem)
    → score_of id (merge_members ms acc) ≡ score_of id acc +ℤ heat_of id ms
unfolding merge_members
score_of-merge_members id [] acc = sym (+ℤ_zero (score_of id acc))
score_of-merge_members id (m ∷ ms) acc = go (λ a. score_of-merge_members id ms a) (parse_int m.name)
  where
    go :
        ((a : List HotItem) → score_of id (merge_members ms a) ≡ score_of id a +ℤ heat_of id ms)
        → (o : Option ℤ)
        → score_of id (merge_members ms (elim o [ none ↦ acc | some i ↦ accumulate i m.score acc ]))
          ≡ score_of id acc +ℤ (if_zero (named id o) m.score +ℤ heat_of id ms)
    go ih none = ih acc ∙ ap (λ h. score_of id acc +ℤ h) (sym (zero_+ℤ (heat_of id ms)))
    go ih (some i) =
        let added = if_zero (eqb_ℤ i id) m.score in
        let merged = ih (accumulate i m.score acc) in
        cc (
          merged,
          score_of-accumulate id i m.score acc,
          +ℤ_assoc added (score_of id acc) (heat_of id ms),
          +ℤ_left_comm added (score_of id acc) (heat_of id ms),
        )
