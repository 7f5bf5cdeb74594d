-- ===== src/Db/Pages.antt =====
-- Keyset pagination in internal/repository: the pages of a list in the order (created_at, id) descending.
use pluto_feed.Prelude.{
  ℕ, ◌≡◌, ◌≢◌, inl, inr, refl, sym, ap, ◌∙◌, Bool, true, false, ◌&&◌, some, List, [], ◌∷◌, ◌++◌,
  if◌then◌else◌, take, select, All, arith, Bool-cases,
}
use mathlib.Core.Path.{subst}
use pluto_feed.Prelude.Int.{ℤ, ltb_ℤ, eqb_ℤ, ltb_ℤ_iff, eqb_ℤ_iff, eq_of_parts}
use pluto_feed.Db.{PageCursor, older, before_cursor, insert_desc, order_desc, page_of}

ltb_trans : (a b c : ℤ) → ltb_ℤ a b ≡ true → ltb_ℤ b c ≡ true → ltb_ℤ a c ≡ true
ltb_trans a b c h k = ground (arith, ltb_ℤ_iff a b, ltb_ℤ_iff b c, ltb_ℤ_iff a c)

older_trans : (a b c : PageCursor) → older a b ≡ true → older b c ≡ true → older a c ≡ true
unfolding older eqb_ℤ ltb_ℤ
older_trans a b c h k = ground arith

older_irrefl : (a : PageCursor) → older a a ≡ false
unfolding older
older_irrefl a = ground (arith, ltb_ℤ_iff a.time a.time, ltb_ℤ_iff a.id a.id)

older_asym : (a b : PageCursor) → older a b ≡ true → older b a ≡ false
older_asym a b h = elim (Bool-cases (older b a)) [
  | inr other ↦ other
  | inl there ↦ absurd (clash (older_trans a b a h there) (older_irrefl a))
]
  where
    clash : older a a ≡ true → older a a ≡ false → ⊥
    clash p q = absurd (cc)

ltb_ℤ_total : (a b : ℤ) → ltb_ℤ a b ≡ false → ltb_ℤ b a ≡ false → a ≡ b
unfolding ltb_ℤ
ltb_ℤ_total a b h k = eq_of_parts a b (ground arith)

not_older :
    (a b : PageCursor)
    → older a b ≡ false
    → (ltb_ℤ a.time b.time ≡ false) × ((eqb_ℤ a.time b.time && ltb_ℤ a.id b.id) ≡ false)
unfolding older
not_older a b h = (ground arith, ground arith)

same_cursor : (a b : PageCursor) → a.time ≡ b.time → a.id ≡ b.id → a ≡ b
same_cursor a b p q =
    ap (λ (t : ℤ). record { time = t; id = a.id }) p
    ∙ ap (λ (i : ℤ). record { time = b.time; id = i }) q

older_total : (a b : PageCursor) → a ≢ b → older a b ≡ false → older b a ≡ true
older_total a b apart h = elim (Bool-cases (older b a)) [
  | inl there ↦ there
  | inr other ↦ absurd (apart (same (not_older a b h) (not_older b a other)))
]
  where
    same :
        (ltb_ℤ a.time b.time ≡ false) × ((eqb_ℤ a.time b.time && ltb_ℤ a.id b.id) ≡ false)
        → (ltb_ℤ b.time a.time ≡ false) × ((eqb_ℤ b.time a.time && ltb_ℤ b.id a.id) ≡ false)
        → a ≡ b
    same (t, i) (u, j) =
        let times = ltb_ℤ_total a.time b.time t u in
        let ids =
          ltb_ℤ_total a.id b.id (ground (arith, eqb_ℤ_iff a.time b.time))
            (ground (arith, eqb_ℤ_iff b.time a.time)) in
        same_cursor a b times ids

module _ {A : Type 0} (key : A → PageCursor) where
  abbrev Apart : A → List A → Type 0
  Apart x ys = All (λ y. key y ≢ key x) ys

  -- No two rows have one key.
  abbrev pub DistinctKeys : List A → Type 0
  DistinctKeys [] = Unit
  DistinctKeys (x ∷ xs) = Apart x xs × DistinctKeys xs

  abbrev Before : A → List A → Type 0
  Before x ys = All (λ y. older (key y) (key x) ≡ true) ys

  abbrev Sorted : List A → Type 0
  Sorted [] = Unit
  Sorted (x ∷ xs) = Before x xs × Sorted xs

  All-insert {κ} :
      (P : A → Type κ) (x : A) (ys : List A) → P x → All P ys → All P (insert_desc key x ys)
  unfolding insert_desc
  All-insert P x [] p h = (p, tt)
  All-insert P x (y ∷ ys) p h = elim (Bool-cases (older (key y) (key x))) [
    | inl there ↦ rw there (p, h)
    | inr other ↦ rw other (h.0, All-insert P x ys p h.1)
  ]

  Before-trans : (x y : A) (zs : List A) → older (key y) (key x) ≡ true → Before y zs → Before x zs
  Before-trans x y [] h b = tt
  Before-trans x y (z ∷ zs) h b =
      (older_trans (key z) (key y) (key x) b.0 h, Before-trans x y zs h b.1)

  insert-Sorted : (x : A) (ys : List A) → Apart x ys → Sorted ys → Sorted (insert_desc key x ys)
  unfolding insert_desc
  insert-Sorted x [] a s = (tt, tt)
  insert-Sorted x (y ∷ ys) a s = elim (Bool-cases (older (key y) (key x))) [
    | inl there ↦ rw there ((there, Before-trans x y ys there s.0), s)
    | inr other ↦ rw other (
      All-insert (λ z. older (key z) (key y) ≡ true) x ys (older_total (key y) (key x) a.0 other)
          s.0,
      insert-Sorted x ys a.1 s.1,
    )
  ]

  insert_front : (x : A) (zs : List A) → Before x zs → insert_desc key x zs ≡ x ∷ zs
  unfolding insert_desc
  insert_front x [] b = refl
  insert_front x (z ∷ zs) b = rw (b.0) refl

  All-filter {κ} : (P : A → Type κ) (q : A → Bool) (xs : List A) → All P xs → All P (select q xs)
  All-filter P q [] h = tt
  All-filter P q (x ∷ xs) h = elim (Bool-cases (q x)) [
    | inl there ↦ rw there (h.0, All-filter P q xs h.1)
    | inr other ↦ rw other (All-filter P q xs h.1)
  ]

  select-insert :
      (q : A → Bool) (x : A) (ys : List A)
      → Sorted ys
      → select q (insert_desc key x ys)
        ≡ (if q x then insert_desc key x (select q ys) else select q ys)
  unfolding insert_desc
  select-insert q x [] s = elim (Bool-cases (q x)) [
    | inl there ↦ rw there refl
    | inr other ↦ rw other refl
  ]
  select-insert q x (y ∷ ys) s = elim (Bool-cases (older (key y) (key x))) [
    | inl there ↦ rw there (front there)
    | inr other ↦ rw other (elim (Bool-cases (q y)) [
      | inl kept ↦ rw (kept, select-insert q x ys s.1) (behind other)
      | inr dropped ↦ rw (dropped, select-insert q x ys s.1) refl
    ])
  ]
    where
      front :
          older (key y) (key x) ≡ true
          → select q (x ∷ y ∷ ys)
            ≡ (if q x then insert_desc key x (select q (y ∷ ys)) else select q (y ∷ ys))
      front there = elim (Bool-cases (q x)) [
        | inl kept ↦ rw kept (
            sym (
              insert_front x (select q (y ∷ ys)) (
                All-filter (λ z. older (key z) (key x) ≡ true) q (y ∷ ys)
                  (there, Before-trans x y ys there s.0))))
        | inr dropped ↦ rw dropped refl
      ]

      behind :
          older (key y) (key x) ≡ false
          → y ∷ (if q x then insert_desc key x (select q ys) else select q ys)
            ≡ (if q x then insert_desc key x (y ∷ select q ys) else y ∷ select q ys)
      behind other = elim (Bool-cases (q x)) [
        | inl kept ↦ rw (kept, other) refl
        | inr dropped ↦ rw dropped refl
      ]

  All-order {κ} : (P : A → Type κ) (rs : List A) → All P rs → All P (order_desc key rs)
  unfolding order_desc
  All-order P [] h = tt
  All-order P (r ∷ rs) h = All-insert P r (order_desc key rs) h.0 (All-order P rs h.1)

  order-Sorted : (rs : List A) → DistinctKeys rs → Sorted (order_desc key rs)
  unfolding order_desc
  order-Sorted [] d = tt
  order-Sorted (r ∷ rs) d =
      insert-Sorted r (order_desc key rs) (All-order (λ y. key y ≢ key r) rs d.0)
        (order-Sorted rs d.1)

  order-select :
      (q : A → Bool) (rs : List A)
      → DistinctKeys rs
      → order_desc key (select q rs) ≡ select q (order_desc key rs)
  unfolding order_desc
  order-select q [] d = refl
  order-select q (r ∷ rs) d =
      let step = select-insert q r (order_desc key rs) (order-Sorted rs d.1) in
      elim (Bool-cases (q r)) [
        | inl kept ↦ rw (step, kept, order-select q rs d.1) refl
        | inr dropped ↦ rw (step, dropped, order-select q rs d.1) refl
      ]

  -- What stands after `x` in a sorted list is what is older than `x`.
  select-after :
      (xs : List A) (x : A) (ys : List A)
      → Sorted (xs ++ x ∷ ys)
      → select (λ r. older (key r) (key x)) (xs ++ x ∷ ys) ≡ ys
  select-after [] x ys s = rw (older_irrefl (key x)) (all_older ys s.0)
    where
      all_older : (zs : List A) → Before x zs → select (λ r. older (key r) (key x)) zs ≡ zs
      all_older [] b = refl
      all_older (z ∷ zs) b = rw (b.0) (ap (◌∷◌ z) (all_older zs b.1))
  select-after (z ∷ zs) x ys s = rw (newer z zs s.0) (select-after zs x ys s.1)
    where
      newer : (z : A) (zs : List A) → Before z (zs ++ x ∷ ys) → older (key z) (key x) ≡ false
      newer z [] b = older_asym (key x) (key z) b.0
      newer z (w ∷ ws) b = newer z ws b.1

  select-both :
      (p q : A → Bool) (rs : List A) → select (λ r. p r && q r) rs ≡ select q (select p rs)
  select-both p q [] = refl
  select-both p q (r ∷ rs) = elim (Bool-cases (p r)) [
    | inr other ↦ rw other (select-both p q rs)
    | inl there ↦ elim (Bool-cases (q r)) [
      | inl kept ↦ rw (there, kept) (ap (◌∷◌ r) (select-both p q rs))
      | inr dropped ↦ rw (there, dropped) (select-both p q rs)
    ]
  ]

  -- For rows with distinct sort keys: the page at the cursor of an entry is what follows the entry in the
  -- whole list, cut to the limit. So pages that follow each other's cursors skip and repeat no entry.
  pub page_of-next :
      (scope : A → Bool) (limit : ℕ) (rows xs : List A) (x : A) (ys : List A)
      → DistinctKeys (select scope rows)
      → order_desc key (select scope rows) ≡ xs ++ x ∷ ys
      → page_of key scope (some (key x)) limit rows ≡ take limit ys
  unfolding page_of before_cursor
  page_of-next scope limit rows xs x ys d whole =
      let after : A → Bool = λ r. older (key r) (key x) in
      let sorted = subst Sorted whole (order-Sorted (select scope rows) d) in
      ap (take limit) (
        ap (order_desc key) (select-both scope after rows)
        ∙ order-select after (select scope rows) d
        ∙ ap (select after) whole
        ∙ select-after xs x ys sorted)
