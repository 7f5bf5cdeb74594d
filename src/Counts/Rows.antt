-- ===== src/Counts/Rows.antt =====
-- How the rows of likes and comments change when one is written or deleted.
use pluto_feed.Prelude.{
  ℕ, ◌+◌, ◌≤◌, ◌≡◌, refl, Bool, true, false, not, some, List, [], ◌∷◌, if◌then◌else◌, length,
  select, any, find, All, arith, Bool-cases, inl, inr,
}
use mathlib.Core.Path.{subst, subst₂}
use pluto_feed.Prelude.Int.{ℤ, pos, eqb_ℤ, eqb_ℤ_iff}
use pluto_feed.Model.{Like, Comment}
use pluto_feed.Db.{is_like}
use pluto_feed.Counts.{DistinctLikes, DistinctComments, CommentBelow}

module _ {A : Type 0} (p q : A → Bool) where
  any-select : (xs : List A) → any p xs ≡ false → any p (select q xs) ≡ false
  any-select [] h = refl
  any-select (x ∷ xs) h = ground (arith, any-select xs)

pub All-select {ℓ} :
    {A : Type 0} (P : A → Type ℓ) (q : A → Bool) (xs : List A) → All P xs → All P (select q xs)
All-select P q [] h = tt
All-select P q (x ∷ xs) h = elim (Bool-cases (q x)) [
  | inl there ↦ rw there (h.0, All-select P q xs h.1)
  | inr gone ↦ rw gone (All-select P q xs h.1)
]

pub DistinctLikes-select :
    (q : Like → Bool) (ls : List Like) → DistinctLikes ls → DistinctLikes (select q ls)
DistinctLikes-select q [] d = tt
DistinctLikes-select q (l ∷ ls) d = elim (Bool-cases (q l)) [
  | inl there ↦
      rw there (any-select (is_like l.post_id l.user_id) q ls d.0, DistinctLikes-select q ls d.1)
  | inr gone ↦ rw gone (DistinctLikes-select q ls d.1)
]

pub DistinctComments-select :
    (q : Comment → Bool) (cs : List Comment) → DistinctComments cs → DistinctComments (select q cs)
DistinctComments-select q [] d = tt
DistinctComments-select q (c ∷ cs) d = elim (Bool-cases (q c)) [
  | inl there ↦
      rw there (any-select (λ x. eqb_ℤ x.id c.id) q cs d.0, DistinctComments-select q cs d.1)
  | inr gone ↦ rw gone (DistinctComments-select q cs d.1)
]

abbrev of_post : ℤ → Like → Bool
of_post id l = eqb_ℤ l.post_id id

abbrev on_post : ℤ → Comment → Bool
on_post id c = eqb_ℤ c.post_id id

module _ (post_id uid : ℤ) where
  -- The deleted rows of one post are counted out.
  pub likes-delete :
      (id : ℤ) (ls : List Like)
      → length (select (of_post id) (select (λ l. not (is_like post_id uid l)) ls))
          + (if eqb_ℤ post_id id then length (select (is_like post_id uid) ls) else 0)
        ≡ length (select (of_post id) ls)
  likes-delete id [] = ground arith
  likes-delete id (l ∷ ls) = ground (
    arith,
    likes-delete id ls,
    eqb_ℤ_iff l.post_id id,
    eqb_ℤ_iff post_id id,
    eqb_ℤ_iff l.post_id post_id,
  )

  likes_none :
      (ls : List Like)
      → any (is_like post_id uid) ls ≡ false
      → length (select (is_like post_id uid) ls) ≡ 0
  likes_none [] h = refl
  likes_none (l ∷ ls) h = ground (arith, likes_none ls)

  is_like_same :
      (l : Like) → is_like post_id uid l ≡ true → (l.post_id ≡ post_id) × (l.user_id ≡ uid)
  is_like_same l h =
      (ground (arith, eqb_ℤ_iff l.post_id post_id), ground (arith, eqb_ℤ_iff l.user_id uid))

  -- The primary key lets one row at most be deleted.
  pub likes-le-one :
      (ls : List Like) → DistinctLikes ls → length (select (is_like post_id uid) ls) ≤ 1
  likes-le-one [] d = omega arith
  likes-le-one (l ∷ ls) d = elim (Bool-cases (is_like post_id uid l)) [
    | inl there ↦
        let (same_post, same_user) = is_like_same l there in
        let none_left : any (is_like post_id uid) ls ≡ false =
          subst₂ (λ p u. any (is_like p u) ls ≡ false) same_post same_user d.0 in
        ground (arith, likes_none ls none_left)
    | inr other ↦ rw other (likes-le-one ls d.1)
  ]

module _ (id : ℤ) where
  comments_none :
      (p : ℤ) (cs : List Comment)
      → any (λ x. eqb_ℤ x.id id) cs ≡ false
      → length (select (on_post p) (select (λ c. not (eqb_ℤ c.id id)) cs))
        ≡ length (select (on_post p) cs)
  comments_none p [] h = refl
  comments_none p (c ∷ cs) h = ground (arith, comments_none p cs)

  pub comments-delete :
      (p : ℤ) (cs : List Comment) (c : Comment)
      → DistinctComments cs
      → find (λ x. eqb_ℤ x.id id) cs ≡ some c
      → length (select (on_post p) (select (λ x. not (eqb_ℤ x.id id)) cs))
          + (if eqb_ℤ c.post_id p then 1 else 0)
        ≡ length (select (on_post p) cs)
  comments-delete p [] c d h = cc
  comments-delete p (x ∷ cs) c d h = elim (Bool-cases (eqb_ℤ x.id id)) [
    | inl there ↦
        let none_left : any (λ y. eqb_ℤ y.id id) cs ≡ false =
          subst (λ k. any (λ y. eqb_ℤ y.id k) cs ≡ false) ((eqb_ℤ_iff x.id id).0 there) d.0 in
        ground (arith, comments_none p cs none_left)
    | inr other ↦ ground (arith, comments-delete p cs c d.1)
  ]

-- A fresh comment has a new id.
pub comments_below_any :
    (n : ℕ) (cs : List Comment) → All (CommentBelow n) cs → any (λ d. eqb_ℤ d.id (pos n)) cs ≡ false
comments_below_any n [] h = refl
comments_below_any n (c ∷ cs) h =
    let (k, e, lt) = h.0 in ground (arith, eqb_ℤ_iff c.id (pos n), comments_below_any n cs h.1)
