-- ===== src/Repository/Social/Counts.antt =====
-- The counts of users against the rows of the follow relation: internal/repository/follow_repo.go.
use pluto_feed.Prelude.{
  ℕ, ◌+◌, ◌≤◌, ◌≡◌, ◌≢◌, inl, inr, refl, sym, ap, ◌∙◌, Bool, false, not, List, [], ◌∷◌, map, ◌==◌,
  if◌then◌else◌, length, select, any, All, arith, Bool-cases, ==_iff,
}
use mathlib.Core.Path.{subst, subst₂}
use pluto_feed.Prelude.Int.{ℤ, pos, negsuc, ◌+ℤ◌, eqb_ℤ, eqb_ℤ_iff, +ℤ_zero}
use pluto_feed.Apierror.{then_run}
use pluto_feed.Outcome.{Outcome, Anything, Outcome-then, Outcome-Meets, Outcome-state}
use pluto_feed.Model.{User, Follow}
use pluto_feed.Db.{
  Db, is_follow, insert_ignore_follow, delete_follow, add_following_count, add_follower_count,
}
use pluto_feed.Sql.{Sql, SqlLaws, Outcome-transaction}
use pluto_feed.Repository.Social.{follow, follow_body, unfollow, unfollow_body}

abbrev pub followees : ℤ → List Follow → ℕ
followees id fs = length (select (λ f. eqb_ℤ f.follower_id id) fs)

abbrev pub followers : ℤ → List Follow → ℕ
followers id fs = length (select (λ f. eqb_ℤ f.followee_id id) fs)

abbrev pub Matches : List Follow → User → Type 0
Matches fs u =
    (u.following_count ≡ pos (followees u.id fs)) × (u.follower_count ≡ pos (followers u.id fs))

-- The primary key of follows.
abbrev pub DistinctFollows : List Follow → Type 0
DistinctFollows [] = Unit
DistinctFollows (f ∷ fs) =
    (any (is_follow f.follower_id f.followee_id) fs ≡ false) × DistinctFollows fs

abbrev pub Counted : Db → Type 0
Counted db = All (Matches db.follows) db.users × DistinctFollows db.follows

-- What a change of the rows does to the rows of one user.
abbrev Change : (ℤ → List Follow → ℕ) → ℤ → ℤ → List Follow → List Follow → Type 0
Change rows d a fs gs =
    (id : ℤ) → pos (rows id gs) ≡ pos (rows id fs) +ℤ (if eqb_ℤ id a then d else pos 0)

module _ (d a b : ℤ) where
  abbrev bumped_following : User → User
  bumped_following u =
      if eqb_ℤ u.id a then record u { following_count = u.following_count +ℤ d } else u

  abbrev bumped_follower : User → User
  bumped_follower u =
      if eqb_ℤ u.id b then record u { follower_count = u.follower_count +ℤ d } else u

  raised : {c x y : ℤ} → c ≡ x → y ≡ x +ℤ d → c +ℤ d ≡ y
  raised h k = ap (λ z. z +ℤ d) h ∙ sym k

  kept : {c x y : ℤ} → c ≡ x → y ≡ x +ℤ pos 0 → c ≡ y
  kept {x = x} h k = h ∙ sym (k ∙ +ℤ_zero x)

  bumped-Matches :
      (fs gs : List Follow) (u : User)
      → Change followees d a fs gs
      → Change followers d b fs gs
      → Matches fs u
      → Matches gs (bumped_follower (bumped_following u))
  bumped-Matches fs gs u out into (h, k) =
      let out_count = out u.id in
      let in_count = into u.id in
      elim (Bool-cases (eqb_ℤ u.id a)) [
        | inl x ↦ elim (Bool-cases (eqb_ℤ u.id b)) [
          | inl y ↦ rw (x, y) (raised h (rw x at out_count), raised k (rw y at in_count))
          | inr y ↦ rw (x, y) (raised h (rw x at out_count), kept k (rw y at in_count))
        ]
        | inr x ↦ elim (Bool-cases (eqb_ℤ u.id b)) [
          | inl y ↦ rw (x, y) (kept h (rw x at out_count), raised k (rw y at in_count))
          | inr y ↦ rw (x, y) (kept h (rw x at out_count), kept k (rw y at in_count))
        ]
      ]

  bumped-All :
      (fs gs : List Follow) (us : List User)
      → Change followees d a fs gs
      → Change followers d b fs gs
      → All (Matches fs) us
      → All (Matches gs) (map bumped_follower (map bumped_following us))
  bumped-All fs gs [] out into h = tt
  bumped-All fs gs (u ∷ us) out into h =
      (bumped-Matches fs gs u out into h.0, bumped-All fs gs us out into h.1)

follow-out : (f : Follow) (fs : List Follow) → Change followees (pos 1) f.follower_id fs (f ∷ fs)
unfolding ◌+ℤ◌
follow-out f fs id = ground (arith, eqb_ℤ_iff f.follower_id id, eqb_ℤ_iff id f.follower_id)

follow-in : (f : Follow) (fs : List Follow) → Change followers (pos 1) f.followee_id fs (f ∷ fs)
unfolding ◌+ℤ◌
follow-in f fs id = ground (arith, eqb_ℤ_iff f.followee_id id, eqb_ℤ_iff id f.followee_id)

module _ (a b : ℤ) where
  abbrev remaining : List Follow → List Follow
  remaining fs = select (λ f. not (is_follow a b f)) fs

  followees-remaining :
      (id : ℤ) (fs : List Follow)
      → followees id (remaining fs) + (if eqb_ℤ id a then length (select (is_follow a b) fs) else 0)
        ≡ followees id fs
  followees-remaining id [] = ground arith
  followees-remaining id (f ∷ fs) = ground (
    arith,
    followees-remaining id fs,
    eqb_ℤ_iff f.follower_id id,
    eqb_ℤ_iff id a,
    eqb_ℤ_iff f.follower_id a,
  )

  followers-remaining :
      (id : ℤ) (fs : List Follow)
      → followers id (remaining fs) + (if eqb_ℤ id b then length (select (is_follow a b) fs) else 0)
        ≡ followers id fs
  followers-remaining id [] = ground arith
  followers-remaining id (f ∷ fs) = ground (
    arith,
    followers-remaining id fs,
    eqb_ℤ_iff f.followee_id id,
    eqb_ℤ_iff id b,
    eqb_ℤ_iff f.followee_id b,
  )

  follows_none :
      (fs : List Follow) → any (is_follow a b) fs ≡ false → length (select (is_follow a b) fs) ≡ 0
  follows_none [] h = refl
  follows_none (f ∷ fs) h = ground (arith, follows_none fs)

  follows-le-one : (fs : List Follow) → DistinctFollows fs → length (select (is_follow a b) fs) ≤ 1
  follows-le-one [] d = omega arith
  follows-le-one (f ∷ fs) d = elim (Bool-cases (is_follow a b f)) [
    | inl there ↦
        let same_a : f.follower_id ≡ a = ground (arith, eqb_ℤ_iff f.follower_id a) in
        let same_b : f.followee_id ≡ b = ground (arith, eqb_ℤ_iff f.followee_id b) in
        let none_left : any (is_follow a b) fs ≡ false =
          subst₂ (λ p q. any (is_follow p q) fs ≡ false) same_a same_b d.0 in
        ground (arith, follows_none fs none_left)
    | inr other ↦ rw other (follows-le-one fs d.1)
  ]

any-select :
    (p q : Follow → Bool) (fs : List Follow) → any p fs ≡ false → any p (select q fs) ≡ false
any-select p q [] h = refl
any-select p q (f ∷ fs) h = ground (arith, any-select p q fs)

DistinctFollows-select :
    (q : Follow → Bool) (fs : List Follow) → DistinctFollows fs → DistinctFollows (select q fs)
DistinctFollows-select q [] d = tt
DistinctFollows-select q (f ∷ fs) d = elim (Bool-cases (q f)) [
  | inl there ↦
      rw there (
        any-select (is_follow f.follower_id f.followee_id) q fs d.0,
        DistinctFollows-select q fs d.1,
      )
  | inr gone ↦ rw gone (DistinctFollows-select q fs d.1)
]

unfollow-out :
    (a b : ℤ) (fs : List Follow)
    → length (select (is_follow a b) fs) ≢ 0
    → DistinctFollows fs
    → Change followees (negsuc 0) a fs (remaining a b fs)
unfolding ◌+ℤ◌
unfollow-out a b fs there d id =
    ground (arith, followees-remaining a b id fs, follows-le-one a b fs d)

unfollow-in :
    (a b : ℤ) (fs : List Follow)
    → length (select (is_follow a b) fs) ≢ 0
    → DistinctFollows fs
    → Change followers (negsuc 0) b fs (remaining a b fs)
unfolding ◌+ℤ◌
unfollow-in a b fs there d id =
    ground (arith, followers-remaining a b id fs, follows-le-one a b fs d)

module _ {sql : Sql} (laws : SqlLaws sql) (a b : ℤ) (db : Db) (h : Counted db) where
  -- The rows and the counts after the two updates.
  rewritten : ℤ → List Follow → Db
  rewritten d fs = add_follower_count d b (add_following_count d a (record db { follows = fs }))

  Counted-rewritten :
      (d : ℤ) (gs : List Follow)
      → Change followees d a db.follows gs
      → Change followers d b db.follows gs
      → DistinctFollows gs
      → Counted (rewritten d gs)
  unfolding rewritten add_follower_count add_following_count
  Counted-rewritten d gs out into distinct =
      (bumped-All d a b db.follows gs db.users out into h.0, distinct)

  -- The two updates after the rows were changed.
  Outcome-bumps :
      (d : ℤ) (fs : List Follow)
      → Counted (rewritten d fs)
      → Outcome
          (λ _. Counted)
          Anything
          (then_run
            (sql.add_following d a (record db { follows = fs }))
            (λ _. sql.add_follower d b))
  unfolding rewritten
  Outcome-bumps d fs c =
      Outcome-then Anything (laws.add_following_law d a) (λ _. Counted) (λ _. sql.add_follower d b)
        (record db { follows = fs })
        (Outcome-Meets Anything (laws.add_follower_law d b) (λ _. Counted)
          (add_following_count d a (record db { follows = fs })) c tt)
        tt

  Counted-follow_body : Outcome (λ _. Counted) Anything (follow_body sql a b db)
  unfolding follow_body insert_ignore_follow
  Counted-follow_body =
      Outcome-then Anything (laws.insert_follow_law a b) (λ _. Counted) _ db
        (elim (Bool-cases (any (is_follow a b) db.follows)) [
          | inl old ↦ rw old h
          | inr fresh ↦ rw fresh (
              Outcome-bumps (pos 1) (row ∷ db.follows) (
                Counted-rewritten (pos 1) (row ∷ db.follows) (follow-out row db.follows)
                  (follow-in row db.follows) (fresh, h.1)))
        ])
        tt
    where
      row : Follow
      row = record { follower_id = a; followee_id = b; created_at = db.clock }

  Counted-unfollow_body : Outcome (λ _. Counted) Anything (unfollow_body sql a b db)
  unfolding unfollow_body delete_follow
  Counted-unfollow_body =
      Outcome-then Anything (laws.remove_follow_law a b) (λ _. Counted) _ db
        (elim (Bool-cases (length (select (is_follow a b) db.follows) == 0)) [
          | inl nothing ↦
              rw nothing (Counted-same (nothing_removed db.follows ((==_iff _ 0).0 nothing)))
          | inr there ↦ rw there (
              Outcome-bumps (negsuc 0) (remaining a b db.follows) (
                Counted-rewritten (negsuc 0) (remaining a b db.follows)
                  (unfollow-out a b db.follows (nonzero there) h.1)
                  (unfollow-in a b db.follows (nonzero there) h.1)
                  (DistinctFollows-select (λ f. not (is_follow a b f)) db.follows h.1)))
        ])
        tt
    where
      nonzero : {n : ℕ} → (n == 0) ≡ false → n ≢ 0
      nonzero e z = ground (arith, e, z)

      nothing_removed :
          (fs : List Follow) → length (select (is_follow a b) fs) ≡ 0 → remaining a b fs ≡ fs
      nothing_removed [] e = refl
      nothing_removed (f ∷ fs) e = elim (Bool-cases (is_follow a b f)) [
        | inl there ↦ absurd (ground arith)
        | inr other ↦ rw other (ap (◌∷◌ f) (nothing_removed fs (rw other at e)))
      ]

      Counted-same : {fs : List Follow} → fs ≡ db.follows → Counted (record db { follows = fs })
      Counted-same e = subst (λ fs. Counted (record db { follows = fs })) (sym e) h

  -- When the counts of every user are the numbers of rows of the follow relation, they are so after
  -- `Follow`, whether it succeeds, repeats an earlier one, or fails at any statement or at the commit.
  pub Counted-follow : Counted (follow sql a b db).1
  unfolding follow
  Counted-follow =
      Outcome-state (λ _. Counted) (λ s. s ≡ db) Counted _ (λ _ s c. c)
        (λ s e. subst Counted (sym e) h)
        (Outcome-transaction laws.atomic (Unit {0}) (λ _. Counted) (follow_body sql a b) db
          Counted-follow_body)

  -- When the counts of every user are the numbers of rows of the follow relation, they are so after
  -- `Unfollow`, whether it deletes the row, finds none, or fails at any statement or at the commit.
  pub Counted-unfollow : Counted (unfollow sql a b db).1
  unfolding unfollow
  Counted-unfollow =
      Outcome-state (λ _. Counted) (λ s. s ≡ db) Counted _ (λ _ s c. c)
        (λ s e. subst Counted (sym e) h)
        (Outcome-transaction laws.atomic (Unit {0}) (λ _. Counted) (unfollow_body sql a b) db
          Counted-unfollow_body)
