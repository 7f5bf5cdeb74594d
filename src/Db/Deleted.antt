-- ===== src/Db/Deleted.antt =====
-- A soft-deleted row is not found: the reads of internal/repository/post_repo.go.
use pluto_feed.Prelude.{
  ◌≡◌, refl, Bool, inl, inr, Bool-cases, true, false, none, List, [], ◌∷◌, ◌&&◌, map, find,
}
use pluto_feed.Prelude.Int.{ℤ, eqb_ℤ}
use pluto_feed.Model.{Post}
use pluto_feed.Db.{Db, is_live, soft_deleted, find_post, soft_delete_post}

find-soft_deleted :
    (now id : ℤ) (ps : List Post)
    → find (λ p. eqb_ℤ p.id id && is_live p) (map (soft_deleted now id) ps) ≡ none
find-soft_deleted now id [] = refl
find-soft_deleted now id (p ∷ ps) = elim (Bool-cases (eqb_ℤ p.id id && is_live p)) [
  | inl found ↦ rw (found, never (eqb_ℤ p.id id)) (find-soft_deleted now id ps)
  | inr other ↦ rw (other, other) (find-soft_deleted now id ps)
]
  where
    never : (b : Bool) → (b && false) ≡ false
    never true = refl
    never false = refl

pub find_post-soft_delete : (id : ℤ) (db : Db) → find_post id (soft_delete_post id db) ≡ none
unfolding find_post soft_delete_post
find_post-soft_delete id db = find-soft_deleted db.clock id db.posts
