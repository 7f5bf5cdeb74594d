-- ===== src/Service/Post/Filter.antt =====
-- The Bloom filter of the post service passes every post: an invariant of internal/service/post_service.go,
-- which cmd/server/main.go sets up.
use pluto_feed.Prelude.{
  ◌≡◌, refl, inl, inr, Bool, true, false, ◌&&◌, Bool-cases, Option, none, some, List, [], ◌∷◌, any,
  map, select, find, if◌then◌else◌,
}
use pluto_feed.Prelude.Int.{ℤ, eqb_ℤ, eqb_ℤ_iff, eqb_ℤ_refl}
use pluto_feed.Apierror.{Result, ok, err}
use pluto_feed.Model
use pluto_feed.Db.{Db, is_live, find_post, insert_post}
use pluto_feed.Sql.{Sql, SqlLaws}
use pluto_feed.Repository.Post.{create as insert}
use pluto_feed.Repository.User.{get_by_id as get_user}
use pluto_feed.Bloom.{Bloom, test, id_bytes}
use pluto_feed.Bloom.Bits.{IsValid}
use pluto_feed.Bloom.Membership.{test-add, add-IsValid}
use pluto_feed.World.{World}
use pluto_feed.Service.Post.{
  CreateInput, draft, check_input, with_id, passes, may_exist, create_checked, create,
}

-- The ids of the posts that are not deleted.
abbrev pub live_ids : Db → List ℤ
live_ids db = map (λ p. p.id) (select is_live db.posts)

-- A valid filter that passes each of these ids.
abbrev pub PassesAll : List ℤ → Option Bloom → Type 0
PassesAll ids none = Unit
PassesAll ids (some b) =
    IsValid b × ((id : ℤ) → any (eqb_ℤ id) ids ≡ true → test b (id_bytes id) ≡ true)

abbrev pub Filtered : World → Type 0
Filtered w = PassesAll (live_ids w.db) w.bloom

find-live_ids :
    (id : ℤ) (ps : List Model.Post) (p : Model.Post)
    → find (λ q. eqb_ℤ q.id id && is_live q) ps ≡ some p
    → any (eqb_ℤ id) (map (λ q. q.id) (select is_live ps)) ≡ true
find-live_ids id [] p e = absurd (cc)
find-live_ids id (q ∷ ps) p e = elim (Bool-cases (is_live q)) [
  | inl live ↦ elim (Bool-cases (eqb_ℤ q.id id)) [
    | inl same ↦ rw live (here ((eqb_ℤ_iff q.id id).0 same))
    | inr other ↦ rw live (later (eqb_ℤ id q.id) (find-live_ids id ps p (rw other at e)))
  ]
  | inr gone ↦ rw gone (find-live_ids id ps p (rw (gone, never (eqb_ℤ q.id id)) at e))
]
  where
    never : (b : Bool) → (b && false) ≡ false
    never true = refl
    never false = refl

    here :
        q.id ≡ id
        → (if eqb_ℤ id q.id then true else any (eqb_ℤ id) (map (λ r. r.id) (select is_live ps)))
          ≡ true
    here same = rw (same, eqb_ℤ_refl id) refl

    later :
        (b : Bool)
        → any (eqb_ℤ id) (map (λ r. r.id) (select is_live ps)) ≡ true
        → (if b then true else any (eqb_ℤ id) (map (λ r. r.id) (select is_live ps))) ≡ true
    later true h = refl
    later false h = h

with_id-PassesAll :
    (id : ℤ) (ids : List ℤ) (b : Option Bloom)
    → PassesAll ids b
    → PassesAll (id ∷ ids) (with_id id b)
with_id-PassesAll id ids none h = tt
with_id-PassesAll id ids (some b) (valid, h) = (
  add-IsValid b (id_bytes id) valid,
  λ i among. elim (Bool-cases (eqb_ℤ i id)) [
    | inl same ↦ rw ((eqb_ℤ_iff i id).0 same) ((test-add b (id_bytes id) (id_bytes id) valid).0)
    | inr other ↦ (test-add b (id_bytes id) (id_bytes i) valid).1 (h i (rw other at among))
  ],
)

-- What get-seen asks of the filter.
pub may_exist-Filtered :
    (id : ℤ) (w : World) (p : Model.Post)
    → Filtered w
    → find_post id w.db ≡ some p
    → may_exist id w ≡ true
unfolding find_post
may_exist-Filtered id w p h e = go w.bloom h
  where
    go : (b : Option Bloom) → PassesAll (live_ids w.db) b → passes id b ≡ true
    go none k = refl
    go (some b) k = k.1 id (find-live_ids id w.db.posts p e)

-- A post is inserted, and its id added.
abbrev published : ℤ → CreateInput → World → World
published uid input w = record w {
  db = (insert_post (draft uid input) w.db).1;
  bloom = with_id (insert_post (draft uid input) w.db).0.id w.bloom;
}

published-Filtered :
    (uid : ℤ) (input : CreateInput) (w : World) → Filtered w → Filtered (published uid input w)
unfolding insert_post
published-Filtered uid input w h =
    with_id-PassesAll (insert_post (draft uid input) w.db).0.id (live_ids w.db) w.bloom h

module _ {sql : Sql} (laws : SqlLaws sql) where
  -- Publishing keeps the filter complete, whatever fails: the new id is in it before anything else can fail.
  pub create-Filtered :
      (uid : ℤ) (input : CreateInput) (w : World) → Filtered w → Filtered (create sql uid input w).1
  unfolding create insert get_user
  create-Filtered uid input w h = go (check_input input)
    where
      go : (checked : Result (Unit {0})) → Filtered (create_checked sql uid input checked w).1
      go (err e) = h
      go (ok _) = elim (laws.create_post_law (draft uid input) w.db) [
        | inr (x, failed) ↦ rw failed h
        | inl done ↦ rw done (elim (laws.first_user_law uid (published uid input w).db) [
          | inl found ↦ rw found (published-Filtered uid input w h)
          | inr (x, failed) ↦ rw failed (published-Filtered uid input w h)
        ])
      ]
