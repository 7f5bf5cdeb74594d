-- ===== src/Service/Social/Followed.antt =====
-- Following and unfollowing in internal/service/social_service.go: the follow relation as a set of pairs, and
-- what their checks let through.
use pluto_feed.Prelude.{
  ◌≡◌, ◌≢◌, inl, inr, refl, ap, arith, Bool, true, false, not, ◌&&◌, Bool-cases, Option, none, some,
  List, [], ◌∷◌, any, select, if◌then◌else◌, ◌==◌,
}
use pluto_feed.Prelude.Int.{ℤ, pos, negsuc, eqb_ℤ, eqb_ℤ_iff, eqb_ℤ_refl}
use pluto_feed.Apierror.{Error, Result, ok, err, Act, then_run, ◌>>◌, not_found}
use pluto_feed.Outcome.{Outcome, Anything, Ends, Fails, Outcome-then, Outcome-Meets}
use pluto_feed.Model.{Follow, User}
use pluto_feed.Db.{
  Db, is_follow, find_user, insert_ignore_follow, delete_follow, add_following_count,
  add_follower_count,
}
use pluto_feed.Sql.{Sql, SqlLaws, Outcome-transaction}
use pluto_feed.Repository.User.{get_by_id}
use pluto_feed.Repository.Social.{
  follow as follow_tx, unfollow as unfollow_tx, follow_body, unfollow_body,
}
use pluto_feed.Cache.{Redis}
use pluto_feed.World.{World, in_db}
use pluto_feed.Service.Social.{
  self_follow, after_social, check_target, must_exist, follow, unfollow,
}

-- Whether `x` follows `y`.
abbrev pub follows_of : Db → ℤ → ℤ → Bool
follows_of db x y = any (is_follow x y) db.follows

-- The relation is the old one, but for one pair.
abbrev pub Updated : Bool → ℤ → ℤ → Db → Db → Type 0
Updated b uid target before after =
    (x y : ℤ)
    → follows_of after x y ≡ (if eqb_ℤ x uid && eqb_ℤ y target then b else follows_of before x y)

inserted :
    (uid target x y : ℤ) (db : Db)
    → follows_of (insert_ignore_follow uid target db).1 x y
      ≡ (if eqb_ℤ x uid && eqb_ℤ y target then true else follows_of db x y)
unfolding insert_ignore_follow
inserted uid target x y db = elim (Bool-cases (any (is_follow uid target) db.follows)) [
  | inl old ↦ rw old (elim (Bool-cases (eqb_ℤ x uid && eqb_ℤ y target)) [
    | inr other ↦ rw other refl
    | inl same ↦ rw same (
        rw
          (
            (eqb_ℤ_iff x uid).0 (ground (arith, same)),
            (eqb_ℤ_iff y target).0 (ground (arith, same)),
          )
          old)
  ])
  | inr fresh ↦
      rw fresh
        (ground (arith, eqb_ℤ_iff x uid, eqb_ℤ_iff y target, eqb_ℤ_iff uid x, eqb_ℤ_iff target y))
]

select-any :
    (uid target x y : ℤ) (fs : List Follow)
    → any (is_follow x y) (select (λ f. not (is_follow uid target f)) fs)
      ≡ (if eqb_ℤ x uid && eqb_ℤ y target then false else any (is_follow x y) fs)
select-any uid target x y [] = ground arith
select-any uid target x y (f ∷ fs) = ground (
  arith,
  select-any uid target x y fs,
  eqb_ℤ_iff f.follower_id uid,
  eqb_ℤ_iff f.followee_id target,
  eqb_ℤ_iff f.follower_id x,
  eqb_ℤ_iff f.followee_id y,
  eqb_ℤ_iff x uid,
  eqb_ℤ_iff y target,
)

module _ {sql : Sql} (laws : SqlLaws sql) (uid target : ℤ) where
  -- The two updates of the users leave the relation as it is.
  bumps :
      (b : Bool) (d : ℤ) (db mid : Db)
      → Updated b uid target db mid
      → Outcome
          (λ _. Updated b uid target db)
          Anything
          (then_run (sql.add_following d uid mid) (λ _. sql.add_follower d target))
  bumps b d db mid h =
      Outcome-then Anything (laws.add_following_law d uid) (λ _. Updated b uid target db)
        (λ _. sql.add_follower d target) mid
        (Outcome-Meets Anything (laws.add_follower_law d target) (λ _. Updated b uid target db)
          (add_following_count d uid mid) (unfold add_following_count add_follower_count in h) tt)
        tt

  follow_body-Updated :
      (db : Db) → Outcome (λ _. Updated true uid target db) Anything (follow_body sql uid target db)
  unfolding follow_body
  follow_body-Updated db =
      Outcome-then Anything (laws.insert_follow_law uid target) (λ _. Updated true uid target db) _
        db
        (elim (Bool-cases ((insert_ignore_follow uid target db).0 == 0)) [
          | inl old ↦ rw old (λ x y. inserted uid target x y db)
          | inr fresh ↦ rw fresh (
              bumps true (pos 1) db (insert_ignore_follow uid target db).1
                (λ x y. inserted uid target x y db))
        ])
        tt

  unfollow_body-Updated :
      (db : Db)
      → Outcome (λ _. Updated false uid target db) Anything (unfollow_body sql uid target db)
  unfolding unfollow_body delete_follow
  unfollow_body-Updated db =
      Outcome-then Anything (laws.remove_follow_law uid target) (λ _. Updated false uid target db) _
        db
        (elim (Bool-cases ((delete_follow uid target db).0 == 0)) [
          | inl old ↦ rw old (λ x y. select-any uid target x y db.follows)
          | inr there ↦ rw there (
              bumps false (negsuc 0) db (delete_follow uid target db).1
                (λ x y. select-any uid target x y db.follows))
        ])
        tt

after_social-kv :
    (cache : Option Redis) (a b : ℤ) (w : World)
    → after_social cache a b w ≡ (ok tt, record w { kv = (after_social cache a b w).1.kv })
unfolding after_social
after_social-kv none a b w = refl
after_social-kv (some r) a b w = refl

-- Why a user is neither followed nor unfollowed: the user is the caller, or is not there, or a call fails.
pub data Barred (sql : Sql) (tx : Act Db (Unit {0})) (uid target : ℤ) (db : Db)
    : Error → Type 0 where
  itself : uid ≡ target → Barred sql tx uid target db self_follow
  no_user : find_user target db ≡ none → Barred sql tx uid target db not_found
  unread : {e : Error} → Fails (sql.first_user target) e db → Barred sql tx uid target db e
  unwritten : {e : Error} → Fails tx e db → Barred sql tx uid target db e

-- What a change of the relation ends in: the one pair is set for another user, who is there; or an error
-- and everything as it was.
abbrev pub Sets :
    Sql → Act Db (Unit {0}) → Bool → ℤ → ℤ → World → Result (Unit {0}) × World → Type 0
Sets sql tx b uid target w =
    Ends (λ _ s. (uid ≢ target) × (find_user target w.db ≢ none) × Updated b uid target w.db s.db)
      (λ e s. Barred sql tx uid target w.db e × (s ≡ w))

module _ {sql : Sql} (laws : SqlLaws sql) (cache : Option Redis) (uid target : ℤ) where
  set_in :
      (tx : Act Db (Unit {0})) (b : Bool) (w : World)
      → uid ≢ target
      → find_user target w.db ≢ none
      → (r : Result (Unit {0}) × Db) → tx w.db ≡ r
      → Outcome (λ _. Updated b uid target w.db) (λ s. s ≡ w.db) r
      → Sets sql tx b uid target w
          (then_run (r.0, record w { db = r.1 }) (λ _. after_social cache uid target))
  set_in tx b w apart there (ok _, db) q h =
      rw (after_social-kv cache uid target (record w { db = db })) (apart, there, h)
  set_in tx b w apart there (err e, db) q h = (unwritten (ap (λ r. r.0) q), rw h refl)

  checked :
      (tx : Act Db (Unit {0})) (b : Bool) (w : World)
      → Outcome (λ _. Updated b uid target w.db) (λ s. s ≡ w.db) (tx w.db)
      → Sets sql tx b uid target w (
          then_run (check_target sql uid target w) (λ _. in_db tx >> after_social cache uid target))
  unfolding check_target get_by_id
  checked tx b w h = elim (Bool-cases (eqb_ℤ uid target)) [
    | inl same ↦ rw same (itself ((eqb_ℤ_iff uid target).0 same), refl)
    | inr other ↦ rw other (elim (laws.first_user_law target w.db) [
      | inr (x, failed) ↦ rw failed (unread (ap (λ r. r.0) failed), refl)
      | inl found ↦ rw found (exists (apart other) (find_user target w.db) refl)
    ])
  ]
    where
      apart : eqb_ℤ uid target ≡ false → uid ≢ target
      apart o e = absurd (cc (rw (e, eqb_ℤ_refl target) at o))

      exists :
          uid ≢ target
          → (u : Option User) → find_user target w.db ≡ u
          → Sets sql tx b uid target w
              (then_run (must_exist sql u w) (λ _. in_db tx >> after_social cache uid target))
      exists other none gone = (no_user gone, refl)
      exists other (some u) there =
          set_in tx b w other (λ gone. absurd (cc (there, gone))) (tx w.db) refl h

  -- Follow and Unfollow, when they succeed, are of another user, who is there, and leave the relation as
  -- before but for the pair, which is in it after Follow and not after Unfollow, whether or not it was before.
  -- An error is the one for oneself, 404 without the user, or that of a call of the database, and leaves
  -- everything as it was.
  pub follow-unfollow-Sets :
      (w : World)
      → Sets sql (follow_tx sql uid target) true uid target w (follow sql cache uid target w)
        × Sets sql (unfollow_tx sql uid target) false uid target w (unfollow sql cache uid target w)
  unfolding follow unfollow follow_tx unfollow_tx
  follow-unfollow-Sets w = (
    checked (follow_tx sql uid target) true w (
        Outcome-transaction laws.atomic (Unit {0}) (λ _. Updated true uid target w.db)
          (follow_body sql uid target) w.db (follow_body-Updated laws uid target w.db)),
    checked (unfollow_tx sql uid target) false w (
        Outcome-transaction laws.atomic (Unit {0}) (λ _. Updated false uid target w.db)
          (unfollow_body sql uid target) w.db (unfollow_body-Updated laws uid target w.db)),
  )
