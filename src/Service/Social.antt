-- ===== src/Service/Social.antt =====
-- internal/service/social_service.go: following, unfollowing, and the lists in both directions.
pub mod Followed
use pluto_feed.Prelude.{
  ℕ, suc, Bool, true, false, Option, none, some, List, [], ◌∷◌, ltb, if◌then◌else◌, Bytes, length,
  map,
}
use pluto_feed.Prelude.Int.{ℤ, eqb_ℤ}
use pluto_feed.Apierror.{Error, new, not_found, Act, ◌>>=◌, ◌>>◌, pure, raise}
use pluto_feed.Model.{User, Follow}
use pluto_feed.Db.{PageCursor}
use pluto_feed.Sql.{Sql}
use pluto_feed.Repository.User.{get_by_id, get_by_ids}
use pluto_feed.Repository.Social.{
  follow as follow_tx, unfollow as unfollow_tx, list_following as find_following,
  list_followers as find_followers,
}
use pluto_feed.Cache.{Redis, del}
use pluto_feed.Cache.Keys.{user_key}
use pluto_feed.World.{World, in_db, in_kv, best_effort, lift}
use pluto_feed.Service.Views.{Page, distinct_ids, last}
use pluto_feed.Service.Cursor.{clamp_limit, before_of, encode_cursor}
use pluto_feed.Service.Feed.{shown_of}

abbrev pub self_follow : Error
self_follow = new 400 40030 "不能关注自己"

pub record FollowUserView : Type 0 where
  pub id : ℤ
  pub nickname : Bytes
  pub avatar_url : Bytes
  pub bio : Bytes
  pub followed_at : ℤ

-- The other user of a row.
abbrev pub other_of : Bool → Follow → ℤ
other_of true f = f.followee_id
other_of false f = f.follower_id

-- A user who is gone leaves an empty profile.
unfoldable pub follow_user_view : Bool → Follow → Option User → FollowUserView
follow_user_view following f none = record {
  id = other_of following f;
  nickname = [];
  avatar_url = [];
  bio = [];
  followed_at = f.created_at;
}
follow_user_view following f (some u) = record {
  id = other_of following f;
  nickname = u.nickname;
  avatar_url = u.avatar_url;
  bio = u.bio;
  followed_at = f.created_at;
}

unfoldable pub after_social : Option Redis → ℤ → ℤ → Act World (Unit {0})
after_social none follower_id followee_id = pure tt
after_social (some r) follower_id followee_id =
    best_effort (in_kv (del r (user_key follower_id ∷ user_key followee_id ∷ [])))

abbrev pub next_follow_cursor : Bool → Bool → List Follow → Bytes
next_follow_cursor following more shown =
    if more
    then elim (last shown) [
      | none ↦ []
      | some f ↦ encode_cursor f.created_at (other_of following f)
    ]
    else []

module _ (sql : Sql) where
  abbrev pub must_exist : Option User → Act World (Unit {0})
  must_exist none = raise not_found
  must_exist (some u) = pure tt

  unfoldable pub check_target : ℤ → ℤ → Act World (Unit {0})
  check_target uid target_id =
      if eqb_ℤ uid target_id
      then raise self_follow
      else (do u ← in_db (get_by_id sql target_id); must_exist u)

  unfoldable pub follow : Option Redis → ℤ → ℤ → Act World (Unit {0})
  unfolding check_target after_social
  follow cache uid target_id = do
    check_target uid target_id
    in_db (follow_tx sql uid target_id)
    after_social cache uid target_id

  unfoldable pub unfollow : Option Redis → ℤ → ℤ → Act World (Unit {0})
  unfolding check_target after_social
  unfollow cache uid target_id = do
    check_target uid target_id
    in_db (unfollow_tx sql uid target_id)
    after_social cache uid target_id

  abbrev find_page : Bool → ℤ → Option PageCursor → ℕ → Act World (List Follow)
  find_page true uid before limit = in_db (find_following sql uid before limit)
  find_page false uid before limit = in_db (find_followers sql uid before limit)

  unfoldable pub follow_page : Bool → ℕ → List Follow → Act World (Page FollowUserView)
  unfolding follow_user_view
  follow_page following limit follows =
      let has_more = ltb limit (length follows) in
      let shown = shown_of limit follows in
      (do
        users ← in_db (get_by_ids sql (distinct_ids [] (map (other_of following) shown)))
        pure (record {
          items = map (λ f. follow_user_view following f (users (other_of following f))) shown;
          next_cursor = next_follow_cursor following has_more shown;
          has_more = has_more;
        }))

  unfoldable pub list : ℤ → Bytes → ℤ → Bool → Act World (Page FollowUserView)
  unfolding follow_page
  list uid cursor limit following = do
    before ← lift (before_of cursor)
    follows ← find_page following uid before (suc (clamp_limit limit))
    follow_page following (clamp_limit limit) follows

  unfoldable pub list_following : ℤ → Bytes → ℤ → Act World (Page FollowUserView)
  list_following uid cursor limit = list uid cursor limit true

  unfoldable pub list_followers : ℤ → Bytes → ℤ → Act World (Page FollowUserView)
  list_followers uid cursor limit = list uid cursor limit false
