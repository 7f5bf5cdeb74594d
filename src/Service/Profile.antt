-- ===== src/Service/Profile.antt =====
-- internal/service/profile_service.go: a user's page. `interactions` is always there (cmd/server/main.go).
use pluto_feed.Prelude.{ℕ, suc, Option, none, some, List, ltb, Bytes, length, map}
use pluto_feed.Prelude.Int.{ℤ}
use pluto_feed.Apierror.{not_found, Act, ◌>>=◌, pure, raise}
use pluto_feed.Model.{User, Post}
use pluto_feed.Sql.{Sql}
use pluto_feed.Repository.Post.{list_by_user, count_by_user}
use pluto_feed.Repository.User.{get_by_id}
use pluto_feed.World.{World, in_db, lift}
use pluto_feed.Service.Views.{PostView, Page, author_of, new_post_view}
use pluto_feed.Service.Cursor.{clamp_limit, before_of}
use pluto_feed.Service.Feed.{fill_liked, shown_of, next_cursor_of}

pub record ProfileView : Type 0 where
  pub id : ℤ
  pub nickname : Bytes
  pub avatar_url : Bytes
  pub bio : Bytes
  pub following_count : ℤ
  pub follower_count : ℤ
  pub post_count : ℕ
  pub posts : Page PostView

module _ (sql : Sql) where
  abbrev own_view : User → Post → PostView
  own_view u p = record (new_post_view p (some u)) { author = author_of p.user_id (some u) }

  -- The likes of a viewer who is not logged in are an empty set, and are not filled in.
  unfoldable pub build_own_posts_page : User → List Post → ℕ → ℤ → Act World (Page PostView)
  build_own_posts_page u posts limit viewer_id =
      let has_more = ltb limit (length posts) in
      let shown = shown_of limit posts in
      (do
        items ← fill_liked sql (map (own_view u) shown) viewer_id
        pure (record {
          items = items;
          next_cursor = next_cursor_of has_more shown;
          has_more = has_more;
        }))

  abbrev profile_of : User → ℕ → Page PostView → ProfileView
  profile_of u post_count page = record {
    id = u.id;
    nickname = u.nickname;
    avatar_url = u.avatar_url;
    bio = u.bio;
    following_count = u.following_count;
    follower_count = u.follower_count;
    post_count = post_count;
    posts = page;
  }

  abbrev get_found : ℤ → ℤ → Bytes → ℤ → Option User → Act World ProfileView
  get_found viewer_id target_id cursor limit none = raise not_found
  get_found viewer_id target_id cursor limit (some u) = do
    before ← lift (before_of cursor)
    posts ← in_db (list_by_user sql target_id before (suc (clamp_limit limit)))
    page ← build_own_posts_page u posts (clamp_limit limit) viewer_id
    post_count ← in_db (count_by_user sql target_id)
    pure (profile_of u post_count page)

  unfoldable pub get : ℤ → ℤ → Bytes → ℤ → Act World ProfileView
  unfolding build_own_posts_page
  get viewer_id target_id cursor limit = do
    u ← in_db (get_by_id sql target_id)
    get_found viewer_id target_id cursor limit u
