-- ===== src/Service/Feed.antt =====
-- internal/service/feed_service.go: the feed of all posts, the feed of the followed users, and the hot
-- ranking. The service's `interactions` is always there (cmd/server/main.go); `cache` may be missing.
pub mod Walk
pub mod Hot
use pluto_feed.Prelude.{
  ℕ, suc, Bool, true, false, not, ◌||◌, Option, none, some, List, [], ◌∷◌, ltb, if◌then◌else◌,
  Bytes, length, take, map,
}
use pluto_feed.Prelude.Int.{ℤ, pos, ltb_ℤ}
use pluto_feed.Apierror.{Error, new, Result, ok, err, Act, then_run, ◌>>=◌, ◌>>◌, pure, raise}
use pluto_feed.Model.{Post, User}
use pluto_feed.Db.{PageCursor}
use pluto_feed.Sql.{Sql}
use pluto_feed.Repository.Post.{get_by_id, list_by_cursor, list_by_user_ids}
use pluto_feed.Repository.User.{get_by_ids, get_by_id as get_user}
use pluto_feed.Repository.Social.{following_ids}
use pluto_feed.Repository.Interaction.{liked_post_ids}
use pluto_feed.Cache.{Redis, Json, HotItem, get_json, set_json, hot_top_n, minute}
use pluto_feed.Cache.Keys.{hot_result_key}
use pluto_feed.World.{World, in_db, in_kv, best_effort, lift, or_else}
use pluto_feed.Service.Views.{PostView, Page, empty_page, new_post_view, distinct_ids, last}
use pluto_feed.Service.Cursor.{clamp_limit, before_of, encode_cursor}

abbrev pub max_following_feed_ids : ℕ
max_following_feed_ids = 5000

abbrev pub too_many_followed : Error
too_many_followed = new 400 40040 "关注列表过大，关注流暂不支持（推拉模式规划中，见 M4）"

-- The items with the viewer's own likes.
abbrev pub with_liked : List PostView → (ℤ → Bool) → List PostView
with_liked items liked =
    map {A = PostView} {B = PostView} (λ v. record v { liked = liked v.id }) items

abbrev pub next_cursor_of : Bool → List Post → Bytes
next_cursor_of more shown =
    if more then elim (last shown) [ none ↦ [] | some p ↦ encode_cursor p.created_at p.id ] else []

-- The posts of a page: one more than the limit says that there are further ones.
abbrev pub shown_of : {A : Type 0} → ℕ → List A → List A
shown_of limit xs = if ltb limit (length xs) then take limit xs else xs

module _ (sql : Sql) where
  -- A failed query of the likes leaves the items as they are.
  unfoldable pub fill_liked : List PostView → ℤ → Act World (List PostView)
  fill_liked [] viewer_uid = pure []
  fill_liked (v ∷ vs) viewer_uid =
      if not (ltb_ℤ (pos 0) viewer_uid)
      then pure (v ∷ vs)
      else or_else (v ∷ vs) (do
        liked ← in_db (liked_post_ids sql viewer_uid (map (λ x. x.id) (v ∷ vs)))
        pure (with_liked (v ∷ vs) liked))

  unfoldable pub build_page : List Post → ℕ → ℤ → Act World (Page PostView)
  build_page posts limit viewer_uid =
      let has_more = ltb limit (length posts) in
      let shown = shown_of limit posts in
      (do
        authors ← in_db (get_by_ids sql (distinct_ids [] (map (λ p. p.user_id) shown)))
        items ← fill_liked (map (λ p. new_post_view p (authors p.user_id)) shown) viewer_uid
        pure (record {
          items = items;
          next_cursor = next_cursor_of has_more shown;
          has_more = has_more;
        }))

  unfoldable pub list : ℤ → Bytes → ℤ → Act World (Page PostView)
  unfolding build_page
  list viewer_uid cursor limit = do
    before ← lift (before_of cursor)
    posts ← in_db (list_by_cursor sql before (suc (clamp_limit limit)))
    build_page posts (clamp_limit limit) viewer_uid

  abbrev followed_page : List ℤ → ℤ → Bytes → ℤ → Act World (Page PostView)
  followed_page [] viewer_uid cursor limit = pure empty_page
  followed_page (id ∷ ids) viewer_uid cursor limit =
      if ltb max_following_feed_ids (length (id ∷ ids)) then raise too_many_followed else (do
        before ← lift (before_of cursor)
        posts ← in_db (list_by_user_ids sql (id ∷ ids) before (suc (clamp_limit limit)))
        build_page posts (clamp_limit limit) viewer_uid)

  unfoldable pub list_following_feed : ℤ → Bytes → ℤ → Act World (Page PostView)
  unfolding build_page
  list_following_feed viewer_uid cursor limit = do
    ids ← in_db (following_ids sql viewer_uid)
    followed_page ids viewer_uid cursor limit

  -- A post that cannot be read is passed over.
  abbrev pub shown_before : Act World (List PostView) → Option Post → Act World (List PostView)
  shown_before later none = later
  shown_before later (some p) = do
    author ← in_db (get_user sql p.user_id)
    views ← later
    pure (new_post_view p author ∷ views)

  -- The ranked posts that are still there.
  unfoldable pub hot_views : List HotItem → Act World (List PostView)
  hot_views [] = pure []
  hot_views (it ∷ items) = do
    p ← or_else none (in_db (get_by_id sql it.post_id))
    shown_before (hot_views items) p

  module _ (format : ℤ → Bytes) (json : Json (Option (List PostView))) where
    unfoldable pub load_hot : Option Redis → ℕ → ℤ → Act World (Page PostView)
    unfolding hot_views
    load_hot none limit viewer_uid = pure empty_page
    load_hot (some r) limit viewer_uid = do
      ranked ← in_kv (hot_top_n r format 60 limit)
      views ← hot_views ranked
      items ← fill_liked views viewer_uid
      pure (record { items = items; next_cursor = []; has_more = false })

    -- A miss of the cached ranking: it is loaded, and cached without the viewer's likes.
    abbrev load_and_cache : Redis → Bytes → ℕ → ℤ → Act World (Page PostView)
    load_and_cache r key limit viewer_uid = do
      page ← load_hot (some r) limit viewer_uid
      best_effort (in_kv (set_json r json key (some (with_liked page.items (λ _. false))) minute))
      pure page

    abbrev cached_or_load :
        Redis → ℕ → ℤ → Option (Option (List PostView)) → Act World (Page PostView)
    cached_or_load r limit viewer_uid (some (some cached)) = do
      items ← fill_liked cached viewer_uid
      pure (record { items = items; next_cursor = []; has_more = false })
    cached_or_load r limit viewer_uid (some none) =
        load_and_cache r (hot_result_key (pos limit)) limit viewer_uid
    cached_or_load r limit viewer_uid none =
        load_and_cache r (hot_result_key (pos limit)) limit viewer_uid

    -- A cache that cannot be read, or whose value cannot be decoded, is a miss.
    unfoldable pub list_hot : Option Redis → ℤ → ℤ → Act World (Page PostView)
    unfolding load_hot
    list_hot none viewer_uid limit = load_hot none (clamp_limit limit) viewer_uid
    list_hot (some r) viewer_uid limit = do
      hit ← or_else none (in_kv (get_json r json (hot_result_key (pos (clamp_limit limit)))))
      cached_or_load r (clamp_limit limit) viewer_uid hit
