-- ===== src/Service/Post.antt =====
-- internal/service/post_service.go: publishing, reading through the cache and the Bloom filter, deleting
-- and searching. The sequential effect of `singleflight` is one run of its function. The service's
-- `interactions` is always there (cmd/server/main.go); the cache and the filter may be missing.
pub mod Coherent
pub mod Reads
pub mod Deleted
pub mod Filter
use pluto_feed.Prelude.{
  ℕ, Bool, true, false, not, Option, none, some, List, [], ◌∷◌, ltb, if◌then◌else◌, Bytes,
  rune_count, length, take, map,
}
use pluto_feed.Prelude.Int.{ℤ, pos, ltb_ℤ, eqb_ℤ}
use pluto_feed.Apierror.{
  Error, new, other, not_found, forbidden, Result, ok, err, Act, ◌>>=◌, ◌>>◌, pure, raise,
}
use pluto_feed.Model
use pluto_feed.Model.{User}
use pluto_feed.Sql.{Sql}
use pluto_feed.Bloom.{Bloom, add, test, id_bytes}
use pluto_feed.Repository.Post.{create as insert_post, get_by_id, soft_delete, search_by_keyword}
use pluto_feed.Repository.User.{get_by_id as get_user, get_by_ids}
use pluto_feed.Repository.Interaction.{has_liked}
use pluto_feed.Cache.{Redis, Json, get_json, set_json, del}
use pluto_feed.Cache.Keys.{post_key, user_key}
use pluto_feed.World.{World, in_db, in_kv, best_effort, or_else}
use pluto_feed.Service.Views.{PostView, new_post_view, distinct_ids}
use pluto_feed.Service.Cursor.{clamp_limit}
use pluto_feed.Service.Feed.{fill_liked}

abbrev pub post_cache_ttl : ℤ
post_cache_ttl = pos 600_000_000_000

abbrev pub nil_cache_ttl : ℤ
nil_cache_ttl = pos 30_000_000_000

abbrev pub max_content_len : ℕ
max_content_len = 1000

abbrev pub max_images : ℕ
max_images = 9

abbrev pub max_tags : ℕ
max_tags = 5

pub record CreateInput : Type 0 where
  pub image_urls : List Bytes
  pub content : Bytes
  pub tags : List Bytes

abbrev pub no_images : Error
no_images = new 400 40010 "至少需要 1 张图片"

abbrev pub too_many_images : Error
too_many_images = new 400 40011 "图片最多 9 张"

abbrev pub empty_content : Error
empty_content = new 400 40012 "正文不能为空"

abbrev pub long_content : Error
long_content = new 400 40013 "正文最多 1000 字"

abbrev pub too_many_tags : Error
too_many_tags = new 400 40014 "标签最多 5 个"

-- The checks of `Create`, in their order.
unfoldable pub check_input : CreateInput → Result (Unit {0})
check_input i =
    if ltb (length i.image_urls) 1
    then err no_images
    else if ltb max_images (length i.image_urls)
    then err too_many_images
    else if ltb (rune_count i.content) 1
    then err empty_content
    else if ltb max_content_len (rune_count i.content)
    then err long_content
    else if ltb max_tags (length i.tags)
    then err too_many_tags
    else ok tt

-- `postEnvelope` and `userEnvelope`: `found` is false for what is known to be missing.
pub record Envelope (A : Type 0) : Type 0 where
  pub found : Bool
  pub value : Option A

abbrev pub envelope_of : {A : Type 0} → Option A → Envelope A
envelope_of none = record { found = false; value = none }
envelope_of (some a) = record { found = true; value = some a }

abbrev pub ttl_of : {A : Type 0} → Option A → ℤ
ttl_of none = nil_cache_ttl
ttl_of (some a) = post_cache_ttl

-- The panic on the nil post of an envelope that says `found`.
abbrev pub nil_pointer : Error
nil_pointer = other 40

abbrev pub draft : ℤ → CreateInput → Model.Post
draft uid i = record {
  id = pos 0;
  user_id = uid;
  image_urls = i.image_urls;
  content = i.content;
  tags = i.tags;
  like_count = pos 0;
  comment_count = pos 0;
  created_at = pos 0;
  deleted_at = none;
}

-- A new id goes into the filter, when there is one.
abbrev pub with_id : ℤ → Option Bloom → Option Bloom
with_id id none = none
with_id id (some b) = some (add b (id_bytes id))

abbrev pub add_to_filter : ℤ → Act World (Unit {0})
add_to_filter id w = (ok tt, record w { bloom = with_id id w.bloom })

abbrev pub passes : ℤ → Option Bloom → Bool
passes id none = true
passes id (some b) = test b (id_bytes id)

abbrev pub may_exist : ℤ → World → Bool
may_exist id w = passes id w.bloom

-- A read through the cache whose failure is a miss, and a write whose failure is logged.
abbrev pub lookup : {A : Type 0} → Json A → Option Redis → Bytes → Act World (Option A)
lookup json none key = pure none
lookup json (some r) key = or_else none (in_kv (get_json r json key))

abbrev pub store : {A : Type 0} → Json A → Option Redis → Bytes → A → ℤ → Act World (Unit {0})
store json none key a ttl = pure tt
store json (some r) key a ttl = best_effort (in_kv (set_json r json key a ttl))

unfoldable pub del_user_cache : Option Redis → List ℤ → Act World (Unit {0})
del_user_cache none ids = pure tt
del_user_cache (some r) ids = best_effort (in_kv (del r (map user_key ids)))

unfoldable pub invalidate_post : Option Redis → ℤ → Act World (Unit {0})
invalidate_post none post_id = pure tt
invalidate_post (some r) post_id = best_effort (in_kv (del r (post_key post_id ∷ [])))

-- `keyword[:64]`, of the trimmed word.
abbrev pub cut_keyword : Bytes → Bytes
cut_keyword word = if ltb 64 (length word) then take 64 word else word

module _ (sql : Sql) where
  abbrev pub create_checked : ℤ → CreateInput → Result (Unit {0}) → Act World PostView
  create_checked uid i (err e) = raise e
  create_checked uid i (ok _) = do
    p ← in_db (insert_post sql (draft uid i))
    add_to_filter p.id
    author ← in_db (get_user sql uid)
    pure (new_post_view p author)

  unfoldable pub create : ℤ → CreateInput → Act World PostView
  unfolding check_input
  create uid i = create_checked uid i (check_input i)

  -- `fillLiked` of one post.
  unfoldable pub fill_one : PostView → ℤ → Act World PostView
  fill_one view viewer_uid =
      if not (ltb_ℤ (pos 0) viewer_uid)
      then pure view
      else or_else view (do
        liked ← in_db (has_liked sql viewer_uid view.id)
        pure (record view { liked = liked }))

  module _ (post_json : Json (Envelope Model.Post)) (user_json : Json (Envelope User))
      (cache : Option Redis) where
    abbrev load_user : ℤ → Act World (Option User)
    load_user id = do
      u ← in_db (get_user sql id)
      store user_json cache (user_key id) (envelope_of u) (ttl_of u)
      pure u

    abbrev cached_user : ℤ → Option (Envelope User) → Act World (Option User)
    cached_user id none = load_user id
    cached_user id (some env) = if not env.found then raise not_found else pure env.value

    unfoldable pub get_user_cached : ℤ → Act World (Option User)
    get_user_cached id = do hit ← lookup user_json cache (user_key id); cached_user id hit

    abbrev show : ℤ → Model.Post → Act World PostView
    show viewer_uid p = do
      author ← get_user_cached p.user_id
      fill_one (new_post_view p author) viewer_uid

    -- The function that `singleflight` runs.
    unfoldable pub load_post : ℤ → Act World (Option Model.Post)
    load_post id = do
      p ← in_db (get_by_id sql id)
      store post_json cache (post_key id) (envelope_of p) (ttl_of p)
      pure p

    abbrev show_or_404 : ℤ → Option Model.Post → Act World PostView
    show_or_404 viewer_uid none = raise not_found
    show_or_404 viewer_uid (some p) = show viewer_uid p

    abbrev refuse : ℤ → Act World PostView
    refuse id = do
      store post_json cache (post_key id) (envelope_of none) nil_cache_ttl
      raise not_found

    abbrev get_missed : ℤ → ℤ → Act World PostView
    get_missed viewer_uid id w =
        if not (may_exist id w)
        then refuse id w
        else (do p ← load_post id; show_or_404 viewer_uid p) w

    abbrev get_hit : ℤ → Envelope Model.Post → Act World PostView
    get_hit viewer_uid env =
        if not env.found
        then raise not_found
        else elim env.value [ none ↦ raise nil_pointer | some p ↦ show viewer_uid p ]

    abbrev hit_or_miss : ℤ → ℤ → Option (Envelope Model.Post) → Act World PostView
    hit_or_miss viewer_uid id none = get_missed viewer_uid id
    hit_or_miss viewer_uid id (some env) = get_hit viewer_uid env

    unfoldable pub get : ℤ → ℤ → Act World PostView
    unfolding load_post get_user_cached fill_one
    get viewer_uid id = do hit ← lookup post_json cache (post_key id); hit_or_miss viewer_uid id hit

  module _ (cache : Option Redis) where
    abbrev delete_own : ℤ → ℤ → Option Model.Post → Act World (Unit {0})
    delete_own uid post_id none = raise not_found
    delete_own uid post_id (some p) =
        if not (eqb_ℤ p.user_id uid)
        then raise forbidden
        else (do in_db (soft_delete sql post_id); invalidate_post cache post_id)

    unfoldable pub delete : ℤ → ℤ → Act World (Unit {0})
    unfolding invalidate_post
    delete uid post_id = do p ← in_db (get_by_id sql post_id); delete_own uid post_id p

  abbrev views_of : List Model.Post → ℤ → Act World (List PostView)
  views_of [] viewer_uid = pure []
  views_of (p ∷ ps) viewer_uid = do
    authors ← in_db (get_by_ids sql (distinct_ids [] (map (λ x. x.user_id) (p ∷ ps))))
    fill_liked sql (map (λ x. new_post_view x (authors x.user_id)) (p ∷ ps)) viewer_uid

  -- `trim_space` is `strings.TrimSpace`.
  unfoldable pub search : (Bytes → Bytes) → ℤ → Bytes → ℤ → Act World (List PostView)
  search trim_space viewer_uid keyword limit = elim (trim_space keyword) [
    | [] ↦ pure []
    | c ∷ cs ↦ (do
      posts ← in_db (search_by_keyword sql (cut_keyword (c ∷ cs)) (clamp_limit limit))
      views_of posts viewer_uid)
  ]
