-- ===== src/Service/Post/Reads.antt =====
-- `Get` of internal/service/post_service.go against what it is meant to read: the tables alone.
use pluto_feed.Prelude.{
  ◌≡◌, inl, inr, refl, true, not, Bool-cases, Option, none, some, Option-cases, if◌then◌else◌, ltb,
  select, length,
}
use pluto_feed.Prelude.Int.{ℤ, pos, ltb_ℤ}
use pluto_feed.Prelude.Decimal.{InInt64}
use pluto_feed.Apierror.{not_found, Result, ok, err, then_run}
use pluto_feed.Model
use pluto_feed.Model.{User}
use pluto_feed.Db.{Db, find_post, find_user, is_like}
use pluto_feed.Sql.{Sql}
use pluto_feed.Repository.Post.{get_by_id}
use pluto_feed.Repository.User.{get_by_id as get_user}
use pluto_feed.Repository.Interaction.{has_liked}
use pluto_feed.Cache.{Kv, Redis, Json}
use pluto_feed.Cache.Keys.{post_key, user_key}
use pluto_feed.World.{World}
use pluto_feed.Service.Views.{PostView, new_post_view}
use pluto_feed.Service.Post.{
  Envelope, envelope_of, ttl_of, nil_cache_ttl, store, may_exist, fill_one, load_user,
  get_user_cached, show, load_post, show_or_404, refuse, get_missed, get_hit, get,
}
use pluto_feed.Service.Post.Coherent.{
  PostsBack, UsersBack, kept_post, kept_user, kept_envelope, CacheLaws, Coherent, put_post-Coherent,
  put_user-Coherent, store-cases, lookup-cases,
}

-- The database answers the reads of a post.
pub record AnswersReads (sql : Sql) : Type 0 where
  pub post_answer : (id : ℤ) (db : Db) → sql.first_post id db ≡ (ok (find_post id db), db)
  pub user_answer : (id : ℤ) (db : Db) → sql.first_user id db ≡ (ok (find_user id db), db)
  pub likes_answer :
      (post_id uid : ℤ) (db : Db)
      → sql.count_likes post_id uid db ≡ (ok (length (select (is_like post_id uid) db.likes)), db)

-- The view of a post for a viewer, read from the tables.
abbrev pub liked_by : Db → ℤ → PostView → PostView
liked_by db viewer v =
    if not (ltb_ℤ (pos 0) viewer)
    then v
    else record v { liked = ltb 0 (length (select (is_like v.id viewer) db.likes)) }

abbrev pub view_or_404 : Db → ℤ → Option Model.Post → Result PostView
view_or_404 db viewer none = err not_found
view_or_404 db viewer (some p) = ok (liked_by db viewer (new_post_view p (find_user p.user_id db)))

unfoldable pub seen : Db → ℤ → ℤ → Result PostView
seen db viewer id = view_or_404 db viewer (find_post id db)

module _ {post_json : Json (Envelope Model.Post)} {user_json : Json (Envelope User)}
    (posts_back : PostsBack post_json) (users_back : UsersBack user_json) where
  abbrev Agrees : Db → Kv → Type 0
  Agrees db kv = Coherent posts_back users_back db kv

  -- A call that gives this result, and leaves the tables, the filter and an agreeing cache.
  abbrev pub Gives : {A : Type 0} → Result A → World → Result A × World → Type 0
  Gives result w r = (kv : Kv) × (r ≡ (result, record w { kv = kv })) × Agrees w.db kv

module _ {post_json : Json (Envelope Model.Post)} {user_json : Json (Envelope User)}
    (posts_back : PostsBack post_json) (users_back : UsersBack user_json) (cache : Option Redis)
    (laws : CacheLaws cache) {sql : Sql} (answers : AnswersReads sql) where
  stores_post :
      (id : ℤ) (ttl : ℤ) (w : World)
      → InInt64 id
      → Agrees posts_back users_back w.db w.kv
      → Gives posts_back users_back
          (ok tt)
          w
          (store post_json cache (post_key id) (envelope_of (find_post id w.db)) ttl w)
  stores_post id ttl w small h =
      elim (store-cases post_json cache laws (post_key id) (envelope_of (find_post id w.db)) ttl
        w) [
          | inl same ↦ (w.kv, same, h)
          | inr (b, e, done) ↦
              (_, done, put_post-Coherent posts_back users_back id b ttl w.db w.kv small e h)
        ]

  stores_user :
      (id : ℤ) (ttl : ℤ) (w : World)
      → InInt64 id
      → Agrees posts_back users_back w.db w.kv
      → Gives posts_back users_back
          (ok tt)
          w
          (store user_json cache (user_key id) (envelope_of (find_user id w.db)) ttl w)
  stores_user id ttl w small h =
      elim (store-cases user_json cache laws (user_key id) (envelope_of (find_user id w.db)) ttl
        w) [
          | inl same ↦ (w.kv, same, h)
          | inr (b, e, done) ↦
              (_, done, put_user-Coherent posts_back users_back id b ttl w.db w.kv small e h)
        ]

  load_user-Gives :
      (id : ℤ) (w : World)
      → InInt64 id
      → Agrees posts_back users_back w.db w.kv
      → Gives posts_back users_back
          (ok (find_user id w.db))
          w
          (load_user sql post_json user_json cache id w)
  unfolding get_user
  load_user-Gives id w small h =
      let (kv, stored, h') = stores_user id (ttl_of (find_user id w.db)) w small h in
      (kv, rw (answers.user_answer id w.db, stored) refl, h')

  -- A user that shows as the row does.
  abbrev ShowsAs : Option User → Option User → Type 0
  ShowsAs v u = (p : Model.Post) → new_post_view p v ≡ new_post_view p u

  get_user_cached-Gives :
      (id : ℤ) (u : User) (w : World)
      → InInt64 id
      → Agrees posts_back users_back w.db w.kv
      → find_user id w.db ≡ some u
      → (v : Option User) × ShowsAs v (find_user id w.db)
        × Gives posts_back users_back (ok v) w (get_user_cached sql post_json user_json cache id w)
  unfolding get_user_cached new_post_view
  get_user_cached-Gives id u w small h there =
      elim (lookup-cases user_json cache laws (user_key id)
        (kept_envelope kept_user (envelope_of (find_user id w.db))) w (h.1 id small)) [
          | inl miss ↦
              let (kv, e, h') = load_user-Gives id w small h in
              (find_user id w.db, λ p. refl, (kv, rw (miss) e, h'))
          | inr hit ↦ (some (kept_user u), λ p. rw there refl, (w.kv, rw (hit, there) refl, h))
        ]

  fill_one-liked_by :
      (v : PostView) (viewer : ℤ) (w : World)
      → fill_one sql v viewer w ≡ (ok (liked_by w.db viewer v), w)
  unfolding fill_one has_liked
  fill_one-liked_by v viewer w = elim (Bool-cases (ltb_ℤ (pos 0) viewer)) [
    | inl known ↦ rw (known, answers.likes_answer v.id viewer w.db) refl
    | inr nobody ↦ rw nobody refl
  ]

  show-Gives :
      (viewer : ℤ) (p : Model.Post) (u : User) (w : World)
      → InInt64 p.user_id
      → Agrees posts_back users_back w.db w.kv
      → find_user p.user_id w.db ≡ some u
      → Gives posts_back users_back
          (ok (liked_by w.db viewer (new_post_view p (find_user p.user_id w.db))))
          w
          (show sql post_json user_json cache viewer p w)
  show-Gives viewer p u w small h there =
      let (v, same, (kv, e, h')) = get_user_cached-Gives p.user_id u w small h there in
      (
        kv,
        rw (e, same p)
            (fill_one-liked_by (new_post_view p (find_user p.user_id w.db)) viewer
              (record w { kv = kv })),
        h',
      )

  -- The answer for a missing id, and for a post of a known author.
  view_or_404-Gives :
      (viewer : ℤ) (post : Option Model.Post) (w : World)
      → Agrees posts_back users_back w.db w.kv
      → ((p : Model.Post)
          → post ≡ some p
          → InInt64 p.user_id × (u : User) × (find_user p.user_id w.db ≡ some u))
      → Gives posts_back users_back
          (view_or_404 w.db viewer post)
          w
          (show_or_404 sql post_json user_json cache viewer post w)
  view_or_404-Gives viewer none w h authors = (w.kv, refl, h)
  view_or_404-Gives viewer (some p) w h authors =
      let (small, u, there) = authors p refl in show-Gives viewer p u w small h there

  module _ (viewer id : ℤ) (w : World) (small : InInt64 id)
      (h : Agrees posts_back users_back w.db w.kv)
      (authors : (p : Model.Post)
        → find_post id w.db ≡ some p
        → InInt64 p.user_id × (u : User) × (find_user p.user_id w.db ≡ some u))
      (filtered : (p : Model.Post) → find_post id w.db ≡ some p → may_exist id w ≡ true) where
    get_hit-Gives : Gives posts_back users_back (view_or_404 w.db viewer (find_post id w.db)) w (
        get_hit sql post_json user_json cache viewer
          (kept_envelope kept_post (envelope_of (find_post id w.db)))
          w)
    unfolding new_post_view
    get_hit-Gives = go (find_post id w.db) authors
      where
        go :
            (post : Option Model.Post)
            → ((p : Model.Post)
                → post ≡ some p
                → InInt64 p.user_id × (u : User) × (find_user p.user_id w.db ≡ some u))
            → Gives posts_back users_back (view_or_404 w.db viewer post) w (
                get_hit sql post_json user_json cache viewer
                  (kept_envelope kept_post (envelope_of post))
                  w)
        go none f = (w.kv, refl, h)
        go (some p) f =
            let (small_p, u, there) = f p refl in
            show-Gives viewer (kept_post p) u w small_p h there

    refuse-Gives :
        find_post id w.db ≡ none
        → Gives posts_back users_back
            (view_or_404 w.db viewer (find_post id w.db))
            w
            (refuse sql post_json user_json cache id w)
    refuse-Gives missing =
        let (kv, stored, h') = stores_post id nil_cache_ttl w small h in
        (kv, rw missing (rw (rw missing at stored) refl), h')

    load_post-Gives :
        Gives posts_back users_back
          (ok (find_post id w.db))
          w
          (load_post sql post_json user_json cache id w)
    unfolding load_post get_by_id
    load_post-Gives =
        let (kv, stored, h') = stores_post id (ttl_of (find_post id w.db)) w small h in
        (kv, rw (answers.post_answer id w.db, stored) refl, h')

    load-Gives : Gives posts_back users_back (view_or_404 w.db viewer (find_post id w.db)) w (
        then_run
          (load_post sql post_json user_json cache id w)
          (show_or_404 sql post_json user_json cache viewer))
    load-Gives =
        let (kv, e, h') = load_post-Gives in
        let (kv2, e2, h2) =
          view_or_404-Gives viewer (find_post id w.db) (record w { kv = kv }) h' authors in
        (kv2, rw e e2, h2)

    get_missed-Gives :
        Gives posts_back users_back
          (view_or_404 w.db viewer (find_post id w.db))
          w
          (get_missed sql post_json user_json cache viewer id w)
    get_missed-Gives = elim (Bool-cases (may_exist id w)) [
      | inl passed ↦ rw passed load-Gives
      | inr barred ↦ elim (Option-cases (find_post id w.db)) [
        | inl missing ↦ rw barred (refuse-Gives missing)
        | inr (p, there) ↦ absurd (cc (filtered p there, barred))
      ]
    ]

  -- Get is a read of the tables: with a database that answers, any cache or none, whose commands may fail,
  -- that agrees with the tables but for what JSON leaves out, rows with UTF-8 texts, and a filter that passes the post if it is there, whose author is a row, it
  -- returns the view that the tables give, or 404, and leaves the tables and a cache that agrees.
  pub get-seen :
      (viewer id : ℤ) (w : World)
      → InInt64 id
      → Agrees posts_back users_back w.db w.kv
      → ((p : Model.Post)
          → find_post id w.db ≡ some p
          → InInt64 p.user_id × (u : User) × (find_user p.user_id w.db ≡ some u))
      → ((p : Model.Post) → find_post id w.db ≡ some p → may_exist id w ≡ true)
      → Gives posts_back users_back
          (seen w.db viewer id)
          w
          (get sql post_json user_json cache viewer id w)
  unfolding get seen
  get-seen viewer id w small h authors filtered =
      elim (lookup-cases post_json cache laws (post_key id)
        (kept_envelope kept_post (envelope_of (find_post id w.db))) w (h.0 id small)) [
          | inl miss ↦ rw miss (get_missed-Gives viewer id w small h authors filtered)
          | inr hit ↦ rw hit (get_hit-Gives viewer id w small h authors filtered)
        ]
