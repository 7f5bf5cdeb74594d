-- ===== src/Service/Feed/Walk.antt =====
-- Walking a feed by its cursors: `List` and `buildPage` of internal/service/feed_service.go.
use pluto_feed.Prelude.{
  ℕ, zero, suc, ◌≤◌, ◌≡◌, inl, inr, refl, sym, ap, ◌∙◌, Bool, Option, none, some, List, [], ◌∷◌,
  ◌++◌, map, All, true, false, Bytes, ltb, length, take, select, arith, Bool-cases, length-take,
  take_of_length-le,
}
use pluto_feed.Prelude.Int.{ℤ, pos, ltb_ℤ}
use pluto_feed.Prelude.Decimal.{InInt64}
use pluto_feed.Apierror.{Result, ok, err, then_run, pure}
use pluto_feed.Model.{User, Post}
use pluto_feed.Db.{Db, PageCursor, page_of, post_key, order_desc, is_live, find_users}
use pluto_feed.Db.Pages.{DistinctKeys, page_of-next}
use pluto_feed.Sql.{Sql, Scope, in_scope, everywhere}
use pluto_feed.Repository.Post.{list_by_cursor}
use pluto_feed.Repository.User.{get_by_ids, by_id}
use pluto_feed.Repository.Interaction.{liked_post_ids}
use pluto_feed.World.{World, in_db, recovered}
use pluto_feed.Service.Views.{PostView, Page, new_post_view, distinct_ids}
use pluto_feed.Service.Cursor.{clamp_limit, before_of, before_of-encode, clamp_limit-bounds}
use pluto_feed.Service.Feed.{list, build_page, fill_liked, shown_of, next_cursor_of, with_liked}

-- A database that answers the queries of a page.
pub record AnswersPages (sql : Sql) : Type 0 where
  pub page_answer :
      (scope : Scope) (before : Option PageCursor) (limit : ℕ) (db : Db)
      → sql.page_posts scope before limit db
        ≡ (ok (page_of post_key (in_scope scope) before limit db.posts), db)
  pub users_answer :
      (ids : List ℤ) (db : Db) → sql.find_users_in ids db ≡ (ok (find_users ids db), db)

abbrev pub ids_of : List Post → List ℤ
ids_of ps = map (λ p. p.id) ps

abbrev pub view_ids : List PostView → List ℤ
view_ids vs = map (λ v. v.id) vs

-- When there are further posts, the cursor is read back as the time and the id of the last one shown, and
-- else there is none.
abbrev pub NextFrom : Bool → List Post → Bytes → Type 0
NextFrom false shown cursor = cursor ≡ []
NextFrom true shown cursor =
    (earlier : List Post) × (p : Post) × (shown ≡ earlier ++ p ∷ [])
    × (before_of cursor ≡ ok (some (record { time = p.created_at; id = p.id })))

-- A time and an id that fit in an int64.
abbrev pub IsCursorKey : Post → Type 0
IsCursorKey p = InInt64 p.created_at × InInt64 p.id

last_shown :
    (x : Post) (xs : List Post)
    → All IsCursorKey (x ∷ xs)
    → NextFrom true (x ∷ xs) (next_cursor_of true (x ∷ xs))
last_shown x [] h = ([], x, refl, before_of-encode x.created_at x.id h.0.0 h.0.1)
last_shown x (y ∷ ys) h =
    let (earlier, p, parts, back) = last_shown y ys h.1 in (x ∷ earlier, p, ap (◌∷◌ x) parts, back)

All-take : (P : Post → Type 0) (n : ℕ) (ps : List Post) → All P ps → All P (take n ps)
All-take P zero ps h = tt
All-take P (suc n) [] h = tt
All-take P (suc n) (p ∷ ps) h = (h.0, All-take P n ps h.1)

none_shown : (n : ℕ) (ps : List Post) → 1 ≤ n → ltb n (length ps) ≡ true → take n ps ≡ [] → ⊥
none_shown zero ps h e s = absurd (omega (arith, h))
none_shown (suc n) [] h e s = absurd (ground (arith, e))
none_shown (suc n) (p ∷ ps) h e s = absurd (cc)

next-NextFrom :
    (n : ℕ) (ps : List Post)
    → 1 ≤ n
    → All IsCursorKey ps
    → NextFrom (ltb n (length ps)) (take n ps) (next_cursor_of (ltb n (length ps)) (take n ps))
next-NextFrom n ps some_limit keys = go (ltb n (length ps)) refl (take n ps) refl
  where
    go :
        (more : Bool)
        → ltb n (length ps) ≡ more
        → (shown : List Post) → take n ps ≡ shown
        → NextFrom more shown (next_cursor_of more shown)
    go false e shown s = refl
    go true e [] s = absurd (none_shown n ps some_limit e s)
    go true e (x ∷ xs) s = last_shown x xs (rw s at (All-take IsCursorKey n ps keys))

-- The page that shows the first `n` of the posts.
abbrev pub Shows : ℕ → List Post → Page PostView → Type 0
Shows n ps page =
    (view_ids page.items ≡ ids_of (take n ps))
    × (page.has_more ≡ ltb n (length ps))
    × NextFrom (ltb n (length ps)) (take n ps) page.next_cursor

ids-with_liked :
    (vs : List PostView) (liked : ℤ → Bool) → view_ids (with_liked vs liked) ≡ view_ids vs
ids-with_liked [] liked = refl
ids-with_liked (v ∷ vs) liked = ap (◌∷◌ v.id) (ids-with_liked vs liked)

ids-views :
    (ps : List Post) (authors : ℤ → Option User)
    → view_ids (map (λ p. new_post_view p (authors p.user_id)) ps) ≡ ids_of ps
unfolding new_post_view
ids-views [] authors = refl
ids-views (p ∷ ps) authors = ap (◌∷◌ p.id) (ids-views ps authors)

-- A page of one more than the limit shows the first `n` posts, and knows whether there are others.
take_more : {A : Type 0} (n : ℕ) (xs : List A) → shown_of n (take (suc n) xs) ≡ take n xs
take_more n xs = elim (Bool-cases (ltb n (length (take (suc n) xs)))) [
  | inl more ↦ rw more (take_take n xs)
  | inr last ↦
      let short : length xs ≤ n = ground (arith, length-take (suc n) xs) in
      rw last
        (take_of_length-le (suc n) xs (omega (arith, short)) ∙ sym (take_of_length-le n xs short))
]
  where
    take_take : {A : Type 0} (n : ℕ) (xs : List A) → take n (take (suc n) xs) ≡ take n xs
    take_take zero xs = refl
    take_take (suc n) [] = refl
    take_take (suc n) (x ∷ xs) = ap (◌∷◌ x) (take_take n xs)

more_left :
    {A : Type 0} (n : ℕ) (xs : List A) → ltb n (length (take (suc n) xs)) ≡ ltb n (length xs)
more_left n xs = rw (length-take (suc n) xs) (ground arith)

ids-recovered :
    (vs : List PostView) (r : Result (ℤ → Bool) × World)
    → view_ids (recovered vs (then_run r (λ liked. pure (with_liked vs liked))).0) ≡ view_ids vs
ids-recovered vs (ok liked, w) = ids-with_liked vs liked
ids-recovered vs (err e, w) = refl

module _ {sql : Sql} (answers : AnswersPages sql) where
  fill-ids :
      (vs : List PostView) (uid : ℤ) (w : World)
      → (items : List PostView) × ((fill_liked sql vs uid w).0 ≡ ok items)
        × (view_ids items ≡ view_ids vs)
  unfolding fill_liked
  fill-ids [] uid w = ([], refl, refl)
  fill-ids (v ∷ vs) uid w = elim (Bool-cases (ltb_ℤ (pos 0) uid)) [
    | inl viewer ↦
        rw viewer
          (_, refl, ids-recovered (v ∷ vs) (in_db (liked_post_ids sql uid (view_ids (v ∷ vs))) w))
    | inr nobody ↦ rw nobody (v ∷ vs, refl, refl)
  ]

  -- The query of the authors changes nothing.
  authors-answer :
      (ids : List ℤ) (db : Db)
      → (authors : ℤ → Option User) × (get_by_ids sql ids db ≡ (ok authors, db))
  unfolding get_by_ids
  authors-answer [] db = (λ _. none, refl)
  authors-answer (id ∷ ids) db =
      (by_id (find_users (id ∷ ids) db) (λ _. none), rw (answers.users_answer (id ∷ ids) db) refl)

  page_of_items :
      (n : ℕ) (ps : List Post) (more : Bool) (cursor : Bytes) (vs : List PostView)
      (r : Result (List PostView) × World)
      → (items : List PostView) × (r.0 ≡ ok items) × (view_ids items ≡ view_ids vs)
      → (page : Page PostView) × ((then_run r
            (λ items. pure (record { items = items; next_cursor = cursor; has_more = more }))).0
          ≡ ok page)
        × (view_ids page.items ≡ view_ids vs)
        × (page.has_more ≡ more)
        × (page.next_cursor ≡ cursor)
  page_of_items n ps more cursor vs (ok items, w) (xs, e, h) =
      (record { items = items; next_cursor = cursor; has_more = more }, refl, cc, refl, refl)
  page_of_items n ps more cursor vs (err x, w) (xs, e, h) = absurd (cc)

  build-Shows :
      (n : ℕ) (ps : List Post) (uid : ℤ) (w : World)
      → 1 ≤ n
      → All IsCursorKey ps
      → (page : Page PostView) × ((build_page sql (take (suc n) ps) n uid w).0 ≡ ok page)
        × Shows n ps page
  unfolding build_page
  build-Shows n ps uid w some_limit keys =
      let (authors, answer) =
        authors-answer (distinct_ids [] (map (λ p. p.user_id) (take n ps))) w.db in
      let views = map (λ p. new_post_view p (authors p.user_id)) (take n ps) in
      let (items, filled, same) = fill-ids views uid w in
      let (page, done, same_ids, more, cursor) =
        page_of_items n ps (ltb n (length ps)) (next_cursor_of (ltb n (length ps)) (take n ps))
          views (fill_liked sql views uid w) (items, filled, same) in
      rw (take_more n ps, more_left n ps, answer)
        (
          page,
          done,
          (
            same_ids ∙ ids-views (take n ps) authors,
            more,
            rw cursor (next-NextFrom n ps some_limit keys),
          ),
        )

  -- When the database answers, the live posts have distinct sort keys whose times and ids fit in an int64, and
  -- the cursor is the one of a post of the whole feed: `List` returns the posts that follow this post in the feed, up to the clamped
  -- limit, says whether there are further ones, and if so gives a cursor that is read back as the last one shown.
  pub list-Shows :
      (viewer : ℤ) (cursor : Bytes) (limit : ℤ) (w : World) (xs : List Post) (x : Post)
      (ys : List Post)
      → DistinctKeys post_key (select is_live w.db.posts)
      → order_desc post_key (select is_live w.db.posts) ≡ xs ++ x ∷ ys
      → before_of cursor ≡ ok (some (post_key x))
      → All IsCursorKey ys
      → (page : Page PostView) × ((list sql viewer cursor limit w).0 ≡ ok page)
        × Shows (clamp_limit limit) ys page
  unfolding list list_by_cursor
  list-Shows viewer cursor limit w xs x ys d whole from keys =
      let n = clamp_limit limit in
      rw
        (
          from,
          answers.page_answer everywhere (some (post_key x)) (suc n) w.db,
          page_of-next post_key is_live (suc n) w.db.posts xs x ys d whole,
        )
        (build-Shows n ys viewer w (clamp_limit-bounds limit).0 keys)
