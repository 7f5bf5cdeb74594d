-- ===== src/Service/Feed/Hot.antt =====
-- The cached hot ranking of internal/service/feed_service.go is nobody's: it holds no likes of a viewer.
use pluto_feed.Prelude.{
  ℕ, zero, suc, ◌+◌, ◌*◌, ◌≡◌, ◌⊎◌, inl, inr, refl, sym, ap, ◌∙◌, false, Bool-cases, Option, none,
  some, Option-cases, List, [], ◌∷◌, All, Bytes, bytes_eq, bytes_eq_iff, bytes_eq_refl, map,
}
use pluto_feed.Prelude.Int.{ℤ, pos, ltb_ℤ, ◌+ℤ◌, sub_ℕ}
use pluto_feed.Model.{Post}
use pluto_feed.Outcome.{then_run-state}
use pluto_feed.Sql.{Sql}
use pluto_feed.Repository.Post.{get_by_id}
use pluto_feed.Repository.User.{get_by_id as get_user}
use pluto_feed.Repository.Interaction.{liked_post_ids}
use pluto_feed.Cache.{
  Kv, HotItem, Redis, RedisLaws, Json, value_at, put_value, get_json, set_json, set_marshalled,
  collect, hot_top_n, hot_bucket, minute,
}
use pluto_feed.Cache.Keys.{hot_result_key}
use pluto_feed.Cache.Reads.{value_at-put_other}
use pluto_feed.World.{World, in_db, in_kv, or_else}
use pluto_feed.Service.Views.{PostView}
use pluto_feed.Service.Cursor.{clamp_limit}
use pluto_feed.Service.Feed.{
  with_liked, fill_liked, shown_before, hot_views, load_hot, load_and_cache, cached_or_load,
  list_hot,
}
use pluto_feed.Service.Post.Coherent.{value_at-put}

unliked-All : (vs : List PostView) → All (λ v. v.liked ≡ false) (with_liked vs (λ _. false))
unliked-All [] = tt
unliked-All (v ∷ vs) = (refl, unliked-All vs)

-- A codec reads a list of views back with its likes; what it does to texts that are not UTF-8 does not matter.
abbrev pub KeepsLikes : Json (Option (List PostView)) → Type 0
KeepsLikes json =
    (items back : List PostView) (b : Bytes)
    → json.marshal (some items) ≡ some b
    → json.unmarshal b ≡ some (some back)
    → map (λ v. v.liked) back ≡ map (λ v. v.liked) items

same_likes-unliked :
    (items back : List PostView)
    → map (λ v. v.liked) back ≡ map (λ v. v.liked) items
    → All (λ v. v.liked ≡ false) items
    → All (λ v. v.liked ≡ false) back
same_likes-unliked items [] e h = tt
same_likes-unliked [] (v ∷ vs) e h = absurd (cc)
same_likes-unliked (x ∷ xs) (v ∷ vs) e h =
    let tails : map (λ v. v.liked) vs ≡ map (λ v. v.liked) xs = cc in
    let heads : v.liked ≡ x.liked = cc in (heads ∙ h.0, same_likes-unliked xs vs tails h.1)

module _ (json : Json (Option (List PostView))) where
  -- Each cached ranking that can be read holds no liked post.
  abbrev pub Impersonal : Kv → Type 0
  Impersonal kv =
      (limit : ℤ) (b : Bytes) (items : List PostView)
      → value_at (hot_result_key limit) kv ≡ some b
      → json.unmarshal b ≡ some (some items)
      → All (λ v. v.liked ≡ false) items

  module _ (reads_back : KeepsLikes json) where
    put-Impersonal :
        (limit : ℤ) (items : List PostView) (b : Bytes) (ttl : ℤ) (kv : Kv)
        → json.marshal (some (with_liked items (λ _. false))) ≡ some b
        → Impersonal kv
        → Impersonal (put_value (hot_result_key limit) b ttl kv)
    put-Impersonal limit items b ttl kv e h l c read found decoded =
        elim (Bool-cases (bytes_eq (hot_result_key limit) (hot_result_key l))) [
          | inl same ↦
              let key_is = (bytes_eq_iff (hot_result_key limit) (hot_result_key l)).0 same in
              let b_is =
                value_at-put (hot_result_key limit) b ttl kv c (
                  ap (λ k. value_at k (put_value (hot_result_key limit) b ttl kv)) key_is
                  ∙ found) in
              same_likes-unliked (with_liked items (λ _. false)) read
                (reads_back (with_liked items (λ _. false)) read b e
                  (ap json.unmarshal b_is ∙ decoded))
                (unliked-All items)
          | inr other ↦
              h l c read
                (sym (
                    value_at-put_other (hot_result_key l) (hot_result_key limit) b ttl kv
                      (λ same. clash (hot_result_key l) (rw same at other)))
                  ∙ found)
                decoded
        ]
      where
        clash : (k : Bytes) → bytes_eq k k ≡ false → ⊥
        clash k e = absurd (cc (e, bytes_eq_refl k))

  module _ (reads_back : KeepsLikes json) {r : Redis} (laws : RedisLaws r) (sql : Sql)
      (format : ℤ → Bytes) where
    abbrev Clean : World → Type 0
    Clean w = Impersonal w.kv

    set-Impersonal :
        (limit : ℤ) (items : List PostView) (kv : Kv)
        → Impersonal kv
        → Impersonal
            (set_json r json
              (hot_result_key limit)
              (some (with_liked items (λ _. false)))
              minute
              kv).1
    unfolding set_json
    set-Impersonal limit items kv h =
        go (Option-cases (json.marshal (some (with_liked items (λ _. false)))))
      where
        go :
            ((json.marshal (some (with_liked items (λ _. false))) ≡ none)
              ⊎ ((b : Bytes) × (json.marshal (some (with_liked items (λ _. false))) ≡ some b)))
            → Impersonal
                (set_marshalled r
                  (hot_result_key limit)
                  minute
                  (json.marshal (some (with_liked items (λ _. false))))
                  kv).1
        go (inl failed) = rw failed h
        go (inr (b, e)) = rw e (elim (laws.set_law (hot_result_key limit) b minute kv) [
          | inl done ↦ rw done (put-Impersonal reads_back limit items b minute kv e h)
          | inr (x, failed) ↦ rw failed h
        ])

    get_json-kv : (key : Bytes) (kv : Kv) → (get_json r json key kv).1 ≡ kv
    unfolding get_json
    get_json-kv key kv = elim (laws.get_law key kv) [
      | inr (x, failed) ↦ rw failed refl
      | inl done ↦ elim (Option-cases (value_at key kv)) [
        | inl miss ↦ rw (done, miss) refl
        | inr (b, hit) ↦ elim (Option-cases (json.unmarshal b)) [
          | inl bad ↦ rw (done, hit, bad) refl
          | inr (a, good) ↦ rw (done, hit, good) refl
        ]
      ]
    ]

    zrevrange-kv : (key : Bytes) (kv : Kv) → (r.zrevrange key kv).1 ≡ kv
    zrevrange-kv key kv = elim (laws.zrevrange_law key kv) [
      | inl done ↦ ap (λ x. x.1) done
      | inr (x, failed) ↦ ap (λ x. x.1) failed
    ]

    collect-kv :
        (n i : ℕ) (now : ℤ) (acc : List HotItem) (kv : Kv)
        → (collect r format n i now acc kv).1 ≡ kv
    unfolding collect
    collect-kv zero i now acc kv = refl
    collect-kv (suc n) i now acc kv =
        collect-kv n (i + 1) now _ _
        ∙ zrevrange-kv (hot_bucket format (now +ℤ sub_ℕ 0 (i * 60_000_000_000))) kv

    hot_top_n-kv : (n limit : ℕ) (kv : Kv) → (hot_top_n r format n limit kv).1 ≡ kv
    unfolding hot_top_n
    hot_top_n-kv n limit kv =
        then_run-state (λ s. s ≡ kv) (collect r format n 0 kv.now [] kv) _
          (collect-kv n 0 kv.now [] kv) (λ acc s e. e)

    fill_liked-Clean :
        (vs : List PostView) (viewer : ℤ) (w : World)
        → Clean w
        → Clean (fill_liked sql vs viewer w).1
    unfolding fill_liked
    fill_liked-Clean [] viewer w h = h
    fill_liked-Clean (v ∷ vs) viewer w h = elim (Bool-cases (ltb_ℤ (pos 0) viewer)) [
      | inr nobody ↦ rw nobody h
      | inl known ↦ rw known (
          then_run-state Clean (in_db (liked_post_ids sql viewer (map (λ x. x.id) (v ∷ vs))) w) _ h
            (λ liked s p. p))
    ]

    hot_views-Clean : (items : List HotItem) (w : World) → Clean w → Clean (hot_views sql items w).1
    unfolding hot_views
    hot_views-Clean [] w h = h
    hot_views-Clean (it ∷ items) w h =
        then_run-state Clean (or_else none (in_db (get_by_id sql it.post_id)) w)
          (shown_before sql (hot_views sql items)) h (shown (λ s. hot_views-Clean items s))
      where
        shown :
            ((s : World) → Clean s → Clean (hot_views sql items s).1)
            → (p : Option Post) (s : World) → Clean s
            → Clean (shown_before sql (hot_views sql items) p s).1
        shown ih none s hs = ih s hs
        shown ih (some p) s hs =
            then_run-state Clean (in_db (get_user sql p.user_id) s) _ hs (λ author t ht.
              then_run-state Clean (hot_views sql items t) _ (ih t ht) (λ views u hu. hu))

    load_hot-Clean :
        (limit : ℕ) (viewer : ℤ) (w : World)
        → Clean w
        → Clean (load_hot sql format json (some r) limit viewer w).1
    unfolding load_hot
    load_hot-Clean limit viewer w h =
        then_run-state Clean (in_kv (hot_top_n r format 60 limit) w) _
          (rw (hot_top_n-kv 60 limit w.kv) h)
          (λ ranked s hs.
            then_run-state Clean (hot_views sql ranked s) _ (hot_views-Clean ranked s hs)
              (λ views t ht.
                then_run-state Clean (fill_liked sql views viewer t) _
                  (fill_liked-Clean views viewer t ht) (λ items u hu. hu)))

    load_and_cache-Clean :
        (limit : ℕ) (viewer : ℤ) (w : World)
        → Clean w
        → Clean (load_and_cache sql format json r (hot_result_key (pos limit)) limit viewer w).1
    load_and_cache-Clean limit viewer w h =
        then_run-state Clean (load_hot sql format json (some r) limit viewer w) _
          (load_hot-Clean limit viewer w h)
          (λ page s hs. set-Impersonal (pos limit) page.items s.kv hs)

    cached_or_load-Clean :
        (limit : ℕ) (viewer : ℤ) (hit : Option (Option (List PostView))) (w : World)
        → Clean w
        → Clean (cached_or_load sql format json r limit viewer hit w).1
    cached_or_load-Clean limit viewer (some (some cached)) w h =
        then_run-state Clean (fill_liked sql cached viewer w) _ (fill_liked-Clean cached viewer w h)
          (λ items s hs. hs)
    cached_or_load-Clean limit viewer (some none) w h = load_and_cache-Clean limit viewer w h
    cached_or_load-Clean limit viewer none w h = load_and_cache-Clean limit viewer w h

    -- With a Redis whose commands fail or do what they document: whoever asks for the ranking, with any limit, no
    -- ranking in the cache holds a post as liked, when none did before.
    pub list_hot-Impersonal :
        (viewer limit : ℤ) (w : World)
        → Impersonal w.kv
        → Impersonal (list_hot sql format json (some r) viewer limit w).1.kv
    unfolding list_hot
    list_hot-Impersonal viewer limit w h =
        then_run-state Clean
          (or_else none (in_kv (get_json r json (hot_result_key (pos (clamp_limit limit))))) w)
          (cached_or_load sql format json r (clamp_limit limit) viewer)
          (rw (get_json-kv (hot_result_key (pos (clamp_limit limit))) w.kv) h)
          (λ hit s hs. cached_or_load-Clean (clamp_limit limit) viewer hit s hs)
