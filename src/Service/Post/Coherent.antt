-- ===== src/Service/Post/Coherent.antt =====
-- A cache that agrees with the tables on posts and their authors, and what reading and writing it does.
use pluto_feed.Prelude.{
  ◌≡◌, ◌≢◌, ◌⊎◌, inl, inr, refl, sym, ap, ◌∙◌, Bool, true, false, Bool-cases, Option, none, some,
  Option-cases, All, is_utf8, [], ◌∷◌, Bytes, bytes_eq, bytes_eq_iff, bytes_eq_refl, if◌then◌else◌,
}
use mathlib.Core.Path.{subst}
use pluto_feed.Prelude.Int.{ℤ, ltb_ℤ, ◌+ℤ◌}
use pluto_feed.Prelude.Decimal.{InInt64, parse_int, parse_int-format}
use pluto_feed.Apierror.{Result, ok}
use pluto_feed.Model
use pluto_feed.Model.{User}
use pluto_feed.Db.{Db, find_post, find_user}
use pluto_feed.Cache.{
  Kv, Redis, RedisLaws, Json, value_at, put_value, lookup_key, get_json, set_json,
}
use pluto_feed.Cache.Keys.{post_key, user_key}
use pluto_feed.Cache.Reads.{value_at-put_other}
use pluto_feed.World.{World}
use pluto_feed.Service.Post.{Envelope, envelope_of, lookup, store}

-- A codec reads back what it writes of good values, less what JSON leaves out.
abbrev pub ReadsBack : {A : Type 0} → Json A → (A → Type 0) → (A → A) → Type 0
ReadsBack {A} json Good kept =
    (a : A) (b : Bytes) → Good a → json.marshal a ≡ some b → json.unmarshal b ≡ some (kept a)

-- The fields with the tag `json:"-"` are read as Go's zero values.
abbrev pub kept_post : Model.Post → Model.Post
kept_post p = record p { deleted_at = none }

abbrev pub kept_user : User → User
kept_user u = record u { password_hash = [] }

abbrev kept_value : {A : Type 0} → (A → A) → Option A → Option A
kept_value kept none = none
kept_value kept (some a) = some (kept a)

abbrev pub kept_envelope : {A : Type 0} → (A → A) → Envelope A → Envelope A
kept_envelope kept e = record { found = e.found; value = kept_value kept e.value }

-- The texts of a row are UTF-8, as those of the tables' character set are.
abbrev IsText : Bytes → Type 0
IsText s = is_utf8 s ≡ true

abbrev pub PostTexts : Option Model.Post → Type 0
PostTexts none = Unit
PostTexts (some p) = IsText p.content × All IsText p.image_urls × All IsText p.tags

abbrev pub UserTexts : Option User → Type 0
UserTexts none = Unit
UserTexts (some u) = IsText u.nickname × IsText u.avatar_url × IsText u.bio

abbrev pub PostsBack : Json (Envelope Model.Post) → Type 0
PostsBack json = ReadsBack json (λ e. PostTexts e.value) (kept_envelope kept_post)

abbrev pub UsersBack : Json (Envelope User) → Type 0
UsersBack json = ReadsBack json (λ e. UserTexts e.value) (kept_envelope kept_user)

-- What is cached at a key is read as this value.
abbrev pub HoldsAt : {A : Type 0} → Json A → Bytes → A → Kv → Type 0
HoldsAt json k a kv = (b : Bytes) → value_at k kv ≡ some b → json.unmarshal b ≡ some a

-- No cache, or one whose commands fail or do what they document.
abbrev pub CacheLaws : Option Redis → Type 0
CacheLaws none = Unit {0}
CacheLaws (some r) = RedisLaws r

post_key-eq : (a b : ℤ) → InInt64 a → InInt64 b → post_key a ≡ post_key b → a ≡ b
unfolding post_key
post_key-eq a b ha hb e =
    some_same (cc (parse_int-format a ha, parse_int-format b hb, ap parse_int (same_tail e)))
  where
    some_same : some a ≡ some b → a ≡ b
    some_same h = cc

    same_tail :
        {s t : Bytes}
        → b'p' ∷ b'o' ∷ b's' ∷ b't' ∷ b':' ∷ s ≡ b'p' ∷ b'o' ∷ b's' ∷ b't' ∷ b':' ∷ t
        → s ≡ t
    same_tail h = cc

user_key-eq : (a b : ℤ) → InInt64 a → InInt64 b → user_key a ≡ user_key b → a ≡ b
unfolding user_key
user_key-eq a b ha hb e =
    some_same (cc (parse_int-format a ha, parse_int-format b hb, ap parse_int (same_tail e)))
  where
    some_same : some a ≡ some b → a ≡ b
    some_same h = cc

    same_tail :
        {s t : Bytes}
        → b'u' ∷ b's' ∷ b'e' ∷ b'r' ∷ b':' ∷ s ≡ b'u' ∷ b's' ∷ b'e' ∷ b'r' ∷ b':' ∷ t
        → s ≡ t
    same_tail h = cc

post_key-ne-user_key : (a b : ℤ) → post_key a ≢ user_key b
unfolding post_key user_key bytes_eq
post_key-ne-user_key a b e = apart (ap (λ t. bytes_eq_head t) e)
  where
    bytes_eq_head : Bytes → Bool
    bytes_eq_head [] = false
    bytes_eq_head (c ∷ cs) = bytes_eq (c ∷ []) (b'p' ∷ [])

    apart : true ≡ false → ⊥
    apart h = absurd (cc)

-- A key that was set holds its value or nothing.
pub value_at-put :
    (k v : Bytes) (ttl : ℤ) (kv : Kv) (b : Bytes)
    → value_at k (put_value k v ttl kv) ≡ some b
    → v ≡ b
unfolding value_at put_value lookup_key
value_at-put k v ttl kv b e = go (ltb_ℤ kv.now (kv.now +ℤ ttl)) (rw (bytes_eq_refl k) at e)
  where
    go : (live : Bool) → (if live then some v else none) ≡ some b → v ≡ b
    go true h = cc
    go false h = absurd (cc)

abbrev pub InjectiveKey : (ℤ → Bytes) → Type 0
InjectiveKey key = (a b : ℤ) → InInt64 a → InInt64 b → key a ≡ key b → a ≡ b

clash : (k : Bytes) → bytes_eq k k ≡ false → ⊥
clash k h = absurd (cc (h, bytes_eq_refl k))

-- A value for each id, cached at the id's key.
module _ {A : Type 0} (json : Json A) {Good : A → Type 0} {kept : A → A}
    (reads_back : ReadsBack json Good kept) (key : ℤ → Bytes) (value : ℤ → A) where
  abbrev pub AllHold : Kv → Type 0
  AllHold kv = (id : ℤ) → InInt64 id → HoldsAt json (key id) (kept (value id)) kv

  put_other-AllHold :
      (k b : Bytes) (ttl : ℤ) (kv : Kv)
      → ((id : ℤ) → k ≢ key id)
      → AllHold kv
      → AllHold (put_value k b ttl kv)
  put_other-AllHold k b ttl kv apart h id small c found =
      h id small c (sym (value_at-put_other (key id) k b ttl kv (apart id)) ∙ found)

  put-AllHold :
      (injective : InjectiveKey key) (id : ℤ) (b : Bytes) (ttl : ℤ) (kv : Kv)
      → InInt64 id
      → Good (value id)
      → json.marshal (value id) ≡ some b
      → AllHold kv
      → AllHold (put_value (key id) b ttl kv)
  put-AllHold injective id b ttl kv small good e h i small_i c found =
      elim (Bool-cases (bytes_eq (key id) (key i))) [
        | inl same ↦
            let key_is = (bytes_eq_iff (key id) (key i)).0 same in
            let id_is = injective id i small small_i key_is in
            let b_is =
              value_at-put (key id) b ttl kv c
                (ap (λ k. value_at k (put_value (key id) b ttl kv)) key_is ∙ found) in
            subst (λ x. json.unmarshal c ≡ some (kept (value x))) id_is
              (ap json.unmarshal (sym b_is) ∙ reads_back (value id) b good e)
        | inr other ↦ h i small_i c (
            sym (
              value_at-put_other (key i) (key id) b ttl kv
                (λ same. clash (key i) (rw same at other)))
            ∙ found)
      ]

module _ {post_json : Json (Envelope Model.Post)} {user_json : Json (Envelope User)}
    (posts_back : PostsBack post_json) (users_back : UsersBack user_json) where
  -- Every cached post and user is the one of the tables, less what JSON leaves out, or its absence; and the
  -- rows have UTF-8 texts.
  abbrev pub Coherent : Db → Kv → Type 0
  Coherent db kv =
      AllHold post_json posts_back post_key (λ id. envelope_of (find_post id db)) kv
      × AllHold user_json users_back user_key (λ id. envelope_of (find_user id db)) kv
      × ((id : ℤ) → PostTexts (envelope_of (find_post id db)).value)
      × ((id : ℤ) → UserTexts (envelope_of (find_user id db)).value)

  pub put_post-Coherent :
      (id : ℤ) (b : Bytes) (ttl : ℤ) (db : Db) (kv : Kv)
      → InInt64 id
      → post_json.marshal (envelope_of (find_post id db)) ≡ some b
      → Coherent db kv
      → Coherent db (put_value (post_key id) b ttl kv)
  put_post-Coherent id b ttl db kv small e (posts, users, texts, names) = (
    put-AllHold post_json posts_back post_key (λ i. envelope_of (find_post i db)) post_key-eq id b
        ttl kv small (texts id) e posts,
    put_other-AllHold user_json users_back user_key (λ i. envelope_of (find_user i db))
        (post_key id) b ttl kv (λ i. post_key-ne-user_key id i) users,
    texts,
    names,
  )

  pub put_user-Coherent :
      (id : ℤ) (b : Bytes) (ttl : ℤ) (db : Db) (kv : Kv)
      → InInt64 id
      → user_json.marshal (envelope_of (find_user id db)) ≡ some b
      → Coherent db kv
      → Coherent db (put_value (user_key id) b ttl kv)
  put_user-Coherent id b ttl db kv small e (posts, users, texts, names) = (
    put_other-AllHold post_json posts_back post_key (λ i. envelope_of (find_post i db))
        (user_key id) b ttl kv (λ i same. post_key-ne-user_key i id (sym same)) posts,
    put-AllHold user_json users_back user_key (λ i. envelope_of (find_user i db)) user_key-eq id b
        ttl kv small (names id) e users,
    texts,
    names,
  )

  -- A write to the cache that ends in an agreeing cache, whether it works or not.
  abbrev pub Stores : World → Result (Unit {0}) × World → Type 0
  Stores w r = (kv : Kv) × (r ≡ (ok tt, record w { kv = kv })) × Coherent w.db kv

module _ {A : Type 0} (json : Json A) where
  -- What a store leaves: the cache as it was, or with the value at the key.
  pub store-cases :
      (cache : Option Redis) (laws : CacheLaws cache) (k : Bytes) (a : A) (ttl : ℤ) (w : World)
      → (store json cache k a ttl w ≡ (ok tt, w))
        ⊎ ((b : Bytes) × (json.marshal a ≡ some b)
            × (store json cache k a ttl w ≡ (ok tt, record w { kv = put_value k b ttl w.kv })))
  unfolding set_json
  store-cases none laws k a ttl w = inl refl
  store-cases (some r) laws k a ttl w = elim (Option-cases (json.marshal a)) [
    | inl failed ↦ inl (rw failed refl)
    | inr (b, e) ↦ elim (laws.set_law k b ttl w.kv) [
      | inl done ↦ inr (b, e, rw (e, done) refl)
      | inr (x, failed) ↦ inl (rw (e, failed) refl)
    ]
  ]

  pub lookup-cases :
      (cache : Option Redis) (laws : CacheLaws cache) (k : Bytes) (a : A) (w : World)
      → HoldsAt json k a w.kv
      → (lookup json cache k w ≡ (ok none, w)) ⊎ (lookup json cache k w ≡ (ok (some a), w))
  unfolding get_json
  lookup-cases none laws k a w h = inl refl
  lookup-cases (some r) laws k a w h = elim (laws.get_law k w.kv) [
    | inr (x, failed) ↦ inl (rw failed refl)
    | inl done ↦ elim (Option-cases (value_at k w.kv)) [
      | inl miss ↦ inl (rw (done, miss) refl)
      | inr (b, hit) ↦ inr (rw (done, hit, h b hit) refl)
    ]
  ]
