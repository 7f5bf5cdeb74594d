-- ===== src/Cache.antt =====
-- internal/cache/cache.go: the cache store over the Redis service. Redis is a parameter: each command
-- fails, or does what `RedisLaws` documents of it to the keys. Scores of the hot ranking are sums of
-- the weights 1 and 2, so they are kept as integers.
pub mod Keys
pub mod Reads
pub mod Ranking
use pluto_feed.Prelude.{
  ℕ, zero, suc, ◌+◌, ◌*◌, ◌≡◌, ◌⊎◌, Bool, true, false, not, ◌&&◌, Option, none, some, List, [], ◌∷◌,
  ◌++◌, map, arith, if◌then◌else◌, Bytes, bytes_eq, codes, select, find, any, take,
}
use pluto_feed.Prelude.Int.{ℤ, pos, sub_ℕ, ◌+ℤ◌, ltb_ℤ, eqb_ℤ}
use pluto_feed.Prelude.Decimal.{format_int, parse_int}
use pluto_feed.Apierror.{Error, other, Result, ok, err, Act, then_run, ◌>>=◌, ◌>>◌, pure, raise}
use pluto_feed.Outcome.{Meets}

-- A string key with the time at which it expires, and a sorted set.
pub record Entry : Type 0 where
  pub value : Bytes
  pub expires_at : ℤ

pub record Member : Type 0 where
  pub name : Bytes
  pub score : ℤ

pub record Kv : Type 0 where
  pub strings : List (Bytes × Entry)
  pub zsets : List (Bytes × List Member)
  pub now : ℤ

unfoldable pub lookup_key {ℓ} : {V : Type ℓ} → Bytes → List (Bytes × V) → Option V
lookup_key k [] = none
lookup_key k ((j, v) ∷ l) = let rest = lookup_key k l in if bytes_eq j k then some v else rest

unfoldable pub drop_key {ℓ} : {V : Type ℓ} → Bytes → List (Bytes × V) → List (Bytes × V)
drop_key k [] = []
drop_key k ((j, v) ∷ l) = let rest = drop_key k l in if bytes_eq j k then rest else (j, v) ∷ rest

abbrev unexpired : ℤ → Option Entry → Option Bytes
unexpired now none = none
unexpired now (some e) = if ltb_ℤ now e.expires_at then some e.value else none

-- GET, SET with a lifetime, and DEL, as Redis documents them.
unfoldable pub value_at : Bytes → Kv → Option Bytes
unfolding lookup_key
value_at k kv = unexpired kv.now (lookup_key k kv.strings)

unfoldable pub put_value : Bytes → Bytes → ℤ → Kv → Kv
unfolding drop_key
put_value k v ttl kv = record kv {
  strings = (k, record { value = v; expires_at = kv.now +ℤ ttl }) ∷ drop_key k kv.strings;
}

unfoldable pub drop_keys : List Bytes → Kv → Kv
unfolding drop_key
drop_keys [] kv = kv
drop_keys (k ∷ ks) kv = drop_keys ks (record kv { strings = drop_key k kv.strings })

abbrev pub members_at : Bytes → Kv → List Member
members_at k kv = elim (lookup_key k kv.zsets) [ none ↦ [] | some ms ↦ ms ]

raise_score : Bytes → ℤ → List Member → List Member
raise_score name incr [] = record { name = name; score = incr } ∷ []
raise_score name incr (m ∷ ms) =
    let rest = raise_score name incr ms in
    if bytes_eq m.name name then record m { score = m.score +ℤ incr } ∷ ms else m ∷ rest

unfoldable pub add_score : Bytes → Bytes → ℤ → Kv → Kv
unfolding raise_score lookup_key drop_key
add_score k name incr kv = record kv {
  zsets = (k, raise_score name incr (members_at k kv)) ∷ drop_key k kv.zsets;
}

pub record Redis : Type 0 where
  pub get : Bytes → Act Kv (Option Bytes)
  pub set : Bytes → Bytes → ℤ → Act Kv (Unit {0})
  pub del : List Bytes → Act Kv (Unit {0})
  pub zincrby : Bytes → ℤ → Bytes → Act Kv (Unit {0})
  pub expire : Bytes → ℤ → Act Kv (Unit {0})
  pub zrevrange : Bytes → Act Kv (List Member)

pub record RedisLaws (r : Redis) : Type 0 where
  pub get_law : (k : Bytes) → Meets (r.get k) (λ kv. (value_at k kv, kv))
  pub set_law : (k v : Bytes) (ttl : ℤ) → Meets (r.set k v ttl) (λ kv. (tt, put_value k v ttl kv))
  pub del_law : (ks : List Bytes) → Meets (r.del ks) (λ kv. (tt, drop_keys ks kv))
  pub zincrby_law :
      (k : Bytes) (incr : ℤ) (name : Bytes)
      → Meets (r.zincrby k incr name) (λ kv. (tt, add_score k name incr kv))
  pub zrevrange_law : (k : Bytes) → Meets (r.zrevrange k) (λ kv. (members_at k kv, kv))

-- `encoding/json` at one type.
pub record Json (A : Type 0) : Type 0 where
  pub marshal : A → Option Bytes
  pub unmarshal : Bytes → Option A

abbrev pub unmarshal_failed : Error
unmarshal_failed = other 10

abbrev pub marshal_failed : Error
marshal_failed = other 11

abbrev pub minute : ℤ
minute = pos 60_000_000_000

abbrev pub bucket_ttl : ℤ
bucket_ttl = pos (11 * 60_000_000_000)

module _ (r : Redis) where
  abbrev pub set_marshalled : Bytes → ℤ → Option Bytes → Act Kv (Unit {0})
  set_marshalled key ttl none = raise marshal_failed
  set_marshalled key ttl (some b) = r.set key b ttl

  module _ {A : Type 0} (json : Json A) where
    abbrev unmarshalled : Option A → Act Kv (Option A)
    unmarshalled none = raise unmarshal_failed
    unmarshalled (some a) = pure (some a)

    decode : Option Bytes → Act Kv (Option A)
    decode none = pure none
    decode (some b) = unmarshalled (json.unmarshal b)

    -- `none` is a miss; Go's pair (found, dest).
    unfoldable pub get_json : Bytes → Act Kv (Option A)
    unfolding decode
    get_json key = do b ← r.get key; decode b

    unfoldable pub set_json : Bytes → A → ℤ → Act Kv (Unit {0})
    set_json key val ttl = set_marshalled key ttl (json.marshal val)

  unfoldable pub del : List Bytes → Act Kv (Unit {0})
  del [] = pure tt
  del (k ∷ ks) = r.del (k ∷ ks)

  unfoldable pub z_incr_by : Bytes → Bytes → ℤ → Act Kv (Unit {0})
  z_incr_by key member incr = do r.zincrby key incr member; r.expire key bucket_ttl

pub record HotItem : Type 0 where
  pub post_id : ℤ
  pub score : ℤ

-- `acc[id] += score`, for a map as an association list.
unfoldable pub accumulate : ℤ → ℤ → List HotItem → List HotItem
accumulate id score [] = record { post_id = id; score = score } ∷ []
accumulate id score (x ∷ xs) =
    let rest = accumulate id score xs in
    if eqb_ℤ x.post_id id then record x { score = x.score +ℤ score } ∷ xs else x ∷ rest

-- The inner loop of `HotTopN`: a member that is no number is skipped.
unfoldable pub merge_members : List Member → List HotItem → List HotItem
merge_members [] acc = acc
merge_members (m ∷ ms) acc =
    merge_members ms (elim (parse_int m.name) [ none ↦ acc | some id ↦ accumulate id m.score acc ])

-- Score descending, then id descending.
unfoldable pub hotter : HotItem → HotItem → Bool
hotter a b =
    if not (eqb_ℤ a.score b.score) then ltb_ℤ b.score a.score else ltb_ℤ b.post_id a.post_id

unfoldable pub insert_hot : HotItem → List HotItem → List HotItem
insert_hot x [] = x ∷ []
insert_hot x (y ∷ ys) = let rest = insert_hot x ys in if hotter x y then x ∷ y ∷ ys else y ∷ rest

-- `sort.Slice` with that order.
unfoldable pub sort_hot : List HotItem → List HotItem
sort_hot [] = []
sort_hot (x ∷ xs) = insert_hot x (sort_hot xs)

-- `t.Format("200601021504")`, the local time by minutes, is a parameter.
abbrev pub hot_bucket : (ℤ → Bytes) → ℤ → Bytes
hot_bucket format t = codes "hot:" ++ format t

module _ (r : Redis) (format : ℤ → Bytes) where
  -- One bucket: a failed read is skipped.
  abbrev merge_bucket : List HotItem → Result (List Member) → List HotItem
  merge_bucket acc (ok members) = merge_members members acc
  merge_bucket acc (err e) = acc

  -- The buckets of the `n` minutes from `i` minutes ago on.
  unfoldable pub collect : ℕ → ℕ → ℤ → List HotItem → Act Kv (List HotItem)
  collect zero i now acc kv = (ok acc, kv)
  collect (suc n) i now acc kv =
      let (members, kv') =
        r.zrevrange (hot_bucket format (now +ℤ sub_ℕ 0 (i * 60_000_000_000))) kv in
      collect n (i + 1) now (merge_bucket acc members) kv'

  unfoldable pub hot_top_n : ℕ → ℕ → Act Kv (List HotItem)
  unfolding collect
  hot_top_n window_minutes limit kv =
      then_run (collect window_minutes 0 kv.now [] kv) (λ acc. pure (take limit (sort_hot acc)))
