-- ===== src/Cache/Reads.antt =====
-- What GET finds after SET and DEL, and a Redis that always answers.
use pluto_feed.Prelude.{
  ◌≡◌, ◌≢◌, inl, inr, refl, false, none, List, [], ◌∷◌, Bytes, bytes_eq, bytes_eq_iff, Bool-cases,
}
use pluto_feed.Prelude.Int.{ℤ}
use pluto_feed.Apierror.{ok}
use pluto_feed.Cache.{Kv, Redis, lookup_key, drop_key, value_at, put_value, drop_keys}

pub record Answers (r : Redis) : Type 0 where
  pub get_answer : (k : Bytes) (kv : Kv) → r.get k kv ≡ (ok (value_at k kv), kv)
  pub set_answer :
      (k v : Bytes) (ttl : ℤ) (kv : Kv) → r.set k v ttl kv ≡ (ok tt, put_value k v ttl kv)
  pub del_answer : (ks : List Bytes) (kv : Kv) → r.del ks kv ≡ (ok tt, drop_keys ks kv)

pub bytes_eq-false : (s t : Bytes) → s ≢ t → bytes_eq s t ≡ false
bytes_eq-false s t h = elim (Bool-cases (bytes_eq s t)) [
  | inl same ↦ absurd (h ((bytes_eq_iff s t).0 same))
  | inr other ↦ other
]

module _ {V : Type 0} where
  pub lookup-drop_same : (k : Bytes) (l : List (Bytes × V)) → lookup_key k (drop_key k l) ≡ none
  unfolding lookup_key drop_key
  lookup-drop_same k [] = refl
  lookup-drop_same k ((j, v) ∷ l) = elim (Bool-cases (bytes_eq j k)) [
    | inl same ↦ rw same (lookup-drop_same k l)
    | inr other ↦ rw (other, other) (lookup-drop_same k l)
  ]

  pub lookup-drop_other :
      (k d : Bytes) (l : List (Bytes × V)) → d ≢ k → lookup_key k (drop_key d l) ≡ lookup_key k l
  unfolding lookup_key drop_key
  lookup-drop_other k d [] h = refl
  lookup-drop_other k d ((j, v) ∷ l) h = elim (Bool-cases (bytes_eq j d)) [
    | inr other ↦ rw (other, lookup-drop_other k d l h) refl
    | inl same ↦
        let apart : bytes_eq j k ≡ false = rw ((bytes_eq_iff j d).0 same) (bytes_eq-false d k h) in
        rw (same, apart) (lookup-drop_other k d l h)
  ]

pub value_at-drop : (k : Bytes) (kv : Kv) → value_at k (drop_keys (k ∷ []) kv) ≡ none
unfolding value_at drop_keys
value_at-drop k kv = rw (lookup-drop_same k kv.strings) refl

-- Another key's value is as it was.
pub value_at-put_other :
    (k j v : Bytes) (ttl : ℤ) (kv : Kv) → j ≢ k → value_at k (put_value j v ttl kv) ≡ value_at k kv
unfolding value_at put_value lookup_key
value_at-put_other k j v ttl kv h =
    rw (bytes_eq-false j k h, lookup-drop_other k j kv.strings h) refl

-- Dropping a key brings no value back.
pub value_at-drop_none :
    (k d : Bytes) (kv : Kv) → value_at k kv ≡ none → value_at k (drop_keys (d ∷ []) kv) ≡ none
unfolding value_at drop_keys
value_at-drop_none k d kv gone = elim (Bool-cases (bytes_eq d k)) [
  | inl same ↦ rw ((bytes_eq_iff d k).0 same, lookup-drop_same k kv.strings) refl
  | inr other ↦ rw (lookup-drop_other k d kv.strings (apart other)) gone
]
  where
    apart : bytes_eq d k ≡ false → d ≢ k
    apart o e = absurd (cc (o, (bytes_eq_iff d k).1 e))
