-- ===== src/Service/Auth/Rotation.antt =====
-- A refresh token is good for one refresh: rotation and logout in internal/service/auth_service.go.
pub mod Later
use pluto_feed.Prelude.{
  ◌||◌, bytes_eq, Option-cases, ◌≡◌, ◌≢◌, ◌⊎◌, inl, inr, refl, sym, ap, ◌∙◌, Option, none, some, [],
  ◌∷◌, Bytes, Bool-cases,
}
use pluto_feed.Prelude.Int.{ℤ, eqb_ℤ}
use pluto_feed.Apierror.{unauthorized, Result, ok, err, then_run, ◌>>◌, pure}
use pluto_feed.Model.{User}
use pluto_feed.Db.{Db}
use pluto_feed.Sql.{Sql}
use pluto_feed.Repository.User.{get_by_nickname}
use pluto_feed.Cache.{Redis, Json, get_json, set_json, set_marshalled, del, value_at}
use pluto_feed.Cache.Reads.{Answers, value_at-drop, value_at-put_other, value_at-drop_none}
use pluto_feed.World.{World}
use pluto_feed.Jwtutil.{Jwt, Manager, parse, typ_refresh}
use pluto_feed.Service.Auth.{
  TokenPair, Bcrypt, Moment, session_gone, refresh_key, register_refresh, revoke_refresh,
  whitelist_uid, refresh, refresh_as, swap, rotate_if, tokens_for, logout, login, login_as,
}

-- The answers to a token that is spent.
abbrev pub Rejected : Result TokenPair → Type 0
Rejected r = (r ≡ err session_gone) ⊎ (r ≡ err unauthorized)

module _ (digest : Bytes → Bytes) (json : Json ℤ) {r : Redis} (answers : Answers r) where
  abbrev pub Spent : Bytes → World → Type 0
  Spent token w = value_at (refresh_key digest token) w.kv ≡ none

  whitelist_miss :
      (token : Bytes) (uid : ℤ) (w : World)
      → Spent token w
      → whitelist_uid digest json (some r) token uid w ≡ (ok none, w)
  unfolding whitelist_uid get_json
  whitelist_miss token uid w gone =
      rw (answers.get_answer (refresh_key digest token) w.kv, gone) refl

  revoke-Spent :
      (token : Bytes) (w : World) → Spent token (revoke_refresh digest json (some r) token w).1
  unfolding revoke_refresh del
  revoke-Spent token w =
      rw (answers.del_answer (refresh_key digest token ∷ []) w.kv)
        (value_at-drop (refresh_key digest token) w.kv)

  pub register-Spent :
      (ttl : ℤ) (token new : Bytes) (uid : ℤ) (w : World)
      → refresh_key digest new ≢ refresh_key digest token
      → Spent token w
      → Spent token (register_refresh digest json (some r) ttl new uid w).1
  unfolding register_refresh set_json
  register-Spent ttl token new uid w apart gone = go (json.marshal uid)
    where
      go :
          (b : Option Bytes)
          → value_at
              (refresh_key digest token)
              (set_marshalled r (refresh_key digest new) ttl b w.kv).1
            ≡ none
      go none = gone
      go (some b) = rw (answers.set_answer (refresh_key digest new) b ttl w.kv) (
          value_at-put_other (refresh_key digest token) (refresh_key digest new) b ttl w.kv apart
          ∙ gone)

  module _ (sql : Sql) (bcrypt : Bcrypt) (jwt : Jwt) (m : Manager) where
    pub refresh-Rejected :
        (at : Moment) (token : Bytes) (w : World)
        → Spent token w
        → Rejected (refresh digest json (some r) sql bcrypt jwt m at token w).0
    unfolding refresh
    refresh-Rejected at token w gone = go (parse jwt m at.now token typ_refresh)
      where
        go :
            (p : Result ℤ)
            → Rejected (refresh_as digest json (some r) sql bcrypt jwt m at token p w).0
        go (err e) = inr refl
        go (ok uid) = rw (whitelist_miss token uid w gone) (inl refl)

    -- After a logout, the token is refused, with Redis answering each command.
    pub refresh-logout :
        (at : Moment) (token : Bytes) (w : World)
        → Rejected
            (refresh digest json
              (some r)
              sql
              bcrypt
              jwt
              m
              at
              token
              (logout digest json (some r) sql bcrypt jwt m token w).1).0
    unfolding logout
    refresh-logout at token w =
        refresh-Rejected at token (revoke_refresh digest json (some r) token w).1
          (revoke-Spent token w)

    swap-Spent :
        (token : Bytes) (uid : ℤ) (t : Result TokenPair) (w : World) (pair : TokenPair)
        → (swap digest json (some r) sql bcrypt jwt m token uid t w).0 ≡ ok pair
        → refresh_key digest pair.refresh_token ≢ refresh_key digest token
        → Spent token (swap digest json (some r) sql bcrypt jwt m token uid t w).1
    unfolding revoke_refresh register_refresh
    swap-Spent token uid (err e) w pair done apart = absurd (cc)
    swap-Spent token uid (ok p) w pair done apart =
        let same : p ≡ pair = cc in
        register-Spent m.refresh_ttl token p.refresh_token uid
          (revoke_refresh digest json (some r) token w).1
          (λ e. apart (sym (ap (λ t. refresh_key digest t.refresh_token) same) ∙ e))
          (revoke-Spent token w)

    rotate_if-Spent :
        (at : Moment) (token : Bytes) (uid : ℤ) (stored : Option ℤ) (w : World) (pair : TokenPair)
        → (rotate_if digest json (some r) sql bcrypt jwt m at token uid stored w).0 ≡ ok pair
        → refresh_key digest pair.refresh_token ≢ refresh_key digest token
        → Spent token (rotate_if digest json (some r) sql bcrypt jwt m at token uid stored w).1
    rotate_if-Spent at token uid none w pair done apart = absurd (cc)
    rotate_if-Spent at token uid (some stored) w pair done apart =
        elim (Bool-cases (eqb_ℤ stored uid)) [
          | inl same ↦ rw same (
              swap-Spent token uid (tokens_for digest json (some r) sql bcrypt jwt m at uid) w pair
                (rw same at done) apart)
          | inr other ↦ absurd (refused (rw other at done))
        ]
      where
        refused : err session_gone ≡ ok pair → ⊥
        refused e = absurd (cc)

    pub refresh-Spent :
        (at : Moment) (token : Bytes) (w : World) (pair : TokenPair)
        → (refresh digest json (some r) sql bcrypt jwt m at token w).0 ≡ ok pair
        → refresh_key digest pair.refresh_token ≢ refresh_key digest token
        → Spent token (refresh digest json (some r) sql bcrypt jwt m at token w).1
    unfolding refresh
    refresh-Spent at token w pair = go (parse jwt m at.now token typ_refresh)
      where
        go :
            (p : Result ℤ)
            → (refresh_as digest json (some r) sql bcrypt jwt m at token p w).0 ≡ ok pair
            → refresh_key digest pair.refresh_token ≢ refresh_key digest token
            → Spent token (refresh_as digest json (some r) sql bcrypt jwt m at token p w).1
        go (err e) done apart = absurd (cc)
        go (ok uid) done apart =
            unfold whitelist_uid in rotate_if-Spent at token uid _ _ pair done apart
