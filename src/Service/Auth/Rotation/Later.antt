-- ===== src/Service/Auth/Rotation/Later.antt =====
-- A refresh token that was refreshed, and the logins, refreshes and logouts after it: internal/service/auth_service.go.
use pluto_feed.Prelude.{
  ◌||◌, bytes_eq, Option-cases, ◌≡◌, ◌≢◌, inl, inr, refl, ◌∙◌, Option, none, some, [], ◌∷◌, Bytes,
  Bool-cases,
}
use pluto_feed.Prelude.Int.{ℤ, eqb_ℤ}
use pluto_feed.Apierror.{Result, ok, err, then_run, ◌>>◌, pure}
use pluto_feed.Model.{User}
use pluto_feed.Db.{Db}
use pluto_feed.Sql.{Sql}
use pluto_feed.Repository.User.{get_by_nickname}
use pluto_feed.Cache.{Redis, Json, get_json, del, value_at}
use pluto_feed.Cache.Reads.{Answers, value_at-drop_none}
use pluto_feed.World.{World}
use pluto_feed.Jwtutil.{Jwt, Manager, parse, typ_refresh}
use pluto_feed.Service.Auth.{
  TokenPair, Bcrypt, Moment, refresh_key, register_refresh, revoke_refresh, whitelist_uid, refresh,
  refresh_as, swap, rotate_if, tokens_for, logout, login, login_as,
}
use pluto_feed.Service.Auth.Rotation.{
  Rejected, Spent, register-Spent, refresh-Rejected, refresh-Spent,
}

module _ (digest : Bytes → Bytes) (json : Json ℤ) {r : Redis} (answers : Answers r) (sql : Sql)
    (bcrypt : Bcrypt) (jwt : Jwt) (m : Manager) where
  revoke-keeps :
      (other token : Bytes) (w : World)
      → Spent digest json answers token w
      → Spent digest json answers token (revoke_refresh digest json (some r) other w).1
  unfolding revoke_refresh del
  revoke-keeps other token w gone =
      rw (answers.del_answer (refresh_key digest other ∷ []) w.kv)
        (value_at-drop_none (refresh_key digest token) (refresh_key digest other) w.kv gone)

  -- A call issues no token with the digest of this one.
  abbrev pub Apart : Bytes → Result TokenPair → Type 0
  Apart token r =
      (pair : TokenPair)
      → r ≡ ok pair
      → refresh_key digest pair.refresh_token ≢ refresh_key digest token

  swap-keeps :
      (other token : Bytes) (uid : ℤ) (t : Result TokenPair) (w : World)
      → Apart token (swap digest json (some r) sql bcrypt jwt m other uid t w).0
      → Spent digest json answers token w
      → Spent digest json answers token (swap digest json (some r) sql bcrypt jwt m other uid t w).1
  unfolding revoke_refresh register_refresh
  swap-keeps other token uid (err e) w apart gone = gone
  swap-keeps other token uid (ok p) w apart gone =
      register-Spent digest json answers m.refresh_ttl token p.refresh_token uid
        (revoke_refresh digest json (some r) other w).1 (apart p refl)
        (revoke-keeps other token w gone)

  rotate_if-keeps :
      (at : Moment) (other token : Bytes) (uid : ℤ) (stored : Option ℤ) (w : World)
      → Apart token (rotate_if digest json (some r) sql bcrypt jwt m at other uid stored w).0
      → Spent digest json answers token w
      → Spent digest json answers token
          (rotate_if digest json (some r) sql bcrypt jwt m at other uid stored w).1
  rotate_if-keeps at other token uid none w apart gone = gone
  rotate_if-keeps at other token uid (some stored) w apart gone =
      elim (Bool-cases (eqb_ℤ stored uid)) [
        | inr no_match ↦ rw no_match gone
        | inl same ↦ rw same (
            swap-keeps other token uid (tokens_for digest json (some r) sql bcrypt jwt m at uid) w
              (rw same at apart) gone)
      ]

  lookup-kv :
      (other : Bytes) (uid : ℤ) (w : World)
      → (v : Option ℤ) × (whitelist_uid digest json (some r) other uid w ≡ (ok v, w))
  unfolding whitelist_uid get_json
  lookup-kv other uid w = elim (Option-cases (value_at (refresh_key digest other) w.kv)) [
    | inl miss ↦ rw (answers.get_answer (refresh_key digest other) w.kv, miss) (none, refl)
    | inr (b, hit) ↦ elim (Option-cases (json.unmarshal b)) [
      | inl bad ↦ rw (answers.get_answer (refresh_key digest other) w.kv, hit, bad) (none, refl)
      | inr (v, good) ↦
          rw (answers.get_answer (refresh_key digest other) w.kv, hit, good) (some v, refl)
    ]
  ]

  refresh-keeps :
      (at : Moment) (other token : Bytes) (w : World)
      → Apart token (refresh digest json (some r) sql bcrypt jwt m at other w).0
      → Spent digest json answers token w
      → Spent digest json answers token (refresh digest json (some r) sql bcrypt jwt m at other w).1
  unfolding refresh
  refresh-keeps at other token w apart gone = go (parse jwt m at.now other typ_refresh) apart
    where
      go :
          (p : Result ℤ)
          → Apart token (refresh_as digest json (some r) sql bcrypt jwt m at other p w).0
          → Spent digest json answers token
              (refresh_as digest json (some r) sql bcrypt jwt m at other p w).1
      go (err e) h = gone
      go (ok uid) h =
          let (v, found) = lookup-kv other uid w in
          rw found (rotate_if-keeps at other token uid v w (rw found at h) gone)

  login_as-keeps :
      (at : Moment) (password token : Bytes) (u : Option User) (w : World)
      → Apart token (login_as digest json (some r) sql bcrypt jwt m at password u w).0
      → Spent digest json answers token w
      → Spent digest json answers token
          (login_as digest json (some r) sql bcrypt jwt m at password u w).1
  unfolding register_refresh
  login_as-keeps at password token none w apart gone = gone
  login_as-keeps at password token (some u) w apart gone =
      elim (Bool-cases (bcrypt.matches u.password_hash password)) [
        | inr wrong ↦ rw wrong gone
        | inl right ↦
            rw right (
              issued (tokens_for digest json (some r) sql bcrypt jwt m at u.id) (rw right at apart))
      ]
    where
      issued :
          (t : Result TokenPair)
          → Apart token
              (then_run
                (t, w)
                (λ pair. (do
                  register_refresh digest json (some r) m.refresh_ttl pair.refresh_token u.id
                  pure pair))).0
          → Spent digest json answers token
              (then_run
                (t, w)
                (λ pair. (do
                  register_refresh digest json (some r) m.refresh_ttl pair.refresh_token u.id
                  pure pair))).1
      issued (err e) h = gone
      issued (ok p) h =
          register-Spent digest json answers m.refresh_ttl token p.refresh_token u.id w (h p refl)
            gone

  login-keeps :
      (trim_space : Bytes → Bytes) (at : Moment) (nickname password token : Bytes) (w : World)
      → Apart token
          (login digest json (some r) sql bcrypt jwt m trim_space at nickname password w).0
      → Spent digest json answers token w
      → Spent digest json answers token
          (login digest json (some r) sql bcrypt jwt m trim_space at nickname password w).1
  unfolding login
  login-keeps trim_space at nickname password token w apart gone =
      elim (Bool-cases (bytes_eq (trim_space nickname) [] || bytes_eq password [])) [
        | inl blank ↦ rw blank gone
        | inr given ↦ rw given (found (get_by_nickname sql nickname w.db) (rw given at apart))
      ]
    where
      found :
          (f : Result (Option User) × Db)
          → Apart token
              (then_run
                (f.0, record w { db = f.1 })
                (login_as digest json (some r) sql bcrypt jwt m at password)).0
          → Spent digest json answers token
              (then_run
                (f.0, record w { db = f.1 })
                (login_as digest json (some r) sql bcrypt jwt m at password)).1
      found (err e, db) h = gone
      found (ok u, db) h = login_as-keeps at password token u (record w { db = db }) h gone

  -- What follows: refreshes, logins and logouts with any tokens, of which none issues a token with the digest
  -- of the spent one, and whatever else leaves the cache as it is at the key of that digest.
  pub data Later (token : Bytes) (start : World) : World → Type 0 where
    at_once : Later token start start
    refreshed :
        {w : World} (at : Moment) (other : Bytes)
        → Later token start w
        → Apart token (refresh digest json (some r) sql bcrypt jwt m at other w).0
        → Later token start (refresh digest json (some r) sql bcrypt jwt m at other w).1
    logged_in :
        {w : World} (trim_space : Bytes → Bytes) (at : Moment) (nickname password : Bytes)
        → Later token start w
        → Apart token
            (login digest json (some r) sql bcrypt jwt m trim_space at nickname password w).0
        → Later token start
            (login digest json (some r) sql bcrypt jwt m trim_space at nickname password w).1
    logged_out :
        {w : World} (other : Bytes)
        → Later token start w
        → Later token start (logout digest json (some r) sql bcrypt jwt m other w).1
    elsewhere :
        {w after : World}
        → Later token start w
        → value_at (refresh_key digest token) after.kv ≡ value_at (refresh_key digest token) w.kv
        → Later token start after

  logout-keeps :
      (other token : Bytes) (w : World)
      → Spent digest json answers token w
      → Spent digest json answers token (logout digest json (some r) sql bcrypt jwt m other w).1
  unfolding logout
  logout-keeps other token w gone = revoke-keeps other token w gone

  Later-Spent :
      (token : Bytes) (start w : World)
      → Later token start w
      → Spent digest json answers token start
      → Spent digest json answers token w
  Later-Spent token start w at_once gone = gone
  Later-Spent token start _ (refreshed {w = w} at other before apart) gone =
      refresh-keeps at other token w apart (Later-Spent token start w before gone)
  Later-Spent token start _ (logged_in {w = w} trim_space at nickname password before apart) gone =
      login-keeps trim_space at nickname password token w apart
        (Later-Spent token start w before gone)
  Later-Spent token start _ (logged_out {w = w} other before) gone =
      logout-keeps other token w (Later-Spent token start w before gone)
  Later-Spent token start _ (elsewhere {w = w} before same) gone =
      same ∙ Later-Spent token start w before gone

  -- With a Redis that answers each command: a refresh token that was refreshed once is refused from then on,
  -- whatever refreshes, logins and logouts follow, as long as no token that is issued has its digest.
  pub refresh_once :
      (first second : Moment) (token : Bytes) (w after : World) (pair : TokenPair)
      → (refresh digest json (some r) sql bcrypt jwt m first token w).0 ≡ ok pair
      → refresh_key digest pair.refresh_token ≢ refresh_key digest token
      → Later token (refresh digest json (some r) sql bcrypt jwt m first token w).1 after
      → Rejected (refresh digest json (some r) sql bcrypt jwt m second token after).0
  refresh_once first second token w after pair done apart later =
      refresh-Rejected digest json answers sql bcrypt jwt m second token after (
        Later-Spent token (refresh digest json (some r) sql bcrypt jwt m first token w).1 after
          later (refresh-Spent digest json answers sql bcrypt jwt m first token w pair done apart))
