-- ===== src/Service/Auth.antt =====
-- internal/service/auth_service.go: accounts, and the refresh tokens with their whitelist. bcrypt, the
-- digest of a token (hexadecimal SHA-256) and the trimming of spaces are parameters; the time and the
-- random ids of tokens are arguments of the calls that need them.
pub mod Rotation
pub mod Login
use pluto_feed.Prelude.{
  ℕ, ◌+◌, ◌/◌, Bool, true, false, not, ◌||◌, Option, none, some, List, [], ◌∷◌, ◌++◌, ltb,
  if◌then◌else◌, Bytes, bytes_eq, codes, rune_count, length,
}
use pluto_feed.Prelude.Int.{ℤ, pos, negsuc, sub_ℕ, eqb_ℤ}
use pluto_feed.Apierror.{
  Error, new, not_found, unauthorized, Result, ok, err, Act, ◌>>=◌, ◌>>◌, pure, raise,
}
use pluto_feed.Model.{User}
use pluto_feed.Sql.{Sql}
use pluto_feed.Repository.User.{create, get_by_nickname, get_by_id}
use pluto_feed.Cache.{Redis, Json, get_json, set_json, del}
use pluto_feed.World.{World, in_db, in_kv, best_effort, lift, or_else}
use pluto_feed.Jwtutil.{Jwt, Manager, issue_pair, parse, typ_refresh}

pub record TokenPair : Type 0 where
  pub access_token : Bytes
  pub refresh_token : Bytes
  pub token_type : Bytes
  pub expires_in : ℤ  -- seconds

-- Division of a duration by time.Second, which truncates.
abbrev seconds_of : ℤ → ℤ
seconds_of (pos n) = pos (n / 1_000_000_000)
seconds_of (negsuc n) = sub_ℕ 0 ((n + 1) / 1_000_000_000)

pub record Bcrypt : Type 0 where
  pub generate_from_password : Bytes → Result Bytes
  pub matches : Bytes → Bytes → Bool

-- What one issue of tokens takes from outside: the time, and two random ids.
pub record Moment : Type 0 where
  pub now : ℤ
  pub access_id : Bytes
  pub refresh_id : Bytes

abbrev pub bad_nickname : Error
bad_nickname = new 400 40001 "昵称长度需在 2~32 个字符之间"

abbrev pub short_password : Error
short_password = new 400 40002 "密码至少 6 位"

abbrev pub taken_nickname : Error
taken_nickname = new 400 40003 "昵称已被占用"

abbrev pub blank_login : Error
blank_login = new 400 40004 "昵称和密码不能为空"

abbrev pub wrong_login : Error
wrong_login = new 401 40101 "账号或密码错误"

abbrev pub session_gone : Error
session_gone = new 401 40102 "登录已失效，请重新登录"

abbrev new_user : Bytes → Bytes → User
new_user nickname hash = record {
  id = pos 0;
  nickname = nickname;
  password_hash = hash;
  avatar_url = [];
  bio = [];
  following_count = pos 0;
  follower_count = pos 0;
  created_at = pos 0;
}

module _ (digest : Bytes → Bytes) where
  unfoldable pub refresh_key : Bytes → Bytes
  refresh_key token = codes "rt:" ++ digest token

  module _ (json : Json ℤ) (cache : Option Redis) where
    unfoldable pub register_refresh : ℤ → Bytes → ℤ → Act World (Unit {0})
    register_refresh ttl token uid = elim cache [
      | none ↦ pure tt
      | some r ↦ best_effort (in_kv (set_json r json (refresh_key token) uid ttl))
    ]

    unfoldable pub revoke_refresh : Bytes → Act World (Unit {0})
    revoke_refresh token = elim cache [
      | none ↦ pure tt
      | some r ↦ best_effort (in_kv (del r (refresh_key token ∷ [])))
    ]

    -- `none` when the key is missing; without a cache the uid is taken as it is.
    unfoldable pub whitelist_uid : Bytes → ℤ → Act World (Option ℤ)
    whitelist_uid token uid = elim cache [
      | none ↦ pure (some uid)
      | some r ↦ or_else none (in_kv (get_json r json (refresh_key token)))
    ]

    module _ (sql : Sql) (bcrypt : Bcrypt) (jwt : Jwt) (m : Manager) where
      abbrev insert_unless : Bytes → Bytes → Option User → Act World (Unit {0})
      insert_unless nickname password (some u) = raise taken_nickname
      insert_unless nickname password none = do
        hash ← lift (bcrypt.generate_from_password password)
        u ← in_db (create sql (new_user nickname hash))
        pure tt

      unfoldable pub register : Bytes → Bytes → Act World (Unit {0})
      register nickname password =
          if ltb (rune_count nickname) 2 || ltb 32 (rune_count nickname)
          then raise bad_nickname
          else if ltb (length password) 6
          then raise short_password
          else (do
            existing ← in_db (get_by_nickname sql nickname)
            insert_unless nickname password existing)

      abbrev pair_of : Result (Bytes × Bytes) → Result TokenPair
      pair_of (err e) = err e
      pair_of (ok (access, refresh)) = ok (record {
        access_token = access;
        refresh_token = refresh;
        token_type = codes "Bearer";
        expires_in = seconds_of m.access_ttl;
      })

      -- `issuePair`.
      unfoldable pub tokens_for : Moment → ℤ → Result TokenPair
      tokens_for at uid = pair_of (issue_pair jwt m uid at.now at.access_id at.refresh_id)

      abbrev pub login_as : Moment → Bytes → Option User → Act World TokenPair
      login_as at password none = raise wrong_login
      login_as at password (some u) =
          if not (bcrypt.matches u.password_hash password) then raise wrong_login else (do
            pair ← lift (tokens_for at u.id)
            register_refresh m.refresh_ttl pair.refresh_token u.id
            pure pair)

      -- `trim_space` is `strings.TrimSpace`.
      unfoldable pub login : (Bytes → Bytes) → Moment → Bytes → Bytes → Act World TokenPair
      unfolding tokens_for register_refresh
      login trim_space at nickname password =
          if bytes_eq (trim_space nickname) [] || bytes_eq password []
          then raise blank_login
          else (do u ← in_db (get_by_nickname sql nickname); login_as at password u)

      abbrev pub swap : Bytes → ℤ → Result TokenPair → Act World TokenPair
      swap token uid (err e) = raise e
      swap token uid (ok pair) = do
        revoke_refresh token
        register_refresh m.refresh_ttl pair.refresh_token uid
        pure pair

      abbrev pub rotate_if : Moment → Bytes → ℤ → Option ℤ → Act World TokenPair
      rotate_if at token uid none = raise session_gone
      rotate_if at token uid (some stored) =
          if not (eqb_ℤ stored uid) then raise session_gone else swap token uid (tokens_for at uid)

      abbrev pub refresh_as : Moment → Bytes → Result ℤ → Act World TokenPair
      refresh_as at token (err e) = raise unauthorized
      refresh_as at token (ok uid) = do
        stored ← whitelist_uid token uid
        rotate_if at token uid stored

      unfoldable pub refresh : Moment → Bytes → Act World TokenPair
      refresh at token = refresh_as at token (parse jwt m at.now token typ_refresh)

      unfoldable pub logout : Bytes → Act World (Unit {0})
      logout token = revoke_refresh token

      abbrev found_or_404 : Option User → Act World User
      found_or_404 none = raise not_found
      found_or_404 (some u) = pure u

      unfoldable pub me : ℤ → Act World User
      me uid = do u ← in_db (get_by_id sql uid); found_or_404 u
