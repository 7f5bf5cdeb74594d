-- ===== src/Service/Auth/Login.antt =====
-- `Login` of internal/service/auth_service.go tells nobody which nicknames have an account.
use pluto_feed.Prelude.{
  ◌≡◌, refl, false, ◌||◌, Option, none, some, [], Bytes, bytes_eq, Bool-cases, inl, inr,
  if◌then◌else◌,
}
use pluto_feed.Prelude.Int.{ℤ}
use pluto_feed.Apierror.{ok, err}
use pluto_feed.Model.{User}
use pluto_feed.Db.{find_nickname}
use pluto_feed.Sql.{Sql}
use pluto_feed.Repository.User.{get_by_nickname}
use pluto_feed.Cache.{Redis, Json}
use pluto_feed.World.{World}
use pluto_feed.Jwtutil.{Jwt, Manager}
use pluto_feed.Service.Auth.{Bcrypt, Moment, wrong_login, login, login_as}

-- The account of the nickname, when the password is its own.
abbrev pub account : Bcrypt → Bytes → Option User → Option User
account bcrypt password none = none
account bcrypt password (some u) = if bcrypt.matches u.password_hash password then some u else none

not_none : {u : User} → some u ≡ none → ⊥
not_none h = absurd (cc)

module _ (digest : Bytes → Bytes) (json : Json ℤ) (cache : Option Redis) (sql : Sql)
    (bcrypt : Bcrypt) (jwt : Jwt) (m : Manager) where
  -- With a database that answers: for a nickname and a password that are not blank, a nickname without an
  -- account and a wrong password for one get the same answer, and both leave everything as it was.
  pub login-wrong_login :
      (trim_space : Bytes → Bytes) (at : Moment) (nickname password : Bytes) (w : World)
      → sql.first_nickname nickname w.db
        ≡ (ok (find_nickname sql.same_nickname nickname w.db), w.db)
      → (bytes_eq (trim_space nickname) [] || bytes_eq password []) ≡ false
      → account bcrypt password (find_nickname sql.same_nickname nickname w.db) ≡ none
      → login digest json cache sql bcrypt jwt m trim_space at nickname password w
        ≡ (err wrong_login, w)
  unfolding login get_by_nickname
  login-wrong_login trim_space at nickname password w answer given wrong =
      rw (given, answer) (go (find_nickname sql.same_nickname nickname w.db) wrong)
    where
      go :
          (u : Option User)
          → account bcrypt password u ≡ none
          → login_as digest json cache sql bcrypt jwt m at password u w ≡ (err wrong_login, w)
      go none h = refl
      go (some u) h = elim (Bool-cases (bcrypt.matches u.password_hash password)) [
        | inl same ↦ absurd (not_none (rw same at h))
        | inr other ↦ rw other refl
      ]
