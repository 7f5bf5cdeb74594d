-- ===== src/Jwtutil.antt =====
-- internal/jwtutil/jwtutil.go: the access and refresh tokens. golang-jwt is a parameter, as are the time
-- and the random token ids.
pub mod Kinds
use pluto_feed.Prelude.{
  ◌≡◌, ◌+◌, ◌*◌, ◌/◌, ◌<◌, All, not, Option, none, some, Bytes, bytes_eq, codes, if◌then◌else◌,
}
use pluto_feed.Prelude.Int.{ℤ, pos, negsuc, ◌+ℤ◌, ltb_ℤ}
use pluto_feed.Apierror.{Error, other, wrapped, Result, ok, err}

abbrev pub typ_access : Bytes
typ_access = codes "access"

abbrev pub typ_refresh : Bytes
typ_refresh = codes "refresh"

abbrev pub err_invalid_token : Error
err_invalid_token = other 50

abbrev pub err_expired_token : Error
err_expired_token = other 51

abbrev pub sign_failed : Error
sign_failed = wrapped (other 52)

pub record Claims : Type 0 where
  pub uid : ℤ
  pub typ : Bytes
  pub expires_at : ℤ
  pub issued_at : ℤ
  pub id : Bytes

pub record Manager : Type 0 where
  pub secret : Bytes
  pub access_ttl : ℤ
  pub refresh_ttl : ℤ

pub data Parsed : Type 0 where
  valid : Claims → Parsed
  expired invalid : Parsed

-- `SignedString` by HS256, and `ParseWithClaims` that takes no other method, at a time.
pub record Jwt : Type 0 where
  pub signed_string : Bytes → Claims → Option Bytes
  pub parse_with_claims : Bytes → ℤ → Bytes → Parsed

-- `NumericDate` keeps whole seconds: a time is rounded down.
unfoldable pub whole_second : ℤ → ℤ
whole_second (pos n) = pos (n / 1_000_000_000 * 1_000_000_000)
whole_second (negsuc n) = negsuc (n / 1_000_000_000 * 1_000_000_000 + 999_999_999)

abbrev pub as_read : Claims → Claims
as_read c = record c {
  expires_at = whole_second c.expires_at;
  issued_at = whole_second c.issued_at;
}

-- Texts that JSON keeps as they are, whatever the other bytes.
abbrev pub IsAscii : Bytes → Type 0
IsAscii s = All (λ c. c < 128) s

-- A token with ASCII texts is read back, with its times in whole seconds, until it expires.
abbrev pub IsFaithful : Jwt → Type 0
IsFaithful jwt =
    (secret token : Bytes) (claims : Claims) (now : ℤ)
    → IsAscii claims.typ
    → IsAscii claims.id
    → jwt.signed_string secret claims ≡ some token
    → jwt.parse_with_claims secret now token
      ≡ (if ltb_ℤ now (whole_second claims.expires_at) then valid (as_read claims) else expired)

module _ (jwt : Jwt) (m : Manager) where
  abbrev pub signed : Option Bytes → Result Bytes
  signed none = err sign_failed
  signed (some token) = ok token

  unfoldable pub sign : ℤ → Bytes → ℤ → ℤ → Bytes → Result Bytes
  sign uid typ expires_at now jti = signed (
      jwt.signed_string m.secret
        (record { uid = uid; typ = typ; expires_at = expires_at; issued_at = now; id = jti }))

  abbrev pub both : Result Bytes → Result Bytes → Result (Bytes × Bytes)
  both (err e) r = err e
  both (ok access) (err e) = err e
  both (ok access) (ok refresh) = ok (access, refresh)

  -- The two ids are the random ones of the two tokens.
  unfoldable pub issue_pair : ℤ → ℤ → Bytes → Bytes → Result (Bytes × Bytes)
  issue_pair uid now id1 id2 =
      both (sign uid typ_access (now +ℤ m.access_ttl) now id1)
        (sign uid typ_refresh (now +ℤ m.refresh_ttl) now id2)

  abbrev claimed : Bytes → Parsed → Result ℤ
  claimed want_typ expired = err err_expired_token
  claimed want_typ invalid = err err_invalid_token
  claimed want_typ (valid claims) =
      if not (bytes_eq claims.typ want_typ) then err err_invalid_token else ok claims.uid

  unfoldable pub parse : ℤ → Bytes → Bytes → Result ℤ
  parse now token want_typ = claimed want_typ (jwt.parse_with_claims m.secret now token)
