-- ===== src/Jwtutil/Kinds.antt =====
-- Access and refresh tokens of internal/jwtutil/jwtutil.go do not stand in for one another.
use pluto_feed.Prelude.{
  ◌≡◌, refl, ap, true, not, Option, none, some, Bytes, bytes_eq, codes, arith, if◌then◌else◌,
}
use pluto_feed.Prelude.Int.{ℤ, ◌+ℤ◌, ltb_ℤ}
use pluto_feed.Apierror.{Result, ok, err}
use pluto_feed.Jwtutil.{
  Jwt, Manager, Claims, IsFaithful, IsAscii, whole_second, typ_access, typ_refresh,
  err_invalid_token, signed, sign, both, issue_pair, parse,
}

both-ok :
    (jwt : Jwt) (m : Manager) (r s : Result Bytes) (a b : Bytes)
    → both jwt m r s ≡ ok (a, b)
    → (r ≡ ok a) × (s ≡ ok b)
both-ok jwt m (ok x) (ok y) a b e = (ap ok (cc), ap ok (cc))
both-ok jwt m (ok x) (err y) a b e = absurd (cc)
both-ok jwt m (err x) s a b e = absurd (cc)

signed-ok :
    (jwt : Jwt) (m : Manager) (o : Option Bytes) (t : Bytes) → signed jwt m o ≡ ok t → o ≡ some t
signed-ok jwt m (some x) t e = ap some (cc)
signed-ok jwt m none t e = absurd (cc)

module _ {jwt : Jwt} (faithful : IsFaithful jwt) (m : Manager) where
  parse-sign :
      (uid : ℤ) (typ : Bytes) (expires_at now : ℤ) (jti token want : Bytes) (at : ℤ)
      → IsAscii typ
      → IsAscii jti
      → sign jwt m uid typ expires_at now jti ≡ ok token
      → ltb_ℤ at (whole_second expires_at) ≡ true
      → parse jwt m at token want
        ≡ (if not (bytes_eq typ want) then err err_invalid_token else ok uid)
  unfolding sign parse
  parse-sign uid typ expires_at now jti token want at plain plain_id e fresh =
      let claims : Claims = record {
        uid = uid;
        typ = typ;
        expires_at = expires_at;
        issued_at = now;
        id = jti;
      } in
      rw
        (
          faithful m.secret token claims at plain plain_id
              (signed-ok jwt m (jwt.signed_string m.secret claims) token e),
          fresh,
        )
        refl

  access-IsAscii : IsAscii typ_access
  access-IsAscii =
      (omega arith, (omega arith, (omega arith, (omega arith, (omega arith, (omega arith, tt))))))

  refresh-IsAscii : IsAscii typ_refresh
  refresh-IsAscii = (omega arith, tail-IsAscii)
    where
      tail-IsAscii : IsAscii (codes "efresh")
      tail-IsAscii = (
        omega arith,
        (omega arith, (omega arith, (omega arith, (omega arith, (omega arith, tt))))),
      )

  -- With a faithful JWT library and token ids in ASCII: of the two tokens that `IssuePair` returns, each is
  -- read back as the uid when its own type is asked for, until the whole second of its expiry, and is refused
  -- as invalid when the other type is.
  pub parse-issue_pair :
      (uid now at : ℤ) (id1 id2 access refresh : Bytes)
      → IsAscii id1
      → IsAscii id2
      → issue_pair jwt m uid now id1 id2 ≡ ok (access, refresh)
      → ltb_ℤ at (whole_second (now +ℤ m.access_ttl)) ≡ true
      → ltb_ℤ at (whole_second (now +ℤ m.refresh_ttl)) ≡ true
      → (parse jwt m at access typ_access ≡ ok uid)
        × (parse jwt m at access typ_refresh ≡ err err_invalid_token)
        × (parse jwt m at refresh typ_refresh ≡ ok uid)
        × (parse jwt m at refresh typ_access ≡ err err_invalid_token)
  unfolding issue_pair bytes_eq
  parse-issue_pair uid now at id1 id2 access refresh plain1 plain2 e live_access live_refresh =
      let (first, second) = both-ok jwt m _ _ access refresh e in
      let access_as = λ (want : Bytes).
        parse-sign uid typ_access (now +ℤ m.access_ttl) now id1 access want at access-IsAscii plain1
          first live_access in
      let refresh_as = λ (want : Bytes).
        parse-sign uid typ_refresh (now +ℤ m.refresh_ttl) now id2 refresh want at refresh-IsAscii
          plain2 second live_refresh in
      (access_as typ_access, access_as typ_refresh, refresh_as typ_refresh, refresh_as typ_access)
