-- ===== src/Middleware/Auth.antt =====
-- internal/middleware/auth.go: which tokens let a request through.
use pluto_feed.Prelude.{◌≡◌, refl, ==_refl, true, some, [], ◌∷◌, ◌++◌, Bytes}
use pluto_feed.Prelude.Int.{ℤ, ◌+ℤ◌, ltb_ℤ}
use pluto_feed.Apierror.{ok, unauthorized, fail}
use pluto_feed.Jwtutil.{Jwt, Manager, IsFaithful, IsAscii, whole_second, issue_pair}
use pluto_feed.Jwtutil.Kinds.{parse-issue_pair}
use pluto_feed.Middleware.{strip_prefix, bearer_prefix, access_uid, gin_auth, optional_auth}
use pluto_feed.Http.{Context, Server, Handler}

strip-append : (p s : Bytes) → strip_prefix p (p ++ s) ≡ some s
unfolding strip_prefix
strip-append [] s = refl
strip-append (c ∷ cs) s = rw (==_refl c) (strip-append cs s)

-- The request with another header `Authorization`.
abbrev pub bearing : Bytes → Context → Context
bearing token ctx = record ctx {
  request = record ctx.request { authorization = bearer_prefix ++ token };
}

module _ {jwt : Jwt} (faithful : IsFaithful jwt) (m : Manager) where
  -- With a faithful JWT library and token ids in ASCII: until the whole seconds of their expiries, the access token of `IssuePair` in the header runs the
  -- protected handler as its user, and its refresh token there is answered 401 and runs nothing, while
  -- a handler with the optional login runs for it as for nobody.
  pub gin_auth-issue_pair :
      (uid now : ℤ) (id1 id2 access refresh : Bytes) (next : Handler) (ctx : Context) (s : Server)
      → IsAscii id1
      → IsAscii id2
      → issue_pair jwt m uid now id1 id2 ≡ ok (access, refresh)
      → ltb_ℤ ctx.request.moment.now (whole_second (now +ℤ m.access_ttl)) ≡ true
      → ltb_ℤ ctx.request.moment.now (whole_second (now +ℤ m.refresh_ttl)) ≡ true
      → (gin_auth jwt m next (bearing access ctx) s
          ≡ next (record (bearing access ctx) { uid = some uid }) s)
        × (gin_auth jwt m next (bearing refresh ctx) s ≡ (fail unauthorized, s))
        × (optional_auth jwt m next (bearing refresh ctx) s ≡ next (bearing refresh ctx) s)
  unfolding gin_auth optional_auth access_uid
  gin_auth-issue_pair uid now id1 id2 access refresh next ctx s plain1 plain2 e live_access
        live_refresh =
      let (good, _, _, bad) =
        parse-issue_pair faithful m uid now ctx.request.moment.now id1 id2 access refresh plain1
          plain2 e live_access live_refresh in
      (
        rw (strip-append bearer_prefix access, good) refl,
        rw (strip-append bearer_prefix refresh, bad) refl,
        rw (strip-append bearer_prefix refresh, bad) refl,
      )
