-- ===== src/Tests/Requests.antt =====
-- Requests with a bad token, a refresh token, and too many.
use pluto_feed.Prelude.{◌≡◌, refl, none, some, [], ◌∷◌, codes, bytes_eq, arith, true, List}
use pluto_feed.Prelude.Int.{pos, ltb_ℤ, ◌+ℤ◌}
use pluto_feed.Apierror.{fail, unauthorized, respond_ok}
use pluto_feed.Jwtutil.{parse, whole_second}
use pluto_feed.Http.{nil, Handler}
use pluto_feed.Middleware.{gin_auth, optional_auth, access_uid, strip_prefix}
use pluto_feed.Middleware.Auth.{bearing, gin_auth-issue_pair}
use pluto_feed.Middleware.Limits.{Reading}
use pluto_feed.Router.{route, authed_write, delete, serve}
use pluto_feed.Router.Guarded.{Refused, is_write, serve-Refused}
use pluto_feed.Handler.Post
use pluto_feed.Tests.Tokens.{clear_jwt, clear_jwt-IsFaithful, manager, second_pair, issued}
use pluto_feed.Tests.Http.{deps, context, first_server}

live :
    (ltb_ℤ (pos 100) (whole_second (pos 100 +ℤ manager.access_ttl)) ≡ true)
    × (ltb_ℤ (pos 100) (whole_second (pos 100 +ℤ manager.refresh_ttl)) ≡ true)
unfolding ltb_ℤ ◌+ℤ◌ whole_second
live = (refl, refl)

-- Deleting post 1 without a valid token.
serve-Refused_example : Refused first_server (
    serve deps
      (route authed_write delete "/api/v1/posts/:id" (Post.delete deps))
      (context none (codes "1"))
      first_server)
unfolding access_uid parse strip_prefix is_write bytes_eq
serve-Refused_example =
    serve-Refused deps 8 (route authed_write delete "/api/v1/posts/:id" (Post.delete deps))
      (context none (codes "1")) first_server refl refl refl

abbrev answered : Handler
answered ctx s = (respond_ok nil, s)

gin_auth-issue_pair_example :
    (gin_auth clear_jwt manager answered
        (bearing second_pair.access_token (context none []))
        first_server
      ≡ answered
          (record (bearing second_pair.access_token (context none [])) { uid = some (pos 2) })
          first_server)
    × (gin_auth clear_jwt manager answered
          (bearing second_pair.refresh_token (context none []))
          first_server
        ≡ (fail unauthorized, first_server))
    × (optional_auth clear_jwt manager answered
          (bearing second_pair.refresh_token (context none []))
          first_server
        ≡ answered (bearing second_pair.refresh_token (context none [])) first_server)
gin_auth-issue_pair_example =
    gin_auth-issue_pair clear_jwt-IsFaithful manager (pos 2) (pos 100) (9 ∷ []) (8 ∷ [])
      second_pair.access_token second_pair.refresh_token answered (context none []) first_server
      (omega arith, tt) (omega arith, tt) issued live.0 live.1

-- Two requests, the later one first, each with its two readings of the clock.
abbrev earlier : List Reading
earlier = (pos 90, pos 91) ∷ (pos 80, pos 81) ∷ []
