-- ===== src/Router/Guarded.antt =====
-- internal/router/router.go: which routes need a login, and what they do without one.
use pluto_feed.Prelude.{
  ℕ, zero, suc, ◌≡◌, ◌⊎◌, inl, inr, refl, Bool, true, false, not, ◌||◌, Option, none, some, List,
  [], ◌∷◌, if◌then◌else◌, String, codes, bytes_eq, Bool-cases, arith, get_elem?,
}
use mathlib.Core.Path.{subst}
use pluto_feed.Prelude.Int.{ℤ, pos, ltb_ℤ}
use pluto_feed.Apierror.{Result, ok, err, unauthorized, fail}
use pluto_feed.Rates.{Rates, RateRedis}
use pluto_feed.Middleware.{
  access_uid, gin_auth, chain, err_rate_limited, rate_limit_ip, pass_ip, ip_key,
}
use pluto_feed.Http.{Context, Server, Reply, Handler, Deps}
use pluto_feed.Router.{
  Method, get, Access, public, viewed, authed, authed_write, Route, routes, serve, guards,
}

abbrev is_get : Method → Bool
is_get get = true
is_get _ = false

abbrev needs_login : Access → Bool
needs_login authed = true
needs_login authed_write = true
needs_login _ = false

abbrev is_sign_in : String → Bool
is_sign_in path =
    bytes_eq (codes path) (codes "/api/v1/auth/register")
    || bytes_eq (codes path) (codes "/api/v1/auth/login")
    || bytes_eq (codes path) (codes "/api/v1/auth/refresh")

-- A request that writes, other than a registration, a login and a refresh.
unfoldable pub is_write : Route → Bool
is_write r = not (is_get r.method || is_sign_in r.path)

-- A refusal: 401, or 429 of the limit by address; only the counters of the limits may have changed.
abbrev pub Refused : Server → Reply → Type 0
Refused s reply =
    ((reply.0 ≡ fail unauthorized) ⊎ (reply.0 ≡ fail err_rate_limited))
    × (reply.1.world ≡ s.world)
    × (reply.1.files ≡ s.files)

module _ (P : Reply → Type 0) (next : Handler) (ctx : Context) (s : Server)
    (passed : (rates : Rates) → P (next ctx (record s { rates = rates })))
    (limited : (rates : Rates) → P (fail err_rate_limited, record s { rates = rates })) where
  either :
      (b : Bool) (rates : Rates)
      → P (
          if b
          then (fail err_rate_limited, record s { rates = rates })
          else next ctx (record s { rates = rates }))
  either true rates = limited rates
  either false rates = passed rates

  -- What the next handler does with any counters, or the refusal of the limit.
  pub behind_ip_limit :
      (rdb : Option RateRedis) (limit : ℤ) → P (rate_limit_ip rdb limit next ctx s)
  unfolding rate_limit_ip
  behind_ip_limit none limit = passed s.rates
  behind_ip_limit (some r) limit =
      go (r.incr (ip_key ctx.request.client_ip ctx.request.moment.now) s.rates)
    where
      go :
          (counted : Result ℕ × Rates)
          → P (
              pass_ip r limit
                (ip_key ctx.request.client_ip ctx.request.moment.now)
                next
                ctx
                s
                counted)
      go (err e, rates) = passed rates
      go (ok n, rates) = either (ltb_ℤ limit (pos n)) _

-- A route that writes needs a login.
abbrev guarded : Route → Bool
guarded r = not (is_write r) || needs_login r.access

abbrev all_guarded : List Route → Bool
all_guarded [] = true
all_guarded (r ∷ rs) = let rest = all_guarded rs in if guarded r then rest else false

guarded_at :
    (rs : List Route) (i : ℕ) (r : Route)
    → all_guarded rs ≡ true
    → get_elem? rs i ≡ some r
    → guarded r ≡ true
guarded_at [] i r all e = absurd (cc)
guarded_at (q ∷ rs) zero r all e =
    let same : q ≡ r = some_same e in subst (λ x. guarded x ≡ true) same (head_of (guarded q) all)
  where
    some_same : some q ≡ some r → q ≡ r
    some_same h = cc

    head_of : (b : Bool) → (if b then all_guarded rs else false) ≡ true → b ≡ true
    head_of true h = refl
    head_of false h = absurd (cc)
guarded_at (q ∷ rs) (suc i) r all e = guarded_at rs i r (tail_of (guarded q) all) e
  where
    tail_of : (b : Bool) → (if b then all_guarded rs else false) ≡ true → all_guarded rs ≡ true
    tail_of true h = h
    tail_of false h = absurd (cc)

module _ (d : Deps) where
  routes-guarded : all_guarded (routes d) ≡ true
  unfolding is_write bytes_eq
  routes-guarded = refl

  -- Behind the login, with no valid token.
  gin_auth-Refused :
      (next : Handler) (ctx : Context) (s : Server) (rates : Rates)
      → access_uid d.jwt d.manager ctx.request ≡ none
      → Refused s (gin_auth d.jwt d.manager next ctx (record s { rates = rates }))
  unfolding gin_auth
  gin_auth-Refused next ctx s rates h = rw h (inl refl, refl, refl)

  guards-Refused :
      (r : Route) (ctx : Context) (s : Server) (rates : Rates) (access : Access)
      → needs_login access ≡ true
      → access_uid d.jwt d.manager ctx.request ≡ none
      → Refused s (chain r.handler (guards d access) ctx (record s { rates = rates }))
  unfolding chain
  guards-Refused r ctx s rates authed n h = gin_auth-Refused _ ctx s rates h
  guards-Refused r ctx s rates authed_write n h = gin_auth-Refused _ ctx s rates h
  guards-Refused r ctx s rates public n h = absurd (cc)
  guards-Refused r ctx s rates viewed n h = absurd (cc)

  protected-Refused :
      (r : Route) (ctx : Context) (s : Server)
      → needs_login r.access ≡ true
      → access_uid d.jwt d.manager ctx.request ≡ none
      → Refused s (serve d r ctx s)
  unfolding serve chain
  protected-Refused r ctx s n h = elim (Bool-cases (ltb_ℤ (pos 0) d.rate_ip_per_min)) [
    | inl on ↦ rw on (
        behind_ip_limit (Refused s) (chain r.handler (guards d r.access)) ctx s
          (λ rates. guards-Refused r ctx s rates r.access n h) (λ rates. (inr refl, refl, refl))
          d.rdb d.rate_ip_per_min)
    | inr off ↦ rw off (guards-Refused r ctx s s.rates r.access n h)
  ]

  -- Each route of the table that writes, other than the registration, the login and the refresh, refuses a
  -- request without a valid access token, and leaves the tables, the cache and the files as they were.
  pub serve-Refused :
      (i : ℕ) (r : Route) (ctx : Context) (s : Server)
      → get_elem? (routes d) i ≡ some r
      → is_write r ≡ true
      → access_uid d.jwt d.manager ctx.request ≡ none
      → Refused s (serve d r ctx s)
  serve-Refused i r ctx s found writes h =
      protected-Refused r ctx s (ground (arith, guarded_at (routes d) i r routes-guarded found)) h
