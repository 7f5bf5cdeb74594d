-- ===== src/Middleware.antt =====
-- internal/middleware: authentication, the two rate limits, and the chain of handlers.
pub mod Auth
pub mod Limits
pub mod Minutes
use pluto_feed.Prelude.{
  ℕ, ◌+◌, ◌*◌, ◌/◌, ◌==◌, Option, none, some, List, [], ◌∷◌, ◌++◌, Bytes, codes, if◌then◌else◌,
}
use pluto_feed.Prelude.Int.{ℤ, pos, negsuc, sub_ℕ, ◌+ℤ◌, ltb_ℤ}
use pluto_feed.Prelude.Decimal.{format_int}
use pluto_feed.Apierror.{Error, new, unauthorized, Result, ok, err, fail}
use pluto_feed.Rates.{Rates, RateRedis, Scores, Hit}
use pluto_feed.Jwtutil.{Jwt, Manager, parse, typ_access}
use pluto_feed.Http.{Context, Request, Server, Reply, Handler}

-- `strings.HasPrefix` with `strings.TrimPrefix`.
unfoldable pub strip_prefix : Bytes → Bytes → Option Bytes
strip_prefix [] s = some s
strip_prefix (p ∷ ps) [] = none
strip_prefix (p ∷ ps) (c ∷ cs) = let rest = strip_prefix ps cs in if p == c then rest else none

abbrev pub bearer_prefix : Bytes
bearer_prefix = codes "Bearer "

-- `UIDFrom`.
abbrev pub uid_from : Context → Option ℤ
uid_from ctx = ctx.uid

module _ (jwt : Jwt) (m : Manager) where
  abbrev pub parsed_uid : Result ℤ → Option ℤ
  parsed_uid (ok uid) = some uid
  parsed_uid (err e) = none

  abbrev pub token_uid : ℤ → Option Bytes → Option ℤ
  token_uid now none = none
  token_uid now (some token) = parsed_uid (parse jwt m now token typ_access)

  -- The uid of a valid `Bearer` access token.
  unfoldable pub access_uid : Request → Option ℤ
  access_uid req = token_uid req.moment.now (strip_prefix bearer_prefix req.authorization)

  abbrev pub require_uid : Option ℤ → Handler → Handler
  require_uid none next ctx s = (fail unauthorized, s)
  require_uid (some uid) next ctx s = next (record ctx { uid = some uid }) s

  unfoldable pub gin_auth : Handler → Handler
  gin_auth next ctx s = require_uid (access_uid ctx.request) next ctx s

  abbrev pub offer_uid : Option ℤ → Handler → Handler
  offer_uid none next ctx s = next ctx s
  offer_uid (some uid) next ctx s = next (record ctx { uid = some uid }) s

  unfoldable pub optional_auth : Handler → Handler
  optional_auth next ctx s = offer_uid (access_uid ctx.request) next ctx s

abbrev pub err_rate_limited : Error
err_rate_limited = new 429 42900 "请求过于频繁，请稍后再试"

-- `time.Now().Unix() / 60`: whole seconds by rounding down, whole minutes by truncation.
unfoldable pub unix_minute : ℤ → ℤ
unix_minute (pos n) = pos (n / 1_000_000_000 / 60)
unix_minute (negsuc n) = sub_ℕ 0 ((n / 1_000_000_000 + 1) / 60)

unfoldable pub ip_key : Bytes → ℤ → Bytes
ip_key ip now = codes "rl:ip:" ++ (ip ++ b':' ∷ format_int (unix_minute now))

abbrev pub ip_key_ttl : ℤ
ip_key_ttl = pos 90_000_000_000

-- The lifetime is set at the first request of the minute; whether that works is not looked at.
abbrev pub expire_first : RateRedis → Bytes → ℕ → Rates → Rates
expire_first r key n rates = if n == 1 then (r.expire key ip_key_ttl rates).1 else rates

abbrev pub pass_ip : RateRedis → ℤ → Bytes → Handler → Context → Server → Result ℕ × Rates → Reply
pass_ip r limit key next ctx s (err e, rates) = next ctx (record s { rates = rates })
pass_ip r limit key next ctx s (ok n, rates) =
    let s' = record s { rates = expire_first r key n rates } in
    if ltb_ℤ limit (pos n) then (fail err_rate_limited, s') else next ctx s'

unfoldable pub rate_limit_ip : Option RateRedis → ℤ → Handler → Handler
rate_limit_ip none limit next ctx s = next ctx s
rate_limit_ip (some r) limit next ctx s =
    let key = ip_key ctx.request.client_ip ctx.request.moment.now in
    pass_ip r limit key next ctx s (r.incr key s.rates)

unfoldable pub user_key : ℤ → Bytes
user_key uid = codes "rl:user:" ++ format_int uid

-- A request of a window: the score is of its time, the member is a second reading of the clock, printed.
abbrev pub hit_at : Scores → ℤ → ℤ → Hit
hit_at scores now later = record { score = scores.seconds now; member = format_int later }

abbrev pub pass_user : ℤ → Handler → Context → Server → Result ℕ × Rates → Reply
pass_user limit next ctx s (err e, rates) = next ctx (record s { rates = rates })
pass_user limit next ctx s (ok n, rates) =
    let s' = record s { rates = rates } in
    if ltb_ℤ limit (pos n) then (fail err_rate_limited, s') else next ctx s'

abbrev pub slide_window : RateRedis → ℤ → ℤ → ℤ → ℤ → Rates → Result ℕ × Rates
slide_window r window uid now later rates =
    r.slide_exec (user_key uid) (r.scores.bound (r.scores.seconds now) window)
      (hit_at r.scores now later) (window +ℤ pos 60_000_000_000) rates

abbrev pub limit_user : Option RateRedis → Option ℤ → ℤ → ℤ → Handler → Handler
limit_user (some r) (some uid) limit window next ctx s =
    pass_user limit next ctx s
      (slide_window r window uid ctx.request.moment.now ctx.request.later s.rates)
limit_user _ _ limit window next ctx s = next ctx s

unfoldable pub rate_limit_user : Option RateRedis → (Context → Option ℤ) → ℤ → ℤ → Handler → Handler
rate_limit_user rdb uid_fetcher limit window next ctx s =
    limit_user rdb (uid_fetcher ctx) limit window next ctx s

-- `Chain`: the first middleware is the outermost.
unfoldable pub chain : Handler → List (Handler → Handler) → Handler
chain h [] = h
chain h (mw ∷ mws) = mw (chain h mws)
