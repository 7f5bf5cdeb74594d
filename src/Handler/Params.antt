-- ===== src/Handler/Params.antt =====
-- internal/handler: what the handlers read of a request: the uid of the context, the id of the path, the
-- limit of the query, the body.
use pluto_feed.Prelude.{Option, none, some, Bytes, codes, if◌then◌else◌, not}
use pluto_feed.Prelude.Int.{ℤ, pos, ltb_ℤ}
use pluto_feed.Prelude.Decimal.{parse_int}
use pluto_feed.Apierror.{Error, bad_request, unauthorized, fail}
use pluto_feed.Middleware.{uid_from}
use pluto_feed.Http.{Context, Request, Handler}

-- A handler that goes on with a value, or ends in an error.
abbrev pub when_some : {A : Type 0} → Error → Option A → (A → Handler) → Handler
when_some e none h ctx s = (fail e, s)
when_some e (some a) h ctx s = h a ctx s

unfoldable pub must_uid : (ℤ → Handler) → Handler
must_uid h ctx = when_some unauthorized (uid_from ctx) h ctx

abbrev pub positive : Option ℤ → Option ℤ
positive none = none
positive (some id) = if not (ltb_ℤ (pos 0) id) then none else some id

unfoldable pub path_id : Request → Option ℤ
path_id req = positive (parse_int req.param_id)

unfoldable pub with_path_id : (ℤ → Handler) → Handler
with_path_id h ctx = when_some bad_request (path_id ctx.request) h ctx

unfoldable pub bind_json : {A : Type 0} → (Bytes → Option A) → (A → Handler) → Handler
bind_json bind h ctx = when_some bad_request (bind ctx.request.body) h ctx

abbrev or_zero : Option ℤ → ℤ
or_zero none = pos 0
or_zero (some z) = z

-- `strconv.Atoi`, with 0 for what it does not take.
unfoldable pub limit_of : Request → ℤ
limit_of req = or_zero (parse_int (req.query (codes "limit")))

-- The viewer, 0 for one who is not logged in.
unfoldable pub viewer_uid : Context → ℤ
viewer_uid ctx = or_zero (uid_from ctx)

abbrev pub cursor_of : Request → Bytes
cursor_of req = req.query (codes "cursor")
