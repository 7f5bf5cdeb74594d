-- ===== src/Apierror.antt =====
-- internal/apierror/errors.go: business errors, the result of a fallible call, the actions that
-- thread a state through such calls, and the only two ways out to HTTP.
use pluto_feed.Prelude.{ℕ, String, Option, none, some}

pub record BizError : Type 0 where
  pub http_status : ℕ
  pub code : ℕ
  pub msg : String

-- A Go `error`: a business error, one that wraps another (`%w`), or any other.
pub data Error : Type 0 where
  biz : BizError → Error
  wrapped : Error → Error
  other : ℕ → Error

abbrev pub new : ℕ → ℕ → String → Error
new status code msg = biz (record { http_status = status; code = code; msg = msg })

abbrev pub bad_request : Error
bad_request = new 400 40000 "bad request"

abbrev pub unauthorized : Error
unauthorized = new 401 40100 "unauthorized"

abbrev pub forbidden : Error
forbidden = new 403 40300 "forbidden"

abbrev pub not_found : Error
not_found = new 404 40400 "not found"

pub data Result {ℓ} (A : Type ℓ) : Type ℓ where
  ok : A → Result A
  err : Error → Result A

-- A call that changes a state of type `S` and may fail. What it wrote before a failure stays.
abbrev pub Act : Type 0 → Type 0 → Type 0
Act S A = S → Result A × S

module _ {S A B : Type 0} where
  abbrev pub then_run : Result A × S → (A → Act S B) → Result B × S
  then_run (ok a, s) f = f a s
  then_run (err e, s) f = (err e, s)

  infixl 5 ◌>>=◌ ◌>>◌
  abbrev pub ◌>>=◌ : Act S A → (A → Act S B) → Act S B
  ◌>>=◌ m f s = then_run (m s) f

  abbrev pub ◌>>◌ : Act S A → Act S B → Act S B
  ◌>>◌ m k s = then_run (m s) (λ _. k)

module _ {S A : Type 0} where
  abbrev pub pure : A → Act S A
  pure a s = (ok a, s)

  abbrev pub raise : Error → Act S A
  raise e s = (err e, s)

-- A response: `data` is present on success only.
pub record Response (A : Type 0) : Type 0 where
  pub status : ℕ
  pub code : ℕ
  pub msg : String
  pub body : Option A

-- `errors.As(err, &be)`: the first business error of the chain.
unfoldable pub as_biz : Error → Option BizError
as_biz (biz b) = some b
as_biz (wrapped e) = as_biz e
as_biz (other n) = none

module _ {A : Type 0} where
  unfoldable pub respond_ok : A → Response A
  respond_ok a = record { status = 200; code = 0; msg = "ok"; body = some a }

  unfoldable pub fail : Error → Response A
  unfolding as_biz
  fail e = elim (as_biz e) [
    | some b ↦ record { status = b.http_status; code = b.code; msg = b.msg; body = none }
    | none ↦ record { status = 500; code = 50000; msg = "internal error"; body = none }
  ]

-- The end of a handler: `Fail` of an error, `OK` of what is shown of a value.
module _ {S A B : Type 0} where
  abbrev pub answer : (A → B) → Result A × S → Response B × S
  answer show (ok a, s) = (respond_ok (show a), s)
  answer show (err e, s) = (fail e, s)
