-- ===== src/Middleware/Limits.antt =====
-- internal/middleware/ratelimit.go: how many requests of one user a sliding window lets through.
use pluto_feed.Prelude.{◌≡◌, false, List, [], ◌∷◌, map, Bytes, All, length}
use pluto_feed.Prelude.Int.{ℤ, ◌<ℤ◌}
use pluto_feed.Prelude.Decimal.{InInt64}
use pluto_feed.Apierror.{ok}
use pluto_feed.Rates.{Hit, Rates, Scores, RateRedis, hits_at, slide}
use pluto_feed.Middleware.{hit_at, slide_window}

-- Redis answers the transaction of a window.
abbrev pub AnswersSlides : RateRedis → Type 0
AnswersSlides r =
    (k bound : Bytes) (hit : Hit) (ttl : ℤ) (s : Rates)
    → r.slide_exec k bound hit ttl s ≡ (
      ok (length (hits_at k (slide r.scores.below k bound hit s))),
      slide r.scores.below k bound hit s,
    )

-- The two readings of the clock of a request: for its score, and for its member.
abbrev pub Reading : Type 0
Reading = ℤ × ℤ

-- Requests, the latest first, by their second readings.
abbrev pub Descending : List Reading → Type 0
Descending [] = Unit
Descending (t ∷ ts) = All (λ u. u.1 <ℤ t.1) ts × Descending ts

-- The score of `u` is not below the bound that is printed at `t`.
abbrev pub InWindow : Scores → ℤ → Reading → Reading → Type 0
InWindow scores window t u =
    scores.below (scores.bound (scores.seconds t.0) window) (scores.seconds u.0) ≡ false

-- At each request, the earlier ones are in its window; the second readings are int64.
abbrev pub Windowed : Scores → ℤ → List Reading → Type 0
Windowed scores window [] = Unit
Windowed scores window (t ∷ ts) =
    InInt64 t.1 × All (InWindow scores window t) ts × Windowed scores window ts

abbrev pub hits_of : Scores → List Reading → List Hit
hits_of scores ts = map (λ t. hit_at scores t.0 t.1) ts

-- The counters after these requests, the latest first.
unfoldable pub requested : RateRedis → ℤ → ℤ → List Reading → Rates → Rates
requested r window uid [] s = s
requested r window uid (t ∷ ts) s =
    (slide_window r window uid t.0 t.1 (requested r window uid ts s)).1

module _ (r : RateRedis) (answers : AnswersSlides r) (window uid : ℤ) where
  abbrev bound_at : Reading → Bytes
  bound_at t = r.scores.bound (r.scores.seconds t.0) window

  abbrev own_hit : Reading → Hit
  own_hit t = hit_at r.scores t.0 t.1
