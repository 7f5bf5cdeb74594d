-- ===== src/Rates.antt =====
-- The Redis commands of the two rate limits, and the keys that they keep. A key of the limits is not one of
-- the cache. Each command is a parameter: it fails, or does what `RatesLaws` documents of it. Keys that
-- expire are not removed here: they live longer than the windows that read them.
use pluto_feed.Prelude.{
  ℕ, suc, Bool, ◌&&◌, not, Option, none, some, List, [], ◌∷◌, Bytes, bytes_eq, select, length,
}
use pluto_feed.Prelude.Int.{ℤ}
use pluto_feed.Apierror.{Act}
use pluto_feed.Outcome.{Meets, Writes}
use pluto_feed.Cache.{lookup_key, drop_key}

-- Float64 scores, by their 64 bits: the seconds of a time, `float64(t.UnixNano()) / 1e9`; the bound that is
-- printed of a score less a window, `fmt.Sprintf("(%f", now - window.Seconds())`; and whether Redis finds a
-- score below such a bound. The arithmetic and its rounding are parameters.
pub record Scores : Type 0 where
  pub seconds : ℤ → ℕ
  pub bound : ℕ → ℤ → Bytes
  pub below : Bytes → ℕ → Bool

-- A member of a window: its score is the time of the request.
pub record Hit : Type 0 where
  pub score : ℕ
  pub member : Bytes

pub record Rates : Type 0 where
  pub counters : List (Bytes × ℕ)
  pub windows : List (Bytes × List Hit)

abbrev pub or_zero : Option ℕ → ℕ
or_zero none = 0
or_zero (some n) = n

abbrev pub or_no_hits : Option (List Hit) → List Hit
or_no_hits none = []
or_no_hits (some hits) = hits

abbrev pub count_at : Bytes → Rates → ℕ
count_at k s = or_zero (lookup_key k s.counters)

abbrev pub hits_at : Bytes → Rates → List Hit
hits_at k s = or_no_hits (lookup_key k s.windows)

unfoldable pub count_up : Bytes → Rates → Rates
count_up k s = record s { counters = (k, suc (count_at k s)) ∷ drop_key k s.counters }

-- ZREMRANGEBYSCORE to below a score, and ZADD, which keeps a member once.
abbrev pub kept : (Bytes → ℕ → Bool) → Bytes → Bytes → List Hit → List Hit
kept below bound member hits =
    select (λ h. not (below bound h.score) && not (bytes_eq h.member member)) hits

unfoldable pub slid : (Bytes → ℕ → Bool) → Bytes → Hit → List Hit → List Hit
slid below bound hit hits = hit ∷ kept below bound hit.member hits

unfoldable pub slide : (Bytes → ℕ → Bool) → Bytes → Bytes → Hit → Rates → Rates
unfolding slid
slide below k bound hit s = record s {
  windows = (k, slid below bound hit (hits_at k s)) ∷ drop_key k s.windows;
}

pub record RateRedis : Type 0 where
  pub scores : Scores
  pub incr : Bytes → Act Rates ℕ
  pub expire : Bytes → ℤ → Act Rates (Unit {0})
  -- The transaction of ZREMRANGEBYSCORE, ZADD, ZCARD and EXPIRE; its result is the one of ZCARD.
  pub slide_exec : Bytes → Bytes → Hit → ℤ → Act Rates ℕ

pub record RatesLaws (r : RateRedis) : Type 0 where
  pub incr_law : (k : Bytes) → Meets (r.incr k) (λ s. (suc (count_at k s), count_up k s))
  pub expire_law : (k : Bytes) (ttl : ℤ) → Writes (r.expire k ttl) (λ s. s)
  pub slide_law :
      (k bound : Bytes) (hit : Hit) (ttl : ℤ)
      → Meets (r.slide_exec k bound hit ttl) (λ s. (
        length (hits_at k (slide r.scores.below k bound hit s)),
        slide r.scores.below k bound hit s,
      ))
