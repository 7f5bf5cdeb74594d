-- ===== src/Middleware/Minutes.antt =====
-- internal/middleware/ratelimit.go: how many requests from one address each minute lets through.
use pluto_feed.Prelude.{
  ℕ, suc, ◌+◌, ◌/◌, leb, ◌≡◌, ◌≢◌, inl, inr, refl, ap, arith, ◌==◌, Bool-cases, Bool, true, false,
  ◌&&◌, some, List, [], ◌∷◌, ◌++◌, select, Bytes, bytes_eq, bytes_eq_iff, bytes_eq_refl,
  if◌then◌else◌, All, length,
}
use pluto_feed.Prelude.Int.{ℤ, pos, negsuc, ltb_ℤ, eqb_ℤ, eqb_ℤ_iff, eqb_ℤ_refl}
use pluto_feed.Prelude.Decimal.{
  InInt64, IsIntByte, format_int, parse_int, parse_int-format, format_int-IsIntByte,
}
use pluto_feed.Apierror.{Result, ok, err, fail}
use pluto_feed.Outcome.{Writes}
use pluto_feed.Rates.{Rates, RateRedis, count_at, count_up}
use pluto_feed.Cache.{lookup_key}
use pluto_feed.Cache.Reads.{bytes_eq-false, lookup-drop_other}
use pluto_feed.Middleware.{
  unix_minute, ip_key, expire_first, ip_key_ttl, rate_limit_ip, err_rate_limited,
}
use pluto_feed.Http.{Context, Server, Handler}

-- Redis counts.
abbrev pub AnswersIncr : RateRedis → Type 0
AnswersIncr r = (k : Bytes) (s : Rates) → r.incr k s ≡ (ok (suc (count_at k s)), count_up k s)

-- A request: its address and its time.
abbrev pub Visit : Type 0
Visit = Bytes × ℤ

abbrev pub same_minute : Bytes → ℤ → Visit → Bool
same_minute ip now q = bytes_eq ip q.0 && eqb_ℤ (unix_minute now) (unix_minute q.1)

-- How many of the requests are of this address and minute.
abbrev pub asked : Bytes → ℤ → List Visit → ℕ
asked ip now qs = length (select (same_minute ip now) qs)

abbrev pub passed : RateRedis → Bytes → Result ℕ × Rates → Rates
passed r key (err e, rates) = rates
passed r key (ok n, rates) = expire_first r key n rates

-- The counters after these requests, the latest first.
unfoldable pub visited : RateRedis → List Visit → Rates → Rates
visited r [] s = s
visited r (q ∷ qs) s = passed r (ip_key q.0 q.1) (r.incr (ip_key q.0 q.1) (visited r qs s))

no_colon : (xs ds : Bytes) → All IsIntByte (xs ++ b':' ∷ ds) → ⊥
no_colon [] ds (inl e, h) = absurd (omega (arith, e))
no_colon [] ds (inr d, h) = absurd (omega arith)
no_colon (x ∷ xs) ds h = no_colon xs ds h.1

-- The last colon ends the address.
colon_apart :
    (xs ys ds es : Bytes)
    → All IsIntByte ds
    → All IsIntByte es
    → xs ++ b':' ∷ ds ≡ ys ++ b':' ∷ es
    → (xs ≡ ys) × (ds ≡ es)
colon_apart [] [] ds es hd he e = (refl, cc)
colon_apart [] (y ∷ ys) ds es hd he e =
    let same : ds ≡ ys ++ b':' ∷ es = cc in absurd (no_colon ys es (rw same at hd))
colon_apart (x ∷ xs) [] ds es hd he e =
    let same : xs ++ b':' ∷ ds ≡ es = cc in absurd (no_colon xs ds (rw (← same) at he))
colon_apart (x ∷ xs) (y ∷ ys) ds es hd he e =
    let tails : xs ++ b':' ∷ ds ≡ ys ++ b':' ∷ es = cc in
    let (first, last) = colon_apart xs ys ds es hd he tails in (cc, last)

unix_minute-InInt64 : (t : ℤ) → InInt64 t → InInt64 (unix_minute t)
unfolding unix_minute
unix_minute-InInt64 (pos n) h = omega arith
unix_minute-InInt64 (negsuc n) h = elim (Bool-cases (leb ((n / 1_000_000_000 + 1) / 60) 0)) [
  | inl first ↦ rw first (omega arith)
  | inr later ↦ rw later (omega arith)
]

ip_key-apart :
    (a b : Bytes) (t u : ℤ)
    → InInt64 t
    → InInt64 u
    → ip_key a t ≡ ip_key b u
    → (a ≡ b) × (unix_minute t ≡ unix_minute u)
unfolding ip_key
ip_key-apart a b t u ht hu e =
    let tails : a ++ b':' ∷ format_int (unix_minute t) ≡ b ++ b':' ∷ format_int (unix_minute u) =
      cc in
    let (ips, minutes) =
      colon_apart a b (format_int (unix_minute t)) (format_int (unix_minute u))
        (format_int-IsIntByte (unix_minute t)) (format_int-IsIntByte (unix_minute u)) tails in
    let back : some (unix_minute t) ≡ some (unix_minute u) = cc (
      parse_int-format (unix_minute t) (unix_minute-InInt64 t ht),
      parse_int-format (unix_minute u) (unix_minute-InInt64 u hu),
      ap parse_int minutes,
    ) in
    (ips, cc)

-- Two keys are the same when the addresses and the minutes are.
ip_key-eq :
    (ip : Bytes) (now : ℤ) (q : Visit)
    → InInt64 now
    → InInt64 q.1
    → bytes_eq (ip_key q.0 q.1) (ip_key ip now) ≡ same_minute ip now q
ip_key-eq ip now q h k = elim (Bool-cases (same_minute ip now q)) [
  | inl same ↦ rw (same, key_of (both same)) (bytes_eq_refl (ip_key ip now))
  | inr other ↦ rw other (bytes_eq-false (ip_key q.0 q.1) (ip_key ip now) (apart other))
]
  where
    both : same_minute ip now q ≡ true → (ip ≡ q.0) × (unix_minute now ≡ unix_minute q.1)
    both e = (
      ground (arith, bytes_eq_iff ip q.0, e),
      ground (arith, eqb_ℤ_iff (unix_minute now) (unix_minute q.1), e),
    )

    key_of : (ip ≡ q.0) × (unix_minute now ≡ unix_minute q.1) → ip_key q.0 q.1 ≡ ip_key ip now
    key_of (e, m) = unfold ip_key in rw (e, m) refl

    apart : same_minute ip now q ≡ false → ip_key q.0 q.1 ≢ ip_key ip now
    apart o e =
        let (ips, minutes) = ip_key-apart q.0 ip q.1 now k h e in
        let both_true : same_minute ip now q ≡ true =
          rw (ips, minutes, bytes_eq_refl ip) (eqb_ℤ_refl (unix_minute now)) in
        absurd (cc (o, both_true))

count_at-count_up :
    (j k : Bytes) (s : Rates)
    → count_at k (count_up j s) ≡ (if bytes_eq j k then suc (count_at k s) else count_at k s)
unfolding count_up lookup_key
count_at-count_up j k s = elim (Bool-cases (bytes_eq j k)) [
  | inl same ↦ rw (same, (bytes_eq_iff j k).0 same) refl
  | inr other ↦ rw (other, lookup-drop_other k j s.counters (apart other)) refl
]
  where
    apart : bytes_eq j k ≡ false → j ≢ k
    apart o e = absurd (cc (rw (e, bytes_eq_refl k) at o))

module _ (r : RateRedis) (answers : AnswersIncr r)
    (expires : (k : Bytes) (ttl : ℤ) → Writes (r.expire k ttl) (λ s. s)) where
  expire_first-same : (k : Bytes) (n : ℕ) (s : Rates) → expire_first r k n s ≡ s
  expire_first-same k n s = elim (Bool-cases (n == 1)) [
    | inr later ↦ rw later refl
    | inl first ↦ rw first (elim (expires k ip_key_ttl s) [
      | inl done ↦ rw done refl
      | inr (x, failed) ↦ rw failed refl
    ])
  ]

  visited-count_up :
      (q : Visit) (qs : List Visit) (s : Rates)
      → visited r (q ∷ qs) s ≡ count_up (ip_key q.0 q.1) (visited r qs s)
  unfolding visited
  visited-count_up q qs s =
      rw (answers (ip_key q.0 q.1) (visited r qs s))
        (expire_first-same (ip_key q.0 q.1) _ (count_up (ip_key q.0 q.1) (visited r qs s)))

  count_at-visited :
      (ip : Bytes) (now : ℤ) (qs : List Visit) (s : Rates)
      → InInt64 now
      → All (λ q. InInt64 q.1) qs
      → count_at (ip_key ip now) s ≡ 0
      → count_at (ip_key ip now) (visited r qs s) ≡ asked ip now qs
  count_at-visited ip now [] s h a none_yet = unfold visited in none_yet
  count_at-visited ip now (q ∷ qs) s h a none_yet =
      rw
        (
          visited-count_up q qs s,
          count_at-count_up (ip_key q.0 q.1) (ip_key ip now) (visited r qs s),
          ip_key-eq ip now q h a.0,
          count_at-visited ip now qs s h a.1 none_yet,
        )
        (elim (Bool-cases (same_minute ip now q)) [
          | inl same ↦ rw same refl
          | inr other ↦ rw other refl
        ])

  -- With a Redis that counts, whether or not it sets lifetimes: when an address had no requests in its minute
  -- before, and whatever requests come between, the handler is run for those of the address and minute that
  -- the limit allows, and each further one is answered 429.
  pub rate_limit_ip-minute :
      (limit : ℤ) (qs : List Visit) (next : Handler) (ctx : Context) (s : Server)
      → InInt64 ctx.request.moment.now
      → All (λ q. InInt64 q.1) qs
      → count_at (ip_key ctx.request.client_ip ctx.request.moment.now) s.rates ≡ 0
      → rate_limit_ip (some r) limit next ctx (record s { rates = visited r qs s.rates }) ≡ (
          let after = record s {
            rates = visited r ((ctx.request.client_ip, ctx.request.moment.now) ∷ qs) s.rates;
          } in
          if ltb_ℤ limit (pos (suc (asked ctx.request.client_ip ctx.request.moment.now qs)))
          then (fail err_rate_limited, after)
          else next ctx after)
  unfolding rate_limit_ip
  rate_limit_ip-minute limit qs next ctx s h a none_yet =
      let key = ip_key ctx.request.client_ip ctx.request.moment.now in
      rw
        (
          answers key (visited r qs s.rates),
          expire_first-same key _ (count_up key (visited r qs s.rates)),
          visited-count_up (ctx.request.client_ip, ctx.request.moment.now) qs s.rates,
          count_at-visited ctx.request.client_ip ctx.request.moment.now qs s.rates h a none_yet,
        )
        refl
