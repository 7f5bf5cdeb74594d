-- ===== src/Startup/Filter.antt =====
-- When cmd/server/main.go starts to listen, its filter passes every post, and its limits are on.
use pluto_feed.Prelude.{
  ◌≡◌, refl, sym, ap, ◌∙◌, inl, inr, ◌+◌, ◌<◌, Option, none, some, List, codes,
}
use mathlib.Core.Path.{subst}
use pluto_feed.Prelude.Int.{ℤ, pos, ◌<ℤ◌}
use pluto_feed.Apierror.{Result, ok, err}
use pluto_feed.Outcome.{Reads}
use pluto_feed.Bloom
use pluto_feed.Bloom.{Bloom, FloatMath, load, test, id_bytes, word}
use pluto_feed.Bloom.Bits.{IsValid}
use pluto_feed.Bloom.Membership.{new-IsValid, load-IsValid, load-test}
use pluto_feed.Config
use pluto_feed.Config.{Config, Outside}
use pluto_feed.Config.Precedence.{load-limits}
use pluto_feed.Db.{Db}
use pluto_feed.Sql.{Sql}
use pluto_feed.Http.{Deps, Server}
use pluto_feed.Service.Post.Filter.{live_ids, PassesAll, Filtered}
use pluto_feed.Startup.{
  External, start, ready, deps_of, bloom_or_fail, expected_posts, upload_dir, ◌>>=◌,
}

bind-ok {ℓ κ} :
    {A : Type ℓ} {B : Type κ} (r : Result A) (f : A → Result B) (b : B)
    → (r >>= f) ≡ ok b
    → (a : A) × (r ≡ ok a) × (f a ≡ ok b)
bind-ok (ok a) f b e = (a, refl, e)
bind-ok (err x) f b e = absurd (cc (e))

same_ok {ℓ} : {A : Type ℓ} {a b : A} → ok a ≡ ok b → a ≡ b
same_ok e = cc

module _ {f : FloatMath} (x : External f) (plucks : Reads x.pluck_ids live_ids) where
  made_bloom : (o : Option Bloom) (b : Bloom) → bloom_or_fail x o ≡ ok b → o ≡ some b
  made_bloom (some c) b e = ap some (same_ok e)
  made_bloom none b e = absurd (cc (e))

  -- What was plucked is loaded.
  plucked-Passes :
      (b : Bloom) (ids : List ℤ) (db : Db)
      → IsValid b
      → (x.pluck_ids db).0 ≡ ok ids
      → PassesAll (live_ids (x.pluck_ids db).1) (some (load b ids))
  plucked-Passes b ids db valid e = elim (plucks db) [
    | inr (z, failed) ↦ absurd (cc (e, ap (λ (r : Result (List ℤ) × Db). r.0) failed))
    | inl done ↦
        let ids_are : live_ids db ≡ ids =
          same_ok (sym (ap (λ (r : Result (List ℤ) × Db). r.0) done) ∙ e) in
        rw (done, ← ids_are)
          (load-IsValid b (live_ids db) valid, λ id among. load-test b (live_ids db) id valid among)
  ]

  abbrev Sound : Deps × Server → Type 0
  Sound p = Filtered p.1.world × (pos 0 <ℤ p.0.rate_ip_per_min) × (pos 0 <ℤ p.0.rate_user_per_min)

  ready-Sound :
      (o : Outside) (base : Deps) (s : Server) (cfg : Config) (sql : Sql) (b : Bloom) (ids : List ℤ)
      (end : Deps × Server)
      → IsValid b
      → Config.load o (codes "config.yaml") ≡ ok cfg
      → (x.pluck_ids s.world.db).0 ≡ ok ids
      → ok (deps_of x cfg sql base, ready x base s b ids) ≡ ok end
      → Sound end
  ready-Sound o base s cfg sql b ids end valid configured plucked e =
      let limits = load-limits o (codes "config.yaml") cfg configured in
      subst Sound (same_ok e) (plucked-Passes b ids s.world.db valid plucked, limits.0, limits.1)

  -- When its number of bits is positive and below 2^64 - 7, and the plucked ids are those of the posts: a server
  -- that starts has a filter that passes every post, and limits both kinds of requests.
  pub start-Filtered :
      (o : Outside) (base d : Deps) (s t : Server)
      → 0 < f.optimal_bits expected_posts x.fp_rate
      → f.optimal_bits expected_posts x.fp_rate + 7 < word
      → start x o base s ≡ ok (d, t)
      → Filtered t.world × (pos 0 <ℤ d.rate_ip_per_min) × (pos 0 <ℤ d.rate_user_per_min)
  unfolding start
  start-Filtered o base d s t positive fits e =
      let (cfg, configured, e1) = bind-ok (Config.load o (codes "config.yaml")) _ (d, t) e in
      let (sql, opened, e2) = bind-ok (x.open_db cfg.mysql_dsn) _ (d, t) e1 in
      let (raw, connected, e3) = bind-ok x.sql_db _ (d, t) e2 in
      let (b, made, e4) =
        bind-ok (bloom_or_fail x (Bloom.new f expected_posts x.fp_rate)) _ (d, t) e3 in
      let (ids, plucked, e5) = bind-ok ((x.pluck_ids s.world.db).0) _ (d, t) e4 in
      let (dir, there, e6) = bind-ok ((base.disk.mkdir_all upload_dir s.files).0) _ (d, t) e5 in
      let valid =
        (new-IsValid f expected_posts x.fp_rate positive fits
          (made_bloom (Bloom.new f expected_posts x.fp_rate) b made)).0 in
      ready-Sound o base s cfg sql b ids (d, t) valid configured plucked e6
