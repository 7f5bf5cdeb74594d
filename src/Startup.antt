-- ===== src/Startup.antt =====
-- cmd/server/main.go: from the configuration to the dependencies of the router. Opening MySQL and Redis, and
-- the float of the filter's rate, are parameters; a failure ends the process.
pub mod Filter
use pluto_feed.Prelude.{ℕ, Option, none, some, List, Bytes, codes}
use pluto_feed.Prelude.Int.{ℤ}
use pluto_feed.Apierror.{Error, other, Result, ok, err, Act}
use pluto_feed.Db.{Db}
use pluto_feed.Sql.{Sql}
use pluto_feed.Cache.{Redis}
use pluto_feed.Rates.{RateRedis}
use pluto_feed.Bloom
use pluto_feed.Bloom.{Bloom, FloatMath, load}
use pluto_feed.Jwtutil.{Manager}
use pluto_feed.Config
use pluto_feed.Config.{Config, Outside}
use pluto_feed.Http.{Deps, Server}

infixl 5 ◌>>=◌
abbrev pub ◌>>=◌ {ℓ κ} : {A : Type ℓ} {B : Type κ} → Result A → (A → Result B) → Result B
ok a >>= f = f a
err e >>= f = err e

-- `gorm.Open` and `db.DB()`, `Pluck("id")` over the posts, and `cache.NewRedis` with its client, which is never
-- nil.
pub record External (f : FloatMath) : Type 1 where
  pub open_db : Bytes → Result Sql
  pub sql_db : Result (Unit {0})
  pub pluck_ids : Act Db (List ℤ)
  pub new_redis : Bytes → Redis
  pub client : Bytes → RateRedis
  pub fp_rate : f.Float

abbrev pub upload_dir : Bytes
upload_dir = codes "data/uploads"

abbrev pub invalid_bloom : Error
invalid_bloom = other 90

abbrev pub expected_posts : ℕ
expected_posts = 1_000_000

abbrev pub manager_of : Config → Manager
manager_of cfg = record {
  secret = cfg.jwt_secret;
  access_ttl = cfg.jwt_access_ttl;
  refresh_ttl = cfg.jwt_refresh_ttl;
}

module _ {f : FloatMath} (x : External f) where
  abbrev pub bloom_or_fail : Option Bloom → Result Bloom
  bloom_or_fail none = err invalid_bloom
  bloom_or_fail (some b) = ok b

  -- `base` has what the configuration does not choose: codecs, formats, bcrypt and the like.
  abbrev pub deps_of : Config → Sql → Deps → Deps
  deps_of cfg sql base = record base {
    sql = sql;
    cache = some (x.new_redis cfg.redis_addr);
    manager = manager_of cfg;
    rdb = some (x.client cfg.redis_addr);
    rate_ip_per_min = cfg.rate_ip_per_min;
    rate_user_per_min = cfg.rate_user_per_min;
    upload_dir = upload_dir;
  }

  -- The server when it starts to listen.
  abbrev pub ready : Deps → Server → Bloom → List ℤ → Server
  ready base s b ids = record s {
    world = record s.world { db = (x.pluck_ids s.world.db).1; bloom = some (load b ids) };
    files = (base.disk.mkdir_all upload_dir s.files).1;
  }

  unfoldable pub start : Outside → Deps → Server → Result (Deps × Server)
  start o base s = do
    cfg ← Config.load o (codes "config.yaml")
    sql ← x.open_db cfg.mysql_dsn
    raw ← x.sql_db
    b ← bloom_or_fail (Bloom.new f expected_posts x.fp_rate)
    ids ← (x.pluck_ids s.world.db).0
    made ← (base.disk.mkdir_all upload_dir s.files).0
    ok (deps_of cfg sql base, ready base s b ids)
