-- ===== src/Tests/Starts.antt =====
-- A server that starts, and a post that is published on it.
use pluto_feed.Prelude.{◌≡◌, refl, inl, arith, Bool, false, [], ◌∷◌, codes, replicate}
use pluto_feed.Prelude.Int.{pos, ◌<ℤ◌}
use pluto_feed.Apierror.{ok}
use pluto_feed.Bloom.{Bloom, FloatMath, new}
use pluto_feed.Http.{Server}
use pluto_feed.Service.Post.{CreateInput, create}
use pluto_feed.Service.Post.Filter.{live_ids, Filtered, create-Filtered}
use pluto_feed.Startup.{External, start, deps_of, ready}
use pluto_feed.Startup.Filter.{start-Filtered}
use pluto_feed.Tests.Memory.{mem_sql, mem_laws, mem_redis, queries}
use pluto_feed.Tests.Parts.{outside, loaded, load-loaded}
use pluto_feed.Tests.Http.{mem_rates, deps, first_server}

-- A filter of 64 bits and three hashes.
abbrev floats : FloatMath
floats = record {
  Float = Bool;
  le_zero = λ p. false;
  ge_one = λ p. false;
  optimal_bits = λ n p. 64;
  optimal_hashes = λ m n. 3;
}

abbrev external : External floats
external = record {
  open_db = λ dsn. ok mem_sql;
  sql_db = ok tt;
  pluck_ids = queries live_ids;
  new_redis = λ addr. mem_redis;
  client = λ addr. mem_rates;
  fp_rate = false;
}

abbrev empty_filter : Bloom
empty_filter = record { bits = replicate 8 0; m = 64; k = 3 }

abbrev started : Server
started = ready external deps first_server empty_filter (pos 1 ∷ [])

starts :
    start external outside deps first_server ≡ ok (deps_of external loaded mem_sql deps, started)
unfolding start new
starts = rw load-loaded refl

start-Filtered_example :
    Filtered started.world
    × (pos 0 <ℤ (deps_of external loaded mem_sql deps).rate_ip_per_min)
    × (pos 0 <ℤ (deps_of external loaded mem_sql deps).rate_user_per_min)
start-Filtered_example =
    start-Filtered external (λ db. inl refl) outside deps (deps_of external loaded mem_sql deps)
      first_server started (omega arith) (omega arith) starts

started-Filtered : Filtered started.world
started-Filtered =
    (start-Filtered external (λ db. inl refl) outside deps (deps_of external loaded mem_sql deps)
      first_server started (omega arith) (omega arith) starts).0

abbrev a_post_input : CreateInput
a_post_input = record { image_urls = codes "/u/b.png" ∷ []; content = codes "hi"; tags = [] }

create-Filtered_example : Filtered (create mem_sql (pos 2) a_post_input started.world).1
create-Filtered_example =
    create-Filtered mem_laws (pos 2) a_post_input started.world started-Filtered
