-- ===== src/Tests/Http.antt =====
-- A server in memory, and requests to it.
use pluto_feed.Prelude.{
  Option, none, some, [], ◌∷◌, Bytes, codes, length, suc, ℕ, ◌-◌, Bool, false, ltb,
}
use pluto_feed.Prelude.Int.{ℤ, pos, pos_part}
use pluto_feed.Apierror.{ok}
use pluto_feed.Cache.{Json}
use pluto_feed.Disk.{Disk, create_file, append_file}
use pluto_feed.Rates.{Scores, RateRedis, count_at, count_up, hits_at, slide}
use pluto_feed.Http.{Request, Context, Server, Binders, Deps}
use pluto_feed.Service.Upload.{Chance}
use pluto_feed.Tests.Memory.{mem_sql, mem_redis, mem_codec, runs, writes}
use pluto_feed.Tests.Runs.{first_world}
use pluto_feed.Tests.Tokens.{digest, uid_json, clear_jwt, clear_bcrypt, manager, at}

abbrev no_json : {A : Type 0} → Json A
no_json = record { marshal = λ a. none; unmarshal = λ b. none }

abbrev pub mem_disk : Disk
mem_disk = record {
  mkdir_all = λ dir. writes (λ files. files);
  create = λ path. writes (create_file path);
  write = λ path content. writes (append_file path content);
}

-- Times after 1970 as their own scores, and a bound as the number that it is.
abbrev below_bound : Bytes → ℕ → Bool
below_bound (b ∷ _) score = ltb score b
below_bound [] score = false

abbrev scores : Scores
scores = record {
  seconds = pos_part;
  bound = λ now window. (now - pos_part window) ∷ [];
  below = below_bound;
}

abbrev pub mem_rates : RateRedis
mem_rates = record {
  scores = scores;
  incr = λ k. runs (λ s. (suc (count_at k s), count_up k s));
  expire = λ k ttl. writes (λ s. s);
  slide_exec = λ k bound hit ttl. runs (λ s.
      (length (hits_at k (slide below_bound k bound hit s)), slide below_bound k bound hit s));
}

abbrev pub no_binders : Binders
no_binders = record {
  register = λ b. none;
  login = λ b. none;
  refresh = λ b. none;
  logout = λ b. none;
  comment = λ b. none;
  post = λ b. none;
}

abbrev pub sniff : Bytes → Bytes
sniff b = codes "image/png"

abbrev pub deps : Deps
deps = record {
  sql = mem_sql;
  cache = some mem_redis;
  event_json = mem_codec;
  uid_json = uid_json;
  post_json = no_json;
  user_json = no_json;
  hot_json = no_json;
  format_minute = λ t. [];
  trim_space = λ b. b;
  digest = digest;
  bcrypt = clear_bcrypt;
  jwt = clear_jwt;
  manager = manager;
  disk = mem_disk;
  detect_content_type = sniff;
  binders = no_binders;
  rdb = some mem_rates;
  rate_ip_per_min = pos 300;
  rate_user_per_min = pos 2;
  upload_dir = codes "data";
}

abbrev pub chance : Chance
chance = record {
  random = ok (10 ∷ 255 ∷ []);
  month = codes "202501";
  month_later = codes "202501";
}

abbrev pub request : Bytes → Request
request id = record {
  authorization = codes "Bearer x";
  client_ip = codes "10.0.0.1";
  param_id = id;
  query = λ k. [];
  body = [];
  form_file = λ n. none;
  moment = at 8;
  later = pos 101;
  chance = chance;
}

abbrev pub context : Option ℤ → Bytes → Context
context uid id = record { request = request id; uid = uid }

abbrev pub first_server : Server
first_server = record {
  world = first_world;
  files = [];
  rates = record { counters = []; windows = [] };
}
