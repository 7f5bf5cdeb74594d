-- ===== src/Tests/Reads.antt =====
-- Reading, deleting and ranking posts, a failed login, bad ids, and a relay that drains the outbox.
use pluto_feed.Prelude.{
  ℕ, ◌≡◌, refl, Bool, true, false, none, some, List, [], ◌∷◌, bytes_eq, codes, arith, All, is_utf8,
  if◌then◌else◌, ◌&&◌,
}
use mathlib.Core.Path.{subst}
use pluto_feed.Prelude.Int.{pos, eqb_ℤ, ◌+ℤ◌}
use pluto_feed.Prelude.Decimal.{InInt64, parse_int, parse_magnitude, parse_digits}
use pluto_feed.Apierror.{ok, err, not_found, bad_request, unauthorized, fail}
use pluto_feed.Model
use pluto_feed.Model.{User}
use pluto_feed.Db.{find_post, find_user, find_nickname}
use pluto_feed.Repository.Post.{get_by_id, soft_delete}
use pluto_feed.Cache.{Member, HotItem, value_at, lookup_key, merge_members, sort_hot, del}
use pluto_feed.Cache.Ranking.{
  Ordered, count, score_of, heat_of, sort_hot-Ordered, score_of-merge_members,
}
use pluto_feed.Mq.{Fate}
use pluto_feed.Worker.{Relay}
use pluto_feed.Worker.Drains.{AnswersOutbox, Works, backlog, relay_rounds, relay_rounds-backlog}
use pluto_feed.Http.{Handler}
use pluto_feed.Handler.Refuses.{
  id_handlers, user_handlers, id_handlers-bad_request, user_handlers-unauthorized,
}
use pluto_feed.Service.Auth.{login, wrong_login}
use pluto_feed.Service.Auth.Login.{login-wrong_login}
use pluto_feed.Service.Feed.{list_hot, load_hot, hot_views, fill_liked}
use pluto_feed.Service.Cursor.{clamp_limit}
use pluto_feed.Service.Views.{new_post_view}
use pluto_feed.Repository.User.{get_by_id as get_user}
use pluto_feed.Repository.Interaction.{liked_post_ids}
use pluto_feed.Prelude.Int.{ltb_ℤ}
use pluto_feed.Prelude.Decimal.{format_int, digits_onto}
use pluto_feed.Cache.{get_json, set_json, hot_top_n, collect, put_value, accumulate, insert_hot}
use pluto_feed.Service.Feed.Hot.{Impersonal, list_hot-Impersonal}
use pluto_feed.Service.Post.{get, delete}
use pluto_feed.Service.Post.Coherent.{Coherent, PostTexts, UserTexts}
use pluto_feed.Tests.Codecs.{
  post_codec, post_codec-PostsBack, user_codec, user_codec-UsersBack, view_codec,
  view_codec-KeepsLikes,
}
use pluto_feed.Cache.Keys.{hot_result_key}
use pluto_feed.World.{World}
use pluto_feed.Service.Post.{envelope_of}
use pluto_feed.Service.Post.Reads.{AnswersReads, Gives, seen, get-seen}
use pluto_feed.Service.Post.Deleted.{deletion, delete-deletion, get-deleted}
use pluto_feed.Tests.Memory.{mem_sql, mem_redis, mem_redis_laws}
use pluto_feed.Tests.Runs.{first_db, first_kv, first_world, a_post, a_user}
use pluto_feed.Tests.Events.{an_event}
use pluto_feed.Tests.Tokens.{redis-Answers, digest, uid_json, clear_jwt, clear_bcrypt, manager, at}
use pluto_feed.Tests.Http.{deps, context, first_server}

mem-AnswersReads : AnswersReads mem_sql
mem-AnswersReads = record {
  post_answer = λ id db. refl;
  user_answer = λ id db. refl;
  likes_answer = λ post_id uid db. refl;
}

first-Coherent : Coherent post_codec-PostsBack user_codec-UsersBack first_db first_kv
unfolding value_at lookup_key find_post find_user is_utf8 eqb_ℤ
first-Coherent = (
  λ id small b e. absurd (cc (e)),
  λ id small b e. absurd (cc (e)),
  λ id. post_texts (eqb_ℤ (pos 1) id),
  λ id. user_texts (eqb_ℤ (pos 1) id) (eqb_ℤ (pos 2) id),
)
  where
    post_texts :
        (b : Bool)
        → PostTexts
            (envelope_of (if b && true then some (a_post (pos 1) (pos 1) (pos 10)) else none)).value
    post_texts true = (refl, (refl, tt), tt)
    post_texts false = tt

    user_texts :
        (b c : Bool)
        → UserTexts
            (envelope_of (
              if b
              then some (a_user (pos 1) (codes "ann"))
              else if c
              then some (a_user (pos 2) (codes "bob"))
              else none)).value
    user_texts true c = (refl, refl, refl)
    user_texts false true = (refl, refl, refl)
    user_texts false false = tt

abbrev HasAuthor : Model.Post → Type 0
HasAuthor p = InInt64 p.user_id × (u : User) × (find_user p.user_id first_db ≡ some u)

first_author : (p : Model.Post) → find_post (pos 1) first_db ≡ some p → HasAuthor p
unfolding find_post find_user eqb_ℤ
first_author p e = subst HasAuthor (same e) (omega arith, a_user (pos 1) (codes "ann"), refl)
  where
    same : some (a_post (pos 1) (pos 1) (pos 10)) ≡ some p → a_post (pos 1) (pos 1) (pos 10) ≡ p
    same h = cc

no_filter : (p : Model.Post) → find_post (pos 1) first_db ≡ some p → true ≡ true
no_filter p e = refl

get-seen_example :
    Gives post_codec-PostsBack user_codec-UsersBack
      (seen first_db (pos 2) (pos 1))
      first_world
      (get mem_sql post_codec user_codec (some mem_redis) (pos 2) (pos 1) first_world)
get-seen_example =
    get-seen post_codec-PostsBack user_codec-UsersBack (some mem_redis) mem_redis_laws
      mem-AnswersReads (pos 2) (pos 1) first_world (omega arith) first-Coherent first_author
      no_filter

delete-deletion_example :
    delete mem_sql (some mem_redis) (pos 2) (pos 1) first_world
    ≡ deletion (pos 2) (pos 1) first_world (find_post (pos 1) first_db)
delete-deletion_example =
    delete-deletion mem-AnswersReads (λ id db. refl) redis-Answers (pos 2) (pos 1) first_world

deleted_by_author : (delete mem_sql (some mem_redis) (pos 1) (pos 1) first_world).0 ≡ ok tt
unfolding delete get_by_id find_post eqb_ℤ soft_delete del
deleted_by_author = refl

get-deleted_example :
    (get mem_sql post_codec user_codec
      (some mem_redis)
      (pos 2)
      (pos 1)
      (delete mem_sql (some mem_redis) (pos 1) (pos 1) first_world).1).0
    ≡ err not_found
get-deleted_example =
    get-deleted mem-AnswersReads (λ id db. refl) redis-Answers post_codec user_codec (pos 2) (pos 1)
      (pos 1) first_world deleted_by_author

-- A codec of rankings without posts.
-- A ranking of one post, which user 1 likes, and what is cached of it.
abbrev hot_world : World
hot_world = record first_world {
  db = record first_db {
    likes = record { post_id = pos 1; user_id = pos 1; created_at = pos 11 } ∷ [];
  };
  kv = record first_kv {
    zsets = (codes "hot:", record { name = codes "1"; score = pos 2 } ∷ []) ∷ [];
  };
}

abbrev ranked : World
ranked = (list_hot mem_sql (λ t. []) view_codec (some mem_redis) (pos 1) (pos 10) hot_world).1

cached_ranking : value_at (hot_result_key (pos 10)) ranked.kv ≡ some (0 ∷ 0 ∷ 1 ∷ [])
unfolding list_hot load_hot hot_views fill_liked get_json set_json hot_top_n collect lookup_key
    value_at put_value merge_members accumulate sort_hot insert_hot parse_int get_by_id get_user
    find_post find_user eqb_ℤ ltb_ℤ ◌+ℤ◌ bytes_eq clamp_limit new_post_view liked_post_ids
    hot_result_key format_int digits_onto parse_magnitude parse_digits
cached_ranking = refl

first-Impersonal : Impersonal view_codec hot_world.kv
unfolding value_at lookup_key
first-Impersonal limit b items e = absurd (cc (e))

list_hot-Impersonal_example : Impersonal view_codec ranked.kv
list_hot-Impersonal_example =
    list_hot-Impersonal view_codec view_codec-KeepsLikes mem_redis_laws mem_sql (λ t. []) (pos 1)
      (pos 10) hot_world first-Impersonal

abbrev items : List HotItem
items =
    record { post_id = pos 1; score = pos 2 }
    ∷ record { post_id = pos 2; score = pos 2 }
    ∷ record { post_id = pos 3; score = pos 5 }
    ∷ []

sort_hot-Ordered_example :
    Ordered (sort_hot items) × ((p : HotItem → Bool) → count p (sort_hot items) ≡ count p items)
sort_hot-Ordered_example = sort_hot-Ordered items

abbrev members : List Member
members =
    record { name = codes "2"; score = pos 3 } ∷ record { name = codes "x"; score = pos 1 } ∷ []

score_of-merge_members_example :
    score_of (pos 2) (merge_members members items)
    ≡ score_of (pos 2) items +ℤ heat_of (pos 2) members
score_of-merge_members_example = score_of-merge_members (pos 2) members items

wrong_password : bytes_eq (codes "secret1") (codes "guess") ≡ false
unfolding bytes_eq
wrong_password = refl

login-wrong_login_example :
    login digest uid_json
      (some mem_redis)
      mem_sql
      clear_bcrypt
      clear_jwt
      manager
      (λ b. b)
      (at 8)
      (codes "ann")
      (codes "guess")
      first_world
    ≡ (err wrong_login, first_world)
unfolding bytes_eq find_nickname
login-wrong_login_example =
    login-wrong_login digest uid_json (some mem_redis) mem_sql clear_bcrypt clear_jwt manager
      (λ b. b) (at 8) (codes "ann") (codes "guess") first_world refl refl refl

id_handlers-bad_request_example :
    All
      (λ (h : Handler).
        h (context (some (pos 1)) (codes "0")) first_server ≡ (fail bad_request, first_server))
      (id_handlers deps)
unfolding parse_int parse_magnitude parse_digits
id_handlers-bad_request_example =
    id_handlers-bad_request deps (pos 1) (context (some (pos 1)) (codes "0")) first_server refl
      (omega arith)

user_handlers-unauthorized_example :
    All
      (λ (h : Handler).
        h (context none (codes "1")) first_server ≡ (fail unauthorized, first_server))
      (user_handlers deps)
user_handlers-unauthorized_example =
    user_handlers-unauthorized deps (context none (codes "1")) first_server refl

abbrev fine : Fate
fine = record {
  send_fails = false;
  stored = true;
  closed = false;
  arrived = record { message_id = codes "1"; ack = true } ∷ [];
}

fine-Works : (i j : ℕ) → Works fine
fine-Works i j = (refl, refl, (record { message_id = codes "1"; ack = true }, refl, refl))

mem-AnswersOutbox : AnswersOutbox mem_sql
mem-AnswersOutbox = record { pending_answer = λ limit db. refl; mark_answer = λ ids db. refl }

abbrev waiting : Relay
waiting = record {
  db = record first_db { outbox = an_event 1 ∷ an_event 2 ∷ [] };
  channel = record { queue = []; confirms = [] };
}

relay_rounds-backlog_example : backlog (relay_rounds mem_sql (λ i j. fine) 1 waiting).db ≡ 0
relay_rounds-backlog_example =
    relay_rounds-backlog mem-AnswersOutbox (λ i j. fine) 1 waiting fine-Works refl (omega arith)
