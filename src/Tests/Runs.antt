-- ===== src/Tests/Runs.antt =====
-- One like on its way: the request, a round of the relay, and the delivery.
use pluto_feed.Prelude.{
  ℕ, ◌≡◌, refl, true, false, none, [], ◌∷◌, ◌==◌, any, All, Bytes, bytes_eq, codes,
}
use pluto_feed.Prelude.Int.{ℤ, pos, eqb_ℤ, ◌+ℤ◌}
use pluto_feed.Prelude.Decimal.{format_uint, parse_uint, digits_onto, parse_magnitude, parse_digits}
use pluto_feed.Model.{Post, User}
use pluto_feed.Db.{
  Db, insert_ignore_like, insert_event, pending_events, mark_events, add_post_count,
  insert_ignore_processed,
}
use pluto_feed.World.{World}
use pluto_feed.Cache.{Kv}
use pluto_feed.Mq.{Fate, publish}
use pluto_feed.Repository.Interaction.{like, like_body, enqueue_count_event}
use pluto_feed.Repository.Outbox.{enqueue_in_tx, fetch_pending, mark_processed}
use pluto_feed.Worker.{
  relay_once, publish_all, consume_one, handle_delivery, apply, apply_body, allowed_fields,
  invalidate_post,
}
use pluto_feed.Counts.{Balanced, likes, comments, rows, unapplied}
use pluto_feed.Counts.Runs.{
  System, Reach, here, then_step, liked, relayed, consumed, with_db, after_relay, after_consume,
  Consistent, Settled, counts-Reach, counts-Settled,
}
use pluto_feed.Tests.Memory.{mem_sql, mem_laws, mem_codec, mem_codec-RoundTrips}

abbrev pub a_post : ℤ → ℤ → ℤ → Post
a_post id user_id created_at = record {
  id = id;
  user_id = user_id;
  image_urls = codes "/u/a.png" ∷ [];
  content = codes "hello";
  tags = [];
  like_count = pos 0;
  comment_count = pos 0;
  created_at = created_at;
  deleted_at = none;
}

abbrev pub a_user : ℤ → Bytes → User
a_user id nickname = record {
  id = id;
  nickname = nickname;
  password_hash = codes "secret1";
  avatar_url = [];
  bio = [];
  following_count = pos 0;
  follower_count = pos 0;
  created_at = pos 1;
}

abbrev pub first_db : Db
first_db = record {
  users = a_user (pos 1) (codes "ann") ∷ a_user (pos 2) (codes "bob") ∷ [];
  posts = a_post (pos 1) (pos 1) (pos 10) ∷ [];
  likes = [];
  comments = [];
  follows = [];
  outbox = [];
  processed_events = [];
  next_user = 3;
  next_post = 2;
  next_comment = 1;
  next_event = 1;
  clock = pos 20;
}

abbrev pub first_kv : Kv
first_kv = record { strings = []; zsets = []; now = pos 100 }

abbrev pub first_world : World
first_world = record { db = first_db; kv = first_kv; bloom = none }

abbrev start : System
start = record {
  world = first_world;
  channel = record { queue = []; confirms = [] };
  dead_letters = [];
}

start-Consistent : Consistent mem_codec start
unfolding unapplied rows ◌+ℤ◌
start-Consistent = (
  record {
    balanced = (balanced_post, tt);
    distinct_events = tt;
    events_below = tt;
    processed_below = tt;
    distinct_likes = tt;
    distinct_comments = tt;
    comments_below = tt;
  },
  tt,
)
  where
    balanced_post : Balanced mem_codec first_db (a_post (pos 1) (pos 1) (pos 10))
    balanced_post likes = refl
    balanced_post comments = refl

-- The broker stores every message and confirms it.
abbrev good_fate : ℕ → Fate
good_fate i = record {
  send_fails = false;
  stored = true;
  closed = false;
  arrived = record { message_id = []; ack = true } ∷ [];
}

abbrev after_like : System
after_like = with_db (like mem_sql mem_codec (pos 2) (pos 1) start.world.db).1 start

abbrev after_round : System
after_round =
    after_relay
      (relay_once mem_sql good_fate
        (record { db = after_like.world.db; channel = after_like.channel })).1
      after_like

abbrev at_rest : System
at_rest =
    after_consume
      (consume_one mem_sql mem_codec none (record {
        world = after_round.world;
        queue = after_round.channel.queue;
        dead_letters = after_round.dead_letters;
      }))
      after_round

at_rest-Reach : Reach mem_sql mem_codec none start at_rest
at_rest-Reach =
    then_step (then_step (then_step here (liked (pos 2) (pos 1))) (relayed good_fate)) consumed

counts-Reach_example : All (Balanced mem_codec after_round.world.db) after_round.world.db.posts
counts-Reach_example =
    counts-Reach mem_laws mem_codec-RoundTrips none start start-Consistent after_round
      (then_step (then_step here (liked (pos 2) (pos 1))) (relayed good_fate))

All-processed :
    All (λ e. any (◌==◌ e.id) at_rest.world.db.processed_events ≡ true) at_rest.world.db.outbox
unfolding digits_onto parse_magnitude parse_digits like like_body insert_ignore_like
    enqueue_count_event enqueue_in_tx bytes_eq insert_event relay_once fetch_pending pending_events
    mark_processed mark_events publish_all publish consume_one handle_delivery apply apply_body
    allowed_fields invalidate_post add_post_count insert_ignore_processed format_uint parse_uint
    eqb_ℤ
All-processed = (refl, tt)

counts-Settled_example : All (Settled at_rest.world.db) at_rest.world.db.posts
counts-Settled_example =
    counts-Settled mem_laws mem_codec-RoundTrips none start start-Consistent at_rest at_rest-Reach
      All-processed
