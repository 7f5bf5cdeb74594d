-- ===== src/Counts/Runs.antt =====
-- The runs of the server and the worker together: requests that publish and delete posts and write likes and
-- comments, rounds of the relay, deliveries that are handled once or, after a crash, again, and whatever else
-- the program does to the tables of users and follows, the clock, the cache and the filter. Each transaction
-- is one step, so two of them never overlap: runs in which two deletions of one comment overlap, which
-- can both write an event of -1, are not among these.
use pluto_feed.Prelude.{ℕ, ◌≡◌, refl, sym, ap, ◌∙◌, true, Option, List, [], ◌∷◌, ◌==◌, any, All}
use mathlib.Core.Path.{subst}
use pluto_feed.Prelude.Int.{ℤ, pos, ◌+ℤ◌, +ℤ_zero}
use pluto_feed.Apierror.{Result, ok, err}
use pluto_feed.Model.{Comment, Outbox, Post, User, Follow}
use pluto_feed.Db.{Db}
use pluto_feed.Sql.{Sql, SqlLaws}
use pluto_feed.Repository.Outbox.{Codec, RoundTrips}
use pluto_feed.Repository.Interaction.{like, unlike, create_comment, delete_comment}
use pluto_feed.Bloom.{Bloom}
use pluto_feed.Cache.{Redis, Kv}
use pluto_feed.World.{World}
use pluto_feed.Mq.{Delivery, Channel, Fate}
use pluto_feed.Worker.{relay_once, Relay, handle_delivery, Consumer, consume_one, settle}
use pluto_feed.Counts.{Ledger, Balanced, Field, likes, comments, count_of, rows, unapplied}
use pluto_feed.Counts.Events.{All-mono}
use pluto_feed.Counts.Keeps.{
  Grows, Carried, Keeps, Keeps-like, Keeps-unlike, Keeps-create_comment, Keeps-delete_comment,
  Keeps-handle,
}
use pluto_feed.Counts.System.{
  Ledger-elsewhere, Keeps-relay, Unreferred, Keeps-create_post, Keeps-soft_delete,
}
use pluto_feed.Repository.Post.{create, soft_delete}

pub record System : Type 0 where
  pub world : World
  pub channel : Channel
  pub dead_letters : List Delivery

abbrev pub with_db : Db → System → System
with_db db s = record s { world = record s.world { db = db } }

abbrev pub after_relay : Relay → System → System
after_relay r s = record s { world = record s.world { db = r.db }; channel = r.channel }

abbrev pub after_consume : Consumer → System → System
after_consume c s = record {
  world = c.world;
  channel = record s.channel { queue = c.queue };
  dead_letters = c.dead_letters;
}

module _ (sql : Sql) (json : Codec) (cache : Option Redis) where
  -- `crashed` handles the first delivery and loses the acknowledgement, so the broker keeps it.
  pub data Step (s : System) : System → Type 0 where
    liked : (uid post_id : ℤ) → Step s (with_db (like sql json uid post_id s.world.db).1 s)
    unliked : (uid post_id : ℤ) → Step s (with_db (unlike sql json uid post_id s.world.db).1 s)
    commented : (c : Comment) → Step s (with_db (create_comment sql json c s.world.db).1 s)
    erased : (id : ℤ) → Step s (with_db (delete_comment sql json id s.world.db).1 s)
    relayed :
        (fate : ℕ → Fate)
        → Step s (
            after_relay (relay_once sql fate (record { db = s.world.db; channel = s.channel })).1 s)
    consumed : Step s (
        after_consume
          (consume_one sql json cache
            (record { world = s.world; queue = s.channel.queue; dead_letters = s.dead_letters }))
          s)
    crashed :
        (d : Delivery) (rest : List Delivery)
        → s.channel.queue ≡ d ∷ rest
        → Step s (record s { world = (handle_delivery sql json cache d s.world).1 })
    -- A post is published with counts of zero, under an id to which no row and no event refers: ids are handed
    -- out in turn, and likes and comments are made on posts that are there.
    posted :
        (p : Post)
        → ((f : Field) → count_of f p ≡ pos 0)
        → Unreferred json s.world.db (pos s.world.db.next_post)
        → Step s (with_db (create sql p s.world.db).1 s)
    deleted : (id : ℤ) → Step s (with_db (soft_delete sql id s.world.db).1 s)
    elsewhere :
        (users : List User) (follows : List Follow) (clock : ℤ) (kv : Kv) (bloom : Option Bloom)
        → Step s (record s {
          world = record {
            db = record s.world.db { users = users; follows = follows; clock = clock };
            kv = kv;
            bloom = bloom;
          };
        })

  pub data Reach (start : System) : System → Type 0 where
    here : Reach start start
    then_step : {s t : System} → Reach start s → Step s t → Reach start t

-- The tables balance, and the broker's queue holds events of the outbox.
abbrev pub Consistent : Codec → System → Type 0
Consistent json s = Ledger json s.world.db × All (Carried s.world.db.outbox) s.channel.queue

abbrev pub Settled : Db → Post → Type 0
Settled db p =
    (p.like_count ≡ pos (rows likes p.id db)) × (p.comment_count ≡ pos (rows comments p.id db))

-- The queue stays good when events are only added.
Carried-on :
    (es fs : List Outbox) (ds : List Delivery)
    → Grows es fs
    → All (Carried es) ds
    → All (Carried fs) ds
Carried-on es fs ds g =
    All-mono (Carried es) (Carried fs) ds (λ d c id parsed. g id d.body (c id parsed))

module _ {json : Codec} (s : System) (h : Consistent json s) where
  Consistent-write : (db : Db) → Keeps json s.world.db db → Consistent json (with_db db s)
  Consistent-write db k = (k.0, Carried-on s.world.db.outbox db.outbox s.channel.queue k.1 h.1)

  module _ {sql : Sql} (laws : SqlLaws sql) (json_ok : RoundTrips json) (cache : Option Redis) where
    Consistent-consume :
        (queue : List Delivery)
        → All (Carried s.world.db.outbox) queue
        → let c =
            consume_one sql json cache
              (record { world = s.world; queue = queue; dead_letters = s.dead_letters }) in
          Consistent json (after_consume c s)
    unfolding consume_one
    Consistent-consume [] q = (h.0, tt)
    Consistent-consume (d ∷ rest) q =
        let k = Keeps-handle laws json_ok h.0 cache d s.world refl q.0 in
        settled (handle_delivery sql json cache d s.world) k (
          Carried-on s.world.db.outbox (handle_delivery sql json cache d s.world).1.db.outbox rest
            k.1 q.1)
      where
        settled :
            (r : Result (Unit {0}) × World)
            → Keeps json s.world.db r.1.db
            → All (Carried r.1.db.outbox) rest
            → Consistent json (after_consume (settle sql json cache d rest s.dead_letters r) s)
        settled (ok _, w) k q = (k.0, q)
        settled (err _, w) k q = (k.0, q)

    Consistent-crash :
        (d : Delivery) (rest : List Delivery)
        → s.channel.queue ≡ d ∷ rest
        → Consistent json (record s { world = (handle_delivery sql json cache d s.world).1 })
    Consistent-crash d rest queued =
        let q = subst (λ ds. All (Carried s.world.db.outbox) ds) queued h.1 in
        let k = Keeps-handle laws json_ok h.0 cache d s.world refl q.0 in
        (
          k.0,
          Carried-on s.world.db.outbox (handle_delivery sql json cache d s.world).1.db.outbox
              s.channel.queue k.1 h.1,
        )

    -- Every step keeps the system consistent.
    Consistent-step : (t : System) → Step sql json cache s t → Consistent json t
    Consistent-step t (liked uid post_id) =
        Consistent-write _ (Keeps-like laws json_ok h.0 uid post_id)
    Consistent-step t (unliked uid post_id) =
        Consistent-write _ (Keeps-unlike laws json_ok h.0 uid post_id)
    Consistent-step t (commented c) = Consistent-write _ (Keeps-create_comment laws json_ok h.0 c)
    Consistent-step t (erased id) = Consistent-write _ (Keeps-delete_comment laws json_ok h.0 id)
    Consistent-step t (relayed fate) =
        let (k, q) = Keeps-relay h.0 laws fate s.channel h.1 in
        (
          k.0,
          Carried-on s.world.db.outbox
              (relay_once sql fate (record { db = s.world.db; channel = s.channel })).1.db.outbox _
              k.1 q,
        )
    Consistent-step t consumed = Consistent-consume s.channel.queue h.1
    Consistent-step t (crashed d rest queued) = Consistent-crash d rest queued
    Consistent-step t (posted p zeros unreferred) =
        Consistent-write _ (Keeps-create_post h.0 laws p zeros unreferred)
    Consistent-step t (deleted id) = Consistent-write _ (Keeps-soft_delete h.0 laws id)
    Consistent-step t (elsewhere users follows clock kv bloom) =
        (Ledger-elsewhere h.0 users follows clock, h.1)

module _ {sql : Sql} (laws : SqlLaws sql) {json : Codec} (json_ok : RoundTrips json)
    (cache : Option Redis) (start : System) (h : Consistent json start) where
  pub Consistent-Reach : (s : System) → Reach sql json cache start s → Consistent json s
  Consistent-Reach s here = h
  Consistent-Reach s (then_step {s = t} r last) =
      Consistent-step t (Consistent-Reach t r) laws json_ok cache s last

  -- From a consistent state, whatever sequence of transactions that do not overlap the requests, the relay and
  -- the consumer run, a post being published under an id to which nothing refers, and however calls
  -- fail: for every post, `like_count` (`comment_count`) and the deltas of the
  -- events that are not processed yet add up to the number of its likes (comments).
  pub counts-Reach :
      (s : System) → Reach sql json cache start s → All (Balanced json s.world.db) s.world.db.posts
  counts-Reach s r = (Consistent-Reach s r).0.balanced

  unapplied-none :
      (done : List ℕ) (f : Field) (id : ℤ) (es : List Outbox)
      → All (λ e. any (◌==◌ e.id) done ≡ true) es
      → unapplied json done f id es ≡ pos 0
  unfolding unapplied
  unapplied-none done f id [] a = refl
  unapplied-none done f id (e ∷ es) a = rw (a.0, unapplied-none done f id es a.1) (+ℤ_zero (pos 0))

  -- Along every such run, in a state in which every event of the outbox has been processed, `like_count` and
  -- `comment_count` of every post are the numbers of its likes and of its comments.
  pub counts-Settled :
      (s : System)
      → Reach sql json cache start s
      → All (λ e. any (◌==◌ e.id) s.world.db.processed_events ≡ true) s.world.db.outbox
      → All (Settled s.world.db) s.world.db.posts
  counts-Settled s r processed =
      All-mono (Balanced json s.world.db) (Settled s.world.db) s.world.db.posts
        (λ p b. (settled p b likes, settled p b comments)) (counts-Reach s r)
    where
      settled :
          (p : Post)
          → Balanced json s.world.db p
          → (f : Field) → count_of f p ≡ pos (rows f p.id s.world.db)
      settled p b f =
          sym (
            ap (λ u. count_of f p +ℤ u)
              (unapplied-none s.world.db.processed_events f p.id s.world.db.outbox processed)
            ∙ +ℤ_zero (count_of f p))
          ∙ b f
