-- ===== src/Counts/Applied.antt =====
-- Marking events and applying one of them keep the ledger.
use pluto_feed.Prelude.{
  ℕ, ◌<◌, ◌≡◌, inl, inr, refl, false, not, some, List, [], ◌∷◌, map, ◌==◌, if◌then◌else◌, Bytes,
  bytes_eq, any, All, arith,
}
use pluto_feed.Prelude.Int.{ℤ, ◌+ℤ◌, +ℤ_assoc, +ℤ_zero, eqb_ℤ, eqb_ℤ_iff}
use pluto_feed.Model.{Post, Outbox, CountEvent, like_count_field, comment_count_field}
use pluto_feed.Db.{Db, marked, mark_events, bump_post, add_post_count, insert_ignore_processed}
use pluto_feed.Sql.{IsCountField}
use pluto_feed.Repository.Outbox.{Codec}
use pluto_feed.Counts.{
  Field, likes, comments, count_of, rows, weight, unapplied, Balanced, payload_at, DistinctEvents,
  Ledger,
}
use pluto_feed.Counts.Events.{All-mono, unapplied-processed}

module _ (now : ℤ) (ids : List ℕ) where
  marked_same :
      (e : Outbox) → ((marked now ids e).id ≡ e.id) × ((marked now ids e).payload ≡ e.payload)
  marked_same e = (ground arith, ground arith)

  pub payload-mark :
      (n : ℕ) (es : List Outbox) → payload_at n (map (marked now ids) es) ≡ payload_at n es
  unfolding payload_at
  payload-mark n [] = refl
  payload-mark n (e ∷ es) = rw ((marked_same e).0, (marked_same e).1, payload-mark n es)

  DistinctEvents-mark :
      (es : List Outbox) → DistinctEvents es → DistinctEvents (map (marked now ids) es)
  DistinctEvents-mark [] d = tt
  DistinctEvents-mark (e ∷ es) d =
      (rw ((marked_same e).0, payload-mark e.id es) d.0, DistinctEvents-mark es d.1)

  below-mark :
      (n : ℕ) (es : List Outbox)
      → All (λ e. e.id < n) es
      → All (λ e. e.id < n) (map (marked now ids) es)
  below-mark n [] h = tt
  below-mark n (e ∷ es) h = (rw (marked_same e).0 h.0, below-mark n es h.1)

  unapplied-mark :
      (json : Codec) (done : List ℕ) (f : Field) (id : ℤ) (es : List Outbox)
      → unapplied json done f id (map (marked now ids) es) ≡ unapplied json done f id es
  unfolding unapplied
  unapplied-mark json done f id [] = refl
  unapplied-mark json done f id (e ∷ es) =
      rw ((marked_same e).0, (marked_same e).1, unapplied-mark json done f id es)

rows-outbox :
    (f : Field) (id : ℤ) (db : Db) (es : List Outbox)
    → rows f id (record db { outbox = es }) ≡ rows f id db
unfolding rows
rows-outbox likes id db es = refl
rows-outbox comments id db es = refl

rows-applied :
    (f : Field) (id : ℤ) (db : Db) (ps : List Post) (done : List ℕ)
    → rows f id (record db { posts = ps; processed_events = done }) ≡ rows f id db
unfolding rows
rows-applied likes id db ps done = refl
rows-applied comments id db ps done = refl

pub Ledger-mark :
    {json : Codec} {db : Db} (ids : List ℕ) → Ledger json db → Ledger json (mark_events ids db)
unfolding mark_events
Ledger-mark {json} {db} ids h = record {
  balanced =
      All-mono _ _ db.posts
        (λ p b f. cc (
          b f,
          rows-outbox f p.id db (map (marked db.clock ids) db.outbox),
          unapplied-mark db.clock ids json db.processed_events f p.id db.outbox,
        ))
        h.balanced;
  distinct_events = DistinctEvents-mark db.clock ids db.outbox h.distinct_events;
  events_below = below-mark db.clock ids db.next_event db.outbox h.events_below;
  processed_below = h.processed_below;
  distinct_likes = h.distinct_likes;
  distinct_comments = h.distinct_comments;
  comments_below = h.comments_below;
}

payload_at-lt :
    (id n : ℕ) (es : List Outbox) (b : Bytes)
    → payload_at id es ≡ some b
    → All (λ e. e.id < n) es
    → id < n
unfolding payload_at
payload_at-lt id n [] b h below = absurd (cc)
payload_at-lt id n (e ∷ es) b h below = ground (arith, payload_at-lt id n es b)

-- The worker's UPDATE on one post.
abbrev bumped : CountEvent → Post → Post
bumped e p = if eqb_ℤ p.id e.post_id then bump_post e.field e.delta p else p

bumped_id : (e : CountEvent) (p : Post) → (bumped e p).id ≡ p.id
bumped_id e p = ground arith

count_field_test :
    (f : Bytes)
    → IsCountField f
    → bytes_eq f comment_count_field ≡ not (bytes_eq f like_count_field)
unfolding bytes_eq
count_field_test f (inl e) = rw e refl
count_field_test f (inr e) = rw e refl

bumped_count :
    (e : CountEvent) (f : Field) (p : Post)
    → IsCountField e.field
    → count_of f (bumped e p) ≡ count_of f p +ℤ weight f p.id (some e)
unfolding weight
bumped_count e likes p h =
    ground (arith, eqb_ℤ_iff p.id e.post_id, eqb_ℤ_iff e.post_id p.id, +ℤ_zero p.like_count)
bumped_count e comments p h = ground (
  arith,
  eqb_ℤ_iff p.id e.post_id,
  eqb_ℤ_iff e.post_id p.id,
  +ℤ_zero p.comment_count,
  count_field_test e.field h,
)

All-map {ℓ κ} :
    {A : Type 0} (P : A → Type ℓ) (Q : A → Type κ) (f : A → A) (xs : List A)
    → ((a : A) → P a → Q (f a))
    → All P xs
    → All Q (map f xs)
All-map P Q f [] g h = tt
All-map P Q f (x ∷ xs) g h = (g x h.0, All-map P Q f xs g h.1)

fresh_processed :
    (id : ℕ) (db : Db)
    → any (◌==◌ id) db.processed_events ≡ false
    → (insert_ignore_processed id db).1 ≡ record db { processed_events = id ∷ db.processed_events }
unfolding insert_ignore_processed
fresh_processed id db fresh = rw fresh

module _ {json : Codec} {db : Db} (id : ℕ) (b : Bytes) (e : CountEvent) (h : Ledger json db) where
  Balanced-apply :
      IsCountField e.field
      → payload_at id db.outbox ≡ some b
      → json.unmarshal b ≡ some e
      → any (◌==◌ id) db.processed_events ≡ false
      → (p : Post) → Balanced json db p
      → Balanced json
          (record db {
            posts = map (bumped e) db.posts;
            processed_events = id ∷ db.processed_events;
          })
          (bumped e p)
  Balanced-apply field row decoded fresh p balance f = rw (bumped_id e p) (
      cc (
        rows-applied f p.id db (map (bumped e) db.posts) (id ∷ db.processed_events),
        bumped_count e f p field,
        unapplied-processed json f p.id id db.processed_events db.outbox b row h.distinct_events
            fresh,
        +ℤ_assoc (count_of f p) (weight f p.id (some e))
            (unapplied json (id ∷ db.processed_events) f p.id db.outbox),
        balance f,
        decoded,
      ))

  pub Ledger-apply :
      IsCountField e.field
      → payload_at id db.outbox ≡ some b
      → json.unmarshal b ≡ some e
      → any (◌==◌ id) db.processed_events ≡ false
      → Ledger json (add_post_count e.field e.delta e.post_id (insert_ignore_processed id db).1)
  unfolding add_post_count
  Ledger-apply field row decoded fresh = rw (fresh_processed id db fresh) (record {
    balanced = All-map _ _ (bumped e) db.posts (Balanced-apply field row decoded fresh) h.balanced;
    distinct_events = h.distinct_events;
    events_below = h.events_below;
    processed_below =
        (payload_at-lt id db.next_event db.outbox b row h.events_below, h.processed_below);
    distinct_likes = h.distinct_likes;
    distinct_comments = h.distinct_comments;
    comments_below = h.comments_below;
  })
