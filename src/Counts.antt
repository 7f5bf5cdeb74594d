-- ===== src/Counts.antt =====
-- The count ledger between internal/repository/interaction_repo.go and internal/worker/worker.go: what
-- `like_count` and `comment_count` of a post owe to the rows of likes and comments, and to the events
-- that no worker has applied yet.
pub mod Events
pub mod Rows
pub mod Effects
pub mod Applied
pub mod Keeps
pub mod System
pub mod Runs
use pluto_feed.Prelude.{
  ℕ, ◌+◌, ◌<◌, ◌≡◌, Bool, true, false, ◌&&◌, Option, none, some, List, [], ◌∷◌, ◌==◌, if◌then◌else◌,
  Bytes, bytes_eq, length, select, any, All,
}
use pluto_feed.Prelude.Int.{ℤ, pos, ◌+ℤ◌, eqb_ℤ}
use pluto_feed.Model.{
  Post, Like, Comment, Outbox, CountEvent, like_count_field, comment_count_field,
}
use pluto_feed.Db.{Db, is_like}
use pluto_feed.Repository.Outbox.{Codec}

-- The two counts that events change.
pub data Field : Type 0 where
  likes comments : Field

abbrev pub field_name : Field → Bytes
field_name likes = like_count_field
field_name comments = comment_count_field

abbrev pub count_of : Field → Post → ℤ
count_of likes p = p.like_count
count_of comments p = p.comment_count

-- The rows that a count stands for.
unfoldable pub rows : Field → ℤ → Db → ℕ
rows likes id db = length (select (λ l. eqb_ℤ l.post_id id) db.likes)
rows comments id db = length (select (λ c. eqb_ℤ c.post_id id) db.comments)

-- What an event adds to a count of a post.
unfoldable pub weight : Field → ℤ → Option CountEvent → ℤ
weight f id none = pos 0
weight f id (some e) =
    if eqb_ℤ e.post_id id && bytes_eq e.field (field_name f) then e.delta else pos 0

module _ (json : Codec) where
  abbrev pub owed : List ℕ → Field → ℤ → Outbox → ℤ
  owed done f id e = if any (◌==◌ e.id) done then pos 0 else weight f id (json.unmarshal e.payload)

  -- The sum of the events that are not among the processed ones.
  unfoldable pub unapplied : List ℕ → Field → ℤ → List Outbox → ℤ
  unapplied done f id [] = pos 0
  unapplied done f id (e ∷ es) = owed done f id e +ℤ unapplied done f id es

  abbrev pub Balanced : Db → Post → Type 0
  Balanced db p =
      (f : Field)
      → count_of f p +ℤ unapplied db.processed_events f p.id db.outbox ≡ pos (rows f p.id db)

-- The payload of the first event with the id.
unfoldable pub payload_at : ℕ → List Outbox → Option Bytes
payload_at id [] = none
payload_at id (e ∷ es) = let rest = payload_at id es in if e.id == id then some e.payload else rest

abbrev pub DistinctEvents : List Outbox → Type 0
DistinctEvents [] = Unit
DistinctEvents (e ∷ es) = (payload_at e.id es ≡ none) × DistinctEvents es

-- The primary keys of likes and comments.
abbrev pub DistinctLikes : List Like → Type 0
DistinctLikes [] = Unit
DistinctLikes (l ∷ ls) = (any (is_like l.post_id l.user_id) ls ≡ false) × DistinctLikes ls

abbrev pub DistinctComments : List Comment → Type 0
DistinctComments [] = Unit
DistinctComments (c ∷ cs) = (any (λ d. eqb_ℤ d.id c.id) cs ≡ false) × DistinctComments cs

abbrev pub CommentBelow : ℕ → Comment → Type 0
CommentBelow n c = (k : ℕ) × (c.id ≡ pos k) × (k < n)

pub record Ledger (json : Codec) (db : Db) : Type 0 where
  pub balanced : All (Balanced json db) db.posts
  pub distinct_events : DistinctEvents db.outbox
  pub events_below : All (λ e. e.id < db.next_event) db.outbox
  pub processed_below : All (λ i. i < db.next_event) db.processed_events
  pub distinct_likes : DistinctLikes db.likes
  pub distinct_comments : DistinctComments db.comments
  pub comments_below : All (CommentBelow db.next_comment) db.comments
