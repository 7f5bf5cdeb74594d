-- ===== src/Counts/Effects.antt =====
-- Every write of internal/repository/interaction_repo.go and of the worker keeps the ledger.
use pluto_feed.Prelude.{
  ℕ, suc, ◌≡◌, ◌≢◌, refl, false, not, some, List, ◌∷◌, Bytes, bytes_eq, select, any, All, arith,
}
use pluto_feed.Prelude.Int.{ℤ, pos, negsuc, ◌+ℤ◌, +ℤ_assoc, eqb_ℤ}
use pluto_feed.Model.{Post, Like, Comment, Outbox, CountEvent}
use pluto_feed.Db.{
  Db, is_like, insert_ignore_like, delete_like, insert_comment, delete_comment, find_comment,
  insert_event,
}
use pluto_feed.Repository.Outbox.{Codec, RoundTrips}
use pluto_feed.Repository.Interaction.Cases.{event_row, like_event, comment_event}
use pluto_feed.Counts.{
  Field, likes, comments, count_of, rows, weight, owed, unapplied, Balanced, DistinctLikes,
  DistinctComments, CommentBelow, Ledger,
}
use pluto_feed.Counts.Events.{
  any_below, DistinctEvents-append, All-append, All-mono, unapplied-append,
}
use pluto_feed.Counts.Rows.{
  All-select, DistinctLikes-select, DistinctComments-select, likes-delete, likes-le-one,
  comments-delete, comments_below_any,
}

rows-insert_event :
    (f : Field) (id : ℤ) (x : Outbox) (db : Db) → rows f id (insert_event x db) ≡ rows f id db
unfolding rows insert_event
rows-insert_event likes id x db = refl
rows-insert_event comments id x db = refl

-- How the rows of a post change, against the weight of the event.
abbrev rewritten : Db → List Like → List Comment → ℕ → Db
rewritten db ls cs n = record db { likes = ls; comments = cs; next_comment = n }

abbrev Change : Db → List Like → List Comment → ℕ → CountEvent → Field → ℤ → Type 0
Change db ls cs n e f id =
    pos (rows f id (rewritten db ls cs n)) ≡ pos (rows f id db) +ℤ weight f id (some e)

like-Change :
    (f : Field) (id : ℤ) (l : Like) (db : Db)
    → Change db (l ∷ db.likes) db.comments db.next_comment (like_event (pos 1) l.post_id) f id
unfolding rows weight bytes_eq ◌+ℤ◌
like-Change likes id l db = ground arith
like-Change comments id l db = ground arith

unlike-Change :
    (uid post_id : ℤ) (f : Field) (id : ℤ) (db : Db)
    → (delete_like post_id uid db).0 ≢ 0
    → DistinctLikes db.likes
    → Change db
        (select (λ l. not (is_like post_id uid l)) db.likes)
        db.comments
        db.next_comment
        (like_event (negsuc 0) post_id)
        f
        id
unfolding rows weight bytes_eq ◌+ℤ◌ delete_like
unlike-Change uid post_id likes id db there d =
    ground (arith, likes-delete post_id uid id db.likes, likes-le-one post_id uid db.likes d)
unlike-Change uid post_id comments id db there d = ground arith

comment-Change :
    (f : Field) (id : ℤ) (c : Comment) (n : ℕ) (db : Db)
    → Change db db.likes (c ∷ db.comments) n (comment_event (pos 1) c.post_id) f id
unfolding rows weight bytes_eq ◌+ℤ◌
comment-Change likes id c n db = ground arith
comment-Change comments id c n db = ground arith

erase-Change :
    (id : ℤ) (f : Field) (p : ℤ) (c : Comment) (db : Db)
    → find_comment id db ≡ some c
    → DistinctComments db.comments
    → Change db db.likes
        (select (λ x. not (eqb_ℤ x.id id)) db.comments)
        db.next_comment
        (comment_event (negsuc 0) c.post_id)
        f
        p
unfolding rows weight bytes_eq ◌+ℤ◌ find_comment
erase-Change id likes p c db found d = ground arith
erase-Change id comments p c db found d = ground (arith, comments-delete id p db.comments c d found)

module _ {json : Codec} (json_ok : RoundTrips json) where
  abbrev pub recorded : Bytes → CountEvent → Db → Db
  recorded t e db = insert_event (event_row t (json_ok e).0) db

  module _ {db : Db} (h : Ledger json db) (t : Bytes) (e : CountEvent) (ls : List Like)
      (cs : List Comment) (n : ℕ) where
    owed_fresh :
        (f : Field) (id : ℤ) (x : Outbox)
        → x.id ≡ db.next_event
        → x.payload ≡ (json_ok e).0
        → owed json db.processed_events f id x ≡ weight f id (some e)
    owed_fresh f id x same payload = rw (
      same,
      payload,
      any_below db.next_event db.processed_events h.processed_below,
      (json_ok e).2,
    )

    -- The rows change by what the event says.
    Balanced-recorded :
        ((f : Field) (id : ℤ) → Change db ls cs n e f id)
        → (p : Post) → Balanced json db p
        → Balanced json (recorded t e (rewritten db ls cs n)) p
    unfolding insert_event
    Balanced-recorded change p b f =
        let x = record (event_row t (json_ok e).0) { id = db.next_event; created_at = db.clock } in
        cc (
          rows-insert_event f p.id (event_row t (json_ok e).0) (rewritten db ls cs n),
          unapplied-append json f p.id db.processed_events db.outbox x,
          owed_fresh f p.id x refl refl,
          +ℤ_assoc (count_of f p) (unapplied json db.processed_events f p.id db.outbox)
              (weight f p.id (some e)),
          b f,
          change f p.id,
        )

    pub Ledger-recorded :
        ((f : Field) (id : ℤ) → Change db ls cs n e f id)
        → DistinctLikes ls
        → DistinctComments cs
        → All (CommentBelow n) cs
        → Ledger json (recorded t e (rewritten db ls cs n))
    unfolding insert_event
    Ledger-recorded change dl dc cb = record {
      balanced = All-mono _ _ db.posts (Balanced-recorded change) h.balanced;
      distinct_events =
          DistinctEvents-append db.next_event db.outbox _ refl h.events_below h.distinct_events;
      events_below =
          All-append _ db.outbox _ (All-mono _ _ db.outbox (λ x lt. omega arith) h.events_below)
            (omega arith);
      processed_below = All-mono _ _ db.processed_events (λ x lt. omega arith) h.processed_below;
      distinct_likes = dl;
      distinct_comments = dc;
      comments_below = cb;
    }

  fresh_like :
      (uid post_id : ℤ) (db : Db)
      → any (is_like post_id uid) db.likes ≡ false
      → (insert_ignore_like post_id uid db).1 ≡ record db {
        likes = record { post_id = post_id; user_id = uid; created_at = db.clock } ∷ db.likes;
      }
  unfolding insert_ignore_like
  fresh_like uid post_id db fresh = rw fresh

  module _ {db : Db} (h : Ledger json db) where
    -- A new like row with its event.
    pub Ledger-like :
        (uid post_id : ℤ) (t : Bytes)
        → any (is_like post_id uid) db.likes ≡ false
        → Ledger json
            (recorded t (like_event (pos 1) post_id) (insert_ignore_like post_id uid db).1)
    Ledger-like uid post_id t fresh =
        let l : Like = record { post_id = post_id; user_id = uid; created_at = db.clock } in
        rw (fresh_like uid post_id db fresh) (
          Ledger-recorded h t (like_event (pos 1) post_id) (l ∷ db.likes) db.comments
            db.next_comment (λ f id. like-Change f id l db) (fresh, h.distinct_likes)
            h.distinct_comments h.comments_below)

    pub Ledger-unlike :
        (uid post_id : ℤ) (t : Bytes)
        → (delete_like post_id uid db).0 ≢ 0
        → Ledger json (recorded t (like_event (negsuc 0) post_id) (delete_like post_id uid db).1)
    unfolding delete_like
    Ledger-unlike uid post_id t there =
        Ledger-recorded h t (like_event (negsuc 0) post_id)
          (select (λ l. not (is_like post_id uid l)) db.likes) db.comments db.next_comment
          (λ f id. unlike-Change uid post_id f id db there h.distinct_likes)
          (DistinctLikes-select _ db.likes h.distinct_likes) h.distinct_comments h.comments_below

    pub Ledger-comment :
        (c : Comment) (t : Bytes)
        → Ledger json (recorded t (comment_event (pos 1) c.post_id) (insert_comment c db).1)
    unfolding insert_comment
    Ledger-comment c t =
        Ledger-recorded h t (comment_event (pos 1) c.post_id) db.likes _ (suc db.next_comment)
          (λ f id. comment-Change f id (insert_comment c db).0 (suc db.next_comment) db)
          h.distinct_likes
          (comments_below_any db.next_comment db.comments h.comments_below, h.distinct_comments)
          (
            (db.next_comment, refl, omega arith),
            All-mono _ _ db.comments (λ x b. (b.0, b.1, omega arith)) h.comments_below,
          )

    pub Ledger-erase :
        (id : ℤ) (c : Comment) (t : Bytes)
        → find_comment id db ≡ some c
        → Ledger json (recorded t (comment_event (negsuc 0) c.post_id) (delete_comment id db))
    unfolding delete_comment find_comment
    Ledger-erase id c t found =
        Ledger-recorded h t (comment_event (negsuc 0) c.post_id) db.likes _ db.next_comment
          (λ f p. erase-Change id f p c db found h.distinct_comments) h.distinct_likes
          (DistinctComments-select _ db.comments h.distinct_comments)
          (All-select _ _ db.comments h.comments_below)
