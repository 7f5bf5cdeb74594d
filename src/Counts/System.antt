-- ===== src/Counts/System.antt =====
-- A round of the relay, and whatever else the program does to the tables, keep the ledger.
use mathlib.Core.Path.{subst}
use pluto_feed.Prelude.{
  ℕ, zero, suc, ◌+◌, ◌≡◌, inl, inr, refl, ap, ◌∙◌, true, none, some, List, [], ◌∷◌, ◌==◌, ==_refl,
  take, select, All, arith, Bool-cases, map, Bool, false, ◌&&◌, if◌then◌else◌,
}
use pluto_feed.Prelude.Int.{ℤ, pos, +ℤ_zero, eqb_ℤ}
use pluto_feed.Prelude.Decimal.{parse_uint-format_eq}
use pluto_feed.Apierror.{Result, ok, err}
use pluto_feed.Model.{Outbox, User, Follow, Post}
use pluto_feed.Db.{
  Db, is_live, insert_post, soft_deleted, soft_delete_post, is_pending, pending_events, mark_events,
}
use pluto_feed.Sql.{Sql, SqlLaws}
use pluto_feed.Repository.Outbox.{Codec, fetch_pending, mark_processed}
use pluto_feed.Mq.{Delivery, Channel, Fate, publish}
use pluto_feed.Worker.{message_of, after_publish, publish_all, relay_once}
use pluto_feed.Counts.{
  Ledger, Balanced, Field, likes, comments, count_of, rows, unapplied, payload_at, DistinctEvents,
}
use pluto_feed.Repository.Post.{create, soft_delete}
use pluto_feed.Counts.Events.{All-append, All-mono}
use pluto_feed.Counts.Rows.{All-select}
use pluto_feed.Counts.Applied.{payload-mark, Ledger-mark}
use pluto_feed.Counts.Keeps.{Carried, Keeps}

same_id : (m n : ℕ) → (m == n) ≡ true → m ≡ n
same_id m n h = ground arith

sent_or_not :
    (P : Channel → Type 0) (r : Result (Unit {0})) (id : ℕ) (later : List ℕ × Channel)
    (ch : Channel)
    → P later.1
    → P ch
    → P (after_publish r id later ch).1
sent_or_not P (ok _) id later ch p q = p
sent_or_not P (err _) id later ch p q = q

abbrev Stored : List Outbox → Outbox → Type 0
Stored es e = payload_at e.id es ≡ some e.payload

Stored-later :
    (x : Outbox) (es : List Outbox) (e : Outbox)
    → payload_at x.id es ≡ none
    → Stored es e
    → Stored (x ∷ es) e
unfolding payload_at
Stored-later x es e fresh h = elim (Bool-cases (x.id == e.id)) [
  | inr other ↦ rw other h
  | inl same ↦ let known = ap (λ n. payload_at n es) (same_id x.id e.id same) in absurd (cc)
]

-- Every event of the outbox is found by its id.
All-Stored : (es : List Outbox) → DistinctEvents es → All (Stored es) es
unfolding payload_at
All-Stored [] d = tt
All-Stored (e ∷ es) d = (
  rw (==_refl e.id) refl,
  All-mono (Stored es) (Stored (e ∷ es)) es (λ x. Stored-later e es x d.0) (All-Stored es d.1),
)

All-take {ℓ κ} : {A : Type ℓ} (P : A → Type κ) (n : ℕ) (xs : List A) → All P xs → All P (take n xs)
All-take P zero xs h = tt
All-take P (suc n) [] h = tt
All-take P (suc n) (x ∷ xs) h = (h.0, All-take P n xs h.1)

message-Carried : (es : List Outbox) (e : Outbox) → Stored es e → Carried es (message_of e)
message-Carried es e h id parsed =
    subst (λ n. payload_at n es ≡ some e.payload) (parse_uint-format_eq e.id id parsed) h

-- What is published joins the queue; what the queue held stays.
publish-Carried :
    (es : List Outbox) (fate : Fate) (d : Delivery) (ch : Channel)
    → Carried es d
    → All (Carried es) ch.queue
    → All (Carried es) (publish fate d ch).1.queue
unfolding publish
publish-Carried es fate d ch c h = ground (arith, All-append (Carried es) ch.queue d h c)

publish_all-Carried :
    (es : List Outbox) (fate : ℕ → Fate) (i : ℕ) (xs : List Outbox) (ch : Channel)
    → All (Stored es) xs
    → All (Carried es) ch.queue
    → All (Carried es) (publish_all fate i xs ch).1.queue
unfolding publish_all
publish_all-Carried es fate i [] ch s h = h
publish_all-Carried es fate i (x ∷ xs) ch s h =
    let sent = publish-Carried es (fate i) (message_of x) ch (message-Carried es x s.0) h in
    let later =
      publish_all-Carried es fate (i + 1) xs (publish (fate i) (message_of x) ch).1 s.1 sent in
    sent_or_not (λ c. All (Carried es) c.queue) (publish (fate i) (message_of x) ch).0 x.id
      (publish_all fate (i + 1) xs (publish (fate i) (message_of x) ch).1)
      (publish (fate i) (message_of x) ch).1 later sent

rows-elsewhere :
    (users : List User) (follows : List Follow) (clock : ℤ) (db : Db) (f : Field) (id : ℤ)
    → rows f id db ≡ rows f id (record db { users = users; follows = follows; clock = clock })
unfolding rows
rows-elsewhere users follows clock db likes id = refl
rows-elsewhere users follows clock db comments id = refl

-- A post to which no row and no event refers yet.
abbrev pub Unreferred : Codec → Db → ℤ → Type 0
Unreferred json db id =
    (f : Field) → (rows f id db ≡ 0) × (unapplied json db.processed_events f id db.outbox ≡ pos 0)

module _ {json : Codec} {db : Db} (h : Ledger json db) where
  -- The other tables, and the clock, do not matter.
  pub Ledger-elsewhere :
      (users : List User) (follows : List Follow) (clock : ℤ)
      → Ledger json (record db { users = users; follows = follows; clock = clock })
  Ledger-elsewhere users follows clock = record {
    balanced =
        All-mono (Balanced json db) (Balanced json _) db.posts
          (λ p b f. b f ∙ ap pos (rows-elsewhere users follows clock db f p.id)) h.balanced;
    distinct_events = h.distinct_events;
    events_below = h.events_below;
    processed_below = h.processed_below;
    distinct_likes = h.distinct_likes;
    distinct_comments = h.distinct_comments;
    comments_below = h.comments_below;
  }

  Ledger-insert_post :
      (p : Post)
      → ((f : Field) → count_of f p ≡ pos 0)
      → Unreferred json db (pos db.next_post)
      → Ledger json (insert_post p db).1
  unfolding insert_post rows
  Ledger-insert_post p zeros unreferred = record {
    balanced = (
      fresh,
      All-mono (Balanced json db) (Balanced json _) db.posts (λ q b. as_before q b) h.balanced,
    );
    distinct_events = h.distinct_events;
    events_below = h.events_below;
    processed_below = h.processed_below;
    distinct_likes = h.distinct_likes;
    distinct_comments = h.distinct_comments;
    comments_below = h.comments_below;
  }
    where
      as_before : (q : Post) → Balanced json db q → Balanced json (insert_post p db).1 q
      as_before q b likes = b likes
      as_before q b comments = b comments

      fresh : Balanced json (insert_post p db).1 (insert_post p db).0
      fresh likes = cc (zeros likes, (unreferred likes).0, (unreferred likes).1, +ℤ_zero (pos 0))
      fresh comments =
          cc (zeros comments, (unreferred comments).0, (unreferred comments).1, +ℤ_zero (pos 0))

  Ledger-soft_delete : (id : ℤ) → Ledger json (soft_delete_post id db)
  unfolding soft_delete_post rows
  Ledger-soft_delete id = record {
    balanced = marked db.posts h.balanced;
    distinct_events = h.distinct_events;
    events_below = h.events_below;
    processed_below = h.processed_below;
    distinct_likes = h.distinct_likes;
    distinct_comments = h.distinct_comments;
    comments_below = h.comments_below;
  }
    where
      one :
          (gone : Bool) (p : Post)
          → Balanced json db p
          → Balanced json
              (soft_delete_post id db)
              (if gone then record p { deleted_at = some db.clock } else p)
      one true p b likes = b likes
      one true p b comments = b comments
      one false p b likes = b likes
      one false p b comments = b comments

      marked :
          (ps : List Post)
          → All (Balanced json db) ps
          → All (Balanced json (soft_delete_post id db)) (map (soft_deleted db.clock id) ps)
      marked [] a = tt
      marked (p ∷ ps) a = (one (eqb_ℤ p.id id && is_live p) p a.0, marked ps a.1)

  module _ {sql : Sql} (laws : SqlLaws sql) where
    -- Publishing and deleting a post keep the ledger, whether they succeed or fail.
    pub Keeps-create_post :
        (p : Post)
        → ((f : Field) → count_of f p ≡ pos 0)
        → Unreferred json db (pos db.next_post)
        → Keeps json db (create sql p db).1
    unfolding create
    Keeps-create_post p zeros unreferred = elim (laws.create_post_law p db) [
      | inr (_, failed) ↦ rw failed (h, λ i b q. q)
      | inl done ↦ rw done (Ledger-insert_post p zeros unreferred, unfold insert_post in λ i b q. q)
    ]

    pub Keeps-soft_delete : (id : ℤ) → Keeps json db (soft_delete sql id db).1
    unfolding soft_delete
    Keeps-soft_delete id = elim (laws.soft_delete_law id db) [
      | inr (_, failed) ↦ rw failed (h, λ i b q. q)
      | inl done ↦ rw done (Ledger-soft_delete id, unfold soft_delete_post in λ i b q. q)
    ]

    Keeps-mark : (ids : List ℕ) → Keeps json db (mark_processed sql ids db).1
    unfolding mark_processed
    Keeps-mark [] = (h, λ i b p. p)
    Keeps-mark (i ∷ is) = elim (laws.update_processed_law (i ∷ is) db) [
      | inr (_, failed) ↦ rw failed (h, λ i b p. p)
      | inl done ↦ rw done (
        Ledger-mark (i ∷ is) h,
        λ n b p. unfold mark_events in payload-mark db.clock (i ∷ is) n db.outbox ∙ p,
      )
    ]

    -- A round of the relay keeps the ledger, and what it publishes stands for events.
    pub Keeps-relay :
        (fate : ℕ → Fate) (ch : Channel)
        → All (Carried db.outbox) ch.queue
        → let r = (relay_once sql fate (record { db = db; channel = ch })).1 in
          Keeps json db r.db × All (Carried db.outbox) r.channel.queue
    unfolding relay_once fetch_pending pending_events
    Keeps-relay fate ch carried = elim (laws.find_pending_law 100 db) [
      | inr (_, failed) ↦ rw failed ((h, λ i b p. p), carried)
      | inl done ↦ rw done (
        Keeps-mark (publish_all fate 0 (take 100 (select is_pending db.outbox)) ch).0,
        publish_all-Carried db.outbox fate 0 (take 100 (select is_pending db.outbox)) ch
            (All-take (Stored db.outbox) 100 (select is_pending db.outbox) (
              All-select (Stored db.outbox) is_pending db.outbox
                (All-Stored db.outbox h.distinct_events)))
            carried,
      )
    ]
