-- ===== src/Tests/Events.antt =====
-- Writes, deliveries, publishing and the filter, one run each.
use pluto_feed.Prelude.{
  ℕ, ◌≡◌, ◌+◌, refl, inr, true, false, none, some, [], ◌∷◌, any, All, bytes_eq, codes, arith, ltb,
  ◌==◌,
}
use pluto_feed.Prelude.Int.{pos, eqb_ℤ}
use pluto_feed.Prelude.Decimal.{parse_uint, parse_magnitude, parse_digits}
use pluto_feed.Apierror.{ok}
use pluto_feed.Outcome.{Outcome}
use pluto_feed.Model.{Outbox}
use pluto_feed.Db.{Db, insert_ignore_processed, add_post_count}
use pluto_feed.Bloom.{Bloom, FloatMath, new, load, test, id_bytes}
use pluto_feed.Bloom.Membership.{new-load-test}
use pluto_feed.Mq.{Delivery, Channel, Fate}
use pluto_feed.Mq.Confirms.{Queued, Prompt, publish_all-Queued}
use pluto_feed.Repository.Interaction.{like, delete_comment}
use pluto_feed.Repository.Interaction.Cases.{Liked, Erased, Outcome-like, Outcome-delete_comment}
use pluto_feed.Worker.{
  publish_all, handle_delivery, apply, apply_body, allowed_fields, invalidate_post,
}
use pluto_feed.Worker.Once.{handle_delivery_twice}
use pluto_feed.Tests.Memory.{mem_sql, mem_laws, mem_codec, mem_codec-RoundTrips}
use pluto_feed.Tests.Runs.{first_db, first_world}

abbrev pub an_event : ℕ → Outbox
an_event id = record {
  id = id;
  event_type = codes "like.created";
  payload = 0 ∷ 1 ∷ 0 ∷ 1 ∷ codes "like_count";
  created_at = pos 3;
  processed_at = none;
}

abbrev a_delivery : Delivery
a_delivery = record {
  message_id = codes "1";
  routing_key = codes "like.created";
  body = 0 ∷ 1 ∷ 0 ∷ 1 ∷ codes "like_count";
}

first_handled : (handle_delivery mem_sql mem_codec none a_delivery first_world).0 ≡ ok tt
unfolding handle_delivery parse_uint parse_magnitude parse_digits apply apply_body allowed_fields
    invalidate_post bytes_eq insert_ignore_processed add_post_count
first_handled = refl

handle_delivery_twice_example :
    (handle_delivery mem_sql mem_codec none a_delivery
      (handle_delivery mem_sql mem_codec none a_delivery first_world).1).1.db
    ≡ (handle_delivery mem_sql mem_codec none a_delivery first_world).1.db
handle_delivery_twice_example =
    handle_delivery_twice mem_laws none mem_codec a_delivery first_world first_handled

-- The second message is refused.
abbrev some_fate : ℕ → Fate
some_fate i = record {
  send_fails = false;
  stored = ltb i 1;
  closed = false;
  arrived = record { message_id = []; ack = ltb i 1 } ∷ [];
}

some_fate-Prompt : (j : ℕ) → Prompt (some_fate j)
some_fate-Prompt j = inr (record { message_id = []; ack = ltb j 1 }, refl, λ h. h)

abbrev idle : Channel
idle = record { queue = []; confirms = [] }

publish_all-Queued_example :
    (All
      (Queued (publish_all some_fate 0 (an_event 1 ∷ an_event 2 ∷ []) idle).1.queue)
      (publish_all some_fate 0 (an_event 1 ∷ an_event 2 ∷ []) idle).0)
    × ((id : ℕ)
        → Queued idle.queue id
        → Queued (publish_all some_fate 0 (an_event 1 ∷ an_event 2 ∷ []) idle).1.queue id)
publish_all-Queued_example =
    publish_all-Queued some_fate 0 (an_event 1 ∷ an_event 2 ∷ []) idle refl some_fate-Prompt

Outcome-like_example :
    Outcome
      (λ _. Liked mem_laws mem_codec-RoundTrips (pos 2) (pos 1) first_db)
      (λ s. s ≡ first_db)
      (like mem_sql mem_codec (pos 2) (pos 1) first_db)
Outcome-like_example = Outcome-like mem_laws mem_codec-RoundTrips (pos 2) (pos 1) first_db

abbrev commented_db : Db
commented_db = record first_db {
  comments =
      record {
        id = pos 1;
        post_id = pos 1;
        user_id = pos 2;
        content = codes "nice";
        created_at = pos 12;
      }
      ∷ [];
}

Outcome-delete_comment_example :
    Outcome
      (λ _. Erased mem_laws mem_codec-RoundTrips (pos 1) commented_db)
      (λ s. s ≡ commented_db)
      (delete_comment mem_sql mem_codec (pos 1) commented_db)
Outcome-delete_comment_example =
    Outcome-delete_comment mem_laws mem_codec-RoundTrips (pos 1) commented_db

-- Rates in percent: ten bits and seven hashes for an item at one percent, and the like for others.
abbrev percent : FloatMath
percent = record {
  Float = ℕ;
  le_zero = λ p. p == 0;
  ge_one = λ p. ltb 99 p;
  optimal_bits = λ n p. n + 8;
  optimal_hashes = λ n m. 3;
}

abbrev small : Bloom
small = record { bits = 0 ∷ 0 ∷ []; m = 10; k = 3 }

small-new : new percent 2 1 ≡ some small
unfolding new
small-new = refl

nine_loaded : any (eqb_ℤ (pos 9)) (pos 5 ∷ pos 9 ∷ []) ≡ true
unfolding eqb_ℤ
nine_loaded = refl

new-load-test_example : test (load small (pos 5 ∷ pos 9 ∷ [])) (id_bytes (pos 9)) ≡ true
new-load-test_example =
    new-load-test percent 2 1 (pos 5 ∷ pos 9 ∷ []) (pos 9) (omega arith) (omega arith) small-new
      nine_loaded
