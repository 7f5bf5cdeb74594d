-- ===== src/Mq/Confirms.antt =====
-- The relay and the broker's confirmations: internal/mq/mq.go and the loop of internal/worker/worker.go.
use pluto_feed.Prelude.{
  ℕ, ◌+◌, ◌≡◌, ◌⊎◌, inl, inr, refl, Bool, true, false, List, [], ◌∷◌, ◌++◌, if◌then◌else◌, bytes_eq,
  bytes_eq_refl, any, All, arith, Bool-cases,
}
use pluto_feed.Prelude.Decimal.{format_uint}
use pluto_feed.Apierror.{Error, Result, ok, err}
use pluto_feed.Model.{Outbox}
use pluto_feed.Mq.{Delivery, Confirmation, Channel, Fate, publish}
use pluto_feed.Worker.{message_of, publish_all, after_publish}

-- The broker's queue holds a message of the event.
abbrev pub Queued : List Delivery → ℕ → Type 0
Queued q id = any (λ d. bytes_eq d.message_id (format_uint id)) q ≡ true

-- Within the time limit the broker answers at most the message that waits, and acknowledges only what
-- it stored.
abbrev pub Prompt : Fate → Type 0
Prompt f =
    (f.arrived ≡ [])
    ⊎ ((c : Confirmation) × (f.arrived ≡ c ∷ []) × (c.ack ≡ true → f.stored ≡ true))

any-append :
    (p : Delivery → Bool) (q : List Delivery) (d : Delivery)
    → (any p q ≡ true → any p (q ++ d ∷ []) ≡ true) × (p d ≡ true → any p (q ++ d ∷ []) ≡ true)
any-append p [] d = (λ h. absurd (cc), λ h. rw h refl)
any-append p (x ∷ q) d =
    let (old, new) = any-append p q d in (λ h. ground (arith, old), λ h. ground (arith, new))

stored-keeps :
    (stored : Bool) (q : List Delivery) (d : Delivery) (id : ℕ)
    → Queued q id
    → Queued (if stored then q ++ d ∷ [] else q) id
stored-keeps true q d id h = (any-append (λ x. bytes_eq x.message_id (format_uint id)) q d).0 h
stored-keeps false q d id h = h

not_ok : {e : Error} {P : Type 0} → err e ≡ ok (tt {0}) → P
not_ok h = absurd (cc)

-- One publish: nothing leaves the queue, no confirmation is left over, and a success has stored the
-- message.
publish-Queued :
    (f : Fate) (e : Outbox) (ch : Channel)
    → ch.confirms ≡ []
    → Prompt f
    → let (r, ch') = publish f (message_of e) ch in
      (ch'.confirms ≡ [])
      × ((id : ℕ) → Queued ch.queue id → Queued ch'.queue id)
      × (r ≡ ok tt → Queued ch'.queue e.id)
unfolding publish
publish-Queued f e ch none_left p = elim (Bool-cases f.send_fails) [
  | inl fails ↦ rw fails (none_left, (λ id h. h), (λ h. not_ok h))
  | inr sent ↦ elim p [
    | inl silent ↦
        rw (sent, none_left, silent)
          (refl, (λ id h. stored-keeps f.stored ch.queue (message_of e) id h), (λ h. not_ok h))
    | inr (c, arrived, honest) ↦
        rw (sent, none_left, arrived)
          (
            refl,
            (λ id h. stored-keeps f.stored ch.queue (message_of e) id h),
            (λ h. elim (Bool-cases c.ack) [
              | inl acked ↦ rw (honest acked) added
              | inr refused ↦ not_ok (rw refused at h)
            ]),
          )
  ]
]
  where
    added : Queued (ch.queue ++ message_of e ∷ []) e.id
    added =
        (any-append (λ x. bytes_eq x.message_id (format_uint e.id)) ch.queue (message_of e)).1
          (bytes_eq_refl (format_uint e.id))

-- When no confirmation is left over from before, and the broker answers in time and truthfully: every
-- event that one round of the relay takes for published stands in the broker's queue, and so does what
-- the queue held.
pub publish_all-Queued :
    (fate : ℕ → Fate) (i : ℕ) (es : List Outbox) (ch : Channel)
    → ch.confirms ≡ []
    → ((j : ℕ) → Prompt (fate j))
    → (All (Queued (publish_all fate i es ch).1.queue) (publish_all fate i es ch).0)
      × ((id : ℕ) → Queued ch.queue id → Queued (publish_all fate i es ch).1.queue id)
unfolding publish_all
publish_all-Queued fate i [] ch none_left prompt = (tt, (λ id h. h))
publish_all-Queued fate i (e ∷ es) ch none_left prompt =
    let (clear, keeps, stored) = publish-Queued (fate i) e ch none_left (prompt i) in
    let (all, later) =
      publish_all-Queued fate (i + 1) es (publish (fate i) (message_of e) ch).1 clear prompt in
    settled (publish (fate i) (message_of e) ch).0 e.id
      (publish_all fate (i + 1) es (publish (fate i) (message_of e) ch).1)
      (publish (fate i) (message_of e) ch).1 ch keeps stored all later
  where
    settled :
        (r : Result (Unit {0})) (id : ℕ) (done : List ℕ × Channel) (sent before : Channel)
        → ((id : ℕ) → Queued before.queue id → Queued sent.queue id)
        → (r ≡ ok tt → Queued sent.queue id)
        → All (Queued done.1.queue) done.0
        → ((id : ℕ) → Queued sent.queue id → Queued done.1.queue id)
        → (All (Queued (after_publish r id done sent).1.queue) (after_publish r id done sent).0)
          × ((n : ℕ) → Queued before.queue n → Queued (after_publish r id done sent).1.queue n)
    settled (ok _) id done sent before keeps stored all later =
        ((later id (stored refl), all), (λ n h. later n (keeps n h)))
    settled (err _) id done sent before keeps stored all later = (tt, keeps)
