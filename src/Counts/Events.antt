-- ===== src/Counts/Events.antt =====
-- How the sum of the unapplied events changes when an event is written, marked or applied.
use pluto_feed.Prelude.{
  ℕ, ◌<◌, ◌≡◌, ◌≢◌, refl, ap, ◌∙◌, true, false, none, some, List, [], ◌∷◌, ◌++◌, ◌==◌, ==_iff,
  ==_refl, inl, inr, Bytes, any, All, arith, Bool-cases,
}
use mathlib.Core.Path.{subst, sym}
use pluto_feed.Prelude.Int.{ℤ, ◌+ℤ◌, +ℤ_assoc, +ℤ_comm, +ℤ_left_comm, zero_+ℤ}
use pluto_feed.Model.{Outbox}
use pluto_feed.Repository.Outbox.{Codec}
use pluto_feed.Counts.{Field, weight, owed, unapplied, payload_at, DistinctEvents}

-- Ids below `n` do not hold `n`.
pub any_below : (n : ℕ) (ids : List ℕ) → All (λ i. i < n) ids → any (◌==◌ n) ids ≡ false
any_below n [] h = refl
any_below n (i ∷ ids) h = ground (arith, any_below n ids h.1)

pub payload_below : (n : ℕ) (es : List Outbox) → All (λ e. e.id < n) es → payload_at n es ≡ none
unfolding payload_at
payload_below n [] h = refl
payload_below n (e ∷ es) h = ground (arith, payload_below n es h.1)

pub payload-append :
    (id : ℕ) (es : List Outbox) (e : Outbox) (b : Bytes)
    → payload_at id es ≡ some b
    → payload_at id (es ++ e ∷ []) ≡ some b
unfolding payload_at
payload-append id [] e b h = cc
payload-append id (x ∷ es) e b h = ground (arith, payload-append id es e b)

payload-append_none :
    (id : ℕ) (es : List Outbox) (e : Outbox)
    → payload_at id es ≡ none
    → e.id ≢ id
    → payload_at id (es ++ e ∷ []) ≡ none
unfolding payload_at
payload-append_none id [] e h ne = ground arith
payload-append_none id (x ∷ es) e h ne = ground (arith, payload-append_none id es e)

pub DistinctEvents-append :
    (n : ℕ) (es : List Outbox) (e : Outbox)
    → e.id ≡ n
    → All (λ x. x.id < n) es
    → DistinctEvents es
    → DistinctEvents (es ++ e ∷ [])
DistinctEvents-append n [] e h below d = (unfold payload_at in refl, tt)
DistinctEvents-append n (x ∷ es) e h below d =
    (payload-append_none x.id es e d.0 (omega arith), DistinctEvents-append n es e h below.1 d.1)

pub All-append {ℓ κ} :
    {A : Type ℓ} (P : A → Type κ) (xs : List A) (y : A) → All P xs → P y → All P (xs ++ y ∷ [])
All-append P [] y h p = (p, tt)
All-append P (x ∷ xs) y h p = (h.0, All-append P xs y h.1 p)

pub All-mono {ℓ κ} :
    {A : Type ℓ} (P Q : A → Type κ) (xs : List A) → ((a : A) → P a → Q a) → All P xs → All Q xs
All-mono P Q [] f h = tt
All-mono P Q (x ∷ xs) f h = (f x h.0, All-mono P Q xs f h.1)

module _ (n : ℕ) (e : Outbox) (es : List Outbox) (b : Bytes) where
  payload_here : payload_at n (e ∷ es) ≡ some b → (e.id == n) ≡ true → e.payload ≡ b
  unfolding payload_at
  payload_here h same = ground arith

  payload_later : payload_at n (e ∷ es) ≡ some b → (e.id == n) ≡ false → payload_at n es ≡ some b
  unfolding payload_at
  payload_later h other = ground arith

module _ (json : Codec) (f : Field) (id : ℤ) where
  pub unapplied-append :
      (done : List ℕ) (es : List Outbox) (e : Outbox)
      → unapplied json done f id (es ++ e ∷ [])
        ≡ unapplied json done f id es +ℤ owed json done f id e
  unfolding unapplied
  unapplied-append done [] e = +ℤ_comm _ _
  unapplied-append done (x ∷ es) e =
      ap (◌+ℤ◌ (owed json done f id x)) (unapplied-append done es e)
      ∙ cc (+ℤ_assoc (owed json done f id x) (unapplied json done f id es) (owed json done f id e))

  -- An id that no event has changes nothing when it is processed.
  unapplied-absent :
      (n : ℕ) (done : List ℕ) (es : List Outbox)
      → payload_at n es ≡ none
      → unapplied json (n ∷ done) f id es ≡ unapplied json done f id es
  unfolding unapplied payload_at
  unapplied-absent n done [] h = refl
  unapplied-absent n done (e ∷ es) h = ground (arith, unapplied-absent n done es)

  processed_here :
      (done : List ℕ) (e : Outbox) (es : List Outbox)
      → payload_at e.id es ≡ none
      → any (◌==◌ e.id) done ≡ false
      → unapplied json done f id (e ∷ es)
        ≡ weight f id (json.unmarshal e.payload) +ℤ unapplied json (e.id ∷ done) f id (e ∷ es)
  unfolding unapplied
  processed_here done e es h fresh =
      rw (fresh, ==_refl e.id, unapplied-absent e.id done es h, zero_+ℤ)

  unprocessed_here :
      (n : ℕ) (done : List ℕ) (e : Outbox) (es : List Outbox) (w : ℤ)
      → (e.id == n) ≡ false
      → unapplied json done f id es ≡ w +ℤ unapplied json (n ∷ done) f id es
      → unapplied json done f id (e ∷ es) ≡ w +ℤ unapplied json (n ∷ done) f id (e ∷ es)
  unfolding unapplied
  unprocessed_here n done e es w other rest =
      rw (other, rest) (+ℤ_left_comm (owed json done f id e) w (unapplied json (n ∷ done) f id es))

  -- Processing an event takes its weight out of the sum.
  pub unapplied-processed :
      (n : ℕ) (done : List ℕ) (es : List Outbox) (b : Bytes)
      → payload_at n es ≡ some b
      → DistinctEvents es
      → any (◌==◌ n) done ≡ false
      → unapplied json done f id es
        ≡ weight f id (json.unmarshal b) +ℤ unapplied json (n ∷ done) f id es
  unapplied-processed n done [] b h d fresh = absurd (unfold payload_at in cc)
  unapplied-processed n done (e ∷ es) b h d fresh = elim (Bool-cases (e.id == n)) [
    | inl same ↦
        let here : e.id ≡ n = (==_iff e.id n).0 same in
        let found : e.payload ≡ b = payload_here n e es b h same in
        let step =
          processed_here done e es d.0 (subst (λ k. any (◌==◌ k) done ≡ false) (sym here) fresh) in
        cc (step, here, found)
    | inr other ↦
        let rest = unapplied-processed n done es b (payload_later n e es b h other) d.1 fresh in
        unprocessed_here n done e es (weight f id (json.unmarshal b)) other rest
  ]
