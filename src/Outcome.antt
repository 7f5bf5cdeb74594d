-- ===== src/Outcome.antt =====
-- Postconditions of calls that change a state and may fail: one rule for each way to build a call.
use pluto_feed.Prelude.{◌≡◌, ◌⊎◌, inl, inr}
use pluto_feed.Apierror.{Error, Result, ok, err, Act, then_run}

abbrev pub Anything : {S : Type 0} → S → Type 0
Anything s = Unit {0}

module _ {S A : Type 0} where
  -- The service does what `effect` says, or fails and changes nothing.
  abbrev pub Meets : Act S A → (S → A × S) → Type 0
  Meets act effect =
      (s : S) → (act s ≡ (ok (effect s).0, (effect s).1)) ⊎ ((e : Error) × (act s ≡ (err e, s)))

  abbrev pub Reads : Act S A → (S → A) → Type 0
  Reads act query = Meets act (λ s. (query s, s))

  -- `P` of a success, `E` of a failure.
  abbrev pub Outcome : (A → S → Type 0) → (S → Type 0) → Result A × S → Type 0
  Outcome P E (ok a, s) = P a s
  Outcome P E (err e, s) = E s

-- `P` of a success, `E` of an error and the state that it leaves.
abbrev pub Ends : {S A : Type 0} → (A → S → Type 0) → (Error → S → Type 0) → Result A × S → Type 0
Ends P E (ok a, s) = P a s
Ends P E (err e, s) = E e s

-- The call fails in this state, with this error.
abbrev pub Fails : {S A : Type 0} → Act S A → Error → S → Type 0
Fails act e s = (act s).0 ≡ err e

abbrev pub Writes : {S : Type 0} → Act S (Unit {0}) → (S → S) → Type 0
Writes act effect = Meets act (λ s. (tt, effect s))

module _ {S A : Type 0} (E : S → Type 0) where
  pub Outcome-Meets :
      {act : Act S A} {effect : S → A × S} (law : Meets act effect) (P : A → S → Type 0) (s : S)
      → P (effect s).0 (effect s).1
      → E s
      → Outcome P E (act s)
  Outcome-Meets law P s p e = elim (law s) [ inl done ↦ rw done p | inr (_, failed) ↦ rw failed e ]

  pub Outcome-mono :
      (P Q : A → S → Type 0) (r : Result A × S)
      → ((a : A) (s : S) → P a s → Q a s)
      → Outcome P E r
      → Outcome Q E r
  Outcome-mono P Q (ok a, s) f h = f a s h
  Outcome-mono P Q (err e, s) f h = h

module _ {S A B : Type 0} (E : S → Type 0) where
  -- A call of a service, and what follows it.
  pub Outcome-then :
      {act : Act S A} {effect : S → A × S} (law : Meets act effect) (Q : B → S → Type 0)
      (f : A → Act S B) (s : S)
      → Outcome Q E (f (effect s).0 (effect s).1)
      → E s
      → Outcome Q E (then_run (act s) f)
  Outcome-then law Q f s q e = elim (law s) [ inl done ↦ rw done q | inr (_, failed) ↦ rw failed e ]

  pub Outcome-bind :
      (P : A → S → Type 0) (Q : B → S → Type 0) (r : Result A × S) (f : A → Act S B)
      → Outcome P E r
      → ((a : A) (s : S) → P a s → Outcome Q E (f a s))
      → Outcome Q E (then_run r f)
  Outcome-bind P Q (ok a, s) f p g = g a s p
  Outcome-bind P Q (err e, s) f p g = p

-- What both ends of an outcome give holds of the state.
pub Outcome-state :
    {S A : Type 0} (P : A → S → Type 0) (E Q : S → Type 0) (r : Result A × S)
    → ((a : A) (s : S) → P a s → Q s)
    → ((s : S) → E s → Q s)
    → Outcome P E r
    → Q r.1
Outcome-state P E Q (ok a, s) f g h = f a s h
Outcome-state P E Q (err e, s) f g h = g s h

-- What holds after each part holds after a chain.
module _ {S : Type 0} (P : S → Type 0) where
  pub then_run-state :
      {A B : Type 0} (r : Result A × S) (f : A → Act S B)
      → P r.1
      → ((a : A) (s : S) → P s → P (f a s).1)
      → P (then_run r f).1
  then_run-state (ok a, s) f p g = g a s p
  then_run-state (err e, s) f p g = p
