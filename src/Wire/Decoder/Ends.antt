-- ===== src/Wire/Decoder/Ends.antt =====
-- How a call may end: with a value and a state for which a predicate holds, or with an error, and
-- not with a panic; one rule for each way to build a block.
use veranatest.Prelude.{
  Bool, Error, Exec, Outcome, continue, err, false, guard, if◌then◌else◌, lift, ok, panicked, pure,
  raise, refl, true, ◌>>=◌, ◌>>◌, ◌≡◌,
}

abbrev pub EndsIn {ℓ} : {S A : Type ℓ} → Outcome A × S → (A → S → Type 0) → Type 0
EndsIn (ok a, t) P = P a t
EndsIn (err e, t) P = Unit
EndsIn (panicked, t) P = ⊥

pub record Ends {S A : Type 0} (m : Exec S A) (s : S) (P : A → S → Type 0) : Type 0 where
  pub at : EndsIn (m s) P

module _ {S A B : Type 0} {s : S} {Q : B → S → Type 0} where
  pub Ends-bind :
      (m : Exec S A) (f : A → Exec S B) (P : A → S → Type 0)
      → Ends m s P
      → ((a : A) (t : S) → P a t → Ends (f a) t Q)
      → Ends (m >>= f) s Q
  unfolding ◌>>=◌
  Ends-bind m f P h k = record { at = go (m s) h.at }
    where
      go : (r : Outcome A × S) → EndsIn r P → EndsIn (continue r.0 f r.1) Q
      go (ok a, t) p = (k a t p).at
      go (err e, t) p = tt
      go (panicked, t) p = absurd p

  pub Ends-lift :
      (r : Outcome A) (f : A → Exec S B) (P : A → Type 0)
      → EndsIn (r, s) (λ a t. P a)
      → ((a : A) → P a → Ends (f a) s Q)
      → Ends (lift r >>= f) s Q
  unfolding ◌>>=◌ lift
  Ends-lift (ok a) f P h k = record { at = (k a h).at }
  Ends-lift (err e) f P h k = record { at = tt }
  Ends-lift panicked f P h k = absurd h

module _ {S B : Type 0} {s : S} {Q : B → S → Type 0} where
  pub Ends-guard :
      (test : Bool) (e : Error) (k : Exec S B)
      → (test ≡ true → Ends k s Q)
      → Ends (guard test e >> k) s Q
  unfolding ◌>>=◌ guard
  Ends-guard true e k h = record { at = (h refl).at }
  Ends-guard false e k h = record { at = tt }

  pub Ends-if :
      (test : Bool) (m k : Exec S B)
      → (test ≡ true → Ends m s Q)
      → (test ≡ false → Ends k s Q)
      → Ends (if test then m else k) s Q
  Ends-if true m k h g = h refl
  Ends-if false m k h g = g refl

module _ {S A : Type 0} {s : S} {P : A → S → Type 0} where
  pub Ends-pure : (a : A) → P a s → Ends (pure a) s P
  unfolding pure
  Ends-pure a p = record { at = p }

  pub Ends-raise : (e : Error) → Ends (raise e) s P
  unfolding raise
  Ends-raise e = record { at = tt }

  pub Ends-weaken :
      {m : Exec S A} {Q : A → S → Type 0}
      → Ends m s P
      → ((a : A) (t : S) → P a t → Q a t)
      → Ends m s Q
  Ends-weaken {m} {Q} h f = record { at = go (m s) h.at }
    where
      go : (r : Outcome A × S) → EndsIn r P → EndsIn r Q
      go (ok a, t) p = f a t p
      go (err e, t) p = tt
      go (panicked, t) p = absurd p
