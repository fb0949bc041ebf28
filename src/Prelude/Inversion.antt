-- ===== src/Prelude/Inversion.antt =====
-- What a block of calls tells when it ends well, and what it leaves when it does not: one rule for
-- each way to build a block.
use mathlib.Core.Path.{◌≡◌, refl, ap, ◌∙◌}
use mathlib.Core.Logic.{◌⊎◌, inl, inr}
use mathlib.Core.Bool.{Bool, true, false}
use veranatest.Prelude.Tests.{if◌then◌else◌}
use veranatest.Prelude.Outcomes.{
  Error, Outcome, ok, err, panicked, Exec, gets, lift, guard, pure, ok_injective, Succeeds,
  continue, ◌>>=◌, ◌>>◌,
}

-- If `m` gives a value in the state `s`, then `P` holds of the value and the state it leaves.
pub record Ensures {S A : Type 0} (m : Exec S A) (s : S) (P : A → S → Type 0) : Type 0 where
  pub at : (a : A) (t : S) → m s ≡ (ok a, t) → P a t

module _ {S A B : Type 0} {s : S} {P : B → S → Type 0} where
  pub Ensures-lift :
      (r : Outcome A) (f : A → Exec S B)
      → ((a : A) → r ≡ ok a → Ensures (f a) s P)
      → Ensures (lift r >>= f) s P
  unfolding ◌>>=◌ lift
  Ensures-lift (ok a) f h = record { at = (h a refl).at }
  Ensures-lift (err e) f h = record { at = λ b t eq. cc }
  Ensures-lift panicked f h = record { at = λ b t eq. cc }

  pub Ensures-gets :
      (g : S → Outcome A) (f : A → Exec S B)
      → ((a : A) → g s ≡ ok a → Ensures (f a) s P)
      → Ensures (gets g >>= f) s P
  unfolding ◌>>=◌ gets
  Ensures-gets g f h = go (g s) refl
    where
      go : (r : Outcome A) → g s ≡ r → Ensures (gets g >>= f) s P
      go (ok a) e = record { at = λ b u eq. (h a e).at b u (rw (e, continue) at eq) }
      go (err x) e = record { at = λ b u eq. cc }
      go panicked e = record { at = λ b u eq. cc }

  pub Ensures-bind :
      (m : Exec S A) (f : A → Exec S B)
      → ((a : A) (t : S) → m s ≡ (ok a, t) → Ensures (f a) t P)
      → Ensures (m >>= f) s P
  unfolding ◌>>=◌
  Ensures-bind m f h = go (m s) refl
    where
      go : (r : Outcome A × S) → m s ≡ r → Ensures (m >>= f) s P
      go (ok a, t) e = record { at = λ b u eq. (h a t e).at b u (rw (e, continue) at eq) }
      go (err x, t) e = record { at = λ b u eq. cc }
      go (panicked, t) e = record { at = λ b u eq. cc }

module _ {S B : Type 0} {s : S} {P : B → S → Type 0} where
  pub Ensures-guard :
      (test : Bool) (e : Error) (k : Exec S B)
      → (test ≡ true → Ensures k s P)
      → Ensures (guard test e >> k) s P
  unfolding ◌>>=◌ guard
  Ensures-guard true e k h = record { at = (h refl).at }
  Ensures-guard false e k h = record { at = λ b t eq. cc }

  pub Ensures-if :
      (test : Bool) (m k : Exec S B)
      → (test ≡ true → Ensures m s P)
      → (test ≡ false → Ensures k s P)
      → Ensures (if test then m else k) s P
  Ensures-if true m k hm hk = hm refl
  Ensures-if false m k hm hk = hk refl

-- A call that does not end well leaves the state as it was.
pub record FailsClean {S A : Type 0} (m : Exec S A) : Type 0 where
  pub at : (s : S) → Succeeds (m s).0 ⊎ ((m s).1 ≡ s)

module _ {S A B : Type 0} where
  pub FailsClean-lift :
      (r : Outcome A) (f : A → Exec S B) → ((a : A) → FailsClean (f a)) → FailsClean (lift r >>= f)
  unfolding ◌>>=◌ lift
  FailsClean-lift (ok a) f h = record { at = (h a).at }
  FailsClean-lift (err e) f h = record { at = λ s. inr refl }
  FailsClean-lift panicked f h = record { at = λ s. inr refl }

  pub FailsClean-gets :
      (g : S → Outcome A) (f : A → Exec S B)
      → ((a : A) → FailsClean (f a))
      → FailsClean (gets g >>= f)
  unfolding ◌>>=◌ gets
  FailsClean-gets g f h = record { at = λ s. go s (g s) refl }
    where
      go :
          (s : S) (r : Outcome A)
          → g s ≡ r
          → Succeeds ((gets g >>= f) s).0 ⊎ (((gets g >>= f) s).1 ≡ s)
      go s (ok a) e = rw (e, continue) ((h a).at s)
      go s (err x) e = inr (rw (e, continue))
      go s panicked e = inr (rw (e, continue))

module _ {S B : Type 0} where
  pub FailsClean-guard :
      (test : Bool) (e : Error) (k : Exec S B) → FailsClean k → FailsClean (guard test e >> k)
  unfolding ◌>>=◌ guard
  FailsClean-guard true e k h = record { at = h.at }
  FailsClean-guard false e k h = record { at = λ s. inr refl }

pub succeeded {ℓ} : {S : Type ℓ} (r : Outcome (Unit {0}) × S) → Succeeds r.0 → r ≡ (ok tt, r.1)
succeeded (ok u, s) h = refl
succeeded (err e, s) h = absurd h
succeeded (panicked, s) h = absurd h

pub pure_inversion : {S A : Type 0} (a b : A) (s t : S) → pure a s ≡ (ok b, t) → (a ≡ b) × (s ≡ t)
unfolding pure
pure_inversion {S} {A} a b s t h =
    (ok_injective (ap (λ (r : Outcome A × S). r.0) h), ap (λ (r : Outcome A × S). r.1) h)

-- The block that starts with a call that gives a value.
pub bind_ok :
    {S A B : Type 0} (m : Exec S A) (f : A → Exec S B) (s t : S) (a : A) (r : Outcome B × S)
    → m s ≡ (ok a, t)
    → f a t ≡ r
    → (m >>= f) s ≡ r
unfolding ◌>>=◌
bind_ok m f s t a r h g = rw (h, continue) g

-- The error and the state of a call, whatever it gives when it does not fail.
same_error :
    {S A B : Type 0} (x e : Error) (u t : S)
    → ◌≡◌ {A = Outcome B × S} (err x, u) (err e, t)
    → ◌≡◌ {A = Outcome A × S} (err x, u) (err e, t)
same_error {S} {A} {B} x e u t h = let p : x ≡ e = cc in let q : u ≡ t = cc in rw (p, q) refl

-- A block fails with its first call, or with the rest after it.
pub bind_err :
    {S A B : Type 0} (m : Exec S A) (f : A → Exec S B) (s t : S) (e : Error)
    → (m >>= f) s ≡ (err e, t)
    → (m s ≡ (err e, t)) ⊎ ((a : A) × (u : S) × (m s ≡ (ok a, u)) × (f a u ≡ (err e, t)))
unfolding ◌>>=◌
bind_err {S} {A} {B} m f s t e h = go (m s) refl
  where
    go :
        (r : Outcome A × S)
        → m s ≡ r
        → (m s ≡ (err e, t)) ⊎ ((a : A) × (u : S) × (m s ≡ (ok a, u)) × (f a u ≡ (err e, t)))
    go (ok a, u) q = inr (a, u, q, (rw (q, continue) at h))
    go (err x, u) q = inl (q ∙ same_error x e u t (rw (q, continue) at h))
    go (panicked, u) q = let g = rw (q, continue) at h in cc

pub guard_err :
    {S : Type 0} (test : Bool) (x e : Error) (s t : S)
    → guard test x s ≡ (err e, t)
    → (test ≡ false) × (e ≡ x)
unfolding guard
guard_err true x e s t h = cc
guard_err false x e s t h = (refl, cc)
