-- ===== src/Export/Rules.antt =====
-- Rules for the calls of app/export.go that panic on an error: what a block that ends well tells.
use veranatest.Export.{discard, must, procedure}
use veranatest.Prelude.{
  Ensures, Ensures-bind, Error, Exec, Option, Outcome, continue, err, gets, lift, none, ok,
  panicked, pure, refl, some, ◌>>=◌, ◌≡◌, ◌≢◌,
}

module _ {S A : Type 0} where
  pub must_ok : (m : Exec S A) (s t : S) (a : A) → must m s ≡ (ok a, t) → m s ≡ (ok a, t)
  unfolding must
  must_ok m s t a h = go (m s) refl
    where
      go : (r : Outcome A × S) → m s ≡ r → m s ≡ (ok a, t)
      go (ok x, u) e = cc
      go (err x, u) e = cc
      go (panicked, u) e = cc

module _ {S A B : Type 0} {s : S} {P : B → S → Type 0} where
  pub Ensures-must :
      (m : Exec S A) (f : A → Exec S B)
      → ((a : A) (t : S) → m s ≡ (ok a, t) → Ensures (f a) t P)
      → Ensures (must m >>= f) s P
  Ensures-must m f h = Ensures-bind _ _ λ a t e. h a t (must_ok m s t a e)

  pub Ensures-must_gets :
      (g : S → Outcome A) (f : A → Exec S B)
      → ((a : A) → g s ≡ ok a → Ensures (f a) s P)
      → Ensures (must (gets g) >>= f) s P
  unfolding ◌>>=◌ gets must
  Ensures-must_gets g f h = go (g s) refl
    where
      go : (r : Outcome A) → g s ≡ r → Ensures (must (gets g) >>= f) s P
      go (ok a) e = record { at = λ b u eq. (h a e).at b u (rw (e, continue) at eq) }
      go (err x) e = record { at = λ b u eq. cc }
      go panicked e = record { at = λ b u eq. cc }

  pub Ensures-must_lift :
      (r : Outcome A) (f : A → Exec S B)
      → ((a : A) → r ≡ ok a → Ensures (f a) s P)
      → Ensures (must (lift r) >>= f) s P
  unfolding ◌>>=◌ lift must
  Ensures-must_lift (ok a) f h = record { at = (h a refl).at }
  Ensures-must_lift (err e) f h = record { at = λ b t eq. cc }
  Ensures-must_lift panicked f h = record { at = λ b t eq. cc }

-- A call that returns no error: it ends well or panics.
pub record NeverErrs {S A : Type 0} (m : Exec S A) : Type 0 where
  pub at : (s t : S) (e : Error) → m s ≢ (err e, t)

module _ {S A B : Type 0} where
  pub NeverErrs-bind :
      (m : Exec S A) (f : A → Exec S B)
      → NeverErrs m
      → ((a : A) → NeverErrs (f a))
      → NeverErrs (m >>= f)
  unfolding ◌>>=◌
  NeverErrs-bind m f hm hf = record { at = λ s t e. go s t e (m s) refl }
    where
      go : (s t : S) (e : Error) (r : Outcome A × S) → m s ≡ r → (m >>= f) s ≢ (err e, t)
      go s t e (ok a, u) q = λ h. (hf a).at u t e (rw (q, continue) at h)
      go s t e (err x, u) q = absurd (hm.at s u x q)
      go s t e (panicked, u) q = λ h. cc

module _ {S A : Type 0} where
  pub NeverErrs-must : (m : Exec S A) → NeverErrs (must m)
  unfolding must
  NeverErrs-must m = record { at = λ s t e. go s t e (m s) refl }
    where
      go : (s t : S) (e : Error) (r : Outcome A × S) → m s ≡ r → must m s ≢ (err e, t)
      go s t e (ok a, u) q = λ h. cc
      go s t e (err x, u) q = λ h. cc
      go s t e (panicked, u) q = λ h. cc

  pub NeverErrs-pure : (a : A) → NeverErrs {S = S} (pure a)
  unfolding pure
  NeverErrs-pure a = record { at = λ s t e h. cc }

  pub NeverErrs-reads : (f : S → A) → NeverErrs (gets (λ s. ok (f s)))
  unfolding gets
  NeverErrs-reads f = record { at = λ s t e h. cc }

module _ {S : Type 0} where
  pub NeverErrs-discard : (m : Exec S (Unit {0})) → NeverErrs (discard m)
  unfolding discard
  NeverErrs-discard m = record { at = λ s t e. go s t e (m s) refl }
    where
      go : (s t : S) (e : Error) (r : Outcome (Unit {0}) × S) → m s ≡ r → discard m s ≢ (err e, t)
      go s t e (ok a, u) q = λ h. cc
      go s t e (err x, u) q = λ h. cc
      go s t e (panicked, u) q = λ h. cc

  pub NeverErrs-procedure : (f : S → Option S) → NeverErrs (procedure f)
  unfolding procedure
  NeverErrs-procedure f = record { at = λ s t e. go s t e (f s) refl }
    where
      go : (s t : S) (e : Error) (r : Option S) → f s ≡ r → procedure f s ≢ (err e, t)
      go s t e (some u) q = λ h. cc
      go s t e none q = λ h. cc
