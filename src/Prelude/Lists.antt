-- ===== src/Prelude/Lists.antt =====
-- Lists over the native numbers, and membership as a predicate by recursion.
use Prim.Native.Nat.{ℕ, suc, ◌+◌}
use mathlib.Core.Path.{◌≡◌, refl}
use mathlib.Core.Logic.{◌⊎◌, inl, inr}
use mathlib.Core.List.{List, [], ◌∷◌, ◌++◌}
use native.Mathlib.Omega.{arith}

module _ {ℓ} {A : Type ℓ} where
  abbrev pub length : List A → ℕ
  length [] = 0
  length (x ∷ xs) = suc (length xs)

  pub length-append : (xs ys : List A) → length (xs ++ ys) ≡ length xs + length ys
  length-append [] ys = omega arith
  length-append (x ∷ xs) ys = omega (arith, length-append xs ys)

module _ {A : Type 0} where
  -- `x` stands in the list.
  abbrev pub Listed : A → List A → Type 0
  Listed x [] = ⊥
  Listed x (y ∷ ys) = (x ≡ y) ⊎ Listed x ys

  abbrev pub All : (A → Type 0) → List A → Type 0
  All P [] = Unit
  All P (x ∷ xs) = P x × All P xs

  pub All-Listed : (P : A → Type 0) (xs : List A) → ((x : A) → Listed x xs → P x) → All P xs
  All-Listed P [] h = tt
  All-Listed P (x ∷ xs) h = (h x (inl refl), All-Listed P xs (λ y l. h y (inr l)))

  pub Listed-All : (P : A → Type 0) (xs : List A) → All P xs → (x : A) → Listed x xs → P x
  Listed-All P [] h x l = absurd l
  Listed-All P (y ∷ ys) h x (inl e) = rw e h.0
  Listed-All P (y ∷ ys) h x (inr l) = Listed-All P ys h.1 x l

  pub All-map : (P Q : A → Type 0) (xs : List A) → ((x : A) → P x → Q x) → All P xs → All Q xs
  All-map P Q [] f h = tt
  All-map P Q (x ∷ xs) f h = (f x h.0, All-map P Q xs f h.1)
