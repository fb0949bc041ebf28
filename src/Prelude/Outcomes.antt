-- ===== src/Prelude/Outcomes.antt =====
-- What a Go call gives: a value, an error or a panic; and code that also changes a state.
use mathlib.Core.Path.{◌≡◌, ap}
use mathlib.Core.Bool.{Bool, true, false}
use Prim.Native.Nat.{ℕ}

-- Why `OnboardValidator` refuses a message (the texts that wrap `ErrInvalidValidator`).
pub data Invalid : Type 0 where
  empty_index empty_member_id empty_operator_address empty_status : Invalid
  already_exists bad_operator_address : Invalid

-- Why the decorator on group proposals refuses a transaction.
pub data Request : Type 0 where
  no_proposal too_early not_accepted : Request

-- Why the generated decoder of a Validator refuses its bytes, where it is not for their end.
pub data Malformed : Type 0 where
  wrong_wire_type illegal_tag illegal_wire_type negative_length end_of_group : Malformed

-- Errors by their cause. The texts that `Wrapf` adds are left out; `foreign` stands for any error
-- of a library.
pub data Error : Type 0 where
  invalid_signer : Error
  invalid_validator : Invalid → Error
  invalid_request : Request → Error
  unauthorized : Error
  not_found : Error
  invalid_argument internal : Error
  duplicated_index : Error
  missing_dependency : Error
  vesting_times : Error
  overflow unexpected_eof : Error
  malformed : Malformed → Error
  missing_home wrong_options : Error
  foreign : ℕ → Error

pub data Outcome {ℓ} (A : Type ℓ) : Type ℓ where
  ok : A → Outcome A
  err : Error → Outcome A
  panicked : Outcome A

-- A call that changes a state, and keeps what it changed when it fails.
abbrev pub Exec {ℓ} : Type ℓ → Type ℓ → Type ℓ
Exec S A = S → Outcome A × S

module _ {ℓ} {S A : Type ℓ} where
  unfoldable pub pure : A → Exec S A
  pure a s = (ok a, s)

  unfoldable pub raise : Error → Exec S A
  raise e s = (err e, s)

  -- A call that reads the state.
  unfoldable pub gets : (S → Outcome A) → Exec S A
  gets f s = (f s, s)

  unfoldable pub lift : Outcome A → Exec S A
  lift r s = (r, s)

module _ {ℓ} {S A B : Type ℓ} where
  abbrev pub continue : Outcome A → (A → Exec S B) → Exec S B
  continue (ok a) f s = f a s
  continue (err e) f s = (err e, s)
  continue panicked f s = (panicked, s)

  infixl 5 ◌>>=◌ ◌>>◌
  unfoldable pub ◌>>=◌ : Exec S A → (A → Exec S B) → Exec S B
  ◌>>=◌ m f s = let r = m s in continue r.0 f r.1

  abbrev pub ◌>>◌ : Exec S A → Exec S B → Exec S B
  m >> k = m >>= λ _. k

module _ {S : Type 0} where
  -- `if !b { return e }`
  unfoldable pub guard : Bool → Error → Exec S (Unit {0})
  guard true e s = (ok tt, s)
  guard false e s = (err e, s)

module _ {ℓ} {A : Type ℓ} where
  -- `if err := r; err != nil { return e }`: another error takes the place of the callee's.
  abbrev pub or_error : Error → Outcome A → Outcome A
  or_error e (ok a) = ok a
  or_error e (err x) = err e
  or_error e panicked = panicked

  abbrev pub Succeeds : Outcome A → Type 0
  Succeeds (ok a) = Unit
  Succeeds (err e) = ⊥
  Succeeds panicked = ⊥

value_or {ℓ} : {A : Type ℓ} → A → Outcome A → A
value_or d (ok a) = a
value_or d (err e) = d
value_or d panicked = d

pub ok_injective {ℓ} : {A : Type ℓ} {a b : A} → ok a ≡ ok b → a ≡ b
unfolding value_or
ok_injective {a} h = ap (value_or a) h
