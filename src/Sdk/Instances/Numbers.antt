-- ===== src/Sdk/Instances/Numbers.antt =====
-- Concrete decimals and a concrete bank that meet the interfaces: integers that count atomic units,
-- and balances of one denomination.
use veranatest.Prelude.{
  Bool-cases, Bytes, Error, Exec, Outcome, ap, arith, ascii, bytes_eq, bytes_eq_iff, bytes_eq_refl,
  bytes_eq→eq, err, false, if◌then◌else◌, inl, inr, leb, ok, ok_injective, panicked, refl, subst,
  suc, sym, true, ℕ, ◌*◌, ◌+◌, ◌-◌, ◌/◌, ◌<◌, ◌==◌, ◌≡◌, ◌≢◌, ◌≤◌,
}
use veranatest.Prelude.Int.{leb_ℤ, neg_part, negsuc, pos, pos_part, sub_ℕ, ℤ, ◌+ℤ◌, ◌-ℤ◌, ◌≤ℤ◌}
use veranatest.Sdk.Decimal.{Decimals, precision}
use veranatest.Sdk.Bank.{Bank, Moved}

negative : ℕ → ℤ
negative n = sub_ℕ 0 n

unfoldable pub times : ℤ → ℤ → ℤ
unfolding negative
times (pos m) (pos n) = pos (m * n / precision)
times (pos m) (negsuc n) = negative (m * suc n / precision)
times (negsuc m) (pos n) = negative (suc m * n / precision)
times (negsuc m) (negsuc n) = pos (suc m * suc n / precision)

unfoldable pub divided : ℤ → ℤ → ℤ
unfolding negative
divided (pos m) (pos n) = pos (m * precision / n)
divided (pos m) (negsuc n) = negative (m * precision / suc n)
divided (negsuc m) (pos n) = negative (suc m * precision / n)
divided (negsuc m) (negsuc n) = pos (suc m * precision / suc n)

unfoldable pub whole : ℤ → ℤ
unfolding negative
whole (pos n) = pos (n / precision)
whole (negsuc n) = negative (suc n / precision)

unfoldable pub scaled : ℤ → ℤ
scaled (pos n) = pos (n * precision)
scaled (negsuc n) = negsuc (suc n * precision - 1)

pub scaled_value :
    (i : ℤ)
    → (pos_part (scaled i) ≡ pos_part i * precision)
      × (neg_part (scaled i) ≡ neg_part i * precision)
unfolding scaled
scaled_value (pos n) = (refl, refl)
scaled_value (negsuc n) = (omega arith, omega arith)

pub exact_add : (a b c : ℤ) → ok (a +ℤ b) ≡ ok c → c ≡ a +ℤ b
exact_add a b c h = sym (ok_injective h)

pub exact_sub : (a b c : ℤ) → ok (a -ℤ b) ≡ ok c → c ≡ a -ℤ b
exact_sub a b c h = sym (ok_injective h)

times_sign : (a b : ℤ) → pos 0 ≤ℤ a → pos 0 ≤ℤ b → pos 0 ≤ℤ times a b
unfolding times
times_sign (pos m) (pos n) h g = omega arith
times_sign (negsuc m) b h g = absurd (omega arith)
times_sign (pos m) (negsuc n) h g = absurd (omega arith)

pub times_nonneg : (a b c : ℤ) → ok (times a b) ≡ ok c → pos 0 ≤ℤ a → pos 0 ≤ℤ b → pos 0 ≤ℤ c
times_nonneg a b c e h g = subst (λ x. pos 0 ≤ℤ x) (ok_injective e) (times_sign a b h g)

divided_sign : (a b : ℤ) → pos 0 ≤ℤ a → pos 0 ≤ℤ b → pos 0 ≤ℤ divided a b
unfolding divided
divided_sign (pos m) (pos n) h g = omega arith
divided_sign (negsuc m) b h g = absurd (omega arith)
divided_sign (pos m) (negsuc n) h g = absurd (omega arith)

pub divided_nonneg : (a b c : ℤ) → ok (divided a b) ≡ ok c → pos 0 ≤ℤ a → pos 0 ≤ℤ b → pos 0 ≤ℤ c
divided_nonneg a b c e h g = subst (λ x. pos 0 ≤ℤ x) (ok_injective e) (divided_sign a b h g)

pub whole_value : (a i : ℤ) → ok (whole a) ≡ ok i → pos 0 ≤ℤ a → i ≡ pos (pos_part a / precision)
unfolding whole
whole_value (pos n) i e h = sym (ok_injective e)
whole_value (negsuc n) i e h = absurd (omega arith)

abbrev pub atomic_decimals : Decimals
atomic_decimals = record {
  LegacyDec = ℤ;
  atomics = λ a. a;
  nil_dec = pos 0;
  zero_dec = pos 0;
  from_int = scaled;
  add = λ a b. ok (a +ℤ b);
  sub = λ a b. ok (a -ℤ b);
  mul = λ a b. ok (times a b);
  quo = λ a b. ok (divided a b);
  gte = λ a b. leb_ℤ b a;
  truncate_int = λ a. ok (whole a);
  from_str = λ text. panicked;
  zero_dec_value = refl;
  from_int_value = scaled_value;
  add_ok = exact_add;
  sub_ok = exact_sub;
  mul_nonneg = times_nonneg;
  quo_nonneg = divided_nonneg;
  gte_value = λ a b. refl;
  truncate_ok = whole_value;
}

abbrev pub denomination : Bytes
denomination = ascii "uvna"

unfoldable pub amount_in : ℕ → Bytes → ℕ
amount_in c d = if bytes_eq denomination d then c else 0

unfoldable pub held : (Bytes → ℕ) → Bytes → Bytes → ℕ
unfolding amount_in
held s a d = amount_in (s a) d

pub held_lem : (s : Bytes → ℕ) (a d : Bytes) → amount_in (s a) d ≡ held s a d
unfolding held amount_in
held_lem s a d = refl

unfoldable pub coin : ℤ → Outcome ℕ
coin (pos n) = ok n
coin (negsuc n) = panicked

unfoldable pub coins_of : Bytes → ℤ → Outcome ℕ
unfolding coin
coins_of d i = if bytes_eq denomination d then coin i else panicked

unfoldable pub transfer : Bytes → Bytes → ℕ → Exec (Bytes → ℕ) (Unit {0})
transfer from to c s =
    if leb c (s from)
    then (ok tt, λ a. if bytes_eq from a then s a - c else if bytes_eq to a then s a + c else s a)
    else (err (Error.foreign 5), s)

pub coins_of_ok :
    (d : Bytes) (i : ℤ) (c : ℕ)
    → coins_of d i ≡ ok c
    → (pos 0 ≤ℤ i) × ((e : Bytes) → amount_in c e ≡ (if bytes_eq d e then pos_part i else 0))
unfolding coins_of amount_in
coins_of_ok d (pos n) c h = elim (Bool-cases (bytes_eq denomination d)) [
  | inl same ↦ (
    omega arith,
    λ e.
        subst (λ x. (if bytes_eq denomination e then c else 0) ≡ (if bytes_eq x e then n else 0))
          (bytes_eq→eq _ _ same)
          (ap (λ m. if bytes_eq denomination e then m else 0) (sym (ok_injective (rw same at h)))),
  )
  | inr other ↦ ground arith
]
coins_of_ok d (negsuc n) c h = ground arith

pub covers : (a b : ℕ) → leb b a ≡ true → (d : Bytes) → amount_in b d ≤ amount_in a d
unfolding amount_in
covers a b h d = ground arith

pub covers_not : (a b : ℕ) → leb b a ≡ false → (d : Bytes) × (amount_in a d < amount_in b d)
unfolding amount_in
covers_not a b h = (denomination, ground (arith, bytes_eq_refl denomination))

pub zero_amount : (a : ℕ) → (a == 0) ≡ true → (d : Bytes) → amount_in a d ≡ 0
unfolding amount_in
zero_amount a h d = ground arith

pub transfer_ok :
    (from to : Bytes) (c : ℕ) (s t : Bytes → ℕ)
    → transfer from to c s ≡ (ok tt, t)
    → from ≢ to
    → Moved held amount_in from to c s t
unfolding transfer held amount_in
transfer_ok from to c s t h n = elim (Bool-cases (leb c (s from))) [
  | inr short ↦ ground arith
  | inl enough ↦
      let after : (λ (a : Bytes).
        if bytes_eq from a then s a - c else if bytes_eq to a then s a + c else s a)
          ≡ t =
        ap (λ (x : Outcome (Unit {0}) × (Bytes → ℕ)). x.1) (rw enough at h) in
      rw (← after) (record {
        sender = λ d. ground (arith, bytes_eq_refl from);
        recipient = λ d. ground (arith, bytes_eq_refl to, bytes_eq_iff from to);
        others = λ a d p q. ground (arith, bytes_eq_iff from a, bytes_eq_iff to a);
      })
]

abbrev pub one_denomination : Bank
one_denomination = record {
  Coins = ℕ;
  Store = Bytes → ℕ;
  amount_of = amount_in;
  new_coins = coins_of;
  is_all_gte = λ a b. leb b a;
  is_zero = λ a. a == 0;
  balance = held;
  module_address = λ m. m;
  get_all_balances = λ s a. s a;
  send_coins_from_module_to_module = transfer;
  send_coins_from_account_to_module = transfer;
  new_coins_ok = coins_of_ok;
  is_all_gte_ok = covers;
  is_all_gte_false = covers_not;
  is_zero_ok = zero_amount;
  get_all_balances_ok = held_lem;
  module_to_module_ok = transfer_ok;
  account_to_module_ok = transfer_ok;
}
