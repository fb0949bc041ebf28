-- ===== src/Sdk/Instances/Ledgers.antt =====
-- Concrete stores for the test network: a list of pairs for x/staking, and balances of the one
-- denomination as a function.
use veranatest.Sdk.Bank.{Moved}
use veranatest.Sdk.Instances.Stakings.{text_bytes}
use veranatest.Sdk.Instances.{find_value}
use veranatest.Prelude.{
  Bool, Bool-cases, Bytes, Error, Exec, List, Listed, Outcome, [], ap, arith, ascii, bytes_eq,
  bytes_eq_refl, bytes_eq→eq, err, false, false_of, has_prefix, if◌then◌else◌, inl, inr, leb, none,
  ok, ok_injective, pure, refl, some, subst, sym, true, ℕ, ◌++◌, ◌+◌, ◌-◌, ◌↔◌, ◌∙◌, ◌∷◌, ◌≡◌, ◌≢◌,
  ◌⊎◌,
}
use veranatest.Prelude.Int.{pos}
use veranatest.Sdk.Testnet.{TestnetKeepers}

pub record Ledger : Type 0 where
  pub pairs : List (Bytes × Bytes)
  pub balances : Bytes → ℕ

keep_unless : Bool → Bytes × Bytes → List (Bytes × Bytes) → List (Bytes × Bytes)
keep_unless true p l = l
keep_unless false p l = p ∷ l

unfoldable pub erase : Bytes → List (Bytes × Bytes) → List (Bytes × Bytes)
unfolding keep_unless
erase key [] = []
erase key ((k, v) ∷ rest) = keep_unless (bytes_eq key k) (k, v) (erase key rest)

pub find_value-erase :
    (key : Bytes) (l : List (Bytes × Bytes)) (j : Bytes)
    → find_value (erase key l) j ≡ (if bytes_eq key j then none else find_value l j)
unfolding erase find_value keep_unless
find_value-erase key [] j = elim (Bool-cases (bytes_eq key j)) [
  | inl e ↦ rw (e) refl
  | inr e ↦ rw (e) refl
]
find_value-erase key ((k, v) ∷ rest) j = elim (Bool-cases (bytes_eq key k)) [
  | inl e ↦
      let same = bytes_eq→eq key k e in
      ground (arith, find_value-erase key rest j, e, ap (λ x. bytes_eq x j) same)
  | inr e ↦ elim (Bool-cases (bytes_eq k j)) [
    | inl q ↦
        let other : bytes_eq key j ≡ false = ap (bytes_eq key) (sym (bytes_eq→eq k j q)) ∙ e in
        rw (e, keep_unless) (rw (q, other) refl)
    | inr q ↦ rw (e, keep_unless) (rw (q) (find_value-erase key rest j))
  ]
]

unfoldable pub matching : Bytes → List (Bytes × Bytes) → List Bytes
matching p [] = []
matching p ((k, v) ∷ rest) = let more = matching p rest in if has_prefix p k then k ∷ more else more

matching_sound :
    (p : Bytes) (l : List (Bytes × Bytes)) (j : Bytes)
    → Listed j (matching p l)
    → (has_prefix p j ≡ true) × (find_value l j ≢ none)
unfolding matching find_value
matching_sound p [] j h = absurd h
matching_sound p ((k, v) ∷ rest) j h = elim (Bool-cases (has_prefix p k)) [
  | inl y ↦ elim (the_cases y h) [
    | inl e ↦ (ap (has_prefix p) e ∙ y, λ n. ground (arith, n, e, bytes_eq_refl k))
    | inr l ↦ more (matching_sound p rest j l)
  ]
  | inr n ↦ more (matching_sound p rest j (rw (n) at h))
]
  where
    the_cases :
        has_prefix p k ≡ true
        → Listed j (if has_prefix p k then k ∷ matching p rest else matching p rest)
        → (j ≡ k) ⊎ Listed j (matching p rest)
    the_cases y l = rw (y) at l

    more :
        (has_prefix p j ≡ true) × (find_value rest j ≢ none)
        → (has_prefix p j ≡ true) × ((if bytes_eq k j then some v else find_value rest j) ≢ none)
    more (y, held) = elim (Bool-cases (bytes_eq k j)) [
      | inl e ↦ (y, rw (e) (λ n. cc))
      | inr e ↦ (y, rw (e) held)
    ]

matching_complete :
    (p : Bytes) (l : List (Bytes × Bytes)) (j : Bytes)
    → has_prefix p j ≡ true
    → find_value l j ≢ none
    → Listed j (matching p l)
unfolding matching find_value
matching_complete p [] j y n = absurd (n refl)
matching_complete p ((k, v) ∷ rest) j y n = elim (Bool-cases (bytes_eq k j)) [
  | inl e ↦
      let here : has_prefix p k ≡ true = ap (has_prefix p) (bytes_eq→eq k j e) ∙ y in
      rw (here) (inl (sym (bytes_eq→eq k j e)))
  | inr e ↦ later (matching_complete p rest j y (rw (e) at n))
]
  where
    later :
        Listed j (matching p rest)
        → Listed j (if has_prefix p k then k ∷ matching p rest else matching p rest)
    later l = elim (Bool-cases (has_prefix p k)) [ inl q ↦ rw (q) (inr l) | inr q ↦ rw (q) l ]

pub matching_lem :
    (p : Bytes) (l : List (Bytes × Bytes)) (j : Bytes)
    → Listed j (matching p l) ↔ ((has_prefix p j ≡ true) × (find_value l j ≢ none))
matching_lem p l j = (matching_sound p l j, λ h. matching_complete p l j h.0 h.1)

abbrev pub add_balance : Bytes → ℕ → Ledger → Ledger
add_balance a n s = record s { balances = λ b. s.balances b + (if bytes_eq a b then n else 0) }

abbrev pub take_balance : Bytes → ℕ → Ledger → Ledger
take_balance a n s = record s {
  balances = λ b. if bytes_eq a b then s.balances b - n else s.balances b;
}

unfoldable pub send_balance : Bytes → Bytes → ℕ → Exec Ledger (Unit {0})
send_balance from to n s =
    if leb n (s.balances from)
    then (ok tt, add_balance to n (take_balance from n s))
    else (err (Error.foreign 1), s)

pub send_balance_ok :
    (from to : Bytes) (n : ℕ) (s t : Ledger)
    → send_balance from to n s ≡ (ok tt, t)
    → from ≢ to
    → Moved (λ (u : Ledger) a d. u.balances a) (λ (c : ℕ) d. c) from to n s t
unfolding send_balance
send_balance_ok from to n s t h apart = elim (Bool-cases (leb n (s.balances from))) [
  | inl e ↦
      let sent : add_balance to n (take_balance from n s) ≡ t =
        ap (λ (r : Outcome (Unit {0}) × Ledger). r.1) (rw (e) at h) in
      subst (λ u. Moved (λ (u : Ledger) a d. u.balances a) (λ (c : ℕ) d. c) from to n s u) sent
        (moved e)
  | inr e ↦ absurd (let g = rw (e) at h in cc)
]
  where
    moved :
        leb n (s.balances from) ≡ true
        → Moved
            (λ (u : Ledger) a d. u.balances a)
            (λ (c : ℕ) d. c)
            from
            to
            n
            s
            (add_balance to n (take_balance from n s))
    moved e =
        let no = false_of (bytes_eq to from) (λ q. apart (sym (bytes_eq→eq to from q))) in
        let no' = false_of (bytes_eq from to) (λ q. apart (bytes_eq→eq from to q)) in
        record {
          sender = λ d. rw (no, bytes_eq_refl from) (ground (arith, e));
          recipient = λ d. rw (no', bytes_eq_refl to) refl;
          others = λ a d n1 n2.
              let p = false_of (bytes_eq from a) (λ q. n1 (sym (bytes_eq→eq from a q))) in
              let q = false_of (bytes_eq to a) (λ q. n2 (sym (bytes_eq→eq to a q))) in
              rw (p, q) (omega arith);
        }

-- An address is its text, and the empty text is none.
abbrev pub ledger_keepers : TestnetKeepers
ledger_keepers = record {
  Stores = Ledger;
  Any = Bytes;
  Status = Unit;
  Validator = Bytes;
  Coins = ℕ;
  last_block_height = pos 12;
  bonded = tt;
  new_validator = λ fields. fields.operator_address;
  new_any_with_value = λ b. ok b;
  string_to_validator = text_bytes;
  string_to_account = text_bytes;
  value = λ s k. find_value s.pairs k;
  delete = λ k s. record s { pairs = erase k s.pairs };
  iterator = λ p q s. matching p s.pairs;
  prefix_end_bytes = λ p. p;
  validators_power_store_iterator = λ s. ok (matching (ascii "P") s.pairs);
  last_validators_iterator = λ s. ok (matching (ascii "L") s.pairs);
  power_index_key = ascii "P";
  last_power_key = ascii "L";
  validators_key = ascii "V";
  validator_queue_key = ascii "Q";
  set_validator = λ v s. (ok tt, record s { pairs = (ascii "V" ++ v, v) ∷ s.pairs });
  set_validator_by_cons_addr = λ v. pure tt;
  set_validator_by_power_index = λ v s. (ok tt, record s { pairs = (ascii "P" ++ v, v) ∷ s.pairs });
  set_last_validator_power = λ a n s. (ok tt, record s { pairs = (ascii "L" ++ a, a) ∷ s.pairs });
  after_validator_created = λ a. pure tt;
  bond_denom = λ s. ok (ascii "stake");
  set_validator_historical_rewards = λ a p n. pure tt;
  set_validator_current_rewards = λ a p. pure tt;
  set_validator_accumulated_commission = λ a. pure tt;
  set_validator_outstanding_rewards = λ a. pure tt;
  set_validator_signing_info = λ a h b. pure tt;
  new_coins = λ d n. ok n;
  amount_of = λ c d. c;
  balance = λ s a d. s.balances a;
  module_address = λ m. m;
  mint_coins = λ m c s. (ok tt, add_balance m c s);
  send_coins_from_module_to_account = send_balance;
  delete_lem = λ key s j. find_value-erase key s.pairs j;
  iterator_lem = λ p s j. matching_lem p s.pairs j;
  power_iterator_lem = λ s keys e j.
      subst (λ l. Listed j l ↔ ((has_prefix (ascii "P") j ≡ true) × (find_value s.pairs j ≢ none)))
        (ok_injective e) (matching_lem (ascii "P") s.pairs j);
  last_iterator_lem = λ s keys e j.
      subst (λ l. Listed j l ↔ ((has_prefix (ascii "L") j ≡ true) × (find_value s.pairs j ≢ none)))
        (ok_injective e) (matching_lem (ascii "L") s.pairs j);
  mint_ok = λ m c s t h a d. ap (λ (r : Outcome (Unit {0}) × Ledger). r.1.balances a) (sym h);
  send_ok = send_balance_ok;
}
