-- ===== src/Testnets/InPlace/Funding.antt =====
-- What the loop over the accounts gives them, and what an empty list of accounts does.
use veranatest.Testnets.Texts.{HasNoComma, join_commas, split-join, split_commas}
use veranatest.Export.Rules.{Ensures-must, Ensures-must_gets, Ensures-must_lift}
use veranatest.Testnets.InPlace.{
  AppOptions, ValArgs, Value, as_hex_bytes, as_pub_key, as_text, fund_accounts, get_command_args,
  hex_bytes, init_app_for_testnet, mint_module, new_testnet_app, pub_key, text,
}
use veranatest.Prelude.{
  All, Bool, Bool-cases, Bytes, Ensures, Ensures-bind, Ensures-guard, Ensures-lift, Error, List,
  Listed, Outcome, [], ap, arith, bytes_eq, bytes_eq→eq, bytes_neq, err, false, false_of, guard,
  if◌then◌else◌, inl, inr, is_empty_ne, lift, ok, panicked, pure, pure_inversion, refl, subst, sym,
  ℕ, ◌*◌, ◌+◌, ◌>>=◌, ◌∙◌, ◌∷◌, ◌≡◌, ◌≢◌,
}
use veranatest.Sdk.Testnet.{TestnetKeepers}

module _ (k : TestnetKeepers) where
  -- The text is read as this address.
  unfoldable pub names_account : Bytes → Bytes → Bool
  names_account a account_str = elim (k.string_to_account account_str) [
    | ok b ↦ bytes_eq b a
    | err e ↦ false
    | panicked ↦ false
  ]

  -- How often the texts name the address.
  unfoldable pub times_named : Bytes → List Bytes → ℕ
  unfolding names_account
  times_named a [] = 0
  times_named a (account_str ∷ rest) =
      let others = times_named a rest in if names_account a account_str then 1 + others else others

  -- The loop keeps the balances but for `amount` more for each time that an address is named.
  abbrev pub Funded : k.Coins → List Bytes → k.Stores → k.Stores → Type 0
  Funded coins accounts s t =
      (a d : Bytes)
      → k.balance t a d ≡ k.balance s a d + times_named a accounts * k.amount_of coins d

  one_account :
      (coins : k.Coins) (b : Bytes) (s s1 t : k.Stores)
      → k.module_address mint_module ≢ b
      → k.mint_coins mint_module coins s ≡ (ok tt, s1)
      → k.send_coins_from_module_to_account mint_module b coins s1 ≡ (ok tt, t)
      → (a d : Bytes)
      → k.balance t a d ≡ k.balance s a d + (if bytes_eq b a then k.amount_of coins d else 0)
  one_account coins b s s1 t n m h a d =
      let moved = k.send_ok mint_module b coins s1 t h n in
      let minted = k.mint_ok mint_module coins s s1 m a d in
      elim (Bool-cases (bytes_eq (k.module_address mint_module) a)) [
        | inl e ↦
            let same = bytes_eq→eq (k.module_address mint_module) a e in
            let sent =
              subst (λ x. k.balance t x d + k.amount_of coins d ≡ k.balance s1 x d) same
                (moved.sender d) in
            let other : bytes_eq b a ≡ false =
              false_of _ (λ q. n (same ∙ sym (bytes_eq→eq b a q))) in
            ground (arith, minted, e, sent, other)
        | inr e ↦ elim (Bool-cases (bytes_eq b a)) [
          | inl r ↦
              let got =
                subst (λ x. k.balance t x d ≡ k.balance s1 x d + k.amount_of coins d)
                  (bytes_eq→eq b a r) (moved.recipient d) in
              ground (arith, minted, e, got, r)
          | inr r ↦
              let kept =
                moved.others a d (λ q. bytes_neq _ a e (sym q)) (λ q. bytes_neq b a r (sym q)) in
              ground (arith, minted, e, kept, r)
        ]
      ]

  named :
      (a account_str b : Bytes)
      → k.string_to_account account_str ≡ ok b
      → names_account a account_str ≡ bytes_eq b a
  unfolding names_account
  named a account_str b e = rw (e, names_account) refl

  times_zero :
      (a account_str : Bytes) (rest : List Bytes)
      → times_named a (account_str ∷ rest) ≡ 0
      → (names_account a account_str ≡ false) × (times_named a rest ≡ 0)
  unfolding times_named
  times_zero a account_str rest z = elim (Bool-cases (names_account a account_str)) [
    | inl e ↦ absurd (ground (arith, e, z))
    | inr e ↦ (e, ground (arith, e, z))
  ]

  times_step :
      (a account_str b : Bytes) (rest : List Bytes) (x y amount : ℕ)
      → k.string_to_account account_str ≡ ok b
      → y ≡ x + (if bytes_eq b a then amount else 0)
      → y + times_named a rest * amount ≡ x + times_named a (account_str ∷ rest) * amount
  unfolding times_named
  times_step a account_str b rest x y amount e h = elim (Bool-cases (bytes_eq b a)) [
    | inl q ↦
        let y' : y ≡ x + amount = ground (arith, h, q) in
        rw (named a account_str b e, q) (omega arith)
    | inr q ↦ let y' : y ≡ x = ground (arith, h, q) in rw (named a account_str b e, q) (omega arith)
  ]

  none-Funded :
      (coins : k.Coins) (s t : k.Stores) (u : Unit {0}) → pure u s ≡ (ok u, t) → Funded coins [] s t
  unfolding pure times_named
  none-Funded coins s t u h a d =
      let same : k.balance t a d ≡ k.balance s a d =
        ap (λ (r : Outcome (Unit {0}) × k.Stores). k.balance r.1 a d) (sym h) in
      omega (arith, same)

  fund_Ensures :
      (coins : k.Coins) (accounts : List Bytes) (s : k.Stores)
      → times_named (k.module_address mint_module) accounts ≡ 0
      → Ensures (fund_accounts k coins accounts) s λ u t. Funded coins accounts s t
  unfolding fund_accounts
  fund_Ensures coins [] s z = record { at = λ u t h a d. none-Funded coins s t u h a d }
  fund_Ensures coins (account_str ∷ rest) s z =
      let none_to_mint = times_zero (k.module_address mint_module) account_str rest z in
      Ensures-must _ _ λ u s1 m. Ensures-must_lift _ _ λ b e. Ensures-must _ _ λ v s2 h. record {
        at = λ w t q a d.
            let apart : k.module_address mint_module ≢ b =
              λ x. bytes_neq b _ (sym (named _ account_str b e) ∙ none_to_mint.0) (sym x) in
            let later = (fund_Ensures coins rest s2 none_to_mint.1).at w t q a d in
            let now = one_account coins b s s1 s2 apart m h a d in
            later ∙ times_step a account_str b rest _ _ _ e now;
      }

  -- A run of the loop gives an address `coins` once for each text that names it, and changes no other
  -- balance, where no text names the account of the mint module.
  pub fund_accounts_ok :
      (coins : k.Coins) (accounts : List Bytes) (s t : k.Stores)
      → times_named (k.module_address mint_module) accounts ≡ 0
      → fund_accounts k coins accounts s ≡ (ok tt, t)
      → (a d : Bytes)
      → k.balance t a d ≡ k.balance s a d + times_named a accounts * k.amount_of coins d
  fund_accounts_ok coins accounts s t z h = (fund_Ensures coins accounts s z).at tt t h

  -- A text that is no address ends the process.
  stops :
      (coins : k.Coins) (accounts : List Bytes) (x : Bytes) (e : Error) (s : k.Stores)
      → k.string_to_account x ≡ err e
      → Listed x accounts
      → Ensures (fund_accounts k coins accounts) s λ u t. ⊥
  unfolding fund_accounts
  stops coins [] x e s bad l = absurd l
  stops coins (account_str ∷ rest) x e s bad (inl same) = Ensures-must _ _ λ u s1 m.
      Ensures-must_lift _ _ λ b read.
        let clash : err e ≡ ok b = sym bad ∙ (ap k.string_to_account same ∙ read) in absurd cc
  stops coins (account_str ∷ rest) x e s bad (inr l) = Ensures-must _ _ λ u s1 m.
      Ensures-must_lift _ _ λ b read. Ensures-must _ _ λ v s2 h. stops coins rest x e s2 bad l

  init_stops :
      (args : ValArgs) (x : Bytes) (e : Error) (s : k.Stores)
      → k.string_to_account x ≡ err e
      → Listed x args.accounts_to_fund
      → Ensures (init_app_for_testnet k args) s λ u t. ⊥
  unfolding init_app_for_testnet
  init_stops args x e s bad l = Ensures-must_lift _ _ λ pubkey e1.
      Ensures-must_lift _ _ λ address e2. Ensures-bind _ _ λ u1 s1 h1. Ensures-bind _ _ λ u2 s2 h2.
        Ensures-bind _ _ λ u3 s3 h3. Ensures-bind _ _ λ u4 s4 h4.
          Ensures-must_gets _ _
            λ denom e5. Ensures-lift _ _ λ coins e6. stops coins args.accounts_to_fund x e s4 bad l

args_Ensures :
    (to_string : Value → Bytes) (opts : AppOptions) (u : Unit {0})
    → Ensures
        (get_command_args to_string opts)
        u
        λ args v. args.accounts_to_fund ≡ split_commas (to_string opts.accounts_to_fund)
unfolding get_command_args
args_Ensures to_string opts u = Ensures-lift _ _ λ addr e1. Ensures-lift _ _ λ pubkey e2.
    Ensures-lift _ _ λ operator e3. Ensures-lift _ _ λ upgrade e4. Ensures-guard _ _ _ λ home.
      record {
        at = λ args v h.
            sym (ap (λ (x : ValArgs). x.accounts_to_fund) (pure_inversion _ args u v h).0);
      }

module _ (k : TestnetKeepers) where
  command_Ensures :
      (to_string : Value → Bytes) (opts : AppOptions) (x : Bytes) (e : Error) (s : k.Stores)
      → Listed x (split_commas (to_string opts.accounts_to_fund))
      → k.string_to_account x ≡ err e
      → Ensures (new_testnet_app k to_string opts) s λ u t. ⊥
  unfolding new_testnet_app
  command_Ensures to_string opts x e s l bad = Ensures-must_lift _ _ λ args read.
      let rest = (get_command_args to_string opts tt).1 in
      let words = (args_Ensures to_string opts tt).at args rest (ap (λ r. (r, rest)) read) in
      init_stops k args x e s bad (subst (λ ws. Listed x ws) (sym words) l)

  -- The command does not end well where a word of the text of accounts is no address; with no such
  -- flag the text is empty, and its one word is empty.
  pub new_testnet_app_stops :
      (to_string : Value → Bytes) (opts : AppOptions) (x : Bytes) (e : Error) (s t : k.Stores)
      → Listed x (split_commas (to_string opts.accounts_to_fund))
      → k.string_to_account x ≡ err e
      → new_testnet_app k to_string opts s ≢ (ok tt, t)
  new_testnet_app_stops to_string opts x e s t l bad h =
      (command_Ensures to_string opts x e s l bad).at tt t h

-- Options of the right types, with a home and words without commas as accounts, are read as they are.
pub get_command_args_ok :
    (to_string : Value → Bytes) (opts : AppOptions) (addr pubkey operator upgrade word : Bytes)
    (words : List Bytes)
    → opts.new_val_addr ≡ hex_bytes addr
    → opts.user_pub_key ≡ pub_key pubkey
    → opts.new_op_addr ≡ text operator
    → opts.trigger_testnet_upgrade ≡ text upgrade
    → to_string opts.home ≢ []
    → to_string opts.accounts_to_fund ≡ join_commas (word ∷ words)
    → All HasNoComma (word ∷ words)
    → (get_command_args to_string opts tt).0
      ≡ ok (record {
        new_val_addr = addr;
        new_operator_address = operator;
        new_val_pub_key = pubkey;
        accounts_to_fund = word ∷ words;
        upgrade_to_trigger = upgrade;
        home_dir = to_string opts.home;
      })
unfolding get_command_args ◌>>=◌ lift guard pure as_hex_bytes as_pub_key as_text
get_command_args_ok to_string opts addr pubkey operator upgrade word words e1 e2 e3 e4 home accounts
      plain =
    rw (e1, e2, e3, e4, is_empty_ne _ home, accounts, split-join word words plain) refl
