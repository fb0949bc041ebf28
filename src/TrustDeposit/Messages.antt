-- ===== src/TrustDeposit/Messages.antt =====
-- What the messages and the genesis of x/td do: keeper/msg_server_fund_module.go,
-- keeper/msg_update_params.go, keeper/genesis.go.
use veranatest.Sdk.Addresses.{address_or_nil}
use veranatest.Sdk.Bank.{Moved}
use veranatest.Prelude.{
  Bytes, Ensures, Ensures-bind, Ensures-gets, Ensures-if, Ensures-lift, Outcome, ap, arith,
  bytes_eq, bytes_eq_iff, bytes_eq→eq, err, false, if◌then◌else◌, inl, inr, ok, panicked, pure,
  refl, some, subst, sym, ℕ, ◌%◌, ◌+◌, ◌^◌, ◌∙◌, ◌≡◌, ◌≢◌, ◌⊎◌,
}
use veranatest.Prelude.Int.{negsuc, pos, pos_part, ℤ, ◌≤ℤ◌}
use veranatest.TrustDeposit.Types.{Keeper, MsgFundModule, Params, State, set_params, td_module_name}
use veranatest.TrustDeposit.Funds.{uvna}
use veranatest.TrustDeposit.Handlers.{
  add_uint64, fund_module, params_or_nil, send_from_account, to_uint64,
}

module _ (k : Keeper) where
  pub set_params_ok :
      (p : Params k.dec) (s : State k)
      → Ensures (set_params k p) s (λ u t.
        (k.params.content t.params ≡ some p) × (t.bank ≡ s.bank) × (t.dust_amount ≡ s.dust_amount))
  unfolding set_params
  set_params_ok p s = record { at = λ u t h. go u t (k.params.set s.params p) refl h }
    where
      go :
          (u : Unit {0}) (t : State k) (r : Outcome k.params.Store)
          → k.params.set s.params p ≡ r
          → set_params k p s ≡ (ok u, t)
          → (k.params.content t.params ≡ some p)
            × (t.bank ≡ s.bank)
            × (t.dust_amount ≡ s.dust_amount)
      go u t (ok q) e h =
          let same : t ≡ record s { params = q } = ground arith in
          (
            ap (λ (x : State k). k.params.content x.params) same ∙ k.params.set_ok s.params q p e,
            ap (λ (x : State k). x.bank) same,
            ap (λ (x : State k). x.dust_amount) same,
          )
      go u t (err x) e h = ground arith
      go u t panicked e h = ground arith

  -- The account that funds.
  abbrev pub funder : MsgFundModule → Bytes
  funder msg = address_or_nil (k.address_codec.acc_address_from_bech32 msg.creator)

  send_from_ok :
      (from to : Bytes) (c : k.bank_keeper.Coins) (s t : State k)
      → send_from_account k from to c s ≡ (ok tt, t)
      → (from ≢ k.bank_keeper.module_address to
          → Moved k.bank_keeper.balance k.bank_keeper.amount_of from
              (k.bank_keeper.module_address to)
              c
              s.bank
              t.bank)
        × (t.params ≡ s.params)
        × (t.dust_amount ≡ s.dust_amount)
  unfolding send_from_account
  send_from_ok from to c s t h =
      let r = k.bank_keeper.send_coins_from_account_to_module from to c s.bank in
      let done : r.0 ≡ ok tt = ap (λ (x : Outcome (Unit {0}) × State k). x.0) h in
      let after : record s { bank = r.1 } ≡ t = ap (λ (x : Outcome (Unit {0}) × State k). x.1) h in
      (
        k.bank_keeper.account_to_module_ok from to c s.bank t.bank (λ i. (done i, (after i).bank)),
        sym (ap (λ (x : State k). x.params) after),
        sym (ap (λ (x : State k). x.dust_amount) after),
      )

  -- What funding does to the parameters: only funding of the module itself adds the amount to the
  -- trust deposit, in uint64 arithmetic.
  abbrev pub ParamsFunded : MsgFundModule → ℕ → State k → State k → Type 0
  ParamsFunded msg n s t =
      ((msg.module_name ≡ td_module_name)
        × (p : Params k.dec) × (params_or_nil k s ≡ ok p)
        × (k.params.content t.params
            ≡ some (record p { trust_deposit_value = (p.trust_deposit_value + n) % 2 ^ 64 })))
      ⊎ ((msg.module_name ≢ td_module_name) × (t.params ≡ s.params))

  -- An amount of uvna that is not negative went from the funder to the module, unless the module is
  -- the funder; the parameters are funded all the same.
  pub record Funded (msg : MsgFundModule) (s t : State k) : Type 0 where
    pub amount : ℕ
    pub coins : k.bank_keeper.Coins
    pub amount_is : msg.amount ≡ pos amount
    pub coins_are :
        (d : Bytes) → k.bank_keeper.amount_of coins d ≡ (if bytes_eq uvna d then amount else 0)
    pub moved :
        funder msg ≢ k.bank_keeper.module_address msg.module_name
        → Moved k.bank_keeper.balance k.bank_keeper.amount_of
            (funder msg)
            (k.bank_keeper.module_address msg.module_name)
            coins
            s.bank
            t.bank
    pub params_funded : ParamsFunded msg amount s t
    pub same_dust : t.dust_amount ≡ s.dust_amount

  nonneg_pos : (i : ℤ) → pos 0 ≤ℤ i → i ≡ pos (pos_part i)
  nonneg_pos (pos n) h = refl
  nonneg_pos (negsuc n) h = absurd (omega arith)

  pure_kept : (s t : State k) (u : Unit {0}) → pure tt s ≡ (ok u, t) → t ≡ s
  unfolding pure
  pure_kept s t u h = sym (ap (λ (x : Outcome (Unit {0}) × State k). x.1) h)

  params_same_read :
      (s m : State k) (p : Params k.dec)
      → m.params ≡ s.params
      → params_or_nil k m ≡ ok p
      → params_or_nil k s ≡ ok p
  unfolding params_or_nil
  params_same_read s m p e h = subst (λ q. params_or_nil k (record s { params = q }) ≡ ok p) e h

  fund_Ensures :
      (msg : MsgFundModule) (s : State k) → Ensures (fund_module k msg) s (λ u t. Funded msg s t)
  unfolding fund_module
  fund_Ensures msg s = Ensures-lift _ _ λ creator decoded. Ensures-lift _ _ λ c made.
      Ensures-bind _ _ λ u m sent.
        let (nonneg, amounts) = k.bank_keeper.new_coins_ok uvna msg.amount c made in
        let n : ℕ = pos_part msg.amount in
        let e : msg.amount ≡ pos n = nonneg_pos msg.amount nonneg in
        let (moved, params, dust) = send_from_ok (funder msg) msg.module_name c s m sent in
        Ensures-if _ _ _
          (λ same. Ensures-gets _ _ λ p read. record {
            at = λ v t h.
                let (stored, bank, dust') =
                  (set_params_ok
                      (record p {
                        trust_deposit_value =
                            add_uint64 p.trust_deposit_value (to_uint64 msg.amount);
                      })
                      m).at
                    v t h in
                record {
                  amount = n;
                  coins = c;
                  amount_is = e;
                  coins_are = amounts;
                  moved = λ apart.
                      subst
                        (λ b.
                          Moved k.bank_keeper.balance k.bank_keeper.amount_of (funder msg)
                            (k.bank_keeper.module_address msg.module_name) c s.bank b)
                        (sym bank) (moved apart);
                  params_funded = inl (
                    bytes_eq→eq _ _ same,
                    p,
                    params_same_read s m p params read,
                    stored
                        ∙ ap
                            (λ (x : ℕ). some (record p {
                              trust_deposit_value = add_uint64 p.trust_deposit_value x;
                            }))
                            (ap to_uint64 e),
                  );
                  same_dust = dust' ∙ dust;
                };
          })
          (λ other. record {
            at = λ v t h.
                let kept : t ≡ m = pure_kept m t v h in
                record {
                  amount = n;
                  coins = c;
                  amount_is = e;
                  coins_are = amounts;
                  moved = λ apart.
                      subst
                        (λ (x : State k).
                          Moved k.bank_keeper.balance k.bank_keeper.amount_of (funder msg)
                            (k.bank_keeper.module_address msg.module_name) c s.bank x.bank)
                        (sym kept) (moved apart);
                  params_funded =
                      inr (other_module other, ap (λ (x : State k). x.params) kept ∙ params);
                  same_dust = ap (λ (x : State k). x.dust_amount) kept ∙ dust;
                };
          })
    where
      other_module :
          bytes_eq msg.module_name td_module_name ≡ false → msg.module_name ≢ td_module_name
      other_module h e = cc ((bytes_eq_iff msg.module_name td_module_name).1 e)

  -- An accepted `MsgFundModule` has an amount of uvna that is not negative, and moves it from the
  -- creator's account to the module's where these two are different. Also where they are the same, the
  -- trust deposit grows by it modulo 2^64 if the module is td, counted from the zero parameters where
  -- none can be read; the parameters stay otherwise, and the dust stays.
  pub fund_module_ok :
      (msg : MsgFundModule) (s t : State k) → fund_module k msg s ≡ (ok tt, t) → Funded msg s t
  fund_module_ok msg s t h = (fund_Ensures msg s).at tt t h
