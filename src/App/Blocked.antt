-- ===== src/App/Blocked.antt =====
-- The accounts of modules that receive no funds: app/app.go against the lists of app/app_config.go.
use veranatest.App.Config.{ModuleAccountPermission, block_acc_addrs, module_acc_perms}
use veranatest.App.Accounts.{
  blocked_addresses, blocked_of, get_macc_perms, map_entry, put_blocked, put_perms,
}
use veranatest.Sdk.Modules.{Names}
use veranatest.Prelude.{
  Bool, Bool-cases, Bytes, List, Listed, Listed-has_member, [], ap, bytes_eq, bytes_eq_refl,
  has_member, has_member-Listed, if◌then◌else◌, inl, inr, none, or_right, refl, some, subst, sym,
  true, ◌||◌, ◌↔◌, ◌∙◌, ◌∷◌, ◌≡◌, ◌≢◌,
}

put_blocked_lem :
    (l : List Bytes) (m : List (Bytes × Bool)) (x : Bytes)
    → map_entry (put_blocked l m) x ≡ (if has_member l x then some true else map_entry m x)
unfolding put_blocked map_entry
put_blocked_lem [] m x = refl
put_blocked_lem (y ∷ l) m x =
    put_blocked_lem l ((y, true) ∷ m) x ∙ elim (Bool-cases (has_member l x)) [
      | inl q ↦
          let both : bytes_eq y x || has_member l x ≡ true = or_right (bytes_eq y x) q in
          rw (both) (rw (q) refl)
      | inr q ↦ elim (Bool-cases (bytes_eq y x)) [ inl e ↦ rw (q, e) refl | inr e ↦ rw (q, e) refl ]
    ]

put_blocked_iff :
    (l : List Bytes) (x : Bytes) → (map_entry (put_blocked l []) x ≡ some true) ↔ Listed x l
unfolding map_entry
put_blocked_iff l x = (
  (λ h. elim (Bool-cases (has_member l x)) [
    | inl q ↦ has_member-Listed l x q
    | inr q ↦
        absurd (let bad : none ≡ some true = sym (put_blocked_lem l [] x ∙ rw (q) refl) ∙ h in cc)
  ]),
  (λ h. put_blocked_lem l [] x ∙ rw (Listed-has_member l x h) refl),
)

-- A key that an entry of the map has keeps one when more entries are put.
put_perms_keeps :
    (l : List ModuleAccountPermission) (m : List (Bytes × List Bytes)) (x : Bytes)
    → map_entry m x ≢ none
    → map_entry (put_perms l m) x ≢ none
unfolding put_perms map_entry
put_perms_keeps [] m x h = h
put_perms_keeps (p ∷ l) m x h = put_perms_keeps l ((p.account, p.permissions) ∷ m) x (λ e.
    elim (Bool-cases (bytes_eq p.account x)) [
      | inl q ↦ absurd (let bad = rw (q) at e in cc)
      | inr q ↦ h (rw (q) at e)
    ])

first :
    (q p : ModuleAccountPermission) (m : List (Bytes × List Bytes))
    → p ≡ q
    → map_entry ((q.account, q.permissions) ∷ m) p.account ≢ none
unfolding map_entry
first q p m e h =
    let same : bytes_eq q.account p.account ≡ true =
      ap (λ (r : ModuleAccountPermission). bytes_eq r.account p.account) (sym e)
      ∙ bytes_eq_refl p.account in
    let bad = rw (same) at h in cc

put_perms_lem :
    (l : List ModuleAccountPermission) (m : List (Bytes × List Bytes)) (p : ModuleAccountPermission)
    → Listed p l
    → map_entry (put_perms l m) p.account ≢ none
unfolding put_perms map_entry
put_perms_lem [] m p h = absurd h
put_perms_lem (q ∷ l) m p (inl e) =
    put_perms_keeps l ((q.account, q.permissions) ∷ m) p.account (first q p m e)
put_perms_lem (q ∷ l) m p (inr h) = put_perms_lem l ((q.account, q.permissions) ∷ m) p h

module _ (n : Names) where
  -- `BlockedAddresses` blocks exactly the accounts of the list of blocked accounts, and each of them
  -- has an entry in `GetMaccPerms`.
  pub blocked_addresses_lem :
      (x : Bytes)
      → ((map_entry (blocked_addresses n) x ≡ some true) ↔ Listed x (block_acc_addrs n))
        × (Listed x (block_acc_addrs n) → map_entry (get_macc_perms n) x ≢ none)
  unfolding blocked_addresses blocked_of block_acc_addrs get_macc_perms module_acc_perms
  blocked_addresses_lem x = (put_blocked_iff (block_acc_addrs n) x, λ l. named l)
    where
      found :
          (p : ModuleAccountPermission)
          → Listed p (module_acc_perms n)
          → x ≡ p.account
          → map_entry (get_macc_perms n) x ≢ none
      found p l e =
          subst (λ y. map_entry (get_macc_perms n) y ≢ none) (sym e)
            (put_perms_lem (module_acc_perms n) [] p l)

      named : Listed x (block_acc_addrs n) → map_entry (get_macc_perms n) x ≢ none
      named (inl e) = found _ (inl refl) e
      named (inr (inl e)) = found _ (inr (inl refl)) e
      named (inr (inr (inl e))) = found _ (inr (inr (inl refl))) e
      named (inr (inr (inr (inl e)))) = found _ (inr (inr (inr (inl refl)))) e
      named (inr (inr (inr (inr (inl e))))) = found _ (inr (inr (inr (inr (inl refl))))) e
      named (inr (inr (inr (inr (inr (inl e)))))) =
          found _ (inr (inr (inr (inr (inr (inr (inl refl))))))) e
      named (inr (inr (inr (inr (inr (inr l)))))) = absurd l
