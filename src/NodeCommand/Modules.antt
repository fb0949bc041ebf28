-- ===== src/NodeCommand/Modules.antt =====
-- The modules of ibc-go in the root command of cmd/veranatestd/cmd/root.go: which modules the loop of
-- NewRootCmd leaves.
use veranatest.Prelude.{
  Bool, Bool-cases, Bytes, List, Option, [], ap, bytes_eq, bytes_eq→eq, bytes_neq, false,
  has_member, if◌then◌else◌, inl, inr, none, refl, some, sym, true, ◌∙◌, ◌∷◌, ◌≡◌,
}
use veranatest.App.Startup.{IbcNames}
use veranatest.Sdk.Modules.{Names}
use veranatest.NodeCommand.Root.{ClientLibrary, add_modules, put_module, register_ibc}

-- The entry of a map for a name.
abbrev pub module_at : {A : Type 0} → Bytes → List (Bytes × A) → Option A
module_at name [] = none
module_at name ((other, m) ∷ rest) = if bytes_eq other name then some m else module_at name rest

-- Two tests that are not both true may be made in either order.
swap_tests :
    {A : Type 0} (a b : Bool) (x y z : A)
    → (a ≡ true → b ≡ true → ⊥)
    → (if a then x else (if b then y else z)) ≡ (if b then y else (if a then x else z))
swap_tests true true x y z h = absurd (h refl refl)
swap_tests true false x y z h = refl
swap_tests false true x y z h = refl
swap_tests false false x y z h = refl

same_test :
    {A : Type 0} (b : Bool) (x y z : A)
    → (if b then x else z) ≡ (if b then x else (if b then y else z))
same_test true x y z = refl
same_test false x y z = refl

not_both :
    (other name key : Bytes)
    → bytes_eq other name ≡ false
    → bytes_eq other key ≡ true
    → bytes_eq name key ≡ true
    → ⊥
not_both other name key different a b =
    bytes_neq other name different (bytes_eq→eq other key a ∙ sym (bytes_eq→eq name key b))

module_at-put_module :
    {A : Type 0} (name key : Bytes) (m : A) (ms : List (Bytes × A))
    → module_at key (put_module name m ms)
      ≡ (if bytes_eq name key then some m else module_at key ms)
module_at-put_module name key m [] = refl
module_at-put_module name key m ((other, o) ∷ rest) = elim (Bool-cases (bytes_eq other name)) [
  | inl same ↦
      let e = bytes_eq→eq other name same in
      rw (same, e) (same_test (bytes_eq name key) (some m) (some o) (module_at key rest))
  | inr different ↦
      rw (different, module_at-put_module name key m rest)
        (swap_tests (bytes_eq other key) (bytes_eq name key) (some o) (some m) (module_at key rest)
          (not_both other name key different))
]

-- The names under which `RegisterIBC` returns a module.
abbrev pub ibc_modules : Names → IbcNames → List Bytes
ibc_modules n ibc = n.ibc ∷ n.ibc_transfer ∷ n.ica ∷ ibc.tendermint ∷ ibc.solo_machine ∷ []

-- Each name with its module.
abbrev named : {A : Type 0} → (Bytes → A) → List Bytes → List (Bytes × A)
named f [] = []
named f (name ∷ names) = (name, f name) ∷ named f names

either_way : {A : Type 0} (b : Bool) (x : A) → (if b then x else x) ≡ x
either_way true x = refl
either_way false x = refl

-- The entry for a key after entries were put, from the one before.
abbrev entry : {A : Type 0} → (Bytes → A) → List Bytes → Bytes → Option A → Option A
entry f names key before = if has_member names key then some (f key) else before

next_entry :
    {A : Type 0} (f : Bytes → A) (name key : Bytes) (names : List Bytes) (before : Option A)
    → entry f names key (if bytes_eq name key then some (f name) else before)
      ≡ entry f (name ∷ names) key before
next_entry f name key names before = elim (Bool-cases (bytes_eq name key)) [
  | inl same ↦
      let e = ap (λ k. some (f k)) (bytes_eq→eq name key same) in
      rw (same, e) (either_way (has_member names key) (some (f key)))
  | inr different ↦ rw (different) refl
]

entry-put_module :
    {A : Type 0} (f : Bytes → A) (name key : Bytes) (names : List Bytes) (ms : List (Bytes × A))
    → entry f names key (module_at key (put_module name (f name) ms))
      ≡ entry f (name ∷ names) key (module_at key ms)
entry-put_module f name key names ms =
    ap (entry f names key) (module_at-put_module name key (f name) ms)
    ∙ next_entry f name key names (module_at key ms)

module _ (lib : ClientLibrary) where
  -- The manager's module of a name of ibc-go.
  abbrev pub basic_module : Bytes → lib.BasicModule
  basic_module name = lib.core_app_module_basic_adaptor name (lib.ibc_module name)

  add_modules_lem :
      (names : List Bytes) (key : Bytes) (a : List (Bytes × lib.BasicModule))
      (b : List (Bytes × lib.Module))
      → (module_at key (add_modules lib (named lib.ibc_module names) (a, b)).0
          ≡ entry basic_module names key (module_at key a))
        × (module_at key (add_modules lib (named lib.ibc_module names) (a, b)).1
            ≡ entry lib.ibc_module names key (module_at key b))
  unfolding add_modules
  add_modules_lem [] key a b = (refl, refl)
  add_modules_lem (name ∷ names) key a b =
      let r =
        add_modules_lem names key (put_module name (basic_module name) a)
          (put_module name (lib.ibc_module name) b) in
      (
        r.0 ∙ entry-put_module basic_module name key names a,
        r.1 ∙ entry-put_module lib.ibc_module name key names b,
      )

  -- The loop of `NewRootCmd` over the modules of `RegisterIBC` leaves under each of their names the
  -- module of ibc-go in autocli and its adapted form in the manager, and under every other name what
  -- was there.
  pub add_modules-register_ibc :
      (n : Names) (ibc : IbcNames) (registry : lib.Registry) (key : Bytes)
      (a : List (Bytes × lib.BasicModule)) (b : List (Bytes × lib.Module))
      → (module_at key (add_modules lib (register_ibc lib n ibc registry).0 (a, b)).0 ≡ (
          if has_member (ibc_modules n ibc) key then some (basic_module key) else module_at key a))
        × (module_at key (add_modules lib (register_ibc lib n ibc registry).0 (a, b)).1 ≡ (
            if has_member (ibc_modules n ibc) key
            then some (lib.ibc_module key)
            else module_at key b))
  unfolding register_ibc
  add_modules-register_ibc n ibc registry key a b = add_modules_lem (ibc_modules n ibc) key a b
