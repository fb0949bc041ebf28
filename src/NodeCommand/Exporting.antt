-- ===== src/NodeCommand/Exporting.antt =====
-- How appExport of cmd/veranatestd/cmd/commands.go ends: with the export of the app at the height
-- that was asked for, or with an error of one of its checks and calls.
use veranatest.Testnets.InPlace.{Value, hex_bytes, other_value, pub_key, text}
use veranatest.Prelude.{
  Bool, Bool-cases, Bytes, Ensures, Ensures-bind, Ensures-guard, Ensures-if, Error, List, Outcome,
  [], ap, arith, bind_err, err, false, gets, guard, guard_err, inl, inr, ok, refl, subst, true, ◌↔◌,
  ◌∷◌, ◌≡◌, ◌≢◌,
}
use veranatest.Prelude.Int.{neg_part, negsuc, pos, ℤ}
use veranatest.Ante.{Env}
use veranatest.App.Startup.{Builder, IbcNames, new_app, new_app-NeverErrs}
use veranatest.Export.{Application, ExportedApp, export_app_state_and_validators, next_height}
use veranatest.Export.Results.{Exports, Fails, export_err, export_ok}
use veranatest.NodeCommand.{Node, app_export, at_app, has_home, is_latest, load_app}
use veranatest.Sdk.Modules.{Names}
use veranatest.Sdk.Staking.{Keepers}

-- The value is a text that is not empty.
pub record HasHome (v : Value) : Type 0 where
  pub home_path : Bytes
  pub is_text : v ≡ text home_path
  pub given : home_path ≢ []

has_home-HasHome : (v : Value) → has_home v ≡ true → HasHome v
unfolding has_home
has_home-HasHome (text []) h = absurd (ground arith)
has_home-HasHome (text (x ∷ xs)) h = record { home_path = x ∷ xs; is_text = refl; given = λ e. cc }
has_home-HasHome (hex_bytes b) h = absurd (ground arith)
has_home-HasHome (pub_key b) h = absurd (ground arith)
has_home-HasHome (other_value i) h = absurd (ground arith)

is_latest_iff : (height : ℤ) → (is_latest height ≡ true) ↔ (height ≡ negsuc 0)
unfolding is_latest
is_latest_iff (pos n) = (λ h. absurd (ground arith), λ h. cc)
is_latest_iff (negsuc n) = (λ h. ap negsuc (ground arith), λ h. ground (arith, ap neg_part h))

module _ {env : Env} (c : Builder env) (n : Names) (ibc : IbcNames) {k : Keepers} (node : Node c k)
    (app : Application k) where
  -- The exported record is that of the stores after the export of the app `made`, and the height is
  -- 0 for a start at height zero and else the one after the last block of the app.
  pub record ExportsApp (made : c.App) (for_zero_height : Bool) (modules : List Bytes)
      (a : ExportedApp app.ValidatorSet app.ConsensusParams) : Type 0 where
    pub left : k.Stores
    pub exports : Exports k (at_app c n ibc node app made) modules left a
    pub at_zero : for_zero_height ≡ true → a.height ≡ pos 0
    pub at_next :
        for_zero_height ≡ false
        → (left ≡ node.stores made) × (a.height ≡ next_height (node.last_block_height made))

  -- The export of an app that was made.
  abbrev export_of :
      Bool
      → List Bytes
      → List Bytes
      → c.App
      → Outcome (ExportedApp app.ValidatorSet app.ConsensusParams) × k.Stores
  export_of for_zero_height allowed modules made =
      export_app_state_and_validators k (at_app c n ibc node app made) for_zero_height allowed
        modules (node.stores made)

  exported_app :
      (for_zero_height : Bool) (allowed modules : List Bytes) (made : c.App)
      (a : ExportedApp app.ValidatorSet app.ConsensusParams)
      → (export_of for_zero_height allowed modules made).0 ≡ ok a
      → ExportsApp made for_zero_height modules a
  exported_app for_zero_height allowed modules made a h =
      let left = (export_of for_zero_height allowed modules made).1 in
      let r =
        export_ok k (at_app c n ibc node app made) for_zero_height allowed modules
          (node.stores made) left a
          (ap {A = Outcome (ExportedApp app.ValidatorSet app.ConsensusParams)} (λ o. (o, left))
            h) in
      record { left = left; exports = r.0; at_zero = λ z. (r.1 z).1; at_next = r.2 }

  -- How the app that is exported comes from the one before: for the height -1 it is made with its
  -- latest state, for every other height it is made without a state and then loads that height.
  pub data MadeAt (height : ℤ) (opts : c.AppOptions) (s made : c.App) : Type 0 where
    at_latest :
        height ≡ negsuc 0
        → new_app env c n ibc true opts [] s ≡ (ok tt, made)
        → MadeAt height opts s made
    at_loaded :
        (first : c.App)
        → height ≢ negsuc 0
        → new_app env c n ibc false opts [] s ≡ (ok tt, first)
        → node.load_height height first ≡ (ok tt, made)
        → MadeAt height opts s made

  load_app_Ensures :
      (height : ℤ) (opts : c.AppOptions) (s : c.App)
      → Ensures (load_app c n ibc node height opts) s (λ u made. MadeAt height opts s made)
  unfolding load_app
  load_app_Ensures height opts s =
      Ensures-if _ _ _ (λ q. record { at = λ u made h. at_latest ((is_latest_iff height).0 q) h })
        (λ q. Ensures-bind _ _ λ u first made_first. record {
          at = λ v made h.
              at_loaded first (λ e. absurd (let l = (is_latest_iff height).1 e in cc)) made_first h;
        })

  -- An export that gives a record was asked with a home directory and with options of viper. It has
  -- made the app with its latest state for the height -1, and else without a state and then loaded the
  -- height that was asked for; the record is what this app exports.
  pub app_export_ok :
      (height : ℤ) (for_zero_height : Bool) (allowed : List Bytes) (opts : c.AppOptions)
      (modules : List Bytes) (s made : c.App) (a : ExportedApp app.ValidatorSet app.ConsensusParams)
      → app_export c n ibc node app height for_zero_height allowed opts modules s ≡ (ok a, made)
      → HasHome (node.home opts)
        × (node.is_viper opts ≡ true)
        × MadeAt height opts s made
        × ExportsApp made for_zero_height modules a
  unfolding app_export gets
  app_export_ok height for_zero_height allowed opts modules s made a h = go.at a made h
    where
      go :
          Ensures
            (app_export c n ibc node app height for_zero_height allowed opts modules)
            s
            λ a made.
              HasHome (node.home opts)
              × (node.is_viper opts ≡ true)
              × MadeAt height opts s made
              × ExportsApp made for_zero_height modules a
      go = Ensures-guard _ _ _ λ home. Ensures-guard _ _ _ λ viper. Ensures-bind _ _ λ u t loaded.
          record {
            at = λ a u h.
                let same : t ≡ u =
                  ap
                    (λ (r : Outcome (ExportedApp app.ValidatorSet app.ConsensusParams) × c.App).
                      r.1)
                    h in
                let gives =
                  ap
                    (λ (r : Outcome (ExportedApp app.ValidatorSet app.ConsensusParams) × c.App).
                      r.0)
                    h in
                (
                  has_home-HasHome (node.home opts) home,
                  viper,
                  subst (λ x. MadeAt height opts s x) same
                      ((load_app_Ensures height opts s).at tt t loaded),
                  subst (λ x. ExportsApp x for_zero_height modules a) same
                      (exported_app for_zero_height allowed modules t a gives),
                );
          }

  -- Why an export gives an error.
  pub data Refused (height : ℤ) (opts : c.AppOptions) (modules : List Bytes) (made : c.App)
      (e : Error) : Type 0 where
    no_home :
        has_home (node.home opts) ≡ false
        → e ≡ Error.missing_home
        → Refused height opts modules made e
    no_viper :
        node.is_viper opts ≡ false → e ≡ Error.wrong_options → Refused height opts modules made e
    no_height :
        (first : c.App)
        → is_latest height ≡ false
        → node.load_height height first ≡ (err e, made)
        → Refused height opts modules made e
    no_export :
        (left : k.Stores)
        → Fails k (at_app c n ibc node app made) modules left e
        → Refused height opts modules made e

  load_app_err :
      (height : ℤ) (opts : c.AppOptions) (s made : c.App) (e : Error)
      → load_app c n ibc node height opts s ≡ (err e, made)
      → (first : c.App) × (is_latest height ≡ false)
        × (node.load_height height first ≡ (err e, made))
  unfolding load_app
  load_app_err height opts s made e h = elim (Bool-cases (is_latest height)) [
    | inl latest ↦
        absurd ((new_app-NeverErrs env c n ibc true opts []).at s made e (rw (latest) at h))
    | inr at_height ↦
        elim (bind_err (new_app env c n ibc false opts []) _ s made e (rw (at_height) at h)) [
          | inl bad ↦ absurd ((new_app-NeverErrs env c n ibc false opts []).at s made e bad)
          | inr (u, first, q, g) ↦ (first, at_height, g)
        ]
  ]

  -- An export returns an error only where the home directory or the options are not given, the height
  -- that was asked for cannot be loaded, or the export of the app fails; making the app gives none.
  pub app_export_err :
      (height : ℤ) (for_zero_height : Bool) (allowed : List Bytes) (opts : c.AppOptions)
      (modules : List Bytes) (s made : c.App) (e : Error)
      → app_export c n ibc node app height for_zero_height allowed opts modules s ≡ (err e, made)
      → Refused height opts modules made e
  unfolding app_export gets
  app_export_err height for_zero_height allowed opts modules s made e h =
      elim (bind_err (guard (has_home (node.home opts)) Error.missing_home) _ s made e h) [
        | inl refused ↦ let (f, q) = guard_err _ _ e s made refused in no_home f q
        | inr (u1, s1, q1, h1) ↦
            elim (bind_err (guard (node.is_viper opts) Error.wrong_options) _ s1 made e h1) [
              | inl refused ↦ let (f, q) = guard_err _ _ e s1 made refused in no_viper f q
              | inr (u2, s2, q2, h2) ↦
                  elim (bind_err (load_app c n ibc node height opts) _ s2 made e h2) [
                    | inl refused ↦
                        let (first, f, q) = load_app_err height opts s2 made e refused in
                        no_height first f q
                    | inr (u3, t, q3, h3) ↦
                        let same : t ≡ made =
                          ap
                            (λ (r : Outcome (ExportedApp app.ValidatorSet app.ConsensusParams)
                                × c.App).
                              r.1)
                            h3 in
                        let gives =
                          ap
                            (λ (r : Outcome (ExportedApp app.ValidatorSet app.ConsensusParams)
                                × c.App).
                              r.0)
                            h3 in
                        subst (λ x. Refused height opts modules x e) same (failed_app t gives)
                  ]
            ]
      ]
    where
      failed_app :
          (t : c.App)
          → (export_of for_zero_height allowed modules t).0 ≡ err e
          → Refused height opts modules t e
      failed_app t g =
          let left = (export_of for_zero_height allowed modules t).1 in
          let r =
            export_err k (at_app c n ibc node app t) for_zero_height allowed modules (node.stores t)
              left e
              (ap {A = Outcome (ExportedApp app.ValidatorSet app.ConsensusParams)} (λ o. (o, left))
                g) in
          no_export left r.0
