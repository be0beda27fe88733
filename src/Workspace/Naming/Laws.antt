-- ===== src/Workspace/Naming/Laws.antt =====
-- services/rttx-server/src/workspace.rs: a name that a user gave stays, and a derived name is stable.
use rttx.Common.{
  ℕ, ◌≡◌, refl, ap, ◌∙◌, ◌⊎◌, inl, inr, arith, Uuid, Bool, true, false, Option, none, some, List,
  [], ◌∷◌, Bool-cases, if◌then◌else◌,
}
use rttx.Common.Text.{Text, text_eq, text_eq_iff, text_eq_refl}
use rttx.Pane.{Engine}
use rttx.Workspace.{Workspace, bump_revision, saturating_suc}
use rttx.Workspace.Naming.{
  set_auto_name, naming_pane, name_of_pane, derived_name, adopt_name, refresh_auto_name, rename,
}

-- The calls that touch the name without a user.
pub data AutoCall : Type 0 where
  proposes : Text → AutoCall
  refreshes : (ℕ → Option Text) → AutoCall

-- The name after a refresh, by whether a user gave the old one and by the derived name.
abbrev pub name_after : Bool → Text → Option Text → Text
name_after true old derived = old
name_after false old none = old
name_after false old (some name) = name

module _ {e : Engine} where
  abbrev pub auto_step : Workspace e → AutoCall → Workspace e
  auto_step w (proposes name) = (set_auto_name w name).0
  auto_step w (refreshes proc) = (refresh_auto_name proc w).0

  abbrev pub auto_run : Workspace e → List AutoCall → Workspace e
  auto_run w [] = w
  auto_run w (c ∷ cs) = auto_run (auto_step w c) cs

  renamed_stays : (w : Workspace e) (c : AutoCall) → w.user_renamed ≡ true → auto_step w c ≡ w
  unfolding set_auto_name refresh_auto_name
  renamed_stays w (proposes name) h = ground arith
  renamed_stays w (refreshes proc) h = ground arith

  run_stays : (w : Workspace e) (cs : List AutoCall) → w.user_renamed ≡ true → auto_run w cs ≡ w
  run_stays w [] h = refl
  run_stays w (c ∷ cs) h = rw (renamed_stays w c h) (run_stays w cs h)

  rename-renames :
      (w : Workspace e) (name : Text)
      → ((rename w name).0.name ≡ name) × ((rename w name).0.user_renamed ≡ true)
  unfolding rename
  rename-renames w name = ground (arith, text_eq_iff w.name name)

  -- After a user renames a workspace it has the user's name, whatever names the clients propose and
  -- wherever its shell goes.
  pub rename-auto_run :
      (w : Workspace e) (name : Text) (cs : List AutoCall)
      → (auto_run (rename w name).0 cs).name ≡ name
  rename-auto_run w name cs =
      let h = rename-renames w name in ap (λ v. v.name) (run_stays (rename w name).0 cs h.1) ∙ h.0

  -- A rename bumps the revision exactly where the name changes or becomes the user's.
  pub rename-revision :
      (w : Workspace e) (name : Text)
      → ((rename w name).0 ≡ w) ⊎ ((rename w name).0.revision ≡ saturating_suc w.revision)
  unfolding rename
  rename-revision w name = ground arith

  naming_pane-renamed :
      (w : Workspace e) (name : Text) (o : Option Uuid)
      → naming_pane (bump_revision (record w { name = name })) o ≡ naming_pane w o
  unfolding naming_pane bump_revision
  naming_pane-renamed w name none = refl
  naming_pane-renamed w name (some id) = refl

  name_of_pane-renamed :
      (proc : ℕ → Option Text) (w : Workspace e) (name : Text) (o : Option Uuid)
      → name_of_pane proc (bump_revision (record w { name = name })) o ≡ name_of_pane proc w o
  unfolding name_of_pane bump_revision
  name_of_pane-renamed proc w name none = refl
  name_of_pane-renamed proc w name (some id) = refl

  derived_name-renamed :
      (proc : ℕ → Option Text) (w : Workspace e) (name : Text)
      → derived_name proc (bump_revision (record w { name = name })) ≡ derived_name proc w
  unfolding derived_name bump_revision
  derived_name-renamed proc w name =
      ap (name_of_pane proc (bump_revision (record w { name = name })))
        (naming_pane-renamed w name w.tree.default_active)
      ∙ name_of_pane-renamed proc w name (naming_pane w w.tree.default_active)

  derived_name-adopt_name :
      (proc : ℕ → Option Text) (w : Workspace e) (o : Option Text)
      → derived_name proc (adopt_name w o).0 ≡ derived_name proc w
  unfolding adopt_name
  derived_name-adopt_name proc w none = refl
  derived_name-adopt_name proc w (some name) = elim (Bool-cases (text_eq name w.name)) [
    | inl same ↦ rw same
    | inr other ↦ rw other (derived_name-renamed proc w name)
  ]

  adopt_name_twice :
      (w : Workspace e) (o : Option Text)
      → let w' = (adopt_name w o).0 in adopt_name w' o ≡ (w', none)
  unfolding adopt_name
  adopt_name_twice w none = refl
  adopt_name_twice w (some name) = ground (arith, text_eq_refl name)

  -- A second refresh with the same directories finds nothing to change.
  pub refresh_auto_name_twice :
      (proc : ℕ → Option Text) (w : Workspace e)
      → let w' = (refresh_auto_name proc w).0 in refresh_auto_name proc w' ≡ (w', none)
  unfolding refresh_auto_name
  refresh_auto_name_twice proc w = ground (
    arith,
    derived_name-adopt_name proc w (derived_name proc w),
    adopt_name_twice w (derived_name proc w),
  )

  adopt_name-name :
      (w : Workspace e) (o : Option Text)
      → ((adopt_name w o).0.name ≡ name_after false w.name o)
        × ((adopt_name w o).0.revision ≡ (
            if text_eq (adopt_name w o).0.name w.name
            then w.revision
            else saturating_suc w.revision))
  unfolding adopt_name bump_revision
  adopt_name-name w none = ground (arith, text_eq_refl w.name)
  adopt_name-name w (some name) = ground (arith, text_eq_iff name w.name, text_eq_refl w.name)

  -- A refresh gives the workspace the name derived from its naming pane's directory, unless a user
  -- named it or no name can be derived: then the name stays. The revision is bumped exactly when the
  -- name changes.
  pub name-refresh_auto_name :
      (proc : ℕ → Option Text) (w : Workspace e)
      → let w' = (refresh_auto_name proc w).0 in
        (w'.name ≡ name_after w.user_renamed w.name (derived_name proc w))
        × (w'.revision ≡ (if text_eq w'.name w.name then w.revision else saturating_suc w.revision))
  unfolding refresh_auto_name
  name-refresh_auto_name proc w = elim (Bool-cases w.user_renamed) [
    | inl user ↦ ground (arith, user, text_eq_refl w.name)
    | inr auto ↦ ground (arith, auto, adopt_name-name w (derived_name proc w))
  ]
