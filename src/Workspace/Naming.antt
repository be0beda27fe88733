-- ===== src/Workspace/Naming.antt =====
-- services/rttx-server/src/workspace.rs: the workspace's name, given by a user or derived from the
-- working directory of its naming pane.
pub mod Laws
use rttx.Common.{
  ℕ, Uuid, ◌==◌, Bool, true, false, not, ◌&&◌, ◌||◌, Option, none, some, List, [], ◌∷◌,
  if◌then◌else◌, is_some, get_elem?,
}
use rttx.Common.Dict.{get}
use rttx.Common.Text.{Text, text_eq, is_empty}
use rttx.Common.FilePath.{file_name}
use rttx.Pane.{Engine, Pane, effective_cwd}
use rttx.WorkspaceTree
use rttx.Workspace.{Workspace, bump_revision}

unfoldable pub auto_name_from_cwd : Text → Option Text
auto_name_from_cwd cwd = elim (file_name cwd) [
  | none ↦ none
  | some name ↦ if not (is_empty name) then some name else none
]

abbrev pub is_id : Option Uuid → Uuid → Bool
is_id none id = false
is_id (some a) id = a == id

module _ {e : Engine} where
  unfoldable pub set_auto_name : Workspace e → Text → Workspace e × Option ℕ
  unfolding bump_revision
  set_auto_name w name =
      if w.user_renamed || (text_eq w.name name || is_empty name)
      then (w, none)
      else (let w' = bump_revision (record w { name = name }) in (w', some w'.revision))

  -- `default_active.filter(|id| panes.contains_key(id)).or_else(|| tree.panes().first())`
  unfoldable pub naming_pane : Workspace e → Option Uuid → Option Uuid
  naming_pane w none = get_elem? (WorkspaceTree.panes w.tree) 0
  naming_pane w (some active) =
      if is_some (get w.panes active) then some active else get_elem? (WorkspaceTree.panes w.tree) 0

  unfoldable pub naming_pane_id : Workspace e → Option Uuid
  unfolding naming_pane
  naming_pane_id w = naming_pane w w.tree.default_active

  unfoldable pub pane_names_workspace : Workspace e → Uuid → Bool
  unfolding naming_pane_id
  pane_names_workspace w pane_id = not w.user_renamed && is_id (naming_pane_id w) pane_id

  -- The `?` chain of `refresh_auto_name` behind the naming pane.
  unfoldable pub name_of_pane : (ℕ → Option Text) → Workspace e → Option Uuid → Option Text
  unfolding auto_name_from_cwd effective_cwd
  name_of_pane proc w none = none
  name_of_pane proc w (some pane_id) = elim (get w.panes pane_id) [
    | none ↦ none
    | some p ↦ elim (effective_cwd proc p) [ none ↦ none | some cwd ↦ auto_name_from_cwd cwd ]
  ]

  -- The name that the naming pane gives.
  unfoldable pub derived_name : (ℕ → Option Text) → Workspace e → Option Text
  unfolding naming_pane_id name_of_pane
  derived_name proc w = name_of_pane proc w (naming_pane_id w)

  -- `refresh_auto_name` once the chain gave its name.
  unfoldable pub adopt_name : Workspace e → Option Text → Workspace e × Option Text
  unfolding bump_revision
  adopt_name w none = (w, none)
  adopt_name w (some name) =
      if text_eq name w.name
      then (w, none)
      else (bump_revision (record w { name = name }), some name)

  unfoldable pub refresh_auto_name : (ℕ → Option Text) → Workspace e → Workspace e × Option Text
  unfolding adopt_name
  refresh_auto_name proc w =
      if w.user_renamed then (w, none) else adopt_name w (derived_name proc w)

  unfoldable pub rename : Workspace e → Text → Workspace e × ℕ
  unfolding bump_revision
  rename w name =
      let w' =
        if not (text_eq w.name name) || not w.user_renamed
        then bump_revision (record w { name = name; user_renamed = true })
        else w in
      (w', w'.revision)
