-- ===== src/Workspace/Fields.antt =====
-- services/rttx-server/src/workspace.rs: the operations that change one pane's size, title, flags or
-- exit status. An exit status is an `i32` by its 32-bit pattern.
pub mod Laws
use rttx.Common.{
  ℕ, Uuid, ◌==◌, Bool, true, false, not, ◌||◌, Option, none, some, List, [], ◌∷◌, if◌then◌else◌,
}
use rttx.Common.Dict.{Dict, get, insert}
use rttx.Common.Text.{Text, is_text}
use rttx.Pane.{Engine, Pane}
use rttx.Workspace.{Workspace, bump_revision}

abbrev pub opt_eq : Option ℕ → Option ℕ → Bool
opt_eq none none = true
opt_eq none (some b) = false
opt_eq (some a) none = false
opt_eq (some a) (some b) = a == b

abbrev pub bool_eq : Bool → Bool → Bool
bool_eq true b = b
bool_eq false b = not b

module _ {e : Engine} where
  -- The workspace with `p` written back through the `get_mut` reference, and the revision that the
  -- operation returns: bumped if something changed.
  unfoldable pub write_pane : Workspace e → Uuid → Pane e → Bool → Workspace e × Option ℕ
  unfolding bump_revision
  write_pane w id p changed =
      let w' : Workspace e = record w { panes = insert w.panes id p } in
      let w'' : Workspace e = if changed then bump_revision w' else w' in (w'', some w''.revision)

  unfoldable pub resize_pane : Workspace e → Uuid → ℕ → ℕ → Workspace e × Option ℕ
  unfolding write_pane
  resize_pane w id cols rows = elim (get w.panes id) [
    | none ↦ (w, none)
    | some p ↦
        let changed = not (p.cols == cols) || not (p.rows == rows) in
        let screen = if changed then e.resize p.screen cols rows else p.screen in
        write_pane w id (record p { cols = cols; rows = rows; screen = screen }) changed
  ]

  unfoldable pub set_pane_title : Workspace e → Uuid → Text → Workspace e × Option ℕ
  unfolding write_pane
  set_pane_title w id title = elim (get w.panes id) [
    | none ↦ (w, none)
    | some p ↦ write_pane w id (record p { title = some title }) (not (is_text p.title title))
  ]

  unfoldable pub set_pane_no_persist : Workspace e → Uuid → Bool → Workspace e × Option ℕ
  unfolding write_pane
  set_pane_no_persist w id no_persist = elim (get w.panes id) [
    | none ↦ (w, none)
    | some p ↦
        write_pane w id (record p { no_persist = no_persist })
          (not (bool_eq p.no_persist no_persist))
  ]

  -- The new directory itself is stored by the pane; here it only marks a change.
  unfoldable pub set_pane_cwd : Workspace e → Uuid → Text → Workspace e × Option ℕ
  unfolding bump_revision
  set_pane_cwd w id cwd = elim (get w.panes id) [
    | none ↦ (w, none)
    | some p ↦ (bump_revision w, some (bump_revision w).revision)
  ]

  unfoldable pub set_pane_exit_status : Workspace e → Uuid → Option ℕ → Workspace e × Option ℕ
  unfolding write_pane
  set_pane_exit_status w id status = elim (get w.panes id) [
    | none ↦ (w, none)
    | some p ↦
        write_pane w id (record p { exit_status = status }) (not (opt_eq p.exit_status status))
  ]
