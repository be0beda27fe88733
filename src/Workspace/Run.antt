-- ===== src/Workspace/Run.antt =====
-- services/rttx-server/src/workspace.rs: any sequence of calls on a workspace, in any order.
pub mod Coherent
pub mod Revision
use rttx.Common.{
  ℕ, ◌+◌, ◌≡◌, ◌≤◌, ◌<◌, refl, sym, ap, ◌∙◌, ◌⊎◌, inl, inr, arith, Uuid, ◌==◌, Bool, true, false,
  not, ◌||◌, Option, none, some, List, [], ◌∷◌, if◌then◌else◌, Bool-cases, Option-cases, is_some,
  contains, IsDistinct,
}
use rttx.Common.Dict.{
  Dict, get, insert, keys, contains-keys, contains-keys-insert, insert-IsDistinct,
}
use rttx.Common.Float.{F32}
use rttx.Common.Text.{Text}
use rttx.Pane.{Engine, Pane}
use rttx.PaneTree.{SplitAxis, Side}
use rttx.PaneTree.Remove.{panes_of}
use rttx.Workspace.{
  Workspace, AttachMode, DetachReason, ClientRole, bump_revision, mark_persisted, new, u64_max,
  saturating_suc,
}
use rttx.Workspace.Panes
use rttx.Workspace.Panes.Coherent.{
  IsKeyed, insert-IsKeyed, id-get, IsCoherent, new-IsCoherent, add_pane-IsCoherent,
  split_pane-IsCoherent, remove_pane-IsCoherent, resize_split-IsCoherent,
  set_default_active_pane-IsCoherent,
}
use rttx.Workspace.Lease.{attach_client, detach_client, attach_mode, set_role, seize, find_writer}
use rttx.Workspace.Lease.Laws.{IsLease, attach_client-IsLease, detach_client-IsLease}
use rttx.Workspace.Fields.{
  write_pane, resize_pane, set_pane_title, set_pane_no_persist, set_pane_cwd, set_pane_exit_status,
}
use rttx.Workspace.Naming.{set_auto_name, refresh_auto_name, rename, adopt_name, derived_name}

-- A call on a workspace, with what it is given.
pub data Call (e : Engine) : Type 0 where
  adds : Pane e → Call e
  splits : Uuid → Pane e → SplitAxis → F32 → Call e
  removes : Uuid → Call e
  resizes_split : List Side → F32 → Call e
  focuses : Uuid → Call e
  attaches : Uuid → AttachMode → ℕ → Call e
  detaches : Uuid → DetachReason → Call e
  names : Text → Call e
  refreshes : (ℕ → Option Text) → Call e
  renames : Text → Call e
  resizes : Uuid → ℕ → ℕ → Call e
  titles : Uuid → Text → Call e
  flags : Uuid → Bool → Call e
  moves : Uuid → Text → Call e
  exits : Uuid → Option ℕ → Call e
  saves : Call e

module _ {e : Engine} where
  unfoldable pub step : Workspace e → Call e → Workspace e
  step w (adds pane) = Panes.add_pane w pane
  step w (splits target pane axis ratio) = (Panes.split_pane w target pane axis ratio).0
  step w (removes id) = (Panes.remove_pane w id).0
  step w (resizes_split path ratio) = (Panes.resize_split w path ratio).0
  step w (focuses id) = (Panes.set_default_active_pane w id).0
  step w (attaches c mode now) = (attach_client w c mode now).0
  step w (detaches c reason) = (detach_client w c reason).0
  step w (names name) = (set_auto_name w name).0
  step w (refreshes proc) = (refresh_auto_name proc w).0
  step w (renames name) = (rename w name).0
  step w (resizes id cols rows) = (resize_pane w id cols rows).0
  step w (titles id title) = (set_pane_title w id title).0
  step w (flags id flag) = (set_pane_no_persist w id flag).0
  step w (moves id cwd) = (set_pane_cwd w id cwd).0
  step w (exits id status) = (set_pane_exit_status w id status).0
  step w saves = mark_persisted w

  unfoldable pub run : Workspace e → List (Call e) → Workspace e
  run w [] = w
  run w (c ∷ cs) = run (step w c) cs
