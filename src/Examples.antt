-- ===== src/Examples.antt =====
-- Concrete trees, workspaces and layouts, and the theorems applied to them.
mod TreeRuns
mod WorkspaceRuns
mod WireRuns
mod LayoutRuns
mod FlightRuns
mod ServerRuns
use rttx.Common.Dict.{get}
use rttx.Common.{arith, ℕ, refl, Option, none, some, List, [], ◌∷◌, Uuid, true, false, ◌≡◌, length}
use rttx.Common.Float.{half_f32}
use rttx.Common.Text.{Text, text}
use rttx.Pane.{Engine, Pane}
use rttx.Pane
use rttx.PaneTree.{PaneTree, leaf, split, SplitAxis, ratio_is_valid}
use rttx.PaneTree.Ratio.{HasValidRatios}
use rttx.WorkspaceTree.{WorkspaceTree}
use rttx.WorkspaceTree.Valid.{IsValid}
use rttx.Workspace.{Workspace, WorkspacePolicy, ClientRole, writer, reader}
use rttx.Workspace.Lease.Laws.{IsLease}
use rttx.Workspace.Panes.Coherent.{IsCoherent}
use rttx.Wire.Uuids.{UuidLib}
use rttx.Wire.Input.{TerminalModeState, none_mouse}

abbrev plain_modes : TerminalModeState
plain_modes = record {
  bracketed_paste = true;
  focus_reporting = false;
  application_cursor_keys = false;
  application_keypad = false;
  alternate_screen = false;
  cursor_hidden = false;
  mouse_mode = none_mouse;
  sgr_mouse = false;
}

-- A screen that keeps its size.
abbrev pub sized_engine : Engine
sized_engine = record {
  PaneScreen = ℕ × ℕ;
  Osc52Filter = Unit {0};
  new_sized = λ scrollback cols rows. (cols, rows);
  resize = λ screen cols rows. (cols, rows);
  new_filter = tt;
  raw_bytes = λ screen. screen.0 ∷ screen.1 ∷ [];
  reattach_stream = λ screen. (screen, screen.0 ∷ []);
  terminal_mode_state = λ screen. plain_modes;
  has_app_only_modes = λ screen. false;
  cleanup_sequence = λ screen idle. 27 ∷ [];
  feed = λ screen input. screen;
  clear_scrollback = λ screen. screen;
}

abbrev head_or_zero : List ℕ → ℕ
head_or_zero [] = 0
head_or_zero (x ∷ xs) = x

abbrev pub padded_uuids : UuidLib
padded_uuids = record {
  as_bytes = λ id. id ∷ 0 ∷ 0 ∷ 0 ∷ 0 ∷ 0 ∷ 0 ∷ 0 ∷ 0 ∷ 0 ∷ 0 ∷ 0 ∷ 0 ∷ 0 ∷ 0 ∷ 0 ∷ [];
  from_bytes = head_or_zero;
  to_string = λ id. id ∷ [];
  length-as_bytes = λ id. refl;
  from_bytes-as_bytes = λ id. refl;
}

abbrev pub two_leaves : PaneTree
two_leaves = split SplitAxis.vertical half_f32 (leaf 1) (leaf 2)

abbrev pub two_panes : WorkspaceTree
two_panes = record { root = some two_leaves; default_active = some 1 }

pub two_leaves-HasValidRatios : HasValidRatios two_leaves
unfolding ratio_is_valid
two_leaves-HasValidRatios = (refl, tt, tt)

pub two_panes-IsValid : IsValid two_panes
two_panes-IsValid = record {
  distinct = (refl, (refl, tt));
  ratios = two_leaves-HasValidRatios;
  active = refl;
}

abbrev pub pane_at : Uuid → Pane sized_engine
pane_at id = Pane.new sized_engine id 80 24

-- Client 7 is the writer and client 8 reads.
abbrev pub shared : Workspace sized_engine
shared = record {
  id = 100;
  name = text "work";
  user_renamed = false;
  panes = (1, pane_at 1) ∷ (2, pane_at 2) ∷ [];
  active_pane_id = some 1;
  tree = two_panes;
  policy = WorkspacePolicy.persistent;
  reconstructed = false;
  revision = 5;
  persisted_revision = 3;
  created_at = 1000;
  last_active_at = 2000;
  attached_clients = (7, writer) ∷ (8, reader) ∷ [];
}

pub shared-IsLease : IsLease shared.attached_clients
unfolding get
shared-IsLease = record { distinct = (refl, (refl, tt)); single = λ a b h k. ground (arith, h, k) }

pub shared-IsCoherent : IsCoherent shared
unfolding Pane.new
shared-IsCoherent = record {
  valid = two_panes-IsValid;
  distinct = (refl, (refl, tt));
  same_panes = λ i. refl;
  same_focus = refl;
  keyed = (refl, (refl, tt));
}
