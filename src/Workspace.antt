-- ===== src/Workspace.antt =====
-- services/rttx-server/src/workspace.rs: the state of one workspace on the server. A time is a
-- number that the caller passes, and a revision is a `u64`, which `saturating_add` keeps in range.
pub mod Lease
pub mod Panes
pub mod Naming
pub mod Fields
pub mod File
pub mod Run
use rttx.Common.{
  ℕ, suc, ◌+◌, ◌-◌, ◌^◌, ◌≡◌, ◌≤◌, ◌<◌, arith, Uuid, Bool, true, false, Option, none, some, List,
  [], min, ltb,
}
use rttx.Common.Dict.{Dict}
use rttx.Common.Text.{Text}
use rttx.PaneTree.{SplitAxis, horizontal}
use rttx.Common.Float.{F32, half_f32}
use rttx.Pane.{Engine, Pane}
use rttx.WorkspaceTree.{WorkspaceTree}
use rttx.WorkspaceTree

pub data WorkspacePolicy : Type 0 where
  persistent ephemeral : WorkspacePolicy

pub data ClientRole : Type 0 where
  writer reader : ClientRole

pub data AttachMode : Type 0 where
  read_write read_only take_over : AttachMode

pub data TerminationReason : Type 0 where
  explicit ephemeral_last_detach : TerminationReason

pub data DetachReason : Type 0 where
  explicit_request disconnect : DetachReason

pub data AttachOutcome : Type 0 where
  attached : ClientRole → ℕ → AttachOutcome
  blocked : Option ClientRole → ℕ → AttachOutcome

pub data AttachError : Type 0 where
  takeover_not_eligible : AttachError

pub data DetachOutcome : Type 0 where
  detached : ℕ → DetachOutcome
  not_attached : ℕ → DetachOutcome
  terminated : ℕ → TerminationReason → DetachOutcome

abbrev pub default_workspace_revision : ℕ
default_workspace_revision = 1

abbrev pub default_split_axis : SplitAxis
default_split_axis = horizontal

abbrev pub default_split_ratio : F32
default_split_ratio = half_f32

pub record Workspace (e : Engine) : Type 0 where
  pub id : Uuid
  pub name : Text
  pub user_renamed : Bool
  pub panes : Dict (Pane e)
  pub active_pane_id : Option Uuid
  pub tree : WorkspaceTree
  pub policy : WorkspacePolicy
  pub reconstructed : Bool
  pub revision : ℕ
  pub persisted_revision : ℕ
  pub created_at : ℕ
  pub last_active_at : ℕ
  pub attached_clients : Dict ClientRole

abbrev pub u64_max : ℕ
u64_max = 0xffffffffffffffff

-- `n.saturating_add(1)` of a `u64`
unfoldable pub saturating_suc : ℕ → ℕ
saturating_suc n = min (n + 1) u64_max

pub saturating_suc-le : (n : ℕ) → n ≤ u64_max → n ≤ saturating_suc n
unfolding saturating_suc
saturating_suc-le n h = omega arith

pub saturating_suc-lt : (n : ℕ) → n < u64_max → n < saturating_suc n
unfolding saturating_suc
saturating_suc-lt n h = omega arith

module _ (e : Engine) where
  -- `id` is the fresh UUID and `now` the time of the call.
  unfoldable pub new : Uuid → ℕ → Text → Workspace e
  unfolding WorkspaceTree.new
  new id now name = record {
    id = id;
    name = name;
    user_renamed = false;
    panes = [];
    active_pane_id = none;
    tree = WorkspaceTree.new;
    policy = persistent;
    reconstructed = false;
    revision = default_workspace_revision;
    persisted_revision = 0;
    created_at = now;
    last_active_at = now;
    attached_clients = [];
  }

module _ {e : Engine} where
  unfoldable pub bump_revision : Workspace e → Workspace e
  unfolding saturating_suc
  bump_revision w = record w { revision = saturating_suc w.revision }

  unfoldable pub is_dirty : Workspace e → Bool
  is_dirty w = ltb w.persisted_revision w.revision

  unfoldable pub mark_persisted : Workspace e → Workspace e
  mark_persisted w = record w { persisted_revision = w.revision }
