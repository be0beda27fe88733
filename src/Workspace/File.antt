-- ===== src/Workspace/File.antt =====
-- services/rttx-server/src/workspace.rs and services/rttx-server/src/state/types.rs: the file that
-- one workspace is saved in, and the workspace that a daemon rebuilds from it.
pub mod RoundTrip
use rttx.Common.{
  ℕ, Uuid, ◌==◌, Bool, true, false, Option, none, some, List, [], ◌∷◌, if◌then◌else◌, max,
}
use rttx.Common.Dict.{Dict, insert}
use rttx.Common.Text.{Text}
use rttx.Pane.{Engine, Pane, effective_cwd}
use rttx.Pane
use rttx.PaneTree.{PaneId}
use rttx.WorkspaceTree.{WorkspaceTree}
use rttx.Workspace.{Workspace, WorkspacePolicy, default_workspace_revision}
use rttx.Workspace.Naming.{refresh_auto_name}

abbrev pub runtime_file_schema_version : ℕ
runtime_file_schema_version = 2

pub record PaneSpecV2 : Type 0 where
  pub id : PaneId
  pub cwd : Option Text
  pub title : Option Text
  pub exit_status : Option ℕ
  pub cols : ℕ
  pub rows : ℕ
  pub no_persist : Bool

pub record WorkspaceSpecV2 : Type 0 where
  pub id : Uuid
  pub name : Text
  pub user_renamed : Bool
  pub policy : WorkspacePolicy
  pub created_at : ℕ
  pub tree : WorkspaceTree
  pub panes : List PaneSpecV2

pub record WorkspaceInstanceV1 : Type 0 where
  pub revision : ℕ
  pub last_active_at : ℕ
  pub last_snapshot_at : ℕ

pub record WorkspaceFileV2 : Type 0 where
  pub schema_version : ℕ
  pub spec : WorkspaceSpecV2
  pub instance_state : WorkspaceInstanceV1

module _ {e : Engine} where
  unfoldable pub pane_spec : (ℕ → Option Text) → Pane e → PaneSpecV2
  pane_spec proc p = record {
    id = p.id;
    cwd = effective_cwd proc p;
    title = p.title;
    exit_status = p.exit_status;
    cols = p.cols;
    rows = p.rows;
    no_persist = p.no_persist;
  }

  unfoldable pub pane_specs : (ℕ → Option Text) → Dict (Pane e) → List PaneSpecV2
  pane_specs proc [] = []
  pane_specs proc ((id, p) ∷ d) = pane_spec proc p ∷ pane_specs proc d

  -- `now` is the time of the snapshot.
  unfoldable pub to_workspace_file : (ℕ → Option Text) → ℕ → Workspace e → WorkspaceFileV2
  unfolding pane_specs
  to_workspace_file proc now w = record {
    schema_version = runtime_file_schema_version;
    spec = record {
      id = w.id;
      name = w.name;
      user_renamed = w.user_renamed;
      policy = w.policy;
      created_at = w.created_at;
      tree = w.tree;
      panes = pane_specs proc w.panes;
    };
    instance_state = record {
      revision = w.revision;
      last_active_at = w.last_active_at;
      last_snapshot_at = now;
    };
  }

module _ (e : Engine) where
  unfoldable pub restore_pane : PaneSpecV2 → Pane e
  unfolding Pane.new
  restore_pane ps = record (Pane.new e ps.id ps.cols ps.rows) {
    cwd = ps.cwd;
    title = ps.title;
    exit_status = ps.exit_status;
    reconstructed = true;
    no_persist = ps.no_persist;
  }

  -- `.collect()` into the map, on top of what is already in it.
  unfoldable pub collect_panes : List PaneSpecV2 → Dict (Pane e) → Dict (Pane e)
  unfolding restore_pane
  collect_panes [] d = d
  collect_panes (ps ∷ specs) d = collect_panes specs (insert d ps.id (restore_pane ps))

  -- The workspace before its name is refreshed.
  unfoldable pub rebuild : WorkspaceFileV2 → Workspace e
  unfolding collect_panes
  rebuild rf = record {
    id = rf.spec.id;
    name = rf.spec.name;
    user_renamed = rf.spec.user_renamed;
    panes = collect_panes rf.spec.panes [];
    active_pane_id = rf.spec.tree.default_active;
    tree = rf.spec.tree;
    policy = rf.spec.policy;
    reconstructed = true;
    revision = max rf.instance_state.revision default_workspace_revision;
    persisted_revision = max rf.instance_state.revision default_workspace_revision;
    created_at = rf.spec.created_at;
    last_active_at = rf.instance_state.last_active_at;
    attached_clients = [];
  }

  unfoldable pub from_workspace_file : (ℕ → Option Text) → WorkspaceFileV2 → Workspace e
  unfolding rebuild
  from_workspace_file proc rf = (refresh_auto_name proc (rebuild rf)).0
