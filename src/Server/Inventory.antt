-- ===== src/Server/Inventory.antt =====
-- services/rttx-server/src/protocol.rs and diagnostics.rs: what the daemon tells a client of its
-- workspaces, in the inventory, in a snapshot and in the diagnostics report.
use rttx.Common.{
  ℕ, ◌+◌, ◌%◌, ◌^◌, min, Uuid, Bool, true, false, not, ◌&&◌, ◌||◌, Option, none, some, List, [],
  ◌∷◌, if◌then◌else◌, length, ltb, leb, ◌==◌,
}
use rttx.Common.Dict.{Dict}
use rttx.Common.Text.{Text}
use rttx.Pane.{Engine, Pane, effective_cwd, is_exited}
use rttx.Workspace.{Workspace, WorkspacePolicy, persistent, ephemeral, ClientRole, writer, reader}
use rttx.Workspace.Lease.{
  client_role, has_write_owner, read_only_client_count, attached_client_count,
  takeover_eligible_for,
}
use rttx.Wire.Uuids.{UuidLib, uuid_to_bytes}
use rttx.Wire.Tree.{workspace_tree_to_proto}
use rttx.Wire.Messages.{
  Bytes, PaneInfo, WorkspaceInfo, PaneSnapshot, WorkspaceSnapshot, PaneDiagnosticsInfo,
  WorkspaceDiagnosticsInfo, DiagnosticsReport,
}
use rttx.Server.{Host, Server}

-- `u32::try_from(n).unwrap_or(u32::MAX)`
unfoldable pub u32_of : ℕ → ℕ
u32_of n = min n 0xffffffff

unfoldable pub policy_number : WorkspacePolicy → ℕ
policy_number persistent = 1
policy_number ephemeral = 2

-- `role.map_or(WorkspaceClientRole::Unattached, ClientRole::as_v3_proto) as i32`
unfoldable pub role_number : Option ClientRole → ℕ
role_number none = 1
role_number (some writer) = 2
role_number (some reader) = 3

abbrev pub unwrap_or_default : Option Text → Text
unwrap_or_default none = []
unwrap_or_default (some t) = t

-- The order of byte vectors.
unfoldable pub bytes_le : Bytes → Bytes → Bool
bytes_le [] bs = true
bytes_le (a ∷ l) [] = false
bytes_le (a ∷ l) (b ∷ bs) = ltb a b || (a == b && bytes_le l bs)

-- `sort_by(|a, b| key(a).cmp(&key(b)))`
unfoldable pub insert_sorted {ℓ} : {A : Type ℓ} → (A → Bytes) → A → List A → List A
insert_sorted key x [] = x ∷ []
insert_sorted key x (y ∷ ys) =
    let rest = insert_sorted key x ys in if bytes_le (key x) (key y) then x ∷ y ∷ ys else y ∷ rest

unfoldable pub sort_by {ℓ} : {A : Type ℓ} → (A → Bytes) → List A → List A
unfolding insert_sorted
sort_by key [] = []
sort_by key (x ∷ xs) = insert_sorted key x (sort_by key xs)

module _ (lib : UuidLib) where
  unfoldable pub default_active_bytes : Option Uuid → Bytes
  unfolding uuid_to_bytes
  default_active_bytes none = []
  default_active_bytes (some id) = uuid_to_bytes lib id

module _ {e : Engine} (lib : UuidLib) (proc : ℕ → Option Text) where
  unfoldable pub pane_info : Pane e → PaneInfo
  unfolding effective_cwd uuid_to_bytes
  pane_info p = record {
    id = uuid_to_bytes lib p.id;
    title = unwrap_or_default p.title;
    cwd = unwrap_or_default (effective_cwd proc p);
    cols = p.cols;
    rows = p.rows;
    exit_status = p.exit_status;
    reconstructed = p.reconstructed;
    no_persist = p.no_persist;
  }

  unfoldable pub pane_infos : Dict (Pane e) → List PaneInfo
  unfolding pane_info
  pane_infos [] = []
  pane_infos ((id, p) ∷ d) = pane_info p ∷ pane_infos d

  -- The last three fields are those of `WorkspaceInfoEnrichedFields`.
  unfoldable pub v3_workspace_info_for : Uuid → Workspace e → Bool → Bool → WorkspaceInfo
  unfolding policy_number role_number u32_of pane_infos sort_by client_role has_write_owner
      read_only_client_count takeover_eligible_for uuid_to_bytes
  v3_workspace_info_for client_id w has_enriched_inventory has_takeover = record {
    id = uuid_to_bytes lib w.id;
    name = w.name;
    policy = policy_number w.policy;
    pane_count = u32_of (length w.panes);
    has_write_owner = has_write_owner w;
    read_only_client_count = u32_of (read_only_client_count w);
    current_client_role = role_number (client_role w client_id);
    workspace_revision = w.revision;
    reconstructed = w.reconstructed;
    user_renamed = w.user_renamed;
    active_pane_summary = [];
    takeover_eligible =
        has_enriched_inventory && (has_takeover && takeover_eligible_for w client_id);
    disabled_reason = [];
    panes = if has_enriched_inventory then sort_by (λ i. i.id) (pane_infos w.panes) else [];
  }

  unfoldable pub workspace_infos : Uuid → Dict (Workspace e) → Bool → Bool → List WorkspaceInfo
  unfolding v3_workspace_info_for
  workspace_infos client_id [] has_enriched_inventory has_takeover = []
  workspace_infos client_id ((id, w) ∷ d) has_enriched_inventory has_takeover =
      v3_workspace_info_for client_id w has_enriched_inventory has_takeover
      ∷ workspace_infos client_id d has_enriched_inventory has_takeover

  -- `reattach_stream` leaves its marks on the screen.
  unfoldable pub snapshot_pane : Pane e → Pane e × PaneSnapshot
  unfolding effective_cwd uuid_to_bytes
  snapshot_pane p =
      let (screen, scrollback) = e.reattach_stream p.screen in
      (
        record p { screen = screen },
        record {
          pane_id = uuid_to_bytes lib p.id;
          pane_output_seq = p.output_seq;
          title = unwrap_or_default p.title;
          cwd = unwrap_or_default (effective_cwd proc p);
          cols = p.cols;
          rows = p.rows;
          exit_status = p.exit_status;
          terminal_modes = some (e.terminal_mode_state screen);
          scrollback_tail = scrollback;
          total_scrollback_bytes = length scrollback;
          scrollback_complete = leb (length scrollback) (length scrollback);
        },
      )

  unfoldable pub snapshot_panes : Dict (Pane e) → Dict (Pane e) × List PaneSnapshot
  unfolding snapshot_pane
  snapshot_panes [] = ([], [])
  snapshot_panes ((id, p) ∷ d) =
      let (p', one) = snapshot_pane p in
      let (d', more) = snapshot_panes d in ((id, p') ∷ d', one ∷ more)

  unfoldable pub build_v3_workspace_snapshot :
      Workspace e → Uuid → ℕ → Workspace e × WorkspaceSnapshot
  unfolding snapshot_panes default_active_bytes workspace_tree_to_proto uuid_to_bytes
  build_v3_workspace_snapshot w runtime_id client_role =
      let (panes, snapshots) = snapshot_panes w.panes in
      (
        record w { panes = panes },
        record {
          runtime_id = uuid_to_bytes lib runtime_id;
          workspace_revision = w.revision;
          client_role = client_role;
          panes = snapshots;
          tree = workspace_tree_to_proto lib w.tree;
          default_active_pane_id = default_active_bytes lib w.tree.default_active;
          name = w.name;
          user_renamed = w.user_renamed;
        },
      )

abbrev u32_cast : ℕ → ℕ
u32_cast n = n % 2 ^ 32

module _ {e : Engine} (lib : UuidLib) where
  unfoldable pub pane_diagnostics : Dict (Pane e) → List PaneDiagnosticsInfo
  unfolding is_exited uuid_to_bytes
  pane_diagnostics [] = []
  pane_diagnostics ((id, p) ∷ d) =
      record {
        id = uuid_to_bytes lib p.id;
        raw_bytes_len = length (e.raw_bytes p.screen);
        pending_flush_len = length p.pending_flush;
        is_exited = is_exited p;
      }
      ∷ pane_diagnostics d

-- The panes that a test holds of.
unfoldable pub count_panes : (PaneDiagnosticsInfo → Bool) → List PaneDiagnosticsInfo → ℕ
count_panes test [] = 0
count_panes test (p ∷ ps) = (if test p then 1 else 0) + count_panes test ps

unfoldable pub sum_panes : (PaneDiagnosticsInfo → ℕ) → List PaneDiagnosticsInfo → ℕ
sum_panes size [] = 0
sum_panes size (p ∷ ps) = size p + sum_panes size ps

unfoldable pub sum_workspaces : (WorkspaceDiagnosticsInfo → ℕ) → List WorkspaceDiagnosticsInfo → ℕ
sum_workspaces size [] = 0
sum_workspaces size (w ∷ ws) = size w + sum_workspaces size ws

module _ {e : Engine} (lib : UuidLib) where
  unfoldable pub workspace_diagnostics : Workspace e → WorkspaceDiagnosticsInfo
  unfolding pane_diagnostics count_panes attached_client_count uuid_to_bytes
  workspace_diagnostics w =
      let panes = pane_diagnostics lib w.panes in
      record {
        id = uuid_to_bytes lib w.id;
        name = w.name;
        active_pane_count = u32_cast (count_panes (λ p. not p.is_exited) panes);
        exited_pane_count = u32_cast (count_panes (λ p. p.is_exited) panes);
        attached_client_count = u32_cast (attached_client_count w);
        panes = panes;
      }

  -- A workspace whose lock another task holds is skipped.
  unfoldable pub free_diagnostics :
      (Uuid → Bool) → Dict (Workspace e) → List WorkspaceDiagnosticsInfo
  unfolding workspace_diagnostics
  free_diagnostics contended [] = []
  free_diagnostics contended ((id, w) ∷ d) =
      let rest = free_diagnostics contended d in
      if contended id then rest else workspace_diagnostics w ∷ rest

-- The totals are sums over the workspaces' lists of panes.
unfoldable pub v3_diagnostics_report : {h : Host} → (Uuid → Bool) → Server h → DiagnosticsReport
unfolding free_diagnostics sum_workspaces sum_panes count_panes
v3_diagnostics_report {h} contended s =
    let workspaces = free_diagnostics h.uuids contended s.workspaces in
    let active = sum_workspaces (λ w. count_panes (λ p. not p.is_exited) w.panes) workspaces in
    let exited = sum_workspaces (λ w. count_panes (λ p. p.is_exited) w.panes) workspaces in
    record {
      workspace_count = u32_cast (length s.workspaces);
      total_pane_count = u32_cast (active + exited);
      total_active_panes = u32_cast active;
      total_exited_panes = u32_cast exited;
      client_count = u32_cast (length s.client_senders);
      pty_writer_count = u32_cast (length s.pty_writers);
      total_raw_bytes = sum_workspaces (λ w. sum_panes (λ p. p.raw_bytes_len) w.panes) workspaces;
      total_pending_flush =
          sum_workspaces (λ w. sum_panes (λ p. p.pending_flush_len) w.panes) workspaces;
      workspaces = workspaces;
    }
