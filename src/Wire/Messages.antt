-- ===== src/Wire/Messages.antt =====
-- proto/rttx-v3.proto and protocols/rttx-proto/src/v3_envelope.rs: the messages of protocol v3. An id
-- is the bytes that stand on the wire, and an enumeration field its number.
use rttx.Common.{ℕ, Bool, true, false, Option, some, List}
use rttx.Common.Float.{F32}
use rttx.Common.Text.{Text}
use rttx.Wire.Errors.{ProtocolError}
use rttx.Wire.Input.{InputKind, TerminalModeState}
use rttx.Wire.Tree.{PaneTreeNode}

abbrev pub Bytes : Type 0
Bytes = List ℕ

pub record CreatePane : Type 0 where
  pub runtime_id : Bytes
  pub cwd : Option Text
  pub dark_background : Option Bool
  pub cols : ℕ
  pub rows : ℕ
  pub no_persist : Option Bool

pub record SplitPane : Type 0 where
  pub runtime_id : Bytes
  pub target_pane_id : Bytes
  pub axis : ℕ
  pub ratio : F32
  pub cwd : Option Text
  pub dark_background : Option Bool
  pub cols : ℕ
  pub rows : ℕ
  pub no_persist : Option Bool

pub record ResizePane : Type 0 where
  pub runtime_id : Bytes
  pub pane_id : Bytes
  pub cols : ℕ
  pub rows : ℕ

-- `ClientPaneSize`
pub record ClientPaneSize : Type 0 where
  pub pane_id : Bytes
  pub cols : ℕ
  pub rows : ℕ

-- The commands with their fields, in the order of the messages.
pub data Command : Type 0 where
  ping : ℕ → Command
  list_workspaces : Command
  get_diagnostics : Command
  create_workspace : Text → ℕ → Command
  attach_workspace : Bytes → ℕ → Command
  detach_workspace : Bytes → Command
  terminate_workspace : Bytes → Command
  create_pane : CreatePane → Command
  close_pane : Bytes → Bytes → Command
  terminal_input : Bytes → Bytes → Option InputKind → Command
  resize_pane : ResizePane → Command
  set_pane_title : Bytes → Bytes → Text → Command
  set_pane_no_persist : Bytes → Bytes → Bool → Command
  split_pane : SplitPane → Command
  resize_split : Bytes → List ℕ → F32 → Command
  set_focus : Bytes → Bytes → Command
  report_client_size : Bytes → List ClientPaneSize → Command
  rename_workspace : Bytes → Text → Bool → Command
  resync_workspace : Bytes → Command
  get_scrollback : Bytes → Bytes → ℕ → ℕ → Command
  takeover_workspace : Bytes → Command
  shutdown : Command

pub record ClientEnvelope : Type 0 where
  pub request_id : ℕ
  pub command : Option Command

pub record PaneInfo : Type 0 where
  pub id : Bytes
  pub title : Text
  pub cwd : Text
  pub cols : ℕ
  pub rows : ℕ
  pub exit_status : Option ℕ
  pub reconstructed : Bool
  pub no_persist : Bool

pub record WorkspaceInfo : Type 0 where
  pub id : Bytes
  pub name : Text
  pub policy : ℕ
  pub pane_count : ℕ
  pub has_write_owner : Bool
  pub read_only_client_count : ℕ
  pub current_client_role : ℕ
  pub workspace_revision : ℕ
  pub reconstructed : Bool
  pub user_renamed : Bool
  pub active_pane_summary : Text
  pub takeover_eligible : Bool
  pub disabled_reason : Text
  pub panes : List PaneInfo

pub record PaneSnapshot : Type 0 where
  pub pane_id : Bytes
  pub pane_output_seq : ℕ
  pub title : Text
  pub cwd : Text
  pub cols : ℕ
  pub rows : ℕ
  pub exit_status : Option ℕ
  pub terminal_modes : Option TerminalModeState
  pub scrollback_tail : Bytes
  pub total_scrollback_bytes : ℕ
  pub scrollback_complete : Bool

pub record WorkspaceSnapshot : Type 0 where
  pub runtime_id : Bytes
  pub workspace_revision : ℕ
  pub client_role : ℕ
  pub panes : List PaneSnapshot
  pub tree : Option PaneTreeNode
  pub default_active_pane_id : Bytes
  pub name : Text
  pub user_renamed : Bool

pub record PaneDiagnosticsInfo : Type 0 where
  pub id : Bytes
  pub raw_bytes_len : ℕ
  pub pending_flush_len : ℕ
  pub is_exited : Bool

pub record WorkspaceDiagnosticsInfo : Type 0 where
  pub id : Bytes
  pub name : Text
  pub active_pane_count : ℕ
  pub exited_pane_count : ℕ
  pub attached_client_count : ℕ
  pub panes : List PaneDiagnosticsInfo

pub record DiagnosticsReport : Type 0 where
  pub workspace_count : ℕ
  pub total_pane_count : ℕ
  pub total_active_panes : ℕ
  pub total_exited_panes : ℕ
  pub client_count : ℕ
  pub pty_writer_count : ℕ
  pub total_raw_bytes : ℕ
  pub total_pending_flush : ℕ
  pub workspaces : List WorkspaceDiagnosticsInfo

-- The payloads of the server's messages, with their fields in order.
pub data Payload : Type 0 where
  error : ProtocolError → Payload
  pong : ℕ → Payload
  workspace_list : List WorkspaceInfo → Payload
  diagnostics_report : DiagnosticsReport → Payload
  workspace_created : Bytes → ℕ → Payload
  snapshot : WorkspaceSnapshot → Payload
  attach_blocked : Bytes → ℕ → ℕ → ℕ → Payload
  workspace_detached : Bytes → ℕ → Payload
  workspace_terminated : Bytes → ℕ → ℕ → Payload
  workspace_renamed : Bytes → Text → ℕ → Bool → Payload
  pane_created : Bytes → Bytes → ℕ → Payload
  pane_closed : Bytes → Bytes → ℕ → Payload
  pane_split : Bytes → Bytes → Bytes → ℕ → F32 → ℕ → Payload
  split_resized : Bytes → List ℕ → F32 → ℕ → Payload
  focus_changed : Bytes → Bytes → ℕ → Payload
  output_delta : Bytes → Bytes → Bytes → ℕ → Payload
  scrollback_chunk : Bytes → Bytes → ℕ → Bytes → Bool → Payload
  lease_lost : Bytes → ℕ → Bytes → Payload
  takeover_completed : Bytes → ℕ → Payload
  stream_overflow : Bytes → Option Bytes → ℕ → Payload
  clipboard_write : Bytes → Bytes → Text → Bytes → Payload

pub record ServerEnvelope : Type 0 where
  pub request_id : ℕ
  pub payload : Option Payload

unfoldable pub is_fire_and_forget : Command → Bool
is_fire_and_forget (terminal_input runtime_id pane_id kind) = true
is_fire_and_forget (resize_pane req) = true
is_fire_and_forget (set_pane_title runtime_id pane_id title) = true
is_fire_and_forget (set_pane_no_persist runtime_id pane_id flag) = true
is_fire_and_forget (report_client_size runtime_id panes) = true
is_fire_and_forget shutdown = true
is_fire_and_forget _ = false

unfoldable pub build_response_envelope : ℕ → Payload → ServerEnvelope
build_response_envelope request_id payload = record {
  request_id = request_id;
  payload = some payload;
}

unfoldable pub build_push_envelope : Payload → ServerEnvelope
build_push_envelope payload = record { request_id = 0; payload = some payload }
