-- ===== src/Server/Moves/Refines.antt =====
-- services/rttx-server/src/server.rs: every message, whatever handler it meets, moves as the relation
-- allows.
use rttx.Common.{ℕ, Uuid, Bool, true, false, Option, none, some, List, Option-cases, inl, inr, ◌≡◌}
use rttx.Common.Dict.{get}
use rttx.Wire.Messages.{
  Command, ping, list_workspaces, get_diagnostics, create_workspace, attach_workspace,
  detach_workspace, terminate_workspace, create_pane, close_pane, terminal_input, resize_pane,
  set_pane_title, set_pane_no_persist, split_pane, resize_split, set_focus, report_client_size,
  rename_workspace, resync_workspace, get_scrollback, takeover_workspace, shutdown, ClientEnvelope,
}
use rttx.Server.{Host, Server, World, ◌>>=◌}
use rttx.Server.Handlers.Lifecycle.{handle_ping, handle_list_workspaces}
use rttx.Server.Dispatch.{respond, stay_silent, dispatch, handle_v3_message}
use rttx.Server.Moves.{Moves}
use rttx.Server.Moves.Drawing.{stays}
use rttx.Server.Moves.Lifecycle.{
  handle_create_workspace-Moves, handle_get_diagnostics-Moves, handle_v3_detach-Moves,
  handle_v3_terminate-Moves, handle_rename_workspace-Moves, handle_resync_workspace-Moves,
  handle_get_scrollback-Moves,
}
use rttx.Server.Moves.Lease.{handle_v3_attach-Moves, handle_takeover_workspace-Moves}
use rttx.Server.Moves.Panes.{
  handle_v3_create_pane-Moves, handle_v3_split_pane-Moves, handle_v3_close_pane-Moves,
}
use rttx.Server.Moves.Viewport.{
  handle_v3_terminal_input-Moves, handle_v3_resize-Moves, handle_v3_set_pane_title-Moves,
  handle_v3_set_pane_no_persist-Moves, handle_v3_resize_split-Moves, handle_v3_set_focus-Moves,
}
use rttx.Server.Moves.Reported.{handle_v3_report_client_size-Moves}

abbrev pub is_takeover : Option Command → Bool
is_takeover (some (takeover_workspace id)) = true
is_takeover _ = false

module _ {h : Host} (x : World) (c : Uuid) (caps : List ℕ) (request_id : ℕ) (s : Server h) where
  dispatch-Moves :
      (command : Command)
      → get s.workspaces x.new_v4 ≡ none
      → Moves x (some c) (is_takeover (some command)) s (dispatch x c caps request_id command s).0
  unfolding dispatch respond stay_silent handle_ping handle_list_workspaces ◌>>=◌
  dispatch-Moves (ping nonce) fresh = stays s
  dispatch-Moves list_workspaces fresh = stays s
  dispatch-Moves get_diagnostics fresh = handle_get_diagnostics-Moves c false x s caps
  dispatch-Moves (create_workspace name policy) fresh =
      handle_create_workspace-Moves c false x s name policy fresh
  dispatch-Moves (attach_workspace id mode) fresh = handle_v3_attach-Moves c x false s id mode
  dispatch-Moves (detach_workspace id) fresh = handle_v3_detach-Moves c false x s id
  dispatch-Moves (terminate_workspace id) fresh = handle_v3_terminate-Moves c false x s id
  dispatch-Moves (create_pane req) fresh = handle_v3_create_pane-Moves c false x s req
  dispatch-Moves (close_pane id pane) fresh = handle_v3_close_pane-Moves c false x s id pane
  dispatch-Moves (terminal_input id pane kind) fresh =
      handle_v3_terminal_input-Moves c false x s id pane kind
  dispatch-Moves (resize_pane req) fresh = handle_v3_resize-Moves c false x s req
  dispatch-Moves (set_pane_title id pane title) fresh =
      handle_v3_set_pane_title-Moves c false x s id pane title
  dispatch-Moves (set_pane_no_persist id pane flag) fresh =
      handle_v3_set_pane_no_persist-Moves c false x s id pane flag
  dispatch-Moves (split_pane req) fresh = handle_v3_split_pane-Moves c false x s req
  dispatch-Moves (resize_split id path ratio) fresh =
      handle_v3_resize_split-Moves c false x s id path ratio
  dispatch-Moves (set_focus id pane) fresh = handle_v3_set_focus-Moves c false x s id pane
  dispatch-Moves (report_client_size id panes) fresh =
      handle_v3_report_client_size-Moves c false x s id panes
  dispatch-Moves (rename_workspace id name automatic) fresh =
      handle_rename_workspace-Moves c false x s id name automatic
  dispatch-Moves (resync_workspace id) fresh = handle_resync_workspace-Moves c false x s caps id
  dispatch-Moves (get_scrollback id pane offset limit) fresh =
      handle_get_scrollback-Moves c false x s caps id pane offset limit
  dispatch-Moves (takeover_workspace id) fresh = handle_takeover_workspace-Moves c x s caps id
  dispatch-Moves shutdown fresh = stays s

pub handle_v3_message-Moves :
    {h : Host} (x : World) (c : Uuid) (caps : List ℕ) (envelope : ClientEnvelope) (s : Server h)
    → get s.workspaces x.new_v4 ≡ none
    → Moves x (some c) (is_takeover envelope.command) s (handle_v3_message x c caps envelope s).0
unfolding handle_v3_message respond
handle_v3_message-Moves x c caps envelope s fresh = elim (Option-cases envelope.command) [
  | inl empty ↦ rw (empty, handle_v3_message) (stays s)
  | inr (command, q) ↦
      rw (q, handle_v3_message) (dispatch-Moves x c caps envelope.request_id s command fresh)
]
