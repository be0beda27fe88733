-- ===== src/Server/Dispatch.antt =====
-- services/rttx-server/src/server.rs: `handle_v3_message`, which gives every envelope to its handler.
use rttx.Common.{ℕ, Uuid, Option, none, some, List, Result, ok, err}
use rttx.Common.Text.{text}
use rttx.Wire.Errors.{ProtocolError, invalid_argument}
use rttx.Wire.Messages.{
  Command, ping, list_workspaces, get_diagnostics, create_workspace, attach_workspace,
  detach_workspace, terminate_workspace, create_pane, close_pane, terminal_input, resize_pane,
  set_pane_title, set_pane_no_persist, split_pane, resize_split, set_focus, report_client_size,
  rename_workspace, resync_workspace, get_scrollback, takeover_workspace, shutdown, ClientEnvelope,
  ServerEnvelope, Payload, error, build_response_envelope,
}
use rttx.Server.{Host, Server, World}
use rttx.Server.Handlers.{refusal}
use rttx.Server.Handlers.Lifecycle.{
  handle_ping, handle_list_workspaces, handle_get_diagnostics, handle_create_workspace,
  handle_v3_detach, handle_v3_terminate, handle_rename_workspace, handle_resync_workspace,
  handle_get_scrollback,
}
use rttx.Server.Handlers.Lease.{handle_v3_attach, handle_takeover_workspace}
use rttx.Server.Handlers.Panes.{handle_v3_create_pane, handle_v3_close_pane, handle_v3_split_pane}
use rttx.Server.Handlers.Viewport.{
  handle_v3_terminal_input, handle_v3_resize, handle_v3_set_pane_title,
  handle_v3_set_pane_no_persist, handle_v3_resize_split, handle_v3_set_focus,
  handle_v3_report_client_size,
}

unfoldable pub payload_of : Result Payload ProtocolError → Payload
payload_of (ok payload) = payload
payload_of (err e) = error e

module _ {h : Host} where
  -- What comes of a handler: its answer under the request's id, or no answer.
  unfoldable pub respond :
      ℕ → Server h × Result Payload ProtocolError → Server h × Option ServerEnvelope
  unfolding build_response_envelope payload_of
  respond request_id (s, r) = (s, some (build_response_envelope request_id (payload_of r)))

  unfoldable pub stay_silent :
      Server h × Result (Unit {0}) (Unit {0}) → Server h × Option ServerEnvelope
  stay_silent (s, r) = (s, none)

  unfoldable pub dispatch :
      World → Uuid → List ℕ → ℕ → Command → Server h → Server h × Option ServerEnvelope
  unfolding respond stay_silent
  dispatch x c caps request_id (ping nonce) s = respond request_id (handle_ping nonce x s)
  dispatch x c caps request_id list_workspaces s =
      respond request_id (handle_list_workspaces c caps x s)
  dispatch x c caps request_id get_diagnostics s =
      respond request_id (handle_get_diagnostics caps x s)
  dispatch x c caps request_id (create_workspace name policy) s =
      respond request_id (handle_create_workspace name policy x s)
  dispatch x c caps request_id (attach_workspace id mode) s =
      respond request_id (handle_v3_attach c id mode x s)
  dispatch x c caps request_id (detach_workspace id) s =
      respond request_id (handle_v3_detach c id x s)
  dispatch x c caps request_id (terminate_workspace id) s =
      respond request_id (handle_v3_terminate c id x s)
  dispatch x c caps request_id (create_pane req) s =
      respond request_id (handle_v3_create_pane c req x s)
  dispatch x c caps request_id (close_pane id pane) s =
      respond request_id (handle_v3_close_pane c id pane x s)
  dispatch x c caps request_id (terminal_input id pane kind) s =
      stay_silent (handle_v3_terminal_input c id pane kind x s)
  dispatch x c caps request_id (resize_pane req) s = stay_silent (handle_v3_resize c req x s)
  dispatch x c caps request_id (set_pane_title id pane title) s =
      stay_silent (handle_v3_set_pane_title c id pane title x s)
  dispatch x c caps request_id (set_pane_no_persist id pane flag) s =
      stay_silent (handle_v3_set_pane_no_persist c id pane flag x s)
  dispatch x c caps request_id (split_pane req) s =
      respond request_id (handle_v3_split_pane c req x s)
  dispatch x c caps request_id (resize_split id path ratio) s =
      respond request_id (handle_v3_resize_split c id path ratio x s)
  dispatch x c caps request_id (set_focus id pane) s =
      respond request_id (handle_v3_set_focus c id pane x s)
  dispatch x c caps request_id (report_client_size id panes) s =
      stay_silent (handle_v3_report_client_size c id panes x s)
  dispatch x c caps request_id (rename_workspace id name automatic) s =
      respond request_id (handle_rename_workspace c id name automatic x s)
  dispatch x c caps request_id (resync_workspace id) s =
      respond request_id (handle_resync_workspace c caps id x s)
  dispatch x c caps request_id (get_scrollback id pane offset limit) s =
      respond request_id (handle_get_scrollback caps id pane offset limit x s)
  dispatch x c caps request_id (takeover_workspace id) s =
      respond request_id (handle_takeover_workspace c caps id x s)
  dispatch x c caps request_id shutdown s = (s, none)

  unfoldable pub handle_v3_message :
      World → Uuid → List ℕ → ClientEnvelope → Server h → Server h × Option ServerEnvelope
  unfolding dispatch respond refusal
  handle_v3_message x client_id effective_caps envelope s = elim envelope.command [
    | none ↦
        respond envelope.request_id
          (s, err (refusal invalid_argument (text "empty envelope") (text "Dispatch")))
    | some command ↦ dispatch x client_id effective_caps envelope.request_id command s
  ]
