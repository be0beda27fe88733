-- ===== src/Server/Answers.antt =====
-- services/rttx-server/src/server.rs and protocols/rttx-proto/src/v3_envelope.rs: which messages are
-- answered, and under which request id.
use rttx.Common.{
  ℕ, ◌≡◌, refl, Uuid, Bool, false, Option, none, some, List, if◌then◌else◌, inl, inr, Option-cases,
}
use rttx.Wire.Messages.{
  Command, ping, list_workspaces, get_diagnostics, create_workspace, attach_workspace,
  detach_workspace, terminate_workspace, create_pane, close_pane, terminal_input, resize_pane,
  set_pane_title, set_pane_no_persist, split_pane, resize_split, set_focus, report_client_size,
  rename_workspace, resync_workspace, get_scrollback, takeover_workspace, shutdown, ClientEnvelope,
  ServerEnvelope, is_fire_and_forget, build_response_envelope,
}
use rttx.Server.{Host, Server, World}
use rttx.Server.Dispatch.{respond, stay_silent, dispatch, handle_v3_message}

abbrev pub request_id_of : Option ServerEnvelope → Option ℕ
request_id_of none = none
request_id_of (some envelope) = some envelope.request_id

-- An envelope without a command is answered too.
abbrev pub is_silent : Option Command → Bool
is_silent none = false
is_silent (some command) = is_fire_and_forget command

module _ {h : Host} (x : World) (c : Uuid) (caps : List ℕ) (id : ℕ) (s : Server h) where
  dispatch_answers :
      (command : Command)
      → request_id_of (dispatch x c caps id command s).1
        ≡ (if is_fire_and_forget command then none else some id)
  unfolding dispatch respond stay_silent build_response_envelope is_fire_and_forget
  dispatch_answers (ping nonce) = refl
  dispatch_answers list_workspaces = refl
  dispatch_answers get_diagnostics = refl
  dispatch_answers (create_workspace name policy) = refl
  dispatch_answers (attach_workspace runtime_id mode) = refl
  dispatch_answers (detach_workspace runtime_id) = refl
  dispatch_answers (terminate_workspace runtime_id) = refl
  dispatch_answers (create_pane req) = refl
  dispatch_answers (close_pane runtime_id pane) = refl
  dispatch_answers (terminal_input runtime_id pane kind) = refl
  dispatch_answers (resize_pane req) = refl
  dispatch_answers (set_pane_title runtime_id pane title) = refl
  dispatch_answers (set_pane_no_persist runtime_id pane flag) = refl
  dispatch_answers (split_pane req) = refl
  dispatch_answers (resize_split runtime_id path ratio) = refl
  dispatch_answers (set_focus runtime_id pane) = refl
  dispatch_answers (report_client_size runtime_id panes) = refl
  dispatch_answers (rename_workspace runtime_id name automatic) = refl
  dispatch_answers (resync_workspace runtime_id) = refl
  dispatch_answers (get_scrollback runtime_id pane offset limit) = refl
  dispatch_answers (takeover_workspace runtime_id) = refl
  dispatch_answers shutdown = refl

-- Every message is answered with one envelope under its own request id, but for the commands that
-- the protocol calls fire-and-forget, which are never answered.
pub handle_v3_message-request_id :
    {h : Host} (x : World) (c : Uuid) (caps : List ℕ) (envelope : ClientEnvelope) (s : Server h)
    → request_id_of (handle_v3_message x c caps envelope s).1
      ≡ (if is_silent envelope.command then none else some envelope.request_id)
unfolding handle_v3_message respond build_response_envelope
handle_v3_message-request_id x c caps envelope s = elim (Option-cases envelope.command) [
  | inl empty ↦ rw (empty, handle_v3_message) refl
  | inr (command, q) ↦
      rw (q, handle_v3_message) (dispatch_answers x c caps envelope.request_id s command)
]
