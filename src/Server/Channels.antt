-- ===== src/Server/Channels.antt =====
-- services/rttx-server/src/server.rs: pushes to the clients, what a full push channel leads to, and
-- the end of a workspace.
use rttx.Common.{
  ℕ, Uuid, ◌==◌, Bool, true, false, not, ◌&&◌, Option, none, some, List, [], ◌∷◌, ◌++◌,
  if◌then◌else◌, contains, is_some,
}
use rttx.Common.Dict.{Dict, get, insert, remove, keys}
use rttx.Workspace.{Workspace, TerminationReason}
use rttx.Pane.{Engine}
use rttx.Wire.Uuids.{uuid_to_bytes}
use rttx.Wire.Messages.{ServerEnvelope, stream_overflow, workspace_terminated, build_push_envelope}
use rttx.Server.{
  Host, TrySend, sent, full, closed, ClientProtocol, v3, Server, World, kills, removes_runtime_dir,
}

-- `OPT_RESYNC`, `OPT_CLIPBOARD_OSC52` and the other optional capabilities, by their numbers.
abbrev pub opt_workspace_inventory : ℕ
opt_workspace_inventory = 100

abbrev pub opt_workspace_takeover : ℕ
opt_workspace_takeover = 101

abbrev pub opt_resync : ℕ
opt_resync = 102

abbrev pub opt_chunked_scrollback : ℕ
opt_chunked_scrollback = 103

abbrev pub opt_diagnostics : ℕ
opt_diagnostics = 104

abbrev pub opt_clipboard_osc52 : ℕ
opt_clipboard_osc52 = 105

-- The client's protocol, if it has one, with the capability in it.
abbrev pub speaks : Option ClientProtocol → ℕ → Bool
speaks none capability = false
speaks (some (v3 effective_caps)) capability = contains effective_caps capability

abbrev pub is_full : TrySend → Bool
is_full full = true
is_full sent = false
is_full closed = false

abbrev pub is_err : TrySend → Bool
is_err sent = false
is_err full = true
is_err closed = true

-- `Some(client_id) == exclude_client_id`
abbrev pub is_excluded : Option Uuid → Uuid → Bool
is_excluded none c = false
is_excluded (some excluded) c = excluded == c

unfoldable pub termination_number : TerminationReason → ℕ
termination_number TerminationReason.explicit = 1
termination_number TerminationReason.ephemeral_last_detach = 2

module _ {e : Engine} where
  -- The first workspace, its lock free, that the client is attached to.
  unfoldable pub workspace_of_client : (Uuid → Bool) → Dict (Workspace e) → Uuid → Option Uuid
  workspace_of_client contended [] client_id = none
  workspace_of_client contended ((id, w) ∷ d) client_id =
      let rest = workspace_of_client contended d client_id in
      if not (contended id) && is_some (get w.attached_clients client_id) then some id else rest

module _ (h : Host) where
  -- `instrumented_try_send` to one client that has a sender, and whether its channel was full.
  unfoldable pub push : Dict h.Sender → Uuid → ServerEnvelope → Dict h.Sender × Bool
  push senders client_id msg = elim (get senders client_id) [
    | none ↦ (senders, false)
    | some sender ↦
        let (sender', result) = h.try_send sender msg in
        (insert senders client_id sender', is_full result)
  ]

  -- The first loop of `broadcast_to_clients`: the channels after it, and the clients with a full one.
  unfoldable pub push_all :
      Dict h.Sender → List Uuid → Option Uuid → ServerEnvelope → Dict h.Sender × List Uuid
  unfolding push
  push_all senders [] exclude msg = (senders, [])
  push_all senders (c ∷ cs) exclude msg =
      let step = if is_excluded exclude c then (senders, false) else push senders c msg in
      let rest = push_all step.0 cs exclude msg in (rest.0, if step.1 then c ∷ rest.1 else rest.1)

  -- A client with its cloned sender and its protocol.
  abbrev pub Collected : Type 0
  Collected = Uuid × h.Sender × Option ClientProtocol

  unfoldable pub collect_senders_for_clients : Server h → List Uuid → List Collected
  collect_senders_for_clients s [] = []
  collect_senders_for_clients s (c ∷ cs) =
      let rest = collect_senders_for_clients s cs in
      elim (get s.client_senders c) [
        | none ↦ rest
        | some sender ↦ (c, sender, get s.client_protocols c) ∷ rest
      ]

  -- The channels after the sends, and the clients with a full one.
  unfoldable pub send_to_collected : List Collected → ServerEnvelope → List Collected × List Uuid
  send_to_collected [] msg = ([], [])
  send_to_collected ((client_id, sender, protocol) ∷ senders) msg =
      let (sender', result) = h.try_send sender msg in
      let rest = send_to_collected senders msg in
      (
        (client_id, sender', protocol) ∷ rest.0,
        if is_full result then client_id ∷ rest.1 else rest.1,
      )

  unfoldable pub targeted : Uuid → List Collected → List Collected
  targeted writer_client [] = []
  targeted writer_client ((client_id, sender, protocol) ∷ senders) =
      let rest = targeted writer_client senders in
      if client_id == writer_client && speaks protocol opt_clipboard_osc52
      then (client_id, sender, protocol) ∷ rest
      else rest

  unfoldable pub send_to_clipboard_client :
      List Collected → Option Uuid → ServerEnvelope → List Collected × List Uuid
  unfolding targeted send_to_collected
  send_to_clipboard_client senders none msg = ([], [])
  send_to_clipboard_client senders (some writer_client) msg =
      send_to_collected (targeted writer_client senders) msg

module _ {h : Host} where
  unfoldable pub force_disconnect_client : Uuid → Server h → Server h
  force_disconnect_client client_id s = record s {
    client_senders = remove s.client_senders client_id;
  }

  -- The response channel's answer to the `StreamOverflow`, if the client has one.
  unfoldable pub send_stream_overflow : Uuid → Uuid → Server h → Option h.Sender → Server h
  unfolding force_disconnect_client uuid_to_bytes build_push_envelope
  send_stream_overflow client_id runtime_id s none = force_disconnect_client client_id s
  send_stream_overflow client_id runtime_id s (some resp_tx) =
      let env = build_push_envelope (stream_overflow (uuid_to_bytes h.uuids runtime_id) none 1) in
      let (resp_tx', result) = h.try_send resp_tx env in
      let s' : Server h = record s {
        client_resp_senders = insert s.client_resp_senders client_id resp_tx';
      } in
      if is_err result then force_disconnect_client client_id s' else s'

  unfoldable pub handle_single_push_overflow_for_workspace : Uuid → Uuid → Server h → Server h
  unfolding force_disconnect_client send_stream_overflow
  handle_single_push_overflow_for_workspace client_id runtime_id s =
      if speaks (get s.client_protocols client_id) opt_resync
      then send_stream_overflow client_id runtime_id s (get s.client_resp_senders client_id)
      else force_disconnect_client client_id s

  unfoldable pub handle_push_overflows : List Uuid → Uuid → Server h → Server h
  unfolding handle_single_push_overflow_for_workspace
  handle_push_overflows [] runtime_id s = s
  handle_push_overflows (c ∷ cs) runtime_id s =
      handle_push_overflows cs runtime_id (handle_single_push_overflow_for_workspace c runtime_id s)

  unfoldable pub handle_single_push_overflow : World → Uuid → Server h → Server h
  unfolding handle_single_push_overflow_for_workspace force_disconnect_client workspace_of_client
  handle_single_push_overflow x client_id s =
      elim (workspace_of_client x.contended s.workspaces client_id) [
        | some runtime_id ↦ handle_single_push_overflow_for_workspace client_id runtime_id s
        | none ↦ force_disconnect_client client_id s
      ]

  unfoldable pub handle_all_overflows : World → List Uuid → Server h → Server h
  unfolding handle_single_push_overflow
  handle_all_overflows x [] s = s
  handle_all_overflows x (c ∷ cs) s = handle_all_overflows x cs (handle_single_push_overflow x c s)

  unfoldable pub broadcast_to_clients :
      World → List Uuid → Option Uuid → ServerEnvelope → Server h → Server h
  unfolding push_all handle_all_overflows
  broadcast_to_clients x client_ids exclude_client_id msg s =
      let pushed = push_all h s.client_senders client_ids exclude_client_id msg in
      handle_all_overflows x pushed.1 (record s { client_senders = pushed.0 })

  -- `pty_writers.remove(..)`, and the kill signal if there is one.
  unfoldable pub release_pty : Uuid → Server h → Server h
  release_pty pane_id s = record s {
    pty_writers = remove s.pty_writers pane_id;
    pty_kill_senders = remove s.pty_kill_senders pane_id;
    effects =
        if is_some (get s.pty_kill_senders pane_id)
        then s.effects ++ (kills pane_id ∷ [])
        else s.effects;
  }

  unfoldable pub release_ptys : List Uuid → Server h → Server h
  unfolding release_pty
  release_ptys [] s = s
  release_ptys (p ∷ ps) s = release_ptys ps (release_pty p s)

  -- `terminate_workspace` on the workspace that it removed, its lock free.
  unfoldable pub terminate_free :
      World → Uuid → ℕ → TerminationReason → Option Uuid → Workspace h.engine → Server h → Server h
  unfolding release_ptys broadcast_to_clients build_push_envelope uuid_to_bytes termination_number
  terminate_free x runtime_id final_revision reason exclude w s =
      let removed : Server h = record s { workspaces = remove s.workspaces runtime_id } in
      let released = release_ptys (keys w.panes) removed in
      let swept : Server h = record released {
        effects = released.effects ++ (removes_runtime_dir runtime_id ∷ []);
      } in
      broadcast_to_clients x (keys w.attached_clients) exclude
        (build_push_envelope (
          workspace_terminated (uuid_to_bytes h.uuids runtime_id) final_revision
            (termination_number reason)))
        swept

  -- The workspace is put back if another task holds its lock. The message that it returns is the
  -- one that it broadcast; no caller reads it.
  unfoldable pub terminate_workspace :
      World → Uuid → ℕ → TerminationReason → Option Uuid → Server h → Server h
  unfolding terminate_free
  terminate_workspace x runtime_id final_revision reason exclude s =
      elim (get s.workspaces runtime_id) [
        | none ↦ s
        | some w ↦
            if x.contended runtime_id
            then record s { workspaces = insert (remove s.workspaces runtime_id) runtime_id w }
            else terminate_free x runtime_id final_revision reason exclude w s
      ]
