-- ===== src/Server/Handlers/Lifecycle.antt =====
-- services/rttx-server/src/server.rs: the requests that list, create, end, rename and read workspaces.
use rttx.Common.{
  ℕ, Uuid, ◌==◌, Bool, true, not, ◌&&◌, some, List, [], if◌then◌else◌, contains, is_some, ok,
}
use rttx.Common.Dict.{get, keys}
use rttx.Common.Text.{Text, text}
use rttx.Workspace.{
  Workspace, WorkspacePolicy, persistent, ephemeral, TerminationReason, DetachReason, DetachOutcome,
  detached, not_attached, terminated, saturating_suc,
}
use rttx.Workspace
use rttx.Workspace.Lease.{client_role, has_write_owner, client_has_write_access, detach_client}
use rttx.Workspace.Naming.{set_auto_name, rename}
use rttx.Pane.{Engine}
use rttx.Wire.Errors.{unsupported_capability}
use rttx.Wire.Uuids.{uuid_to_bytes}
use rttx.Wire.Scrollback.{cap_limit, slice_scrollback}
use rttx.Wire.Messages.{
  Bytes, pong, workspace_list, diagnostics_report, workspace_created, workspace_detached,
  workspace_terminated, workspace_renamed, snapshot, scrollback_chunk, build_push_envelope,
}
use rttx.Server.{
  Host, pure, gets, asks, or_raise, raise_unless, find_workspace, put_workspace, ◌>>=◌, ◌>>◌,
}
use rttx.Server.Channels.{
  opt_workspace_inventory, opt_workspace_takeover, opt_resync, opt_chunked_scrollback,
  opt_diagnostics, terminate_workspace, termination_number,
}
use rttx.Server.Inventory.{
  workspace_infos, sort_by, v3_diagnostics_report, build_v3_workspace_snapshot, role_number,
}
use rttx.Server.Handlers.{
  Request, refusal, owned_by_another, no_workspace, no_pane, broadcast, writable_workspace,
  decode_request,
}

unfoldable pub policy_from : ℕ → WorkspacePolicy
policy_from value = if value == 2 then ephemeral else persistent

-- `automatic` chooses `set_auto_name` or `rename`; with it, whether the name was taken over.
unfoldable pub renamed : {e : Engine} → Workspace e → Text → Bool → Workspace e × Bool
unfolding set_auto_name rename
renamed w name automatic =
    if automatic
    then (let r = set_auto_name w name in (r.0, is_some r.1))
    else ((rename w name).0, true)

module _ {h : Host} where
  unfoldable pub handle_ping : ℕ → Request h
  handle_ping nonce = pure (pong nonce)

  unfoldable pub handle_list_workspaces : Uuid → List ℕ → Request h
  unfolding workspace_infos sort_by
  handle_list_workspaces client_id effective_caps = do
    x ← asks (λ x. x.proc_cwd)
    workspaces ← gets (λ s. s.workspaces)
    pure (
        workspace_list (
          sort_by (λ i. i.id)
            (workspace_infos h.uuids x client_id workspaces
              (contains effective_caps opt_workspace_inventory)
              (contains effective_caps opt_workspace_takeover))))

  unfoldable pub handle_get_diagnostics : List ℕ → Request h
  unfolding refusal v3_diagnostics_report
  handle_get_diagnostics effective_caps = do
    raise_unless (contains effective_caps opt_diagnostics) (
        refusal unsupported_capability (text "OPT_DIAGNOSTICS not negotiated")
          (text "GetDiagnostics"))
    contended ← asks (λ x. x.contended)
    gets (λ s. diagnostics_report (v3_diagnostics_report contended s))

  unfoldable pub handle_create_workspace : Text → ℕ → Request h
  unfolding policy_from Workspace.new put_workspace uuid_to_bytes
  handle_create_workspace name policy = do
    runtime_id ← asks (λ x. x.new_v4)
    now ← asks (λ x. x.now)
    let w : Workspace h.engine = record (Workspace.new h.engine runtime_id now name) {
      policy = policy_from policy;
    }
    put_workspace runtime_id w
    pure (workspace_created (uuid_to_bytes h.uuids runtime_id) w.revision)

  -- The workspace ends, and the client that caused it is told so by the response.
  unfoldable pub end_workspace : Uuid → Uuid → ℕ → TerminationReason → Request h
  unfolding terminate_workspace termination_number uuid_to_bytes
  end_workspace client_id runtime_id final_revision reason x s = (
    terminate_workspace x runtime_id final_revision reason (some client_id) s,
    ok (
        workspace_terminated (uuid_to_bytes h.uuids runtime_id) final_revision
          (termination_number reason)),
  )

  -- The two arms of the match on the outcome of a detach.
  unfoldable pub answer_detach : Uuid → Uuid → DetachOutcome → Request h
  unfolding end_workspace uuid_to_bytes
  answer_detach client_id runtime_id (detached revision) =
      pure (workspace_detached (uuid_to_bytes h.uuids runtime_id) revision)
  answer_detach client_id runtime_id (not_attached revision) =
      pure (workspace_detached (uuid_to_bytes h.uuids runtime_id) revision)
  answer_detach client_id runtime_id (terminated final_revision reason) =
      end_workspace client_id runtime_id final_revision reason

  unfoldable pub handle_v3_detach : Uuid → Bytes → Request h
  unfolding decode_request find_workspace put_workspace detach_client answer_detach
  handle_v3_detach client_id id = do
    runtime_id ← decode_request (text "DetachWorkspace") id
    w ← find_workspace runtime_id (no_workspace (text "DetachWorkspace"))
    let r = detach_client w client_id DetachReason.explicit_request
    put_workspace runtime_id r.0
    answer_detach client_id runtime_id r.1

  unfoldable pub handle_v3_terminate : Uuid → Bytes → Request h
  unfolding decode_request find_workspace has_write_owner client_has_write_access saturating_suc
      end_workspace
  handle_v3_terminate client_id id = do
    runtime_id ← decode_request (text "TerminateWorkspace") id
    w ← find_workspace runtime_id (no_workspace (text "TerminateWorkspace"))
    raise_unless (not (has_write_owner w && not (client_has_write_access w client_id)))
        (owned_by_another (text "TerminateWorkspace"))
    end_workspace client_id runtime_id (saturating_suc w.revision) TerminationReason.explicit

  unfoldable pub handle_rename_workspace : Uuid → Bytes → Text → Bool → Request h
  unfolding decode_request writable_workspace renamed put_workspace build_push_envelope
      uuid_to_bytes
  handle_rename_workspace client_id id name automatic = do
    runtime_id ← decode_request (text "RenameWorkspace") id
    w ← writable_workspace (text "RenameWorkspace") client_id runtime_id
    let r = renamed w name automatic
    put_workspace runtime_id r.0
    let answer =
        workspace_renamed (uuid_to_bytes h.uuids runtime_id) r.0.name r.0.revision r.0.user_renamed
    broadcast (if r.1 then keys r.0.attached_clients else []) (some client_id)
        (build_push_envelope answer)
    pure answer

  unfoldable pub handle_resync_workspace : Uuid → List ℕ → Bytes → Request h
  unfolding refusal decode_request find_workspace client_role role_number
      build_v3_workspace_snapshot put_workspace
  handle_resync_workspace client_id effective_caps id = do
    raise_unless (contains effective_caps opt_resync)
        (refusal unsupported_capability (text "OPT_RESYNC not negotiated") (text "ResyncWorkspace"))
    runtime_id ← decode_request (text "ResyncWorkspace") id
    w ← find_workspace runtime_id (no_workspace (text "ResyncWorkspace"))
    proc ← asks (λ x. x.proc_cwd)
    let r =
        build_v3_workspace_snapshot h.uuids proc w runtime_id
          (role_number (client_role w client_id))
    put_workspace runtime_id r.0
    pure (snapshot r.1)

  unfoldable pub handle_get_scrollback : List ℕ → Bytes → Bytes → ℕ → ℕ → Request h
  unfolding refusal decode_request find_workspace cap_limit slice_scrollback uuid_to_bytes
  handle_get_scrollback effective_caps id pane offset limit = do
    raise_unless (contains effective_caps opt_chunked_scrollback) (
        refusal unsupported_capability (text "OPT_CHUNKED_SCROLLBACK not negotiated")
          (text "GetScrollback"))
    runtime_id ← decode_request (text "GetScrollback") id
    pane_id ← decode_request (text "GetScrollback") pane
    w ← find_workspace runtime_id (no_workspace (text "GetScrollback"))
    p ← or_raise (get w.panes pane_id) (no_pane (text "GetScrollback"))
    let chunk = slice_scrollback (h.engine.raw_bytes p.screen) offset (cap_limit limit)
    pure (
        scrollback_chunk (uuid_to_bytes h.uuids runtime_id) (uuid_to_bytes h.uuids pane_id) offset
          chunk.0 chunk.1)
