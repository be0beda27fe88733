-- ===== src/Server/Handlers/Lease.antt =====
-- services/rttx-server/src/server.rs: the requests that attach a client to a workspace and that take
-- the write lease over.
use rttx.Common.{
  ℕ, Uuid, Bool, false, Option, none, some, List, [], ◌∷◌, if◌then◌else◌, contains, Result, ok, err,
}
use rttx.Common.Dict.{Dict, keys}
use rttx.Common.Text.{Text, text}
use rttx.Pane.{Engine, Pane, sanitize_modes_if_idle}
use rttx.Workspace.{
  Workspace, ClientRole, AttachMode, read_write, read_only, take_over, AttachOutcome, attached,
  blocked, AttachError, takeover_not_eligible,
}
use rttx.Workspace.Lease.{
  attach_client, writer_client_id, attached_client_count, read_only_client_count,
}
use rttx.Workspace.Naming.{refresh_auto_name}
use rttx.Wire.Errors.{ProtocolError, unsupported_capability, takeover_required, ownership_conflict}
use rttx.Wire.Uuids.{uuid_to_bytes}
use rttx.Wire.Messages.{
  Bytes, attach_blocked, workspace_renamed, output_delta, lease_lost, takeover_completed, snapshot,
  build_push_envelope,
}
use rttx.Server.{
  Host, Action, pure, raise, asks, raise_unless, find_workspace, put_workspace, ◌>>=◌, ◌>>◌,
}
use rttx.Server.Channels.{opt_workspace_takeover}
use rttx.Server.Inventory.{build_v3_workspace_snapshot, role_number, u32_of}
use rttx.Server.Handlers.{Request, refusal, no_workspace, broadcast, decode_request}
use rttx.Common.{◌==◌}

-- `AttachMode::from_v3_proto`
unfoldable pub attach_mode_from : ℕ → AttachMode
attach_mode_from value = if value == 2 then read_only else read_write

-- `sanitize_modes_if_idle` on every pane, with the cleanup of those that were healed.
unfoldable pub heal_panes :
    {e : Engine} → (ℕ → Option Bool) → Dict (Pane e) → Dict (Pane e) × List (Uuid × Bytes)
unfolding sanitize_modes_if_idle
heal_panes idle [] = ([], [])
heal_panes idle ((id, p) ∷ d) =
    let (p', cleanup) = sanitize_modes_if_idle idle p in
    let (d', healed) = heal_panes idle d in
    ((id, p') ∷ d', elim cleanup [ none ↦ healed | some bytes ↦ (p'.id, bytes) ∷ healed ])

-- `seized`: the previous writer and the new revision.
abbrev pub seized : Option Uuid → Result AttachOutcome AttachError → Option (Uuid × ℕ)
seized (some previous) (ok (attached role revision)) = some (previous, revision)
seized (some previous) (ok (blocked role revision)) = none
seized (some previous) (err e) = none
seized none outcome = none

module _ {h : Host} where
  -- The deltas that tell the clients already attached of the cleanups.
  unfoldable pub broadcast_cleanups :
      Uuid → List Uuid → Uuid → List (Uuid × Bytes) → Action h ProtocolError (Unit {0})
  unfolding build_push_envelope uuid_to_bytes
  broadcast_cleanups runtime_id others client_id [] = pure tt
  broadcast_cleanups runtime_id others client_id ((pane_id, cleanup) ∷ healed) = do
    broadcast others (some client_id) (
        build_push_envelope (
          output_delta (uuid_to_bytes h.uuids runtime_id) (uuid_to_bytes h.uuids pane_id) cleanup
            0))
    broadcast_cleanups runtime_id others client_id healed

  -- The push that announces a new automatic name, if there is one.
  unfoldable pub broadcast_auto_name :
      Uuid → List Uuid → Uuid → ℕ → Option Text → Action h ProtocolError (Unit {0})
  unfolding build_push_envelope uuid_to_bytes
  broadcast_auto_name runtime_id others client_id revision none = pure tt
  broadcast_auto_name runtime_id others client_id revision (some name) =
      broadcast others (some client_id) (
        build_push_envelope
          (workspace_renamed (uuid_to_bytes h.uuids runtime_id) name revision false))

  -- The arm of `Attached`, on the workspace that the attach left.
  unfoldable pub answer_attached : Uuid → Uuid → ClientRole → Workspace h.engine → Request h
  unfolding heal_panes refresh_auto_name build_v3_workspace_snapshot role_number put_workspace
      broadcast_auto_name broadcast_cleanups
  answer_attached client_id runtime_id role w = do
    idle ← asks (λ x. x.idle_shell)
    proc ← asks (λ x. x.proc_cwd)
    let healed = heal_panes idle w.panes
    let w1 : Workspace h.engine = record w { panes = healed.0 }
    let named = refresh_auto_name proc w1
    let built =
        build_v3_workspace_snapshot h.uuids proc named.0 runtime_id (role_number (some role))
    put_workspace runtime_id built.0
    broadcast_auto_name runtime_id (keys w.attached_clients) client_id named.0.revision named.1
    broadcast_cleanups runtime_id (keys w.attached_clients) client_id healed.1
    pure (snapshot built.1)

  unfoldable pub answer_attach :
      Uuid → Uuid → Workspace h.engine → Result AttachOutcome AttachError → Request h
  unfolding refusal answer_attached u32_of attached_client_count read_only_client_count role_number
      uuid_to_bytes
  answer_attach client_id runtime_id w (err takeover_not_eligible) =
      raise
        (refusal takeover_required (text "use TakeoverWorkspace command") (text "AttachWorkspace"))
  answer_attach client_id runtime_id w (ok (attached role revision)) =
      answer_attached client_id runtime_id role w
  answer_attach client_id runtime_id w (ok (blocked current_role revision)) = pure (
      attach_blocked (uuid_to_bytes h.uuids runtime_id) (role_number current_role)
        (u32_of (attached_client_count w)) (u32_of (read_only_client_count w)))

  unfoldable pub handle_v3_attach : Uuid → Bytes → ℕ → Request h
  unfolding decode_request find_workspace attach_mode_from attach_client put_workspace answer_attach
  handle_v3_attach client_id id mode = do
    runtime_id ← decode_request (text "AttachWorkspace") id
    w ← find_workspace runtime_id (no_workspace (text "AttachWorkspace"))
    now ← asks (λ x. x.now)
    let r = attach_client w client_id (attach_mode_from mode) now
    put_workspace runtime_id r.0
    answer_attach client_id runtime_id r.0 r.1

  unfoldable pub answer_takeover : Uuid → Uuid → Option (Uuid × ℕ) → Request h
  unfolding refusal build_push_envelope uuid_to_bytes
  answer_takeover client_id runtime_id none = raise (
      refusal ownership_conflict (text "workspace cannot be taken over") (text "TakeoverWorkspace"))
  answer_takeover client_id runtime_id (some (previous_writer, revision)) = do
    broadcast (previous_writer ∷ []) none (
        build_push_envelope (
          lease_lost (uuid_to_bytes h.uuids runtime_id) revision (uuid_to_bytes h.uuids client_id)))
    pure (takeover_completed (uuid_to_bytes h.uuids runtime_id) revision)

  unfoldable pub handle_takeover_workspace : Uuid → List ℕ → Bytes → Request h
  unfolding refusal decode_request find_workspace writer_client_id attach_client put_workspace
      answer_takeover
  handle_takeover_workspace client_id effective_caps id = do
    raise_unless (contains effective_caps opt_workspace_takeover) (
        refusal unsupported_capability (text "OPT_RUNTIME_TAKEOVER not negotiated")
          (text "TakeoverWorkspace"))
    runtime_id ← decode_request (text "TakeoverWorkspace") id
    w ← find_workspace runtime_id (no_workspace (text "TakeoverWorkspace"))
    now ← asks (λ x. x.now)
    let r = attach_client w client_id take_over now
    put_workspace runtime_id r.0
    answer_takeover client_id runtime_id (seized (writer_client_id w) r.1)
