-- ===== src/Server/Handlers.antt =====
-- services/rttx-server/src/server.rs: what the message handlers share.
pub mod Lifecycle
pub mod Lease
pub mod Panes
pub mod Viewport
use rttx.Common.{
  ℕ, Uuid, Bool, true, false, not, Option, none, some, List, [], ◌∷◌, if◌then◌else◌, Result,
}
use rttx.Common.Dict.{get}
use rttx.Common.Text.{Text, text}
use rttx.Workspace.{Workspace}
use rttx.Workspace.Lease.{client_has_write_access}
use rttx.Wire.Uuids.{FrameError}
use rttx.Wire.Errors.{
  ErrorKind, Message, literal, frame, ProtocolError, build_error, invalid_argument,
  workspace_not_found, pane_not_found, ownership_conflict, unsupported_capability,
}
use rttx.Wire.Messages.{Bytes, Payload, ServerEnvelope}
use rttx.Server.{Host, Server, Action, decode, find_workspace, raise_unless, ◌>>=◌, ◌>>◌, pure}
use rttx.Server.Channels.{broadcast_to_clients}

-- The handler of a request, and of a message that nobody answers.
abbrev pub Request : Host → Type 0
Request h = Action h ProtocolError Payload

abbrev pub Silent : Host → Type 0
Silent h = Action h (Unit {0}) (Unit {0})

unfoldable pub refusal : ErrorKind → Text → Text → ProtocolError
unfolding build_error
refusal kind message operation = build_error kind (literal message) operation

unfoldable pub malformed : Text → FrameError → ProtocolError
unfolding build_error
malformed operation e = build_error invalid_argument (frame e) operation

abbrev pub owned_by_another : Text → ProtocolError
owned_by_another operation =
    refusal ownership_conflict (text "workspace is currently owned by another client") operation

abbrev pub no_workspace : Text → ProtocolError
no_workspace operation = refusal workspace_not_found (text "workspace not found") operation

abbrev pub no_pane : Text → ProtocolError
no_pane operation = refusal pane_not_found (text "pane not found") operation

module _ {h : Host} where
  unfoldable pub broadcast :
      List Uuid → Option Uuid → ServerEnvelope → Action h ProtocolError (Unit {0})
  unfolding broadcast_to_clients
  broadcast client_ids exclude msg x s =
      (broadcast_to_clients x client_ids exclude msg s, Result.ok tt)

  -- The workspace that a request names, if the client may write to it.
  unfoldable pub writable_workspace :
      Text → Uuid → Uuid → Action h ProtocolError (Workspace h.engine)
  unfolding find_workspace client_has_write_access
  writable_workspace operation client_id runtime_id = do
    w ← find_workspace runtime_id (no_workspace operation)
    raise_unless (client_has_write_access w client_id) (owned_by_another operation)
    pure w

  -- The same for a message that is dropped in silence.
  unfoldable pub writable_or_drop : Uuid → Uuid → Action h (Unit {0}) (Workspace h.engine)
  unfolding find_workspace client_has_write_access
  writable_or_drop client_id runtime_id = do
    w ← find_workspace runtime_id tt
    raise_unless (client_has_write_access w client_id) tt
    pure w

  unfoldable pub decode_request : Text → Bytes → Action h ProtocolError Uuid
  unfolding decode malformed
  decode_request operation bytes = decode bytes (malformed operation)

  -- The later handlers name the id that they refuse.
  unfoldable pub decode_named : Text → Text → Bytes → Action h ProtocolError Uuid
  unfolding decode refusal
  decode_named operation message bytes =
      decode bytes (λ e. refusal invalid_argument message operation)

  unfoldable pub decode_or_drop : Bytes → Action h (Unit {0}) Uuid
  unfolding decode
  decode_or_drop bytes = decode bytes (λ e. tt)
