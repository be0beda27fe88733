-- ===== src/Wire/Errors.antt =====
-- protocols/rttx-proto/src/v3_error.rs: the typed errors of protocol v3.
use rttx.Common.{ℕ, Bool, true, false}
use rttx.Common.Text.{Text}
use rttx.Wire.Uuids.{FrameError}

pub data ErrorKind : Type 0 where
  unspecified protocol_mismatch unsupported_capability invalid_argument : ErrorKind
  workspace_not_found pane_not_found ownership_conflict takeover_required : ErrorKind
  stream_overflow internal : ErrorKind

pub data ErrorClassification : Type 0 where
  incompatible_version resource_not_found owned stream_lost : ErrorClassification
  transient_error invalid_request unknown : ErrorClassification

-- The text of an error, by what it is made from: a literal, the `to_string` of a frame error, or the
-- message of a failed spawn.
pub data Message : Type 0 where
  literal : Text → Message
  frame : FrameError → Message
  spawn_failure : Text → Message

pub record ProtocolError : Type 0 where
  pub kind : ErrorKind
  pub message : Message
  pub operation : Text
  pub retryable : Bool
  pub user_action_required : Bool
  pub retry_after_seconds : ℕ

unfoldable pub classify_error_kind : ErrorKind → ErrorClassification
classify_error_kind protocol_mismatch = incompatible_version
classify_error_kind unsupported_capability = incompatible_version
classify_error_kind workspace_not_found = resource_not_found
classify_error_kind pane_not_found = resource_not_found
classify_error_kind ownership_conflict = owned
classify_error_kind takeover_required = owned
classify_error_kind stream_overflow = stream_lost
classify_error_kind internal = transient_error
classify_error_kind invalid_argument = invalid_request
classify_error_kind unspecified = unknown

unfoldable pub is_default_retryable : ErrorKind → Bool
is_default_retryable stream_overflow = true
is_default_retryable internal = true
is_default_retryable _ = false

unfoldable pub is_default_user_action_required : ErrorKind → Bool
is_default_user_action_required protocol_mismatch = true
is_default_user_action_required unsupported_capability = true
is_default_user_action_required ownership_conflict = true
is_default_user_action_required takeover_required = true
is_default_user_action_required _ = false

unfoldable pub build_error : ErrorKind → Message → Text → ProtocolError
unfolding is_default_retryable is_default_user_action_required
build_error kind message operation = record {
  kind = kind;
  message = message;
  operation = operation;
  retryable = is_default_retryable kind;
  user_action_required = is_default_user_action_required kind;
  retry_after_seconds = 0;
}
