-- ===== src/Workspace/Lease.antt =====
-- services/rttx-server/src/workspace.rs: who is attached to a workspace, in which role, and how a
-- client gains and loses the write lease.
pub mod Laws
pub mod Outcomes
use rttx.Common.{
  ℕ, ◌+◌, Uuid, ◌==◌, Bool, true, false, not, ◌&&◌, Option, none, some, List, [], ◌∷◌,
  if◌then◌else◌, is_some, length, Result, ok, err,
}
use rttx.Common.Dict.{Dict, get, insert, remove}
use rttx.Pane.{Engine}
use rttx.Workspace.{
  Workspace, WorkspacePolicy, persistent, ephemeral, ClientRole, writer, reader, AttachMode,
  read_write, read_only, take_over, DetachReason, explicit_request, disconnect, AttachOutcome,
  attached, blocked, AttachError, takeover_not_eligible, DetachOutcome, detached, not_attached,
  terminated, ephemeral_last_detach, bump_revision,
}

abbrev pub is_writer : ClientRole → Bool
is_writer writer = true
is_writer reader = false

-- `role != Some(r)`
abbrev pub is_role : Option ClientRole → ClientRole → Bool
is_role none r = false
is_role (some writer) writer = true
is_role (some writer) reader = false
is_role (some reader) writer = false
is_role (some reader) reader = true

abbrev pub is_persistent : WorkspacePolicy → Bool
is_persistent persistent = true
is_persistent ephemeral = false

abbrev pub is_explicit : DetachReason → Bool
is_explicit explicit_request = true
is_explicit disconnect = false

-- The first writer in the order of iteration.
unfoldable pub find_writer : Dict ClientRole → Option Uuid
find_writer [] = none
find_writer ((c, role) ∷ d) = let rest = find_writer d in if is_writer role then some c else rest

unfoldable pub count_readers : Dict ClientRole → ℕ
count_readers [] = 0
count_readers ((c, role) ∷ d) = (if is_writer role then 0 else 1) + count_readers d

-- `writer.is_some_and(|w| w != client_id)`
abbrev pub is_other : Option Uuid → Uuid → Bool
is_other none c = false
is_other (some w) c = not (w == c)

-- The clients when `client_id` seizes the lease from the writer, if there is one.
unfoldable pub seize : Dict ClientRole → Option Uuid → Uuid → Dict ClientRole
seize d none client_id = insert d client_id writer
seize d (some previous_writer) client_id = insert (insert d previous_writer reader) client_id writer

module _ {e : Engine} where
  unfoldable pub client_role : Workspace e → Uuid → Option ClientRole
  client_role w client_id = get w.attached_clients client_id

  unfoldable pub writer_client_id : Workspace e → Option Uuid
  writer_client_id w = find_writer w.attached_clients

  unfoldable pub has_write_owner : Workspace e → Bool
  unfolding writer_client_id
  has_write_owner w = is_some (writer_client_id w)

  unfoldable pub read_only_client_count : Workspace e → ℕ
  read_only_client_count w = count_readers w.attached_clients

  unfoldable pub attached_client_count : Workspace e → ℕ
  attached_client_count w = length w.attached_clients

  unfoldable pub has_attached_clients : Workspace e → Bool
  has_attached_clients w = elim w.attached_clients [ [] ↦ false | _ ↦ true ]

  unfoldable pub takeover_eligible_for : Workspace e → Uuid → Bool
  unfolding writer_client_id
  takeover_eligible_for w client_id =
      is_persistent w.policy && is_other (writer_client_id w) client_id

  unfoldable pub client_has_write_access : Workspace e → Uuid → Bool
  unfolding client_role writer_client_id
  client_has_write_access w client_id = elim (client_role w client_id) [
    | some writer ↦ true
    | some reader ↦ false
    | none ↦ not (is_some (writer_client_id w))
  ]

  -- `self.attached_clients.insert(client_id, role)`, with a new revision if the role changed.
  unfoldable pub set_role : Workspace e → Uuid → ClientRole → Workspace e
  unfolding bump_revision
  set_role w client_id role =
      let w' : Workspace e = record w {
        attached_clients = insert w.attached_clients client_id role;
      } in
      if is_role (get w.attached_clients client_id) role then w' else bump_revision w'

  -- The three arms of the match on the mode, `w` already stamped with the time of the call.
  unfoldable pub attach_mode :
      Workspace e → Uuid → AttachMode → Workspace e × Result AttachOutcome AttachError
  unfolding set_role writer_client_id client_role takeover_eligible_for seize bump_revision
  attach_mode w client_id read_only =
      let w' = set_role w client_id reader in (w', ok (attached reader w'.revision))
  attach_mode w client_id read_write =
      if is_other (writer_client_id w) client_id
      then (w, ok (blocked (client_role w client_id) w.revision))
      else (let w' = set_role w client_id writer in (w', ok (attached writer w'.revision)))
  attach_mode w client_id take_over =
      if not (takeover_eligible_for w client_id)
      then (w, err takeover_not_eligible)
      else (let w' = bump_revision (record w {
        attached_clients = seize w.attached_clients (writer_client_id w) client_id;
      }) in
          (w', ok (attached writer w'.revision)))

  unfoldable pub attach_client :
      Workspace e → Uuid → AttachMode → ℕ → Workspace e × Result AttachOutcome AttachError
  unfolding attach_mode
  attach_client w client_id mode now =
      attach_mode (record w { last_active_at = now }) client_id mode

  -- What `detach_client` does once the client is removed and the revision bumped.
  unfoldable pub detach_rest : Workspace e → DetachReason → DetachOutcome
  unfolding has_attached_clients
  detach_rest w reason =
      if is_explicit reason && (not (is_persistent w.policy) && not (has_attached_clients w))
      then terminated w.revision ephemeral_last_detach
      else detached w.revision

  unfoldable pub detach_client : Workspace e → Uuid → DetachReason → Workspace e × DetachOutcome
  unfolding detach_rest bump_revision
  detach_client w client_id reason =
      if is_some (get w.attached_clients client_id)
      then (let w' =
            bump_revision (record w { attached_clients = remove w.attached_clients client_id }) in
          (w', detach_rest w' reason))
      else (w, not_attached w.revision)
