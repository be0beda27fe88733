-- ===== src/Workspace/Lease/Outcomes.antt =====
-- services/rttx-server/src/workspace.rs: what an attach and a detach answer, and the roles and the
-- revision that they leave.
use rttx.Common.{
  ℕ, ◌≡◌, refl, ap, ◌≢◌, ◌⊎◌, ◌↔◌, inl, inr, arith, Uuid, ◌==◌, true, false, not, ◌&&◌, Option,
  none, some, [], if◌then◌else◌, Bool-cases, Result, ok, err, IsDistinct, is_some,
}
use rttx.Common.Dict.{Dict, get, insert, keys, get-insert, get-remove, insert_same}
use rttx.Pane.{Engine}
use rttx.Workspace.{
  Workspace, WorkspacePolicy, ephemeral, ClientRole, writer, reader, AttachMode, read_write,
  read_only, take_over, DetachReason, explicit_request, AttachOutcome, attached, blocked,
  AttachError, takeover_not_eligible, not_attached, terminated, ephemeral_last_detach,
  saturating_suc,
}
use rttx.Workspace.Lease.{
  is_role, is_persistent, is_other, find_writer, client_role, writer_client_id,
  takeover_eligible_for, seize, set_role, attach_mode, attach_client, detach_client,
}
use rttx.Workspace.Lease.Laws.{IsLease, find_writer_sound, set_role-clients}

-- The role of client `b` after client `c` attached, by the mode, the policy and the lease owner.
abbrev pub role_after :
    AttachMode → WorkspacePolicy → Option Uuid → Uuid → Uuid → Option ClientRole → Option ClientRole
role_after read_only policy owner c b old = if c == b then some reader else old
role_after read_write policy owner c b old =
    if is_other owner c then old else (if c == b then some writer else old)
role_after take_over policy owner c b old =
    if is_persistent policy && is_other owner c
    then (if c == b then some writer else (if not (is_other owner b) then some reader else old))
    else old

get-seize :
    (d : Dict ClientRole) (o : Option Uuid) (c b : Uuid)
    → is_other o c ≡ true
    → get (seize d o c) b
      ≡ (if c == b then some writer else (if not (is_other o b) then some reader else get d b))
unfolding seize
get-seize d none c b h = cc
get-seize d (some p) c b h =
    ground (arith, get-insert (insert d p reader) c b writer, get-insert d p b reader)

seize_changes :
    (d : Dict ClientRole) (o : Option Uuid) (c : Uuid)
    → IsDistinct (keys d)
    → find_writer d ≡ o
    → is_other o c ≡ true
    → seize d o c ≢ d
seize_changes d none c v f h p = cc
seize_changes d (some q) c v f h p =
    ground (arith, ap (λ m. get m q) p, get-seize d (some q) c q h, find_writer_sound d q v f)

is_role-eq : (o : Option ClientRole) (r : ClientRole) → is_role o r ≡ true → o ≡ some r
is_role-eq none r h = cc
is_role-eq (some writer) writer h = refl
is_role-eq (some writer) reader h = cc
is_role-eq (some reader) writer h = cc
is_role-eq (some reader) reader h = refl

is_role-some : (r : ClientRole) → is_role (some r) r ≡ true
is_role-some writer = refl
is_role-some reader = refl

module _ {e : Engine} where
  get-set_role :
      (w : Workspace e) (c b : Uuid) (role : ClientRole)
      → get (set_role w c role).attached_clients b
        ≡ (if c == b then some role else get w.attached_clients b)
  get-set_role w c b role = rw (set_role-clients w c role) (get-insert w.attached_clients c b role)

  -- The role of every client after an attach: read-only makes the client a reader; read-write makes
  -- it the writer unless another client is; a takeover of a persistent workspace from another writer
  -- makes it the writer and the former writer a reader. Nobody else's role changes.
  pub get-attach_client :
      (w : Workspace e) (c b : Uuid) (mode : AttachMode) (now : ℕ)
      → get (attach_client w c mode now).0.attached_clients b
        ≡ role_after mode w.policy (writer_client_id w) c b (get w.attached_clients b)
  unfolding attach_client attach_mode
  get-attach_client w c b read_only now =
      get-set_role (record w { last_active_at = now }) c b reader
  get-attach_client w c b read_write now =
      ground (arith, get-set_role (record w { last_active_at = now }) c b writer)
  get-attach_client w c b take_over now =
      ground (arith, get-seize w.attached_clients (find_writer w.attached_clients) c b)

  -- What the answer to an attach says of the workspace before and after.
  abbrev pub Answers :
      Workspace e → Uuid → AttachMode → Workspace e → Result AttachOutcome AttachError → Type 0
  Answers w c mode w' (ok (attached role revision)) =
      (client_role w' c ≡ some role) × (revision ≡ w'.revision)
  Answers w c mode w' (ok (blocked role revision)) =
      (mode ≡ read_write)
      × (w'.attached_clients ≡ w.attached_clients)
      × (role ≡ client_role w c)
      × (revision ≡ w.revision)
      × (w'.revision ≡ w.revision)
      × (is_other (writer_client_id w) c ≡ true)
  Answers w c mode w' (err takeover_not_eligible) =
      (mode ≡ take_over)
      × (w'.attached_clients ≡ w.attached_clients)
      × (w'.revision ≡ w.revision)
      × (takeover_eligible_for w c ≡ false)

  attach_mode-Answers :
      (w : Workspace e) (c : Uuid) (mode : AttachMode)
      → let r = attach_mode w c mode in Answers w c mode r.0 r.1
  unfolding attach_mode client_role
  attach_mode-Answers w c read_only = (rw (get-set_role w c c reader) (ground arith), refl)
  attach_mode-Answers w c read_write =
      elim (Bool-cases (is_other (find_writer w.attached_clients) c)) [
        | inl other ↦ rw other (refl, refl, refl, refl, refl, other)
        | inr free ↦ rw free (rw (get-set_role w c c writer) (ground arith), refl)
      ]
  attach_mode-Answers w c take_over = elim (Bool-cases (takeover_eligible_for w c)) [
    | inr stays ↦ rw stays (refl, refl, refl, stays)
    | inl seizes ↦
        rw seizes
          (ground (arith, get-seize w.attached_clients (find_writer w.attached_clients) c c), refl)
  ]

  -- An attach answers the role that the client then has, or refuses: a read-write attach is blocked
  -- only where another client is the writer, and a takeover fails only where the client is not
  -- eligible. A refusal changes no role and no revision, and each answer has the revision at its end.
  pub attach_client-Answers :
      (w : Workspace e) (c : Uuid) (mode : AttachMode) (now : ℕ)
      → let r = attach_client w c mode now in Answers w c mode r.0 r.1
  unfolding attach_client
  attach_client-Answers w c mode now =
      attach_mode-Answers (record w { last_active_at = now }) c mode

  abbrev pub Bumps : Workspace e → Workspace e → Type 0
  Bumps w w' =
      ((w'.attached_clients ≡ w.attached_clients) × (w'.revision ≡ w.revision))
      ⊎ ((w'.attached_clients ≢ w.attached_clients) × (w'.revision ≡ saturating_suc w.revision))

  set_role-Bumps : (w : Workspace e) (c : Uuid) (role : ClientRole) → Bumps w (set_role w c role)
  unfolding set_role
  set_role-Bumps w c role = elim (Bool-cases (is_role (get w.attached_clients c) role)) [
    | inl same ↦ rw same (
        inl (
          insert_same w.attached_clients c role (is_role-eq (get w.attached_clients c) role same),
          refl,
        ))
    | inr other ↦ rw other (inr (λ p. changed p other, refl))
  ]
    where
      changed :
          insert w.attached_clients c role ≡ w.attached_clients
          → is_role (get w.attached_clients c) role ≡ false
          → ⊥
      changed p h =
          ground
            (arith, ap (λ d. get d c) p, get-insert w.attached_clients c c role, is_role-some role)

  attach_mode-Bumps :
      (w : Workspace e) (c : Uuid) (mode : AttachMode)
      → IsDistinct (keys w.attached_clients)
      → Bumps w (attach_mode w c mode).0
  unfolding attach_mode
  attach_mode-Bumps w c read_only v = set_role-Bumps w c reader
  attach_mode-Bumps w c read_write v =
      elim (Bool-cases (is_other (find_writer w.attached_clients) c)) [
        | inl other ↦ rw other (inl (refl, refl))
        | inr free ↦ rw free (set_role-Bumps w c writer)
      ]
  attach_mode-Bumps w c take_over v = elim (Bool-cases (takeover_eligible_for w c)) [
    | inr stays ↦ rw stays (inl (refl, refl))
    | inl seizes ↦ rw seizes (
        inr (
          seize_changes w.attached_clients (find_writer w.attached_clients) c v refl (ground arith),
          refl,
        ))
  ]

  -- An attach bumps the revision exactly where it changes some client's role.
  pub attach_client-Bumps :
      (w : Workspace e) (c : Uuid) (mode : AttachMode) (now : ℕ)
      → IsLease w.attached_clients
      → Bumps w (attach_client w c mode now).0
  unfolding attach_client
  attach_client-Bumps w c mode now v =
      attach_mode-Bumps (record w { last_active_at = now }) c mode v.distinct

  -- A detach removes the client and nobody else. It answers that the client was not attached, and
  -- changes nothing, where it was not; else it bumps the revision.
  pub detach_client-Detaches :
      (w : Workspace e) (c b : Uuid) (reason : DetachReason)
      → IsLease w.attached_clients
      → let r = detach_client w c reason in
        (get r.0.attached_clients b ≡ (if c == b then none else get w.attached_clients b))
        × (r ≡ (if is_some (get w.attached_clients c) then r else (w, not_attached w.revision)))
        × (r.0.revision ≡ (
            if is_some (get w.attached_clients c) then saturating_suc w.revision else w.revision))
  unfolding detach_client
  detach_client-Detaches w c b reason v =
      (ground (arith, get-remove w.attached_clients c b v.distinct), ground arith, ground arith)

  -- A detach ends the workspace exactly where an attached client asked for it, the workspace is
  -- ephemeral and no client is left; it answers the revision that it leaves.
  pub detach_client-ends :
      (w : Workspace e) (c : Uuid) (reason : DetachReason) (revision : ℕ)
      → ((detach_client w c reason).1 ≡ terminated revision ephemeral_last_detach) ↔ (
          (is_some (get w.attached_clients c) ≡ true)
          × (reason ≡ explicit_request)
          × (w.policy ≡ ephemeral)
          × ((detach_client w c reason).0.attached_clients ≡ [])
          × (revision ≡ (detach_client w c reason).0.revision))
  unfolding detach_client
  detach_client-ends w c reason revision = (λ h. ground arith, λ h. ground arith)
