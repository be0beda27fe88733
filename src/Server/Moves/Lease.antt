-- ===== src/Server/Moves/Lease.antt =====
-- services/rttx-server/src/server.rs: attaching and taking over move as the relation allows.
use rttx.Common.{
  ℕ, ◌≡◌, refl, sym, ◌∙◌, arith, Uuid, Bool, true, false, Option, none, some, List, contains,
  Result, ok, err,
}
use rttx.Common.Dict.{get, insert, keys, get-insert_same, insert_twice}
use rttx.Workspace.{
  Workspace, ClientRole, take_over, AttachOutcome, attached, blocked, AttachError,
  takeover_not_eligible,
}
use rttx.Workspace.Lease.{attach_client, writer_client_id}
use rttx.Workspace.Naming.{refresh_auto_name}
use rttx.Workspace.Run.{step}
use rttx.Wire.Messages.{Bytes}
use rttx.Server.{Host, Server, World}
use rttx.Server.Channels.{opt_workspace_takeover}
use rttx.Server.Inventory.{build_v3_workspace_snapshot, role_number}
use rttx.Server.Handlers.{decode_request}
use rttx.Server.Handlers.Lease.{
  attach_mode_from, heal_panes, answer_attached, answer_attach, handle_v3_attach, seized,
  answer_takeover, handle_takeover_workspace,
}
use rttx.Server.Moves.{Moves, follows, joins, redraws, renews, is_take_over}
use rttx.Server.Moves.Steps.{
  after-decode, after-unless, after-find_workspace, after-asks, after-put_workspace,
}
use rttx.Server.Moves.Drawing.{
  Untouched-refl, moves_then, stays, after-quiet, after-broadcast, broadcast_auto_name-Untouched,
  broadcast_cleanups-Untouched, healed-Redraws, snapshot-Redraws,
}
use rttx.Server.Moves.Lifecycle.{put_Sets}

attach_mode_from-is_take_over : (mode : ℕ) → is_take_over (attach_mode_from mode) ≡ false
unfolding attach_mode_from
attach_mode_from-is_take_over mode = ground arith

module _ {h : Host} (c : Uuid) (x : World) where
  answer_attached-Moves :
      (seizing : Bool) (s : Server h) (id : Uuid) (role : ClientRole) (w : Workspace h.engine)
      → get s.workspaces id ≡ some w
      → Moves x (some c) seizing s (answer_attached c id role w x s).0
  unfolding answer_attached step
  answer_attached-Moves seizing s id role w found =
      let P = Moves x (some c) seizing s in
      let w1 : Workspace h.engine = record w { panes = (heal_panes x.idle_shell w.panes).0 } in
      let named = refresh_auto_name x.proc_cwd w1 in
      let built =
        build_v3_workspace_snapshot h.uuids x.proc_cwd named.0 id (role_number (some role)) in
      let healed : Server h = record s { workspaces = insert s.workspaces id w1 } in
      let renewed : Server h = record s { workspaces = insert healed.workspaces id named.0 } in
      let shown : Server h = record s { workspaces = insert s.workspaces id built.0 } in
      let drawn : Moves x (some c) seizing s shown =
        follows
          (follows
            (redraws id w w1 found (healed-Redraws x.idle_shell w) (put_Sets healed.workspaces s))
            (renews {s' = renewed} id w1 (get-insert_same s.workspaces id w1)
              (record { workspaces = refl; writers = refl; kills = refl })))
          (redraws id named.0 built.0 (get-insert_same healed.workspaces id named.0)
            (snapshot-Redraws h.uuids x.proc_cwd named.0 id (role_number (some role)))
            (record {
              workspaces = sym (
                  insert_twice healed.workspaces id named.0 built.0
                  ∙ insert_twice s.workspaces id w1 built.0);
              writers = refl;
              kills = refl;
            })) in
      after-asks P x s (λ x. x.idle_shell) _
        (after-asks P x s (λ x. x.proc_cwd) _
          (after-put_workspace P x s id built.0 _ (
            after-quiet P x _ _ _
              (broadcast_auto_name-Untouched x id c named.0.revision (keys w.attached_clients)
                named.1 _)
              (λ t u. moves_then drawn u)
              (λ _ t u.
                after-quiet P x t _ _
                  (broadcast_cleanups-Untouched x id c (keys w.attached_clients)
                    (heal_panes x.idle_shell w.panes).1 t)
                  (λ t' u'. moves_then (moves_then drawn u) u')
                  (λ _ t' u'. moves_then (moves_then drawn u) u')))))

  answer_attach-Moves :
      (seizing : Bool) (s : Server h) (id : Uuid) (w : Workspace h.engine)
      (r : Result AttachOutcome AttachError)
      → get s.workspaces id ≡ some w
      → Moves x (some c) seizing s (answer_attach c id w r x s).0
  unfolding answer_attach
  answer_attach-Moves seizing s id w (err takeover_not_eligible) found = stays s
  answer_attach-Moves seizing s id w (ok (attached role revision)) found =
      answer_attached-Moves seizing s id role w found
  answer_attach-Moves seizing s id w (ok (blocked role revision)) found = stays s

  pub handle_v3_attach-Moves :
      (seizing : Bool) (s : Server h) (id : Bytes) (mode : ℕ)
      → Moves x (some c) seizing s (handle_v3_attach c id mode x s).0
  unfolding handle_v3_attach decode_request step
  handle_v3_attach-Moves seizing s id mode =
      let P = Moves x (some c) seizing s in
      after-decode P x s id _ _ (stays s) λ runtime_id.
        after-find_workspace P x s runtime_id _ _ (stays s) λ w found.
          let r = attach_client w c (attach_mode_from mode) x.now in
          after-asks P x s (λ x. x.now) _
            (after-put_workspace P x s runtime_id r.0 _ (
              follows
                (joins runtime_id w c (attach_mode_from mode) x.now found refl
                  (ground (arith, attach_mode_from-is_take_over mode))
                  (put_Sets (insert s.workspaces runtime_id r.0) s))
                (answer_attach-Moves seizing _ runtime_id r.0 r.1
                  (get-insert_same s.workspaces runtime_id r.0))))

  answer_takeover-Untouched :
      (s t : Server h) (id : Uuid) (o : Option (Uuid × ℕ))
      → Moves x (some c) true s t
      → Moves x (some c) true s (answer_takeover c id o x t).0
  unfolding answer_takeover
  answer_takeover-Untouched s t id none m = m
  answer_takeover-Untouched s t id (some (previous, revision)) m =
      after-broadcast x s t _ _ _ _ m λ u q. Untouched-refl u

  pub handle_takeover_workspace-Moves :
      (s : Server h) (caps : List ℕ) (id : Bytes)
      → Moves x (some c) true s (handle_takeover_workspace c caps id x s).0
  unfolding handle_takeover_workspace decode_request step
  handle_takeover_workspace-Moves s caps id =
      let P = Moves x (some c) true s in
      after-unless P x s (contains caps opt_workspace_takeover) _ _ (stays s) λ supported.
        after-decode P x s id _ _ (stays s) λ runtime_id.
          after-find_workspace P x s runtime_id _ _ (stays s) λ w found.
            let r = attach_client w c take_over x.now in
            after-asks P x s (λ x. x.now) _
              (after-put_workspace P x s runtime_id r.0 _ (
                answer_takeover-Untouched s _ runtime_id (seized (writer_client_id w) r.1) (
                  joins runtime_id w c take_over x.now found refl refl
                    (put_Sets (insert s.workspaces runtime_id r.0) s))))
