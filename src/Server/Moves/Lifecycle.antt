-- ===== src/Server/Moves/Lifecycle.antt =====
-- services/rttx-server/src/server.rs: the requests on whole workspaces move as the relation allows.
use rttx.Common.{
  ℕ, ◌≡◌, refl, ap, ◌∙◌, arith, inl, inr, Uuid, Bool, true, false, not, ◌&&◌, Option, none, some,
  List, [], ◌∷◌, Option-cases, Bool-cases, contains, is_some,
}
use rttx.Common.Dict.{Dict, get, insert, remove, keys, get-insert_same}
use rttx.Common.Text.{Text}
use rttx.Pane.{Engine}
use rttx.Workspace.{
  Workspace, ClientRole, writer, TerminationReason, DetachReason, DetachOutcome, detached,
  not_attached, terminated,
}
use rttx.Workspace.Lease.{
  client_role, has_write_owner, client_has_write_access, detach_client, find_writer, detach_rest,
  writer_client_id, has_attached_clients,
}
use rttx.Workspace.Lease.Laws.{find_writer_complete}
use rttx.Workspace.Run.{names, renames, step}
use rttx.Wire.Messages.{Bytes}
use rttx.Server.{Host, Server, World, put_workspace, ◌>>=◌}
use rttx.Server.Channels.{
  terminate_workspace, terminate_free, release_pty, release_ptys, opt_diagnostics, opt_resync,
  opt_chunked_scrollback,
}
use rttx.Server.Inventory.{role_number}
use rttx.Server.Handlers.{decode_request}
use rttx.Server.Handlers.Lifecycle.{
  handle_get_diagnostics, handle_create_workspace, end_workspace, answer_detach, handle_v3_detach,
  handle_v3_terminate, handle_rename_workspace, handle_resync_workspace, handle_get_scrollback,
  policy_from, renamed,
}
use rttx.Server.Moves.{
  Sets, Moves, follows, creates, edits, leaves, redraws, ends, reinserts, Ends, remove_all, Permits,
}
use rttx.Server.Moves.Steps.{
  after-decode, after-unless, after-or_raise, after-find_workspace, after-writable_workspace,
  after-asks, after-put_workspace,
}
use rttx.Server.Moves.Drawing.{
  Untouched-refl, broadcast_to_clients-Untouched, stays, after-broadcast, snapshot-Redraws,
}

-- The workspaces become `d`, and nothing else changes.
pub put_Sets :
    {h : Host} (d : List (ℕ × Workspace h.engine)) (s : Server h)
    → Sets d s (record s { workspaces = d })
put_Sets d s = record { workspaces = refl; writers = refl; kills = refl }

module _ {h : Host} where
  abbrev Releases : List Uuid → Server h → Server h → Type 0
  Releases ps s s' =
      (s'.workspaces ≡ s.workspaces)
      × (s'.pty_writers ≡ remove_all s.pty_writers ps)
      × (s'.pty_kill_senders ≡ remove_all s.pty_kill_senders ps)

  release_ptys-Releases : (ps : List Uuid) (s : Server h) → Releases ps s (release_ptys ps s)
  unfolding release_ptys release_pty remove_all
  release_ptys-Releases [] s = (refl, refl, refl)
  release_ptys-Releases (p ∷ ps) s = release_ptys-Releases ps (release_pty p s)

  pub terminate_free-Ends :
      (x : World) (id revision : ℕ) (reason : TerminationReason) (exclude : Option Uuid)
      (w : Workspace h.engine) (s : Server h)
      → Ends id w s (terminate_free x id revision reason exclude w s)
  unfolding terminate_free
  terminate_free-Ends x id revision reason exclude w s =
      let r =
        release_ptys-Releases (keys w.panes) (record s { workspaces = remove s.workspaces id }) in
      let u = broadcast_to_clients-Untouched x (keys w.attached_clients) exclude _ _ in
      record { workspaces = u.workspaces ∙ r.0; writers = u.writers ∙ r.1; kills = u.kills ∙ r.2 }

writer_found :
    (d : Dict ClientRole) (holder : Uuid)
    → get d holder ≡ some writer
    → is_some (find_writer d) ≡ true
writer_found d holder role = elim (Option-cases (find_writer d)) [
  | inl nobody ↦ absurd (find_writer_complete d nobody holder role)
  | inr (found, q) ↦ ap is_some q
]

module _ {h : Host} (c : Uuid) (seizing : Bool) (x : World) (s : Server h) where
  pub end_workspace-Moves :
      (id revision : ℕ) (reason : TerminationReason) (w : Workspace h.engine)
      → get s.workspaces id ≡ some w
      → ((holder : Uuid) → get w.attached_clients holder ≡ some writer → Permits (some c) w)
      → Moves x (some c) seizing s (end_workspace c id revision reason x s).0
  unfolding end_workspace terminate_workspace
  end_workspace-Moves id revision reason w found free = elim (Bool-cases (x.contended id)) [
    | inl busy ↦
        rw (found, terminate_workspace, busy)
          (reinserts id w found (put_Sets (insert (remove s.workspaces id) id w) s))
    | inr idle ↦
        rw (found, terminate_workspace, idle)
          (ends id w found free (terminate_free-Ends x id revision reason (some c) w s))
  ]

  pub handle_create_workspace-Moves :
      (name : Text) (policy : ℕ)
      → get s.workspaces x.new_v4 ≡ none
      → Moves x (some c) seizing s (handle_create_workspace name policy x s).0
  unfolding handle_create_workspace put_workspace ◌>>=◌
  handle_create_workspace-Moves name policy fresh =
      creates name (policy_from policy) fresh (put_Sets _ s)

  pub handle_get_diagnostics-Moves :
      (caps : List ℕ) → Moves x (some c) seizing s (handle_get_diagnostics caps x s).0
  unfolding handle_get_diagnostics
  handle_get_diagnostics-Moves caps =
      after-unless (Moves x (some c) seizing s) x s (contains caps opt_diagnostics) _ _ (stays s)
        (λ supported. after-asks (Moves x (some c) seizing s) x s (λ x. x.contended) _ (stays s))

  pub handle_v3_terminate-Moves :
      (id : Bytes) → Moves x (some c) seizing s (handle_v3_terminate c id x s).0
  unfolding handle_v3_terminate decode_request has_write_owner writer_client_id
  handle_v3_terminate-Moves id =
      let P = Moves x (some c) seizing s in
      after-decode P x s id _ _ (stays s) λ runtime_id.
        after-find_workspace P x s runtime_id _ _ (stays s) λ w found.
          after-unless P x s (not (has_write_owner w && not (client_has_write_access w c))) _ _
            (stays s)
            λ permitted.
              end_workspace-Moves runtime_id _ TerminationReason.explicit w found
                (λ holder role. ground (arith, permitted, writer_found w.attached_clients holder))

  pub handle_resync_workspace-Moves :
      (caps : List ℕ) (id : Bytes)
      → Moves x (some c) seizing s (handle_resync_workspace c caps id x s).0
  unfolding handle_resync_workspace decode_request
  handle_resync_workspace-Moves caps id =
      let P = Moves x (some c) seizing s in
      after-unless P x s (contains caps opt_resync) _ _ (stays s) λ supported.
        after-decode P x s id _ _ (stays s) λ runtime_id.
          after-find_workspace P x s runtime_id _ _ (stays s) λ w found.
            after-asks P x s (λ x. x.proc_cwd) _
              (after-put_workspace P x s runtime_id _ _ (
                redraws runtime_id w _ found
                  (snapshot-Redraws h.uuids x.proc_cwd w runtime_id (role_number (client_role w c)))
                  (put_Sets _ s)))

  pub handle_get_scrollback-Moves :
      (caps : List ℕ) (id pane : Bytes) (offset limit : ℕ)
      → Moves x (some c) seizing s (handle_get_scrollback caps id pane offset limit x s).0
  unfolding handle_get_scrollback decode_request
  handle_get_scrollback-Moves caps id pane offset limit =
      let P = Moves x (some c) seizing s in
      after-unless P x s (contains caps opt_chunked_scrollback) _ _ (stays s) λ supported.
        after-decode P x s id _ _ (stays s) λ runtime_id.
          after-decode P x s pane _ _ (stays s) λ pane_id.
            after-find_workspace P x s runtime_id _ _ (stays s) λ w found.
              after-or_raise P x s (get w.panes pane_id) _ _ (λ missing. stays s) λ p there. stays s

  renamed-Moves :
      (runtime_id : Uuid) (w : Workspace h.engine) (name : Text) (automatic : Bool)
      → get s.workspaces runtime_id ≡ some w
      → client_has_write_access w c ≡ true
      → Moves x
          (some c)
          seizing
          s
          (record s { workspaces = insert s.workspaces runtime_id (renamed w name automatic).0 })
  unfolding renamed step
  renamed-Moves runtime_id w name true found access =
      edits runtime_id w (names name) found access refl (put_Sets _ s)
  renamed-Moves runtime_id w name false found access =
      edits runtime_id w (renames name) found access refl (put_Sets _ s)

  pub handle_rename_workspace-Moves :
      (id : Bytes) (name : Text) (automatic : Bool)
      → Moves x (some c) seizing s (handle_rename_workspace c id name automatic x s).0
  unfolding handle_rename_workspace decode_request
  handle_rename_workspace-Moves id name automatic =
      let P = Moves x (some c) seizing s in
      after-decode P x s id _ _ (stays s) λ runtime_id.
        after-writable_workspace P x s _ c runtime_id _ (stays s) λ w found access.
          after-put_workspace P x s runtime_id _ _ (
            after-broadcast x s _ _ _ _ _ (renamed-Moves runtime_id w name automatic found access)
              (λ u q. Untouched-refl u))

-- A client that detaches last leaves no writer behind.
ends_alone :
    {e : Engine} (c : Uuid) (w : Workspace e) (revision : ℕ) (reason : TerminationReason)
    → (detach_client w c DetachReason.explicit_request).1 ≡ terminated revision reason
    → (holder : Uuid)
    → get (detach_client w c DetachReason.explicit_request).0.attached_clients holder ≡ some writer
    → Permits (some c) (detach_client w c DetachReason.explicit_request).0
unfolding detach_client detach_rest has_attached_clients get
ends_alone c w revision reason q holder role = ground (arith, q, role)

module _ {h : Host} (c : Uuid) (seizing : Bool) (x : World) where
  answer_detach-Moves :
      (s : Server h) (id : Uuid) (w : Workspace h.engine) (o : DetachOutcome)
      → get s.workspaces id ≡ some w
      → ((revision : ℕ) (reason : TerminationReason)
          → o ≡ terminated revision reason
          → (holder : Uuid) → get w.attached_clients holder ≡ some writer
          → Permits (some c) w)
      → Moves x (some c) seizing s (answer_detach c id o x s).0
  unfolding answer_detach
  answer_detach-Moves s id w (detached revision) found free = stays s
  answer_detach-Moves s id w (not_attached revision) found free = stays s
  answer_detach-Moves s id w (terminated revision reason) found free =
      end_workspace-Moves c seizing x s id revision reason w found (free revision reason refl)

  pub handle_v3_detach-Moves :
      (s : Server h) (id : Bytes) → Moves x (some c) seizing s (handle_v3_detach c id x s).0
  unfolding handle_v3_detach decode_request step
  handle_v3_detach-Moves s id =
      let P = Moves x (some c) seizing s in
      after-decode P x s id _ _ (stays s) λ runtime_id.
        after-find_workspace P x s runtime_id _ _ (stays s) λ w found.
          let r = detach_client w c DetachReason.explicit_request in
          after-put_workspace P x s runtime_id _ _ (
            follows (leaves runtime_id w c DetachReason.explicit_request found refl (put_Sets _ s))
              (answer_detach-Moves _ runtime_id r.0 r.1
                (get-insert_same s.workspaces runtime_id r.0) (ends_alone c w)))
