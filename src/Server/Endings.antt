-- ===== src/Server/Endings.antt =====
-- services/rttx-server/src/server.rs: what is left of a workspace that a client terminates, and what
-- reaches a pane's PTY.
use rttx.Common.{
  ℕ, ◌≡◌, refl, ap, ◌∙◌, arith, inl, inr, Uuid, Bool, true, false, not, ◌&&◌, Option, none, some,
  is_some, ◌++◌, ◌==◌, List, [], ◌∷◌, Option-cases, Bool-cases, contains, ok, if◌then◌else◌,
}
use rttx.Common.Dict.{get, keys, get-remove, get-insert}
use rttx.Common.Text.{is_empty}
use rttx.Pane.{Engine, Pane}
use rttx.Workspace.{Workspace, TerminationReason, saturating_suc}
use rttx.Workspace.Lease.{client_has_write_access, has_write_owner}
use rttx.Wire.Uuids.{uuid_to_bytes}
use rttx.Wire.Messages.{Bytes, workspace_terminated}
use rttx.Wire.Input.{InputKind, raw, paste, focus, TerminalModeState, resolve_input}
use rttx.Server.{Host, Server, World, PtyWriter}
use rttx.Server.Channels.{terminate_workspace, termination_number}
use rttx.Server.Handlers.Lifecycle.{handle_v3_terminate, end_workspace}
use rttx.Server.Handlers.Viewport.{handle_v3_terminal_input, write_pty}
use rttx.Server.Moves.{Ends}
use rttx.Server.Moves.Lifecycle.{terminate_free-Ends}
use rttx.Server.Invariant.{IsSound}
use rttx.Server.Invariant.Releases.{contains-keys-remove_all}
use rttx.Server.Succeeds.{
  or_raise_known, changes_unless, unless_holds, decode_known, workspace_known, decode_or_drop-known,
  writable_or_drop-known, or_raise_known, unless_fails, writable_or_drop-refused,
}

module _ {h : Host} (x : World) (c id : Uuid) (w : Workspace h.engine) (s : Server h) where
  terminate_result :
      get s.workspaces id ≡ some w
      → (has_write_owner w && not (client_has_write_access w c)) ≡ false
      → handle_v3_terminate c (uuid_to_bytes h.uuids id) x s
        ≡ end_workspace c id (saturating_suc w.revision) TerminationReason.explicit x s
  unfolding handle_v3_terminate
  terminate_result found allowed =
      decode_known x s _ id _
      ∙ workspace_known x s id _ _ w found
      ∙ unless_holds x s _ _ _ (ap not allowed)

  ended :
      (revision : ℕ) (reason : TerminationReason)
      → get s.workspaces id ≡ some w
      → x.contended id ≡ false
      → Ends id w s (end_workspace c id revision reason x s).0
  unfolding end_workspace
  ended revision reason found idle =
      rw (terminate_workspace, found, idle) (terminate_free-Ends x id revision reason (some c) w s)

  -- A `TerminateWorkspace` of a client that may end the workspace, while no other task holds its
  -- lock, removes the workspace, leaves none of its panes a PTY, and answers with the next revision.
  pub handle_v3_terminate-Ends :
      (pane : Uuid)
      → get s.workspaces id ≡ some w
      → (has_write_owner w && not (client_has_write_access w c)) ≡ false
      → x.contended id ≡ false
      → IsSound s
      → contains (keys w.panes) pane ≡ true
      → (get (handle_v3_terminate c (uuid_to_bytes h.uuids id) x s).0.workspaces id ≡ none)
        × (contains (keys (handle_v3_terminate c (uuid_to_bytes h.uuids id) x s).0.pty_writers) pane
            ≡ false)
        × ((handle_v3_terminate c (uuid_to_bytes h.uuids id) x s).1
            ≡ ok (workspace_terminated (uuid_to_bytes h.uuids id) (saturating_suc w.revision) 1))
  unfolding end_workspace termination_number
  handle_v3_terminate-Ends pane found allowed idle v there =
      let e = ended (saturating_suc w.revision) TerminationReason.explicit found idle in
      rw (terminate_result found allowed) (
        rw e.workspaces (ground (arith, get-remove s.workspaces id id v.distinct)),
        rw e.writers (
            ground (
              arith,
              there,
              contains-keys-remove_all s.pty_writers (keys w.panes) pane v.distinct_writers,
            )),
        refl,
      )

-- The bytes of an input under a pane's modes: a paste between its brackets, a focus change as ESC [ I
-- or ESC [ O, each where the pane asked for it.
abbrev pub typed : TerminalModeState → Option InputKind → Bytes
typed modes none = []
typed modes (some (raw bytes)) = bytes
typed modes (some (paste pasted)) =
    if modes.bracketed_paste
    then (27 ∷ 91 ∷ 50 ∷ 48 ∷ 48 ∷ 126 ∷ []) ++ (pasted ++ (27 ∷ 91 ∷ 50 ∷ 48 ∷ 49 ∷ 126 ∷ []))
    else pasted
typed modes (some (focus gained)) =
    if modes.focus_reporting then 27 ∷ 91 ∷ (if gained then 73 else 79) ∷ [] else []

typed-resolve_input :
    (kind : Option InputKind) (modes : TerminalModeState)
    → resolve_input kind modes ≡ typed modes kind
unfolding resolve_input
typed-resolve_input none modes = refl
typed-resolve_input (some (raw bytes)) modes = refl
typed-resolve_input (some (paste pasted)) modes = refl
typed-resolve_input (some (focus true)) modes = refl
typed-resolve_input (some (focus false)) modes = refl

-- What was written to a PTY, and what an input adds to it.
abbrev pub written_to : Option PtyWriter → List Bytes
written_to none = []
written_to (some w) = w.written

abbrev pub arriving : {e : Engine} → Option InputKind → Option (Pane e) → List Bytes
arriving kind none = []
arriving {e} kind (some p) =
    let bytes = typed (e.terminal_mode_state p.screen) kind in
    if is_empty bytes then [] else bytes ∷ []

append_nothing : (l : List Bytes) → l ≡ l ++ []
append_nothing [] = refl
append_nothing (b ∷ l) = ap (λ m. b ∷ m) (append_nothing l)

module _ {h : Host} where
  written-write_pty :
      (pane b : Uuid) (bytes : Bytes) (s : Server h)
      → written_to (get (write_pty pane bytes s).pty_writers b)
        ≡ written_to (get s.pty_writers b)
          ++ (if b == pane && is_some (get s.pty_writers b) then bytes ∷ [] else [])
  unfolding write_pty
  written-write_pty pane b bytes s = elim (Option-cases (get s.pty_writers pane)) [
    | inl missing ↦
        rw (missing, write_pty)
          (ground (
            arith,
            missing,
            append_nothing (written_to (get s.pty_writers b)),
            λ (e : b ≡ pane). ap (get s.pty_writers) e,
          ))
    | inr (w, found) ↦
        rw (found, write_pty)
          (ground (
            arith,
            found,
            get-insert s.pty_writers pane b (record { written = w.written ++ (bytes ∷ []) }),
            append_nothing (written_to (get s.pty_writers b)),
            λ (e : b ≡ pane). ap (get s.pty_writers) e,
          ))
  ]

  -- What an input leaves behind if its client may write.
  abbrev delivered : Option InputKind → Uuid → Option (Pane h.engine) → Server h → Server h
  delivered kind pane none s = s
  delivered kind pane (some p) s =
      let resolved = resolve_input kind (h.engine.terminal_mode_state p.screen) in
      if is_empty resolved then s else write_pty pane resolved s

  input_result :
      (x : World) (c id pane : Uuid) (kind : Option InputKind) (w : Workspace h.engine)
      (s : Server h)
      → get s.workspaces id ≡ some w
      → (handle_v3_terminal_input c
          (uuid_to_bytes h.uuids id)
          (uuid_to_bytes h.uuids pane)
          kind
          x
          s).0
        ≡ (if client_has_write_access w c then delivered kind pane (get w.panes pane) s else s)
  unfolding handle_v3_terminal_input
  input_result x c id pane kind w s found =
      let start =
        decode_or_drop-known x s id _
        ∙ decode_or_drop-known x s pane _
        ∙ workspace_known x s id _ _ w found in
      elim (Option-cases (get w.panes pane)) [
        | inl missing ↦
            ap (λ r. r.0) (start ∙ unless_fails x s _ _ _ (ap is_some missing))
            ∙ rw missing (unchanged (client_has_write_access w c))
        | inr (p, there) ↦
            let known = start ∙ unless_holds x s _ _ _ (ap is_some there) in
            elim (Bool-cases (client_has_write_access w c)) [
              | inr denied ↦
                  ap (λ r. r.0) (known ∙ writable_or_drop-refused x s c id _ w found denied)
                  ∙ rw denied refl
              | inl access ↦
                  let ready =
                    known
                    ∙ writable_or_drop-known x s c id _ w found access
                    ∙ or_raise_known x s (get w.panes pane) p _ _ there in
                  ap (λ r. r.0) ready
                  ∙ rw (access, there)
                      (changes_unless x s
                        (is_empty (resolve_input kind (h.engine.terminal_mode_state p.screen))) tt
                        _)
            ]
      ]
    where
      unchanged : (b : Bool) → s ≡ (if b then s else s)
      unchanged true = refl
      unchanged false = refl

  delivered-written :
      (kind : Option InputKind) (pane b : Uuid) (o : Option (Pane h.engine)) (s : Server h)
      → written_to (get (delivered kind pane o s).pty_writers b)
        ≡ written_to (get s.pty_writers b)
          ++ (if b == pane && is_some (get s.pty_writers b) then arriving kind o else [])
  delivered-written kind pane b none s =
      ground (arith, append_nothing (written_to (get s.pty_writers b)))
  delivered-written kind pane b (some p) s =
      let modes = h.engine.terminal_mode_state p.screen in
      rw (typed-resolve_input kind modes) (
        ground (
          arith,
          append_nothing (written_to (get s.pty_writers b)),
          written-write_pty pane b (typed modes kind) s,
        ))

  delivered-workspaces :
      (kind : Option InputKind) (pane : Uuid) (o : Option (Pane h.engine)) (s : Server h)
      → (delivered kind pane o s).workspaces ≡ s.workspaces
  unfolding write_pty
  delivered-workspaces kind pane none s = refl
  delivered-workspaces kind pane (some p) s = ground arith

  -- A `TerminalInput` of a client that may write to the workspace adds to what was written to the
  -- pane's PTY, if there is one, the bytes that the pane's modes make of it, if there are any. Nothing
  -- is written to another PTY, nor for a client that may not write or a pane that is not there, and no
  -- workspace changes.
  pub handle_v3_terminal_input-delivered :
      (x : World) (c id pane b : Uuid) (kind : Option InputKind) (w : Workspace h.engine)
      (s : Server h)
      → get s.workspaces id ≡ some w
      → (written_to (
            get
              (handle_v3_terminal_input c
                (uuid_to_bytes h.uuids id)
                (uuid_to_bytes h.uuids pane)
                kind
                x
                s).0.pty_writers
              b)
          ≡ written_to (get s.pty_writers b)
            ++ (if client_has_write_access w c && (b == pane && is_some (get s.pty_writers b))
                then arriving kind (get w.panes pane)
                else []))
        × ((handle_v3_terminal_input c
              (uuid_to_bytes h.uuids id)
              (uuid_to_bytes h.uuids pane)
              kind
              x
              s).0.workspaces
            ≡ s.workspaces)
  handle_v3_terminal_input-delivered x c id pane b kind w s found =
      rw (input_result x c id pane kind w s found)
        (elim (Bool-cases (client_has_write_access w c)) [
          | inl access ↦ rw access (
            delivered-written kind pane b (get w.panes pane) s,
            delivered-workspaces kind pane (get w.panes pane) s,
          )
          | inr denied ↦ rw denied (append_nothing (written_to (get s.pty_writers b)), refl)
        ])
