-- ===== src/Workspace/Run/Coherent.antt =====
-- services/rttx-server/src/workspace.rs: a workspace stays coherent over any sequence of calls.
use rttx.Common.{
  ℕ, ◌≡◌, refl, ◌∙◌, inl, inr, arith, Uuid, Bool, Option, none, some, List, [], ◌∷◌, Option-cases,
}
use rttx.Common.Dict.{get, insert, contains-keys, contains-keys-insert, insert-IsDistinct}
use rttx.Common.Text.{Text}
use rttx.Pane.{Engine, Pane}
use rttx.Workspace.{Workspace, AttachMode, DetachReason, ClientRole, mark_persisted, new}
use rttx.Workspace.Panes.Coherent.{
  insert-IsKeyed, id-get, IsCoherent, new-IsCoherent, add_pane-IsCoherent, split_pane-IsCoherent,
  remove_pane-IsCoherent, resize_split-IsCoherent, set_default_active_pane-IsCoherent,
}
use rttx.Workspace.Lease.{attach_client, detach_client, attach_mode, set_role}
use rttx.Workspace.Fields.{
  write_pane, resize_pane, set_pane_title, set_pane_no_persist, set_pane_cwd, set_pane_exit_status,
}
use rttx.Workspace.Naming.{set_auto_name, refresh_auto_name, rename, adopt_name, derived_name}
use rttx.Workspace.Run.{
  Call, adds, splits, removes, resizes_split, focuses, attaches, detaches, names, refreshes,
  renames, resizes, titles, flags, moves, exits, saves, step, run,
}

module _ {e : Engine} where
  -- Coherence is about the panes, the tree and the focus only.
  abbrev pub SameStructure : Workspace e → Workspace e → Type 0
  SameStructure w w' =
      (w'.panes ≡ w.panes) × (w'.tree ≡ w.tree) × (w'.active_pane_id ≡ w.active_pane_id)

  pub same-IsCoherent : (w w' : Workspace e) → SameStructure w w' → IsCoherent w → IsCoherent w'
  same-IsCoherent w w' h c = record {
    valid = rw h.1 c.valid;
    distinct = rw h.0 c.distinct;
    same_panes = λ i. rw (h.0, h.1) (c.same_panes i);
    same_focus = rw (h.2, h.1) c.same_focus;
    keyed = rw h.0 c.keyed;
  }

  write_pane-IsCoherent :
      (w : Workspace e) (id : Uuid) (p q : Pane e) (changed : Bool)
      → get w.panes id ≡ some p
      → q.id ≡ p.id
      → IsCoherent w
      → IsCoherent (write_pane w id q changed).0
  unfolding write_pane
  write_pane-IsCoherent w id p q changed h s c =
      same-IsCoherent (record w { panes = insert w.panes id q }) (write_pane w id q changed).0
        (ground arith)
        (record {
          valid = c.valid;
          distinct = insert-IsDistinct w.panes id q c.distinct;
          same_panes = λ i. ground (
            arith,
            contains-keys-insert w.panes id i q,
            contains-keys w.panes i,
            contains-keys w.panes id,
            c.same_panes i,
          );
          same_focus = c.same_focus;
          keyed = insert-IsKeyed w.panes id q (s ∙ id-get w.panes id p c.keyed h) c.keyed;
        })

  resize_pane-IsCoherent :
      (w : Workspace e) (id cols rows : ℕ)
      → IsCoherent w
      → IsCoherent (resize_pane w id cols rows).0
  unfolding resize_pane
  resize_pane-IsCoherent w id cols rows c = elim (Option-cases (get w.panes id)) [
    | inl h ↦ rw (h, resize_pane) c
    | inr (p, h) ↦ rw (h, resize_pane) (write_pane-IsCoherent w id p _ _ h refl c)
  ]

  set_pane_title-IsCoherent :
      (w : Workspace e) (id : Uuid) (title : Text)
      → IsCoherent w
      → IsCoherent (set_pane_title w id title).0
  unfolding set_pane_title
  set_pane_title-IsCoherent w id title c = elim (Option-cases (get w.panes id)) [
    | inl h ↦ rw (h, set_pane_title) c
    | inr (p, h) ↦ rw (h, set_pane_title) (write_pane-IsCoherent w id p _ _ h refl c)
  ]

  set_pane_no_persist-IsCoherent :
      (w : Workspace e) (id : Uuid) (flag : Bool)
      → IsCoherent w
      → IsCoherent (set_pane_no_persist w id flag).0
  unfolding set_pane_no_persist
  set_pane_no_persist-IsCoherent w id flag c = elim (Option-cases (get w.panes id)) [
    | inl h ↦ rw (h, set_pane_no_persist) c
    | inr (p, h) ↦ rw (h, set_pane_no_persist) (write_pane-IsCoherent w id p _ _ h refl c)
  ]

  set_pane_exit_status-IsCoherent :
      (w : Workspace e) (id : Uuid) (status : Option ℕ)
      → IsCoherent w
      → IsCoherent (set_pane_exit_status w id status).0
  unfolding set_pane_exit_status
  set_pane_exit_status-IsCoherent w id status c = elim (Option-cases (get w.panes id)) [
    | inl h ↦ rw (h, set_pane_exit_status) c
    | inr (p, h) ↦ rw (h, set_pane_exit_status) (write_pane-IsCoherent w id p _ _ h refl c)
  ]

  set_role-same : (w : Workspace e) (c : Uuid) (r : ClientRole) → SameStructure w (set_role w c r)
  unfolding set_role
  set_role-same w c r = ground arith

  pub attach-same :
      (w : Workspace e) (c : Uuid) (mode : AttachMode) (now : ℕ)
      → SameStructure w (attach_client w c mode now).0
  unfolding attach_client attach_mode
  attach-same w c AttachMode.read_only now =
      set_role-same (record w { last_active_at = now }) c ClientRole.reader
  attach-same w c AttachMode.read_write now =
      ground (arith, set_role-same (record w { last_active_at = now }) c ClientRole.writer)
  attach-same w c AttachMode.take_over now = ground arith

  pub rename_same : (w : Workspace e) (name : Text) → SameStructure w (rename w name).0
  unfolding rename
  rename_same w name = ground arith

  pub set_auto_name-same :
      (w : Workspace e) (name : Text) → SameStructure w (set_auto_name w name).0
  unfolding set_auto_name
  set_auto_name-same w name = ground arith

  pub set_pane_cwd-same :
      (w : Workspace e) (id : Uuid) (cwd : Text) → SameStructure w (set_pane_cwd w id cwd).0
  unfolding set_pane_cwd
  set_pane_cwd-same w id cwd = ground arith

  pub detach-same :
      (w : Workspace e) (c : Uuid) (reason : DetachReason)
      → SameStructure w (detach_client w c reason).0
  unfolding detach_client
  detach-same w c reason = ground arith

  saves_same : (w : Workspace e) → SameStructure w (mark_persisted w)
  unfolding mark_persisted
  saves_same w = (refl, refl, refl)

  adopt_name-same : (w : Workspace e) (o : Option Text) → SameStructure w (adopt_name w o).0
  unfolding adopt_name
  adopt_name-same w none = (refl, refl, refl)
  adopt_name-same w (some name) = ground arith

  pub refresh-same :
      (proc : ℕ → Option Text) (w : Workspace e) → SameStructure w (refresh_auto_name proc w).0
  unfolding refresh_auto_name
  refresh-same proc w = ground (arith, adopt_name-same w (derived_name proc w))

  pub step-IsCoherent : (w : Workspace e) (c : Call e) → IsCoherent w → IsCoherent (step w c)
  unfolding step
  step-IsCoherent w (adds pane) v = add_pane-IsCoherent w pane v
  step-IsCoherent w (splits target pane axis ratio) v =
      split_pane-IsCoherent w target pane axis ratio v
  step-IsCoherent w (removes id) v = remove_pane-IsCoherent w id v
  step-IsCoherent w (resizes_split path ratio) v = resize_split-IsCoherent w path ratio v
  step-IsCoherent w (focuses id) v = set_default_active_pane-IsCoherent w id v
  step-IsCoherent w (attaches c mode now) v = same-IsCoherent w _ (attach-same w c mode now) v
  step-IsCoherent w (detaches c reason) v = same-IsCoherent w _ (detach-same w c reason) v
  step-IsCoherent w (names name) v = same-IsCoherent w _ (set_auto_name-same w name) v
  step-IsCoherent w (refreshes proc) v = same-IsCoherent w _ (refresh-same proc w) v
  step-IsCoherent w (renames name) v = same-IsCoherent w _ (rename_same w name) v
  step-IsCoherent w (resizes id cols rows) v = resize_pane-IsCoherent w id cols rows v
  step-IsCoherent w (titles id title) v = set_pane_title-IsCoherent w id title v
  step-IsCoherent w (flags id flag) v = set_pane_no_persist-IsCoherent w id flag v
  step-IsCoherent w (moves id cwd) v = same-IsCoherent w _ (set_pane_cwd-same w id cwd) v
  step-IsCoherent w (exits id status) v = set_pane_exit_status-IsCoherent w id status v
  step-IsCoherent w saves v = same-IsCoherent w (mark_persisted w) (saves_same w) v

  run-IsCoherent : (w : Workspace e) (cs : List (Call e)) → IsCoherent w → IsCoherent (run w cs)
  unfolding run
  run-IsCoherent w [] v = v
  run-IsCoherent w (c ∷ cs) v = run-IsCoherent (step w c) cs (step-IsCoherent w c v)

-- After any sequence of calls on a new workspace its tree is valid, the pane map holds the tree's
-- panes and no others, each under its own id, and the live focus is the tree's default-active pane.
pub run-new-IsCoherent :
    (e : Engine) (id now : ℕ) (name : Text) (cs : List (Call e))
    → IsCoherent (run (new e id now name) cs)
run-new-IsCoherent e id now name cs =
    run-IsCoherent (new e id now name) cs (new-IsCoherent e id now name)
