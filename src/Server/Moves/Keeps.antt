-- ===== src/Server/Moves/Keeps.antt =====
-- services/rttx-server/src/workspace.rs: a call on a workspace keeps its panes, but for a removal, and
-- a redraw keeps what makes a workspace sound.
use rttx.Common.{
  ℕ, ◌≡◌, refl, ap, sym, ◌∙◌, arith, inl, inr, Uuid, Bool, true, false, Option, [], ◌∷◌, is_some,
  Option-cases, contains,
}
use rttx.Common.Dict.{Dict, get, keys, get-insert, contains-keys}
use rttx.Common.Text.{Text}
use rttx.Pane.{Engine, Pane}
use rttx.Workspace.{Workspace, bump_revision, mark_persisted}
use rttx.Workspace.Panes.{add_pane, split_pane, resize_split, set_default_active_pane}
use rttx.Workspace.Panes.Coherent.{IsCoherent, IsKeyed}
use rttx.Workspace.Fields.{
  write_pane, resize_pane, set_pane_title, set_pane_no_persist, set_pane_exit_status,
}
use rttx.Workspace.Run.{
  Call, adds, splits, removes, resizes_split, focuses, attaches, detaches, names, refreshes,
  renames, resizes, titles, flags, moves, exits, saves, step,
}
use rttx.Workspace.Run.Coherent.{
  attach-same, detach-same, rename_same, set_auto_name-same, set_pane_cwd-same, refresh-same,
}
use rttx.Workspace.Run.Revision.{Quiet}
use rttx.Server.Moves.{SamePanes, Redraws, is_removal, is_edit}

module _ {e : Engine} where
  -- A pane that is there stays there.
  abbrev pub HasPane : Workspace e → Uuid → Type 0
  HasPane w p = is_some (get w.panes p) ≡ true

  written_keeps :
      (w : Workspace e) (id : Uuid) (q : Pane e) (changed : Bool) (p : Uuid)
      → HasPane w p
      → HasPane (write_pane w id q changed).0 p
  unfolding write_pane
  written_keeps w id q changed p h = ground (arith, get-insert w.panes id p q)

  resize_keeps :
      (w : Workspace e) (id cols rows p : ℕ)
      → HasPane w p
      → HasPane (resize_pane w id cols rows).0 p
  unfolding resize_pane
  resize_keeps w id cols rows p h = elim (Option-cases (get w.panes id)) [
    | inl missing ↦ rw (missing, resize_pane) h
    | inr (q, found) ↦ rw (found, resize_pane) (written_keeps w id _ _ p h)
  ]

  title_keeps :
      (w : Workspace e) (id : Uuid) (title : Text) (p : ℕ)
      → HasPane w p
      → HasPane (set_pane_title w id title).0 p
  unfolding set_pane_title
  title_keeps w id title p h = elim (Option-cases (get w.panes id)) [
    | inl missing ↦ rw (missing, set_pane_title) h
    | inr (q, found) ↦ rw (found, set_pane_title) (written_keeps w id _ _ p h)
  ]

  flag_keeps :
      (w : Workspace e) (id : Uuid) (flag : Bool) (p : ℕ)
      → HasPane w p
      → HasPane (set_pane_no_persist w id flag).0 p
  unfolding set_pane_no_persist
  flag_keeps w id flag p h = elim (Option-cases (get w.panes id)) [
    | inl missing ↦ rw (missing, set_pane_no_persist) h
    | inr (q, found) ↦ rw (found, set_pane_no_persist) (written_keeps w id _ _ p h)
  ]

  exit_keeps :
      (w : Workspace e) (id : Uuid) (status : Option ℕ) (p : ℕ)
      → HasPane w p
      → HasPane (set_pane_exit_status w id status).0 p
  unfolding set_pane_exit_status
  exit_keeps w id status p h = elim (Option-cases (get w.panes id)) [
    | inl missing ↦ rw (missing, set_pane_exit_status) h
    | inr (q, found) ↦ rw (found, set_pane_exit_status) (written_keeps w id _ _ p h)
  ]

  same_keeps : (w w' : Workspace e) (p : Uuid) → w'.panes ≡ w.panes → HasPane w p → HasPane w' p
  same_keeps w w' p same h = rw same h

  pub is_edit-stays : (c : Call e) → is_edit c ≡ true → is_removal c ≡ false
  is_edit-stays (removes id) q = sym q
  is_edit-stays (adds pane) q = refl
  is_edit-stays (splits target pane axis ratio) q = refl
  is_edit-stays (resizes_split path ratio) q = refl
  is_edit-stays (focuses id) q = refl
  is_edit-stays (attaches c mode now) q = refl
  is_edit-stays (detaches c reason) q = refl
  is_edit-stays (names name) q = refl
  is_edit-stays (refreshes proc) q = refl
  is_edit-stays (renames name) q = refl
  is_edit-stays (resizes id cols rows) q = refl
  is_edit-stays (titles id title) q = refl
  is_edit-stays (flags id flag) q = refl
  is_edit-stays (moves id cwd) q = refl
  is_edit-stays (exits id status) q = refl
  is_edit-stays saves q = refl

  pub step_keeps :
      (w : Workspace e) (c : Call e) (p : Uuid)
      → is_removal c ≡ false
      → HasPane w p
      → HasPane (step w c) p
  unfolding step add_pane split_pane resize_split set_default_active_pane mark_persisted
      bump_revision
  step_keeps w (adds pane) p k h = ground (arith, get-insert w.panes pane.id p pane)
  step_keeps w (splits target pane axis ratio) p k h =
      ground (arith, get-insert w.panes pane.id p pane)
  step_keeps w (removes id) p k h = cc
  step_keeps w (resizes_split path ratio) p k h = ground arith
  step_keeps w (focuses id) p k h = ground arith
  step_keeps w (attaches c mode now) p k h =
      same_keeps w (step w (attaches c mode now)) p (attach-same w c mode now).0 h
  step_keeps w (detaches c reason) p k h =
      same_keeps w (step w (detaches c reason)) p (detach-same w c reason).0 h
  step_keeps w (names name) p k h =
      same_keeps w (step w (names name)) p (set_auto_name-same w name).0 h
  step_keeps w (refreshes proc) p k h =
      same_keeps w (step w (refreshes proc)) p (refresh-same proc w).0 h
  step_keeps w (renames name) p k h =
      same_keeps w (step w (renames name)) p (rename_same w name).0 h
  step_keeps w (resizes id cols rows) p k h = resize_keeps w id cols rows p h
  step_keeps w (titles id title) p k h = title_keeps w id title p h
  step_keeps w (flags id flag) p k h = flag_keeps w id flag p h
  step_keeps w (moves id cwd) p k h =
      same_keeps w (step w (moves id cwd)) p (set_pane_cwd-same w id cwd).0 h
  step_keeps w (exits id status) p k h = exit_keeps w id status p h
  step_keeps w saves p k h = h

  pub SamePanes-keys : (d d' : Dict (Pane e)) → SamePanes d d' → keys d' ≡ keys d
  SamePanes-keys [] [] s = refl
  SamePanes-keys [] (_ ∷ d') s = elim s [ ]
  SamePanes-keys (_ ∷ d) [] s = elim s [ ]
  SamePanes-keys ((i, p) ∷ d) ((j, q) ∷ d') s = ground (arith, s.0.0, SamePanes-keys d d' s.1)

  SamePanes-IsKeyed : (d d' : Dict (Pane e)) → SamePanes d d' → IsKeyed d → IsKeyed d'
  SamePanes-IsKeyed [] [] s k = tt
  SamePanes-IsKeyed [] (_ ∷ d') s k = elim s [ ]
  SamePanes-IsKeyed (_ ∷ d) [] s k = elim s [ ]
  SamePanes-IsKeyed ((i, p) ∷ d) ((j, q) ∷ d') s k =
      (ap (λ (p : Pane e). p.id) (sym s.0.1) ∙ k.0 ∙ s.0.0, SamePanes-IsKeyed d d' s.1 k.1)

  pub Redraws-tree : (w w' : Workspace e) → Redraws w w' → w'.tree ≡ w.tree
  Redraws-tree w w' r = ap (λ (v : Workspace e). v.tree) (sym r.rest)

  pub Redraws-focus : (w w' : Workspace e) → Redraws w w' → w'.active_pane_id ≡ w.active_pane_id
  Redraws-focus w w' r = ap (λ (v : Workspace e). v.active_pane_id) (sym r.rest)

  pub Redraws-Quiet : (w w' : Workspace e) → Redraws w w' → Quiet w w'
  Redraws-Quiet w w' r = (
    (
      inl (ap (λ (v : Workspace e). v.revision) (sym r.rest)),
      ap (λ (v : Workspace e). v.persisted_revision) (sym r.rest),
    ),
    ap (λ (v : Workspace e). v.attached_clients) (sym r.rest),
  )

  pub Redraws-IsCoherent : (w w' : Workspace e) → Redraws w w' → IsCoherent w → IsCoherent w'
  Redraws-IsCoherent w w' r c =
      let same = SamePanes-keys w.panes w'.panes r.panes in
      let tree = Redraws-tree w w' r in
      let focus = Redraws-focus w w' r in
      record {
        valid = rw tree c.valid;
        distinct = rw same c.distinct;
        same_panes = λ i. rw (same, tree) (c.same_panes i);
        same_focus = rw (focus, tree) c.same_focus;
        keyed = SamePanes-IsKeyed w.panes w'.panes r.panes c.keyed;
      }

  pub redraw_keeps : (w w' : Workspace e) (p : Uuid) → Redraws w w' → HasPane w p → HasPane w' p
  redraw_keeps w w' p r h =
      sym (contains-keys w'.panes p)
      ∙ ap (λ l. contains l p) (SamePanes-keys w.panes w'.panes r.panes)
      ∙ contains-keys w.panes p
      ∙ h
