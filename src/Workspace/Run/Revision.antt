-- ===== src/Workspace/Run/Revision.antt =====
-- services/rttx-server/src/workspace.rs: revisions only grow, and at most one client holds the write
-- lease, over any sequence of calls.
use rttx.Common.{
  ℕ, ◌≡◌, ◌≤◌, refl, ◌⊎◌, inl, inr, arith, Uuid, Bool, Option, none, some, List, [], ◌∷◌,
  Option-cases,
}
use rttx.Common.Text.{Text}
use rttx.Common.Dict.{get}
use rttx.Pane.{Engine, Pane}
use rttx.Workspace.{
  Workspace, AttachMode, DetachReason, ClientRole, bump_revision, mark_persisted, new, u64_max,
  saturating_suc,
}
use rttx.Workspace.Panes
use rttx.PaneTree.{SplitAxis, Side}
use rttx.Common.Float.{F32}
use rttx.Workspace.Lease.{attach_client, detach_client, attach_mode, set_role}
use rttx.Workspace.Lease.Laws.{IsLease, attach_client-IsLease, detach_client-IsLease}
use rttx.Workspace.Fields.{
  write_pane, resize_pane, set_pane_title, set_pane_no_persist, set_pane_cwd, set_pane_exit_status,
}
use rttx.Workspace.Naming.{set_auto_name, refresh_auto_name, rename, adopt_name, derived_name}
use rttx.Workspace.Run.{
  Call, adds, splits, removes, resizes_split, focuses, attaches, detaches, names, refreshes,
  renames, resizes, titles, flags, moves, exits, saves, step, run,
}

module _ {e : Engine} where
  -- The revision stays or grows by one, saturating; what is saved stays.
  abbrev pub Grows : Workspace e → Workspace e → Type 0
  Grows w w' =
      ((w'.revision ≡ w.revision) ⊎ (w'.revision ≡ saturating_suc w.revision))
      × (w'.persisted_revision ≡ w.persisted_revision)

  abbrev pub Quiet : Workspace e → Workspace e → Type 0
  Quiet w w' = Grows w w' × (w'.attached_clients ≡ w.attached_clients)

  set_role-Grows : (w : Workspace e) (c : Uuid) (r : ClientRole) → Grows w (set_role w c r)
  unfolding set_role
  set_role-Grows w c r = ground arith

  attach_client-Grows :
      (w : Workspace e) (c : Uuid) (mode : AttachMode) (now : ℕ)
      → Grows w (attach_client w c mode now).0
  unfolding attach_client attach_mode
  attach_client-Grows w c AttachMode.read_only now =
      set_role-Grows (record w { last_active_at = now }) c ClientRole.reader
  attach_client-Grows w c AttachMode.read_write now =
      ground (arith, set_role-Grows (record w { last_active_at = now }) c ClientRole.writer)
  attach_client-Grows w c AttachMode.take_over now = ground arith

  adopt_name-Quiet : (w : Workspace e) (o : Option Text) → Quiet w (adopt_name w o).0
  unfolding adopt_name
  adopt_name-Quiet w none = ground arith
  adopt_name-Quiet w (some name) = ground arith

  write_pane-Quiet :
      (w : Workspace e) (id : Uuid) (p : Pane e) (changed : Bool)
      → Quiet w (write_pane w id p changed).0
  unfolding write_pane
  write_pane-Quiet w id p changed = ground arith

  pub field-Quiet : (w : Workspace e) (id cols rows : ℕ) → Quiet w (resize_pane w id cols rows).0
  unfolding resize_pane
  field-Quiet w id cols rows = elim (Option-cases (get w.panes id)) [
    | inl h ↦ rw (h, resize_pane) ((inl refl, refl), refl)
    | inr (p, h) ↦ rw (h, resize_pane) (write_pane-Quiet w id _ _)
  ]

  title-Quiet : (w : Workspace e) (id : Uuid) (title : Text) → Quiet w (set_pane_title w id title).0
  unfolding set_pane_title
  title-Quiet w id title = elim (Option-cases (get w.panes id)) [
    | inl h ↦ rw (h, set_pane_title) ((inl refl, refl), refl)
    | inr (p, h) ↦ rw (h, set_pane_title) (write_pane-Quiet w id _ _)
  ]

  flag-Quiet :
      (w : Workspace e) (id : Uuid) (flag : Bool) → Quiet w (set_pane_no_persist w id flag).0
  unfolding set_pane_no_persist
  flag-Quiet w id flag = elim (Option-cases (get w.panes id)) [
    | inl h ↦ rw (h, set_pane_no_persist) ((inl refl, refl), refl)
    | inr (p, h) ↦ rw (h, set_pane_no_persist) (write_pane-Quiet w id _ _)
  ]

  exit-Quiet :
      (w : Workspace e) (id : Uuid) (status : Option ℕ)
      → Quiet w (set_pane_exit_status w id status).0
  unfolding set_pane_exit_status
  exit-Quiet w id status = elim (Option-cases (get w.panes id)) [
    | inl h ↦ rw (h, set_pane_exit_status) ((inl refl, refl), refl)
    | inr (p, h) ↦ rw (h, set_pane_exit_status) (write_pane-Quiet w id _ _)
  ]

  cwd-Quiet : (w : Workspace e) (id : Uuid) (cwd : Text) → Quiet w (set_pane_cwd w id cwd).0
  unfolding set_pane_cwd
  cwd-Quiet w id cwd = ground arith

  rename-Quiet : (w : Workspace e) (name : Text) → Quiet w (rename w name).0
  unfolding rename bump_revision
  rename-Quiet w name = ground arith

  names_Quiet : (w : Workspace e) (name : Text) → Quiet w (set_auto_name w name).0
  unfolding set_auto_name bump_revision
  names_Quiet w name = ground arith

  pub refresh-Quiet :
      (proc : ℕ → Option Text) (w : Workspace e) → Quiet w (refresh_auto_name proc w).0
  unfolding refresh_auto_name
  refresh-Quiet proc w = ground (arith, adopt_name-Quiet w (derived_name proc w))

  add_pane-Quiet : (w : Workspace e) (p : Pane e) → Quiet w (Panes.add_pane w p)
  unfolding Panes.add_pane bump_revision
  add_pane-Quiet w p = ground arith

  detach_client-Grows :
      (w : Workspace e) (c : Uuid) (r : DetachReason) → Grows w (detach_client w c r).0
  unfolding detach_client
  detach_client-Grows w c r = ground arith

  split_pane-Quiet :
      (w : Workspace e) (t : Uuid) (p : Pane e) (axis : SplitAxis) (ratio : F32)
      → Quiet w (Panes.split_pane w t p axis ratio).0
  unfolding Panes.split_pane bump_revision
  split_pane-Quiet w t p axis ratio = ground arith

  remove_pane-Quiet : (w : Workspace e) (id : Uuid) → Quiet w (Panes.remove_pane w id).0
  unfolding Panes.remove_pane bump_revision
  remove_pane-Quiet w id = ground arith

  resize_split-Quiet :
      (w : Workspace e) (path : List Side) (ratio : F32)
      → Quiet w (Panes.resize_split w path ratio).0
  unfolding Panes.resize_split bump_revision
  resize_split-Quiet w path ratio = ground arith

  focus-Quiet : (w : Workspace e) (id : Uuid) → Quiet w (Panes.set_default_active_pane w id).0
  unfolding Panes.set_default_active_pane bump_revision
  focus-Quiet w id = ground arith

  -- The books of a workspace: what was saved is not ahead of the revision, the revision is a `u64`,
  -- and one client at most holds the lease.
  pub record IsLedger (w : Workspace e) : Type 0 where
    pub bounded : w.revision ≤ u64_max
    pub saved : w.persisted_revision ≤ w.revision
    pub lease : IsLease w.attached_clients

  Grows-IsLedger :
      (w w' : Workspace e)
      → Grows w w'
      → IsLedger w
      → IsLease w'.attached_clients
      → IsLedger w' × (w.revision ≤ w'.revision)
  unfolding saturating_suc
  Grows-IsLedger w w' g v l = (
    record {
      bounded = ground (arith, g, v.bounded);
      saved = ground (arith, g, v.saved, v.bounded);
      lease = l;
    },
    ground (arith, g, v.bounded),
  )

  pub Quiet-IsLedger :
      (w w' : Workspace e) → Quiet w w' → IsLedger w → IsLedger w' × (w.revision ≤ w'.revision)
  Quiet-IsLedger w w' q v = Grows-IsLedger w w' q.0 v (rw q.1 v.lease)

  saves-IsLedger :
      (w : Workspace e)
      → IsLedger w
      → IsLedger (mark_persisted w) × (w.revision ≤ (mark_persisted w).revision)
  unfolding mark_persisted
  saves-IsLedger w v =
      (record { bounded = v.bounded; saved = omega arith; lease = v.lease }, omega arith)

  pub step-IsLedger :
      (w : Workspace e) (c : Call e)
      → IsLedger w
      → IsLedger (step w c) × (w.revision ≤ (step w c).revision)
  unfolding step
  step-IsLedger w (adds pane) v = Quiet-IsLedger w _ (add_pane-Quiet w pane) v
  step-IsLedger w (splits target pane axis ratio) v =
      Quiet-IsLedger w _ (split_pane-Quiet w target pane axis ratio) v
  step-IsLedger w (removes id) v = Quiet-IsLedger w _ (remove_pane-Quiet w id) v
  step-IsLedger w (resizes_split path ratio) v =
      Quiet-IsLedger w _ (resize_split-Quiet w path ratio) v
  step-IsLedger w (focuses id) v = Quiet-IsLedger w _ (focus-Quiet w id) v
  step-IsLedger w (attaches c mode now) v =
      Grows-IsLedger w _ (attach_client-Grows w c mode now) v
        (attach_client-IsLease w c mode now v.lease)
  step-IsLedger w (detaches c reason) v =
      Grows-IsLedger w _ (detach_client-Grows w c reason) v
        (detach_client-IsLease w c reason v.lease)
  step-IsLedger w (names name) v = Quiet-IsLedger w _ (names_Quiet w name) v
  step-IsLedger w (refreshes proc) v = Quiet-IsLedger w _ (refresh-Quiet proc w) v
  step-IsLedger w (renames name) v = Quiet-IsLedger w _ (rename-Quiet w name) v
  step-IsLedger w (resizes id cols rows) v = Quiet-IsLedger w _ (field-Quiet w id cols rows) v
  step-IsLedger w (titles id title) v = Quiet-IsLedger w _ (title-Quiet w id title) v
  step-IsLedger w (flags id flag) v = Quiet-IsLedger w _ (flag-Quiet w id flag) v
  step-IsLedger w (moves id cwd) v = Quiet-IsLedger w _ (cwd-Quiet w id cwd) v
  step-IsLedger w (exits id status) v = Quiet-IsLedger w _ (exit-Quiet w id status) v
  step-IsLedger w saves v = saves-IsLedger w v

  -- Over any sequence of calls, the books stay in order and the revision does not go back.
  run-IsLedger :
      (w : Workspace e) (cs : List (Call e))
      → IsLedger w
      → IsLedger (run w cs) × (w.revision ≤ (run w cs).revision)
  unfolding run
  run-IsLedger w [] v = (v, omega arith)
  run-IsLedger w (c ∷ cs) v = (
    (run-IsLedger (step w c) cs (step-IsLedger w c v).0).0,
    ground (arith, (step-IsLedger w c v).1, (run-IsLedger (step w c) cs (step-IsLedger w c v).0).1),
  )

  pub new-IsLedger : (id now : ℕ) (name : Text) → IsLedger (new e id now name)
  unfolding new get
  new-IsLedger id now name = record {
    bounded = omega arith;
    saved = omega arith;
    lease = record { distinct = tt; single = λ a b h. absurd (ground (arith, h)) };
  }

-- After any sequence of calls on a new workspace, at most one client is a writer, the revision is a
-- `u64` and not below the revision last saved; whatever further calls follow, the revision does not
-- go down.
pub run-run-Advances :
    (e : Engine) (id now : ℕ) (name : Text) (cs ds : List (Call e))
    → IsLedger (run (new e id now name) cs)
      × ((run (new e id now name) cs).revision ≤ (run (run (new e id now name) cs) ds).revision)
run-run-Advances e id now name cs ds = (
  (run-IsLedger (new e id now name) cs (new-IsLedger id now name)).0,
  (run-IsLedger (run (new e id now name) cs) ds
      (run-IsLedger (new e id now name) cs (new-IsLedger id now name)).0).1,
)
