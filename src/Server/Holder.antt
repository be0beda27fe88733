-- ===== src/Server/Holder.antt =====
-- services/rttx-server/src/server.rs: nobody but its holder changes a workspace whose write lease is
-- held, unless by taking the lease over.
pub mod Spared
use rttx.Common.{
  ℕ, ◌≡◌, refl, ap, sym, ◌∙◌, ◌≢◌, arith, inl, inr, Uuid, ◌==◌, Bool, true, false, not, ◌&&◌,
  Option, none, some, List, [], ◌∷◌, is_some, some_injective, if◌then◌else◌, Option-cases,
  Bool-cases, IsDistinct,
}
use rttx.Common.Dict.{
  Dict, get, insert, remove, keys, get-insert, get-insert-cases, get-insert_same, get-remove,
  get-reinserted, keys-insert_present,
}
use rttx.Pane.{Engine, Pane}
use rttx.WorkspaceTree.{WorkspaceTree}
use rttx.Workspace.{
  Workspace, ClientRole, writer, reader, AttachMode, read_write, read_only, take_over, DetachReason,
  bump_revision,
}
use rttx.Workspace.Lease.{
  client_has_write_access, client_role, writer_client_id, attach_client, attach_mode, set_role,
  detach_client, is_other,
}
use rttx.Workspace.Lease.Laws.{IsLease, find_writer-eq, set_role-clients}
use rttx.Workspace.Run.{Call, resizes, attaches, detaches, removes, step}
use rttx.Workspace.Run.Coherent.{attach-same, detach-same}
use rttx.Workspace.Fields.{resize_pane, write_pane}
use rttx.Wire.Messages.{ClientEnvelope}
use rttx.Server.{Host, Server, World}
use rttx.Server.Dispatch.{handle_v3_message}
use rttx.Server.Moves.{
  Moves, rests, follows, creates, edits, shares, joins, leaves, redraws, opens, closes, ends,
  reinserts, Redraws, Permits, is_take_over,
}
use rttx.Common.Text.{Text}
use rttx.Workspace.Naming.{refresh_auto_name}
use rttx.Workspace.Run.Coherent.{refresh-same}
use rttx.Workspace.Run.Revision.{refresh-Quiet}
use rttx.Server.Moves.Keeps.{SamePanes-keys, Redraws-tree, Redraws-focus, Redraws-Quiet}
use rttx.Server.Moves.Refines.{is_takeover, handle_v3_message-Moves}
use rttx.Server.Invariant.{IsSound}
use rttx.Server.Invariant.Holds.{Moves-IsSound}

-- The workspace under `id` has this tree and focus and these panes, and `holder` has its lease.
pub record Held {e : Engine} (d : Dict (Workspace e)) (id holder : Uuid) (tree : WorkspaceTree)
    (focus : Option Uuid) (panes : List Uuid) : Type 0 where
  pub workspace : Workspace e
  pub found : get d id ≡ some workspace
  pub holds : get workspace.attached_clients holder ≡ some writer
  pub tree_is : workspace.tree ≡ tree
  pub focus_is : workspace.active_pane_id ≡ focus
  pub panes_are : keys workspace.panes ≡ panes

module _ {e : Engine} where
  -- Where one client has the lease, nobody else may write.
  pub denied :
      (w : Workspace e) (c holder : Uuid)
      → IsLease w.attached_clients
      → get w.attached_clients holder ≡ some writer
      → c ≢ holder
      → client_has_write_access w c ≡ false
  unfolding client_has_write_access client_role writer_client_id
  denied w c holder lease holds other = elim (Option-cases (get w.attached_clients c)) [
    | inl absent ↦ ground (arith, absent, find_writer-eq w.attached_clients holder lease holds)
    | inr (writer, role) ↦ absurd (other (lease.single c holder role holds))
    | inr (reader, role) ↦ ground (arith, role)
  ]

  -- An attach that takes nothing over leaves the holder its lease.
  pub attach_keeps_holder :
      (w : Workspace e) (c holder : Uuid) (mode : AttachMode) (now : ℕ)
      → is_take_over mode ≡ false
      → IsLease w.attached_clients
      → get w.attached_clients holder ≡ some writer
      → c ≢ holder
      → get (attach_client w c mode now).0.attached_clients holder ≡ some writer
  unfolding attach_client attach_mode writer_client_id
  attach_keeps_holder w c holder read_only now kind lease holds other = ground (
    arith,
    set_role-clients (record w { last_active_at = now }) c reader,
    get-insert w.attached_clients c holder reader,
    holds,
    other,
  )
  attach_keeps_holder w c holder read_write now kind lease holds other =
      ground (arith, find_writer-eq w.attached_clients holder lease holds, holds, other)
  attach_keeps_holder w c holder take_over now kind lease holds other = cc

  pub detach_keeps_holder :
      (w : Workspace e) (c holder : Uuid) (reason : DetachReason)
      → IsDistinct (keys w.attached_clients)
      → get w.attached_clients holder ≡ some writer
      → c ≢ holder
      → get (detach_client w c reason).0.attached_clients holder ≡ some writer
  unfolding detach_client
  detach_keeps_holder w c holder reason n holds other =
      ground (arith, get-remove w.attached_clients c holder n, holds, other)

  -- What the holder of a lease is spared.
  abbrev pub Spares : Uuid → Workspace e → Workspace e → Type 0
  Spares holder w w' =
      (get w'.attached_clients holder ≡ some writer)
      × (w'.tree ≡ w.tree)
      × (w'.active_pane_id ≡ w.active_pane_id)
      × (keys w'.panes ≡ keys w.panes)

  written_Spares :
      (w : Workspace e) (pane : Uuid) (p q : Pane e) (changed : Bool) (holder : Uuid)
      → get w.panes pane ≡ some p
      → get w.attached_clients holder ≡ some writer
      → Spares holder w (write_pane w pane q changed).0
  unfolding write_pane bump_revision
  written_Spares w pane p q changed holder found holds =
      ground (arith, holds, keys-insert_present w.panes pane q (ap is_some found))

  pub resize-Spares :
      (w : Workspace e) (pane cols rows holder : ℕ)
      → get w.attached_clients holder ≡ some writer
      → Spares holder w (resize_pane w pane cols rows).0
  unfolding resize_pane write_pane bump_revision
  resize-Spares w pane cols rows holder holds = elim (Option-cases (get w.panes pane)) [
    | inl missing ↦ rw (missing, resize_pane) (holds, refl, refl, refl)
    | inr (p, found) ↦ rw (found, resize_pane) (written_Spares w pane p _ _ holder found holds)
  ]

  pub redraw-Spares :
      (w w' : Workspace e) (holder : Uuid)
      → Redraws w w'
      → get w.attached_clients holder ≡ some writer
      → Spares holder w w'
  redraw-Spares w w' holder r holds = (
    ap (λ d. get d holder) (Redraws-Quiet w w' r).1 ∙ holds,
    Redraws-tree w w' r,
    Redraws-focus w w' r,
    SamePanes-keys w.panes w'.panes r.panes,
  )

  pub refresh-Spares :
      (w : Workspace e) (proc : ℕ → Option Text) (holder : Uuid)
      → get w.attached_clients holder ≡ some writer
      → Spares holder w (refresh_auto_name proc w).0
  refresh-Spares w proc holder holds = (
    ap (λ d. get d holder) (refresh-Quiet proc w).1 ∙ holds,
    (refresh-same proc w).1,
    (refresh-same proc w).2,
    ap keys (refresh-same proc w).0,
  )

module _ {e : Engine} (d : Dict (Workspace e)) (id holder : Uuid) (tree : WorkspaceTree)
    (focus : Option Uuid) (panes : List Uuid) where
  pub put_Held :
      (j : Uuid) (w w' : Workspace e)
      → get d j ≡ some w
      → (get w.attached_clients holder ≡ some writer → Spares holder w w')
      → Held d id holder tree focus panes
      → Held (insert d j w') id holder tree focus panes
  put_Held j w w' found spares k = elim (Bool-cases (j == id)) [
    | inl here ↦
        let q : j ≡ id = ground (arith, here) in
        let u : k.workspace ≡ w = some_injective (sym k.found ∙ ap (get d) (sym q) ∙ found) in
        let sp = spares (ap (λ x. get x.attached_clients holder) (sym u) ∙ k.holds) in
        record {
          workspace = w';
          found = ap (get (insert d j w')) (sym q) ∙ get-insert_same d j w';
          holds = sp.0;
          tree_is = sp.1 ∙ ap (λ x. x.tree) (sym u) ∙ k.tree_is;
          focus_is = sp.2 ∙ ap (λ x. x.active_pane_id) (sym u) ∙ k.focus_is;
          panes_are = sp.3 ∙ ap (λ x. keys x.panes) (sym u) ∙ k.panes_are;
        }
    | inr there ↦ record {
      workspace = k.workspace;
      found = ground (arith, get-insert d j id w', there, k.found);
      holds = k.holds;
      tree_is = k.tree_is;
      focus_is = k.focus_is;
      panes_are = k.panes_are;
    }
  ]

  -- The map answers `id` as before.
  pub moved_Held :
      (d' : Dict (Workspace e))
      → get d' id ≡ get d id
      → Held d id holder tree focus panes
      → Held d' id holder tree focus panes
  moved_Held d' same k = record {
    workspace = k.workspace;
    found = same ∙ k.found;
    holds = k.holds;
    tree_is = k.tree_is;
    focus_is = k.focus_is;
    panes_are = k.panes_are;
  }

  -- A workspace that is new does not stand in the way.
  pub inserted_Held :
      (j : Uuid) (w' : Workspace e)
      → get d j ≡ none
      → Held d id holder tree focus panes
      → Held (insert d j w') id holder tree focus panes
  inserted_Held j w' fresh k = elim (Bool-cases (j == id)) [
    | inl here ↦
        let q : j ≡ id = ground (arith, here) in
        let clash : none ≡ some k.workspace = sym fresh ∙ ap (get d) q ∙ k.found in
        absurd (ground (arith, clash))
    | inr there ↦
        moved_Held (insert d j w')
          (get-insert d j id w' ∙ ap (λ b. if b then some w' else get d id) there) k
  ]

  -- Nor does the end of another workspace.
  pub removed_Held :
      (j : Uuid) (w : Workspace e)
      → IsDistinct (keys d)
      → get d j ≡ some w
      → get w.attached_clients holder ≢ some writer
      → Held d id holder tree focus panes
      → Held (remove d j) id holder tree focus panes
  removed_Held j w n found nobody k = elim (Bool-cases (j == id)) [
    | inl here ↦
        let q : j ≡ id = ground (arith, here) in
        let u : k.workspace ≡ w = some_injective (sym k.found ∙ ap (get d) (sym q) ∙ found) in
        absurd (nobody (ap (λ x. get x.attached_clients holder) (sym u) ∙ k.holds))
    | inr there ↦
        moved_Held (remove d j) (get-remove d j id n ∙ ap (λ b. if b then none else get d id) there)
          k
  ]
