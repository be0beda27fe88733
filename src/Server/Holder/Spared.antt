-- ===== src/Server/Holder/Spared.antt =====
-- services/rttx-server/src/server.rs: a client that holds a workspace's write lease keeps it, and its
-- workspace, through the messages of the others.
use rttx.Common.{
  ℕ, ◌≡◌, ap, sym, ◌∙◌, ◌≢◌, arith, Uuid, true, false, Option, none, some, List, some_injective,
}
use rttx.Common.Dict.{get, keys, get-reinserted}
use mathlib.Core.Path.{subst}
use rttx.Pane.{Engine}
use rttx.WorkspaceTree.{WorkspaceTree}
use rttx.Workspace.{Workspace, writer}
use rttx.Workspace.Lease.{client_has_write_access}
use rttx.Workspace.Lease.Laws.{IsLease}
use rttx.Workspace.Run.{removes, step}
use rttx.Workspace.Run.Coherent.{attach-same, detach-same}
use rttx.Wire.Messages.{ClientEnvelope}
use rttx.Server.{Host, Server, World}
use rttx.Server.Dispatch.{handle_v3_message}
use rttx.Server.Moves.{
  Moves, rests, follows, creates, edits, shares, joins, leaves, redraws, renews, types, opens,
  closes, ends, reinserts,
}
use rttx.Server.Moves.Refines.{is_takeover, handle_v3_message-Moves}
use rttx.Server.Invariant.{IsSound}
use rttx.Server.Invariant.Holds.{Moves-IsSound}
use rttx.Server.Holder.{
  Held, denied, attach_keeps_holder, detach_keeps_holder, resize-Spares, redraw-Spares,
  refresh-Spares, put_Held, moved_Held, inserted_Held, removed_Held,
}

may_not_write :
    {e : Engine} (w : Workspace e) (c holder : Uuid)
    → c ≢ holder
    → IsLease w.attached_clients
    → client_has_write_access w c ≡ true
    → get w.attached_clients holder ≢ some writer
may_not_write w c holder other lease access holds =
    ground (arith, denied w c holder lease holds other, access)

module _ {h : Host} (c id holder : Uuid) (other : c ≢ holder) (tree : WorkspaceTree)
    (focus : Option Uuid) (panes : List Uuid) where
  Moves-Held :
      {x : World} {s s' : Server h}
      → Moves x (some c) false s s'
      → IsSound s
      → Held s.workspaces id holder tree focus panes
      → Held s'.workspaces id holder tree focus panes
  unfolding step
  Moves-Held (rests q) v k = rw q.workspaces k
  Moves-Held (follows a b) v k = Moves-Held b (Moves-IsSound a v) (Moves-Held a v k)
  Moves-Held {x = x} {s = s} (creates name policy fresh q) v k =
      rw q.workspaces (inserted_Held s.workspaces id holder tree focus panes x.new_v4 _ fresh k)
  Moves-Held {s = s} (edits j w call found access stays q) v k = rw q.workspaces (
      put_Held s.workspaces id holder tree focus panes j w (step w call) found
        (λ holds. absurd (may_not_write w c holder other (v.ledger j w found).lease access holds))
        k)
  Moves-Held {s = s} (shares j w pane cols rows client found by here least q) v k =
      rw q.workspaces (
        put_Held s.workspaces id holder tree focus panes j w _ found
          (resize-Spares w pane cols rows holder) k)
  Moves-Held {s = s} (joins j w client mode now found by allowed q) v k =
      let same : client ≡ c = sym (some_injective by) in
      rw q.workspaces (
        put_Held s.workspaces id holder tree focus panes j w _ found
          (λ holds. (
            attach_keeps_holder w client holder mode now (ground (arith, allowed))
                (v.ledger j w found).lease holds (λ e. other (sym same ∙ e)),
            (attach-same w client mode now).1,
            (attach-same w client mode now).2,
            ap keys (attach-same w client mode now).0,
          ))
          k)
  Moves-Held {s = s} (leaves j w client reason found by q) v k =
      let same : client ≡ c = sym (some_injective by) in
      rw q.workspaces (
        put_Held s.workspaces id holder tree focus panes j w _ found
          (λ holds. (
            detach_keeps_holder w client holder reason (v.ledger j w found).lease.distinct holds
                (λ e. other (sym same ∙ e)),
            (detach-same w client reason).1,
            (detach-same w client reason).2,
            ap keys (detach-same w client reason).0,
          ))
          k)
  Moves-Held {s = s} (redraws j w w' found r q) v k = rw q.workspaces (
      put_Held s.workspaces id holder tree focus panes j w w' found (redraw-Spares w w' holder r) k)
  Moves-Held {x = x} {s = s} (renews j w found q) v k = rw q.workspaces (
      put_Held s.workspaces id holder tree focus panes j w _ found
        (refresh-Spares w x.proc_cwd holder) k)
  Moves-Held (types j pane w bytes found permits has same writers kills) v k = rw same k
  Moves-Held (opens j pane w found permits has same writers kills) v k = rw same k
  Moves-Held {s = s} (closes j pane w found access same writers kills) v k = rw same (
      put_Held s.workspaces id holder tree focus panes j w (step w (removes pane)) found
        (λ holds. absurd (may_not_write w c holder other (v.ledger j w found).lease access holds))
        k)
  Moves-Held {s = s} (ends j w found free q) v k = rw q.workspaces (
      removed_Held s.workspaces id holder tree focus panes j w v.distinct found
        (λ holds.
          may_not_write w c holder other (v.ledger j w found).lease (free holder holds) holds)
        k)
  Moves-Held {s = s} (reinserts j w found q) v k = rw q.workspaces (
      moved_Held s.workspaces id holder tree focus panes _
        (get-reinserted s.workspaces j id w v.distinct found) k)

-- While a client holds the write lease of a workspace, a message from any other client, unless it is
-- a `TakeoverWorkspace`, leaves the workspace in place with its tree, its focus and its panes, and
-- the lease with its holder.
pub handle_v3_message-Held :
    {h : Host} (x : World) (c id holder : Uuid) (caps : List ℕ) (envelope : ClientEnvelope)
    (s : Server h) (tree : WorkspaceTree) (focus : Option Uuid) (panes : List Uuid)
    → c ≢ holder
    → is_takeover envelope.command ≡ false
    → get s.workspaces x.new_v4 ≡ none
    → IsSound s
    → Held s.workspaces id holder tree focus panes
    → Held (handle_v3_message x c caps envelope s).0.workspaces id holder tree focus panes
handle_v3_message-Held x c id holder caps envelope s tree focus panes other kind fresh v k =
    Moves-Held c id holder other tree focus panes
      (subst (λ b. Moves x (some c) b s (handle_v3_message x c caps envelope s).0) kind
        (handle_v3_message-Moves x c caps envelope s fresh))
      v k
