-- ===== src/Server/Invariant.antt =====
-- services/rttx-server/src/server.rs: what holds of the daemon's state whatever messages arrive.
pub mod Releases
pub mod Holds
use rttx.Common.{
  ℕ, ◌≡◌, refl, ap, sym, ◌∙◌, arith, inl, inr, ◌⊎◌, Uuid, ◌==◌, Bool, true, false, Option, none,
  some, List, [], ◌∷◌, is_some, some_injective, Option-cases, Bool-cases, contains, IsDistinct,
}
use rttx.Common.Dict.{
  Dict, get, insert, remove, keys, get-insert, get-remove, contains-keys, contains-keys-insert,
  insert-IsDistinct, remove-IsDistinct, get-insert_same, get-insert-cases,
}
use mathlib.Core.Path.{subst}
use rttx.Pane.{Engine}
use rttx.Workspace.{Workspace, WorkspacePolicy, new}
use rttx.Workspace.Panes.{remove_pane}
use rttx.Workspace.Panes.Adds.{contains-keys-remove}
use rttx.Workspace.Panes.Coherent.{IsCoherent, new-IsCoherent}
use rttx.Workspace.Run.{Call, removes, resizes, attaches, detaches, step}
use rttx.Workspace.Run.Coherent.{step-IsCoherent}
use rttx.Workspace.Run.Revision.{IsLedger, new-IsLedger, step-IsLedger, Quiet-IsLedger}
use rttx.Server.{Host, Server, PtyWriter}
use rttx.Server.Handlers.Panes.{insert_pty}
use rttx.Server.Moves.{
  Sets, Moves, rests, follows, creates, edits, shares, joins, leaves, redraws, opens, closes, ends,
  reinserts, remove_all, Redraws, Ends,
}
use rttx.Server.Moves.Keeps.{HasPane, step_keeps, Redraws-IsCoherent, redraw_keeps}

-- The pane stands in some workspace.
pub record Owned {e : Engine} (d : Dict (Workspace e)) (p : Uuid) : Type 0 where
  pub owner : Uuid
  pub workspace : Workspace e
  pub found : get d owner ≡ some workspace
  pub has : HasPane workspace p

-- Every workspace is coherent and its books are in order, each PTY handle and each kill signal
-- belongs to a pane of a workspace, and a pane has both or neither.
pub record IsSound {h : Host} (s : Server h) : Type 0 where
  pub distinct : IsDistinct (keys s.workspaces)
  pub distinct_writers : IsDistinct (keys s.pty_writers)
  pub distinct_kills : IsDistinct (keys s.pty_kill_senders)
  pub coherent : (id : Uuid) (w : Workspace h.engine) → get s.workspaces id ≡ some w → IsCoherent w
  pub ledger : (id : Uuid) (w : Workspace h.engine) → get s.workspaces id ≡ some w → IsLedger w
  pub owned : (p : Uuid) → contains (keys s.pty_writers) p ≡ true → Owned s.workspaces p
  pub paired : (p : Uuid) → contains (keys s.pty_kill_senders) p ≡ contains (keys s.pty_writers) p

-- What a workspace written back under `id` may be.
pub record Fits {e : Engine} (d : Dict (Workspace e)) (id : Uuid) (w' : Workspace e) : Type 0 where
  pub coherent : IsCoherent w'
  pub ledger : IsLedger w'
  pub keeps : (w : Workspace e) → get d id ≡ some w → (p : Uuid) → HasPane w p → HasPane w' p

pub Owned-inserted :
    {e : Engine} (d : Dict (Workspace e)) (id p : Uuid) (w' : Workspace e)
    → Fits d id w'
    → Owned d p
    → Owned (insert d id w') p
Owned-inserted d id p w' fits o = elim (Bool-cases (id == o.owner)) [
  | inl here ↦
      let same : id ≡ o.owner = ground (arith, here) in
      record {
        owner = id;
        workspace = w';
        found = get-insert_same d id w';
        has = fits.keeps o.workspace (ap (get d) same ∙ o.found) p o.has;
      }
  | inr there ↦ record {
    owner = o.owner;
    workspace = o.workspace;
    found = ground (arith, get-insert d id o.owner w', there, o.found);
    has = o.has;
  }
]

pub all_inserted :
    {e : Engine} (P : Workspace e → Type 0) (d : Dict (Workspace e)) (id : Uuid) (w' : Workspace e)
    → P w'
    → ((j : Uuid) (w : Workspace e) → get d j ≡ some w → P w)
    → (j : Uuid) (w : Workspace e) → get (insert d id w') j ≡ some w
    → P w
all_inserted P d id w' p all j w found = elim (get-insert-cases d id w' j w found) [
  | inl (k, same) ↦ subst P (sym same) p
  | inr (k, there) ↦ all j w there
]

module _ {h : Host} (s s' : Server h) where
  pub Sets-IsSound :
      (id : Uuid) (w' : Workspace h.engine)
      → Fits s.workspaces id w'
      → Sets (insert s.workspaces id w') s s'
      → IsSound s
      → IsSound s'
  Sets-IsSound id w' fits q v = record {
    distinct = rw q.workspaces (insert-IsDistinct s.workspaces id w' v.distinct);
    distinct_writers = rw q.writers v.distinct_writers;
    distinct_kills = rw q.kills v.distinct_kills;
    coherent =
        rw q.workspaces (all_inserted IsCoherent s.workspaces id w' fits.coherent v.coherent);
    ledger = rw q.workspaces (all_inserted IsLedger s.workspaces id w' fits.ledger v.ledger);
    owned =
        rw (q.writers, q.workspaces)
          (λ p k. Owned-inserted s.workspaces id p w' fits (v.owned p k));
    paired = rw (q.writers, q.kills) v.paired;
  }

  pub rests-IsSound : Sets s.workspaces s s' → IsSound s → IsSound s'
  rests-IsSound q v = record {
    distinct = rw q.workspaces v.distinct;
    distinct_writers = rw q.writers v.distinct_writers;
    distinct_kills = rw q.kills v.distinct_kills;
    coherent = rw q.workspaces v.coherent;
    ledger = rw q.workspaces v.ledger;
    owned = rw (q.writers, q.workspaces) v.owned;
    paired = rw (q.writers, q.kills) v.paired;
  }
