-- ===== src/Server/Invariant/Holds.antt =====
-- services/rttx-server/src/server.rs: every move of the daemon keeps its state sound.
use rttx.Common.{
  ℕ, ◌≡◌, refl, ap, sym, ◌∙◌, Uuid, Bool, Option, none, some, List, is_some, some_injective, false,
}
use rttx.Common.Dict.{Dict, get, remove, get-reinserted, insert-IsDistinct, remove-IsDistinct}
use rttx.Pane.{Engine}
use rttx.Workspace.{Workspace, WorkspacePolicy, new}
use rttx.Workspace.Panes.Coherent.{IsCoherent, new-IsCoherent}
use rttx.Workspace.Run.{Call, refreshes, resizes, attaches, detaches, step}
use rttx.Workspace.Run.Coherent.{step-IsCoherent, same-IsCoherent}
use rttx.Workspace.Run.Revision.{IsLedger, new-IsLedger, step-IsLedger, Quiet-IsLedger}
use rttx.Server.{Host, Server, World}
use rttx.Server.Moves.{
  Moves, rests, follows, creates, edits, shares, joins, leaves, redraws, renews, types, opens,
  closes, ends, reinserts, Redraws, is_removal,
}
use rttx.Server.Moves.Keeps.{
  step_keeps, is_edit-stays, Redraws-Quiet, Redraws-IsCoherent, redraw_keeps,
}
use rttx.Server.Invariant.{IsSound, Fits, Sets-IsSound, rests-IsSound}
use rttx.Server.Invariant.Releases.{types-IsSound, opens-IsSound, closes-IsSound, Ends-IsSound}

module _ {e : Engine} where
  -- The workspace that stands under `id` is `w`.
  same_workspace :
      (d : Dict (Workspace e)) (id : Uuid) (w v : Workspace e)
      → get d id ≡ some w
      → get d id ≡ some v
      → w ≡ v
  same_workspace d id w v p q = some_injective (sym p ∙ q)

  step-Fits :
      (d : Dict (Workspace e)) (id : Uuid) (w : Workspace e) (call : Call e)
      → get d id ≡ some w
      → is_removal call ≡ false
      → IsCoherent w
      → IsLedger w
      → Fits d id (step w call)
  step-Fits d id w call found stays c l = record {
    coherent = step-IsCoherent w call c;
    ledger = (step-IsLedger w call l).0;
    keeps = λ v there p has.
        step_keeps w call p stays
          (ap (λ x. is_some (get x.panes p)) (same_workspace d id w v found there) ∙ has);
  }

  redraw-Fits :
      (d : Dict (Workspace e)) (id : Uuid) (w w' : Workspace e)
      → get d id ≡ some w
      → Redraws w w'
      → IsCoherent w
      → IsLedger w
      → Fits d id w'
  redraw-Fits d id w w' found r c l = record {
    coherent = Redraws-IsCoherent w w' r c;
    ledger = (Quiet-IsLedger w w' (Redraws-Quiet w w' r) l).0;
    keeps = λ v there p has.
        redraw_keeps w w' p r
          (ap (λ x. is_some (get x.panes p)) (same_workspace d id w v found there) ∙ has);
  }

  created-Fits :
      (d : Dict (Workspace e)) (id now : ℕ) (name : List ℕ) (policy : WorkspacePolicy)
      → get d id ≡ none
      → Fits d id (record (new e id now name) { policy = policy })
  created-Fits d id now name policy fresh =
      let w = new e id now name in
      let l = new-IsLedger id now name in
      record {
        coherent =
            same-IsCoherent w (record w { policy = policy }) (refl, refl, refl)
              (new-IsCoherent e id now name);
        ledger = record { bounded = l.bounded; saved = l.saved; lease = l.lease };
        keeps = λ v there. absurd (clash (sym fresh ∙ there));
      }
    where
      clash : {v : Workspace e} → none ≡ some v → ⊥
      clash q = cc

module _ {h : Host} {x : World} {c : Option Uuid} {seizing : Bool} where
  pub Moves-IsSound : {s s' : Server h} → Moves x c seizing s s' → IsSound s → IsSound s'
  Moves-IsSound {s = s} {s' = s'} (rests q) v = rests-IsSound s s' q v
  Moves-IsSound (follows a b) v = Moves-IsSound b (Moves-IsSound a v)
  Moves-IsSound {s = s} {s' = s'} (creates name policy fresh q) v =
      Sets-IsSound s s' x.new_v4 _ (created-Fits s.workspaces x.new_v4 x.now name policy fresh) q v
  Moves-IsSound {s = s} {s' = s'} (edits id w call found permits stays q) v =
      Sets-IsSound s s' id _
        (step-Fits s.workspaces id w call found (is_edit-stays call stays) (v.coherent id w found)
          (v.ledger id w found))
        q v
  Moves-IsSound {s = s} {s' = s'} (shares id w pane cols rows client found by here least q) v =
      Sets-IsSound s s' id _
        (step-Fits s.workspaces id w (resizes pane cols rows) found refl (v.coherent id w found)
          (v.ledger id w found))
        q v
  Moves-IsSound {s = s} {s' = s'} (joins id w client mode now found by allowed q) v =
      Sets-IsSound s s' id _
        (step-Fits s.workspaces id w (attaches client mode now) found refl (v.coherent id w found)
          (v.ledger id w found))
        q v
  Moves-IsSound {s = s} {s' = s'} (leaves id w client reason found by q) v =
      Sets-IsSound s s' id _
        (step-Fits s.workspaces id w (detaches client reason) found refl (v.coherent id w found)
          (v.ledger id w found))
        q v
  Moves-IsSound {s = s} {s' = s'} (redraws id w w' found r q) v =
      Sets-IsSound s s' id w'
        (redraw-Fits s.workspaces id w w' found r (v.coherent id w found) (v.ledger id w found)) q v
  Moves-IsSound {s = s} {s' = s'} (renews id w found q) v =
      Sets-IsSound s s' id _
        (step-Fits s.workspaces id w (refreshes x.proc_cwd) found refl (v.coherent id w found)
          (v.ledger id w found))
        q v
  Moves-IsSound {s = s} {s' = s'} (types id pane w bytes found permits has same writers kills) v =
      types-IsSound s s' pane bytes same writers kills v
  Moves-IsSound {s = s} {s' = s'} (opens id pane w found permits has same writers kills) v =
      opens-IsSound s s' id pane w found has same writers kills v
  Moves-IsSound {s = s} {s' = s'} (closes id pane w found permits same writers kills) v =
      closes-IsSound s s' id pane w found same writers kills v
  Moves-IsSound {s = s} {s' = s'} (ends id w found free q) v = Ends-IsSound s s' id w found q v
  Moves-IsSound {s = s} {s' = s'} (reinserts id w found q) v =
      let same = λ (j : Uuid). get-reinserted s.workspaces id j w v.distinct found in
      record {
        distinct = rw q.workspaces (
            insert-IsDistinct (remove s.workspaces id) id w
              (remove-IsDistinct s.workspaces id v.distinct));
        distinct_writers = rw q.writers v.distinct_writers;
        distinct_kills = rw q.kills v.distinct_kills;
        coherent = rw q.workspaces (λ j u there. v.coherent j u (sym (same j) ∙ there));
        ledger = rw q.workspaces (λ j u there. v.ledger j u (sym (same j) ∙ there));
        owned =
            rw (q.writers, q.workspaces)
              (λ p k.
                let o = v.owned p k in
                record {
                  owner = o.owner;
                  workspace = o.workspace;
                  found = same o.owner ∙ o.found;
                  has = o.has;
                });
        paired = rw (q.writers, q.kills) v.paired;
      }
