-- ===== src/Server/Invariant/Releases.antt =====
-- services/rttx-server/src/server.rs: a PTY that opens, and the PTYs that a closed pane and an ended
-- workspace release.
use rttx.Common.{
  ◌≡◌, refl, ap, sym, ◌∙◌, arith, inl, inr, Uuid, ◌==◌, false, not, ◌&&◌, some, List, [], ◌∷◌,
  is_some, some_injective, Bool-cases, contains, IsDistinct,
}
use rttx.Common.Dict.{
  Dict, get, insert, remove, keys, get-insert, get-remove, get-remove-some, contains-keys,
  contains-keys-insert, insert-IsDistinct, remove-IsDistinct, get-insert_same,
}
use rttx.Pane.{Engine}
use rttx.Workspace.{Workspace}
use rttx.Workspace.Panes.{remove_pane}
use rttx.Workspace.Panes.Adds.{contains-keys-remove}
use rttx.Workspace.Panes.Coherent.{IsCoherent}
use rttx.Workspace.Run.{removes, step}
use rttx.Workspace.Run.Coherent.{step-IsCoherent}
use rttx.Workspace.Run.Revision.{IsLedger, step-IsLedger}
use rttx.Server.{Host, Server}
use rttx.Common.{Option-cases}
use rttx.Common.Dict.{keys-insert_present}
use rttx.Wire.Messages.{Bytes}
use rttx.Server.Handlers.Viewport.{write_pty}
use rttx.Server.Handlers.Panes.{insert_pty}
use rttx.Server.Moves.{remove_all, Ends}
use rttx.Server.Moves.Keeps.{HasPane}
use rttx.Server.Invariant.{IsSound, all_inserted}

remove_all-IsDistinct :
    {V : Type 0} (d : Dict V) (ks : List Uuid)
    → IsDistinct (keys d)
    → IsDistinct (keys (remove_all d ks))
unfolding remove_all
remove_all-IsDistinct d [] n = n
remove_all-IsDistinct d (k ∷ ks) n = remove_all-IsDistinct (remove d k) ks (remove-IsDistinct d k n)

pub contains-keys-remove_all :
    {V : Type 0} (d : Dict V) (ks : List Uuid) (p : Uuid)
    → IsDistinct (keys d)
    → contains (keys (remove_all d ks)) p ≡ (not (contains ks p) && contains (keys d) p)
unfolding remove_all
contains-keys-remove_all d [] p n = refl
contains-keys-remove_all d (k ∷ ks) p n = ground (
  arith,
  contains-keys-remove_all (remove d k) ks p (remove-IsDistinct d k n),
  contains-keys-remove d k p n,
)

removed_has :
    {e : Engine} (w : Workspace e) (pane p : Uuid)
    → IsDistinct (keys w.panes)
    → (pane == p) ≡ false
    → HasPane w p
    → HasPane (remove_pane w pane).0 p
unfolding remove_pane
removed_has w pane p n other has = ground (arith, get-remove w.panes pane p n, other, has)

keys-write_pty :
    {h : Host} (pane : Uuid) (bytes : Bytes) (s : Server h)
    → keys (write_pty pane bytes s).pty_writers ≡ keys s.pty_writers
unfolding write_pty
keys-write_pty pane bytes s = elim (Option-cases (get s.pty_writers pane)) [
  | inl missing ↦ rw (missing, write_pty) refl
  | inr (w, found) ↦
      rw (found, write_pty) (keys-insert_present s.pty_writers pane _ (ap is_some found))
]

module _ {h : Host} (s s' : Server h) where
  pub types-IsSound :
      (pane : Uuid) (bytes : Bytes)
      → s'.workspaces ≡ s.workspaces
      → s'.pty_writers ≡ (write_pty pane bytes s).pty_writers
      → s'.pty_kill_senders ≡ s.pty_kill_senders
      → IsSound s
      → IsSound s'
  types-IsSound pane bytes same writers kills v =
      let same_keys : keys s'.pty_writers ≡ keys s.pty_writers =
        ap keys writers ∙ keys-write_pty pane bytes s in
      record {
        distinct = rw same v.distinct;
        distinct_writers = rw same_keys v.distinct_writers;
        distinct_kills = rw kills v.distinct_kills;
        coherent = rw same v.coherent;
        ledger = rw same v.ledger;
        owned = rw (same_keys, same) v.owned;
        paired = rw (same_keys, kills) v.paired;
      }

  pub opens-IsSound :
      (id pane : Uuid) (w : Workspace h.engine)
      → get s.workspaces id ≡ some w
      → HasPane w pane
      → s'.workspaces ≡ s.workspaces
      → s'.pty_writers ≡ (insert_pty pane s).pty_writers
      → s'.pty_kill_senders ≡ (insert_pty pane s).pty_kill_senders
      → IsSound s
      → IsSound s'
  unfolding insert_pty
  opens-IsSound id pane w found has same writers kills v = record {
    distinct = rw same v.distinct;
    distinct_writers = rw writers (insert-IsDistinct s.pty_writers pane _ v.distinct_writers);
    distinct_kills = rw kills (insert-IsDistinct s.pty_kill_senders pane tt v.distinct_kills);
    coherent = rw same v.coherent;
    ledger = rw same v.ledger;
    owned =
        rw (writers, same)
          (λ p k. elim (Bool-cases (pane == p)) [
            | inl here ↦
                let q : pane ≡ p = ground (arith, here) in
                record {
                  owner = id;
                  workspace = w;
                  found = found;
                  has = ap (λ i. is_some (get w.panes i)) (sym q) ∙ has;
                }
            | inr there ↦ v.owned p (
                ground (
                  arith,
                  contains-keys-insert s.pty_writers pane p (record { written = [] }),
                  k,
                  there,
                ))
          ]);
    paired =
        rw (writers, kills)
          (λ p. ground (
            arith,
            contains-keys-insert s.pty_writers pane p (record { written = [] }),
            contains-keys-insert s.pty_kill_senders pane p tt,
            v.paired p,
          ));
  }

  pub closes-IsSound :
      (id pane : Uuid) (w : Workspace h.engine)
      → get s.workspaces id ≡ some w
      → s'.workspaces ≡ insert s.workspaces id (step w (removes pane))
      → s'.pty_writers ≡ remove s.pty_writers pane
      → s'.pty_kill_senders ≡ remove s.pty_kill_senders pane
      → IsSound s
      → IsSound s'
  unfolding step
  closes-IsSound id pane w found same writers kills v =
      let w' = step w (removes pane) in
      record {
        distinct = rw same (insert-IsDistinct s.workspaces id w' v.distinct);
        distinct_writers = rw writers (remove-IsDistinct s.pty_writers pane v.distinct_writers);
        distinct_kills = rw kills (remove-IsDistinct s.pty_kill_senders pane v.distinct_kills);
        coherent = rw same (
            all_inserted IsCoherent s.workspaces id w'
              (step-IsCoherent w (removes pane) (v.coherent id w found)) v.coherent);
        ledger = rw same (
            all_inserted IsLedger s.workspaces id w'
              (step-IsLedger w (removes pane) (v.ledger id w found)).0 v.ledger);
        owned =
            rw (writers, same)
              (λ p k.
                let gone = contains-keys-remove s.pty_writers pane p v.distinct_writers in
                let other : (pane == p) ≡ false = ground (arith, gone, k) in
                let o = v.owned p (ground (arith, gone, k)) in
                elim (Bool-cases (id == o.owner)) [
                  | inl here ↦
                      let q : id ≡ o.owner = ground (arith, here) in
                      let u : o.workspace ≡ w =
                        some_injective (sym o.found ∙ ap (get s.workspaces) (sym q) ∙ found) in
                      record {
                        owner = id;
                        workspace = w';
                        found = get-insert_same s.workspaces id w';
                        has =
                            removed_has w pane p (v.coherent id w found).distinct other
                              (ap (λ x. is_some (get x.panes p)) (sym u) ∙ o.has);
                      }
                  | inr there ↦ record {
                    owner = o.owner;
                    workspace = o.workspace;
                    found = ground (arith, get-insert s.workspaces id o.owner w', there, o.found);
                    has = o.has;
                  }
                ]);
        paired =
            rw (writers, kills)
              (λ p. ground (
                arith,
                contains-keys-remove s.pty_writers pane p v.distinct_writers,
                contains-keys-remove s.pty_kill_senders pane p v.distinct_kills,
                v.paired p,
              ));
      }

  pub Ends-IsSound :
      (id : Uuid) (w : Workspace h.engine)
      → get s.workspaces id ≡ some w
      → Ends id w s s'
      → IsSound s
      → IsSound s'
  Ends-IsSound id w found e v =
      let left : (j : Uuid) (u : Workspace h.engine)
          → get (remove s.workspaces id) j ≡ some u
          → ((id == j) ≡ false) × (get s.workspaces j ≡ some u) =
        λ j u there. get-remove-some s.workspaces id j u v.distinct there in
      record {
        distinct = rw e.workspaces (remove-IsDistinct s.workspaces id v.distinct);
        distinct_writers =
            rw e.writers (remove_all-IsDistinct s.pty_writers (keys w.panes) v.distinct_writers);
        distinct_kills =
            rw e.kills (remove_all-IsDistinct s.pty_kill_senders (keys w.panes) v.distinct_kills);
        coherent = rw e.workspaces (λ j u there. v.coherent j u (left j u there).1);
        ledger = rw e.workspaces (λ j u there. v.ledger j u (left j u there).1);
        owned =
            rw (e.writers, e.workspaces)
              (λ p k.
                let gone =
                  contains-keys-remove_all s.pty_writers (keys w.panes) p v.distinct_writers in
                let absent : contains (keys w.panes) p ≡ false = ground (arith, gone, k) in
                let o = v.owned p (ground (arith, gone, k)) in
                elim (Bool-cases (id == o.owner)) [
                  | inl here ↦
                      let q : id ≡ o.owner = ground (arith, here) in
                      let u : o.workspace ≡ w =
                        some_injective (sym o.found ∙ ap (get s.workspaces) (sym q) ∙ found) in
                      absurd (
                        ground (
                          arith,
                          ap (λ x. is_some (get x.panes p)) (sym u) ∙ o.has,
                          contains-keys w.panes p,
                          absent,
                        ))
                  | inr there ↦ record {
                    owner = o.owner;
                    workspace = o.workspace;
                    found =
                        ground
                          (arith, get-remove s.workspaces id o.owner v.distinct, there, o.found);
                    has = o.has;
                  }
                ]);
        paired =
            rw (e.writers, e.kills)
              (λ p. ground (
                arith,
                contains-keys-remove_all s.pty_writers (keys w.panes) p v.distinct_writers,
                contains-keys-remove_all s.pty_kill_senders (keys w.panes) p v.distinct_kills,
                v.paired p,
              ));
      }
