-- ===== src/Workspace/Panes/Coherent.antt =====
-- services/rttx-server/src/workspace.rs: the pane map, the pane tree and the focus stay coherent.
use rttx.Common.{
  ℕ, ◌≡◌, refl, sym, ap, ◌∙◌, inl, inr, arith, Uuid, true, some, List, [], ◌∷◌, is_some, Bool-cases,
  contains, contains-insert_after, IsDistinct,
}
use rttx.Common.Dict.{
  Dict, get, insert, remove, keys, contains-keys, contains-keys-insert, insert-IsDistinct,
  remove-IsDistinct,
}
use rttx.Common.Float.{F32}
use rttx.Pane.{Engine, Pane}
use rttx.PaneTree.{SplitAxis, Side}
use rttx.PaneTree.Remove.{panes_of}
use rttx.WorkspaceTree.{WorkspaceTree, CloseOutcome, removed, emptied, not_found, is_active}
use rttx.WorkspaceTree
use rttx.WorkspaceTree.Valid.{
  IsValid, split_pane-IsValid, close-IsValid, set_default_active-IsValid,
}
use rttx.WorkspaceTree.Resize.{resize_split-IsValid, resize_split-ResizesSplit}
use rttx.WorkspaceTree.View.{
  view, active_after, split_pane-view, close-view, set_default_active-view,
}
use rttx.Workspace.{Workspace, new}
use rttx.Workspace.Panes.{add_pane, split_pane, remove_pane, resize_split, set_default_active_pane}
use rttx.Workspace.Panes.Adds.{
  insert_pane_into_tree-Adds, focus_or_present, contains-erase, contains-keys-remove,
  focus_of-outcome,
}

-- Every pane stands under its own id.
abbrev pub IsKeyed : {e : Engine} → Dict (Pane e) → Type 0
IsKeyed [] = Unit {0}
IsKeyed ((id, p) ∷ d) = (p.id ≡ id) × IsKeyed d

pub insert-IsKeyed :
    {e : Engine} (d : Dict (Pane e)) (id : Uuid) (p : Pane e)
    → p.id ≡ id
    → IsKeyed d
    → IsKeyed (insert d id p)
unfolding insert
insert-IsKeyed [] id p h k = (h, tt)
insert-IsKeyed ((j, q) ∷ d) id p h k = ground (arith, insert-IsKeyed d id p h k.1)

pub id-get :
    {e : Engine} (d : Dict (Pane e)) (id : Uuid) (p : Pane e)
    → IsKeyed d
    → get d id ≡ some p
    → p.id ≡ id
unfolding get
id-get [] id p k h = cc
id-get ((j, q) ∷ d) id p k h = ground (arith, id-get d id p k.1)

remove-IsKeyed : {e : Engine} (d : Dict (Pane e)) (id : Uuid) → IsKeyed d → IsKeyed (remove d id)
unfolding remove
remove-IsKeyed [] id k = tt
remove-IsKeyed ((j, q) ∷ d) id k = ground (arith, remove-IsKeyed d id k.1)

-- The tree is valid, the map holds the tree's panes and no others, each once
-- under its own id, and the live focus is the tree's default-active pane.
pub record IsCoherent {e : Engine} (w : Workspace e) : Type 0 where
  pub valid : IsValid w.tree
  pub distinct : IsDistinct (keys w.panes)
  pub same_panes : (id : Uuid) → contains (keys w.panes) id ≡ contains (panes_of w.tree.root) id
  pub same_focus : w.active_pane_id ≡ w.tree.default_active
  pub keyed : IsKeyed w.panes

pub new-IsCoherent : (e : Engine) (id now : ℕ) (name : List ℕ) → IsCoherent (new e id now name)
unfolding new WorkspaceTree.new
new-IsCoherent e id now name = record {
  valid = record { distinct = tt; ratios = tt; active = tt };
  distinct = tt;
  same_panes = λ i. refl;
  same_focus = refl;
  keyed = tt;
}

module _ {e : Engine} where
  pub resize_split-IsCoherent :
      (w : Workspace e) (path : List Side) (ratio : F32)
      → IsCoherent w
      → IsCoherent (resize_split w path ratio).0
  unfolding resize_split
  resize_split-IsCoherent w path ratio c =
      let h = resize_split-ResizesSplit w.tree path ratio in
      let v = resize_split-IsValid w.tree path ratio c.valid in
      ground (arith, h.same_panes, h.same_active, v)

  pub set_default_active_pane-IsCoherent :
      (w : Workspace e) (id : Uuid) → IsCoherent w → IsCoherent (set_default_active_pane w id).0
  unfolding set_default_active_pane
  set_default_active_pane-IsCoherent w id c =
      let q = set_default_active-view w.tree id in
      let v = set_default_active-IsValid w.tree id c.valid in
      let p = ap (λ x. x.0.panes) q in
      let a = ap (λ x. x.0.active) q in
      let r = ap (λ x. x.1) q in
      record {
        valid = ground (arith, v);
        distinct = ground (arith, c.distinct);
        same_panes = λ i. ground (arith, p, c.same_panes i);
        same_focus = ground (arith, a, r, c.same_focus);
        keyed = ground (arith, c.keyed);
      }

  pub add_pane-IsCoherent :
      (w : Workspace e) (pane : Pane e) → IsCoherent w → IsCoherent (add_pane w pane)
  unfolding add_pane
  add_pane-IsCoherent w pane c =
      let h = insert_pane_into_tree-Adds w.tree.root w.tree.default_active pane.id c.valid in
      record {
        valid = rw c.same_focus h.0;
        distinct = insert-IsDistinct w.panes pane.id pane c.distinct;
        same_panes = λ i.
            rw (c.same_focus, h.1 i, contains-keys-insert w.panes pane.id i pane, c.same_panes i);
        same_focus = rw c.same_focus (sym h.2);
        keyed = insert-IsKeyed w.panes pane.id pane refl c.keyed;
      }

  pub split_pane-IsCoherent :
      (w : Workspace e) (target : Uuid) (pane : Pane e) (axis : SplitAxis) (ratio : F32)
      → IsCoherent w
      → IsCoherent (split_pane w target pane axis ratio).0
  unfolding split_pane
  split_pane-IsCoherent w target pane axis ratio c =
      let r = WorkspaceTree.split_pane w.tree target pane.id axis ratio in
      let q = split_pane-view w.tree target pane.id axis ratio in
      let v = split_pane-IsValid w.tree target pane.id axis ratio c.valid in
      elim (Bool-cases r.1) [
        | inr refused ↦ rw refused c
        | inl done ↦ rw done (record {
          valid = v;
          distinct = insert-IsDistinct w.panes pane.id pane c.distinct;
          same_panes = λ i. ground (
            arith,
            ap (λ x. x.0.panes) q,
            ap (λ x. x.1) q,
            contains-insert_after target pane.id i (panes_of w.tree.root),
            contains-keys-insert w.panes pane.id i pane,
            c.same_panes i,
          );
          same_focus = ground (
            arith,
            ap (λ x. x.0.active) q,
            ap (λ x. x.1) q,
            c.same_focus,
            focus_or_present w.tree.root w.tree.default_active target pane.id,
            c.valid.active,
          );
          keyed = insert-IsKeyed w.panes pane.id pane refl c.keyed;
        })
      ]

  pub remove_pane-IsCoherent :
      (w : Workspace e) (id : Uuid) → IsCoherent w → IsCoherent (remove_pane w id).0
  unfolding remove_pane
  remove_pane-IsCoherent w id c =
      let q = close-view w.tree id c.valid in
      elim (Bool-cases (is_some (get w.panes id))) [
        | inr unknown ↦ rw unknown c
        | inl known ↦
            let there : contains (panes_of w.tree.root) id ≡ true =
              sym (c.same_panes id) ∙ contains-keys w.panes id ∙ known in
            rw known (record {
              valid = close-IsValid w.tree id c.valid;
              distinct = remove-IsDistinct w.panes id c.distinct;
              same_panes = λ i. ground (
                arith,
                ap (λ x. x.0.panes) q,
                contains-erase id i (panes_of w.tree.root) c.valid.distinct,
                contains-keys-remove w.panes id i c.distinct,
                c.same_panes i,
              );
              same_focus = ground (
                arith,
                ap (λ x. x.0.active) q,
                ap (λ x. x.1) q,
                c.same_focus,
                focus_of-outcome (active_after (view w.tree) id),
              );
              keyed = remove-IsKeyed w.panes id c.keyed;
            })
      ]
