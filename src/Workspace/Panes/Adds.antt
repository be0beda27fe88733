-- ===== src/Workspace/Panes/Adds.antt =====
-- services/rttx-server/src/workspace.rs: what bringing a pane into the tree does, and lemmas on the
-- focus and the panes that the coherence proofs share.
use rttx.Common.{
  ◌≡◌, refl, ap, inl, inr, arith, Uuid, ◌==◌, true, false, ◌||◌, Option, none, some, List,
  if◌then◌else◌, Bool-cases, contains, erase, contains-erase_ne, contains-erase_self,
  contains-insert_after, IsDistinct,
}
use rttx.Common.Dict.{Dict, remove, keys, contains-keys, get-remove}
use rttx.Common.Float.{F32}
use rttx.PaneTree.Leaves.{leaves}
use rttx.PaneTree.{PaneTree, PaneId, SplitAxis, ratio_is_valid}
use rttx.PaneTree.Remove.{panes_of}
use rttx.WorkspaceTree.{WorkspaceTree, CloseOutcome, removed, emptied, not_found, is_active}
use rttx.WorkspaceTree
use rttx.WorkspaceTree.Valid.{
  IsValid, ActiveIsPresent, contains_pane-eq, split_pane_old, insert_root-IsValid,
  split_pane-IsValid,
}
use rttx.WorkspaceTree.View.{outcome_view, split_pane-view}
use rttx.Workspace.{default_split_axis, default_split_ratio}
use rttx.Workspace.Panes.{insert_pane_into_tree, focus_or, focus_of}

pub half_is_valid : ratio_is_valid default_split_ratio ≡ true
unfolding ratio_is_valid
half_is_valid = refl

-- What bringing a pane in does to a tree.
abbrev pub Adds : WorkspaceTree → PaneId → WorkspaceTree → Type 0
Adds t id t' =
    IsValid t'
    × ((j : PaneId) → contains (panes_of t'.root) j ≡ (id == j || contains (panes_of t.root) j))
    × (t'.default_active ≡ focus_or t.default_active id)

pub contains_same :
    (xs : List PaneId) (id : PaneId)
    → contains xs id ≡ true
    → (j : PaneId) → contains xs j ≡ (id == j || contains xs j)
contains_same xs id h j = elim (Bool-cases (id == j)) [
  | inl same ↦ let e : id ≡ j = ground arith in rw same (rw e at h)
  | inr other ↦ rw other
]

pub split_pane-Adds :
    (t : WorkspaceTree) (a id : PaneId) (axis : SplitAxis) (ratio : F32)
    → IsValid t
    → t.default_active ≡ some a
    → contains (panes_of t.root) a ≡ true
    → contains (panes_of t.root) id ≡ false
    → ratio_is_valid ratio ≡ true
    → Adds t id (WorkspaceTree.split_pane t a id axis ratio).0
split_pane-Adds t a id axis ratio v d h k r =
    let q = split_pane-view t a id axis ratio in
    let panes = ap (λ x. x.0.panes) q in
    (
      split_pane-IsValid t a id axis ratio v,
      λ j. ground (arith, panes, contains-insert_after a id j (panes_of t.root)),
      ground (arith, ap (λ x. x.0.active) q),
    )

pub insert_rooted :
    (root : PaneTree) (a id : PaneId)
    → contains (leaves root) a ≡ true
    → let t : WorkspaceTree = record { root = some root; default_active = some a } in
      insert_pane_into_tree t (some a) id
      ≡ (WorkspaceTree.split_pane t a id default_split_axis default_split_ratio).0
unfolding insert_pane_into_tree WorkspaceTree.insert_root
insert_rooted root a id h =
    ground (arith, contains_pane-eq (record { root = some root; default_active = some a }) a)

pub insert_empty :
    (id : PaneId)
    → insert_pane_into_tree (record { root = none; default_active = none }) none id
      ≡ (WorkspaceTree.insert_root (record { root = none; default_active = none }) id).0
unfolding insert_pane_into_tree WorkspaceTree.insert_root
insert_empty id = refl

-- By the root and the default-active pane of the tree, which is the live focus.
pub insert_pane_into_tree-Adds :
    (root : Option PaneTree) (active : Option PaneId) (id : PaneId)
    → IsValid (record { root = root; default_active = active })
    → let t : WorkspaceTree = record { root = root; default_active = active } in
      Adds t id (insert_pane_into_tree t active id)
unfolding WorkspaceTree.insert_root
insert_pane_into_tree-Adds none none id v =
    rw (insert_empty id)
      (insert_root-IsValid (record { root = none; default_active = none }) id v, λ j. refl, refl)
insert_pane_into_tree-Adds none (some a) id v = absurd v.active
insert_pane_into_tree-Adds (some root) none id v = absurd v.active
insert_pane_into_tree-Adds (some root) (some a) id v =
    let t : WorkspaceTree = record { root = some root; default_active = some a } in
    rw (insert_rooted root a id v.active) (elim (Bool-cases (contains (leaves root) id)) [
      | inl old ↦
          rw (split_pane_old t a id default_split_axis default_split_ratio old)
            (v, contains_same (leaves root) id old, refl)
      | inr fresh ↦
          split_pane-Adds t a id default_split_axis default_split_ratio v refl v.active fresh
            half_is_valid
    ])

pub focus_of-outcome : (o : Option Uuid) → focus_of (outcome_view o) ≡ o
focus_of-outcome none = refl
focus_of-outcome (some a) = refl

-- Where a pane is there, some pane has the focus.
pub focus_or_present :
    (root : Option PaneTree) (active : Option PaneId) (p id : PaneId)
    → ActiveIsPresent root active
    → contains (panes_of root) p ≡ true
    → focus_or active id ≡ active
focus_or_present none none p id v h = cc
focus_or_present none (some a) p id v h = absurd v
focus_or_present (some root) none p id v h = absurd v
focus_or_present (some root) (some a) p id v h = refl

pub contains-erase :
    (p q : PaneId) (xs : List PaneId)
    → IsDistinct xs
    → contains (erase p xs) q ≡ (if p == q then false else contains xs q)
contains-erase p q xs d = elim (Bool-cases (p == q)) [
  | inl same ↦ let e : p ≡ q = ground arith in rw (same, ← e) (contains-erase_self p xs d)
  | inr other ↦ rw (other, contains-erase_ne p q xs (λ e. ground arith))
]

pub contains-keys-remove {ℓ} :
    {V : Type ℓ} (d : Dict V) (k j : Uuid)
    → IsDistinct (keys d)
    → contains (keys (remove d k)) j ≡ (if k == j then false else contains (keys d) j)
contains-keys-remove d k j h =
    ground (arith, contains-keys (remove d k) j, contains-keys d j, get-remove d k j h)
