-- ===== src/PaneTree/Remove.antt =====
-- services/rttx-server/src/pane_tree.rs: `remove_from` erases the pane from the panes in order.
use rttx.Common.{
  ◌≡◌, ap, true, false, Option, none, some, List, [], arith, contains, contains-append, erase,
  erase-append, append-nil,
}
use rttx.Common.Float.{F32}
use rttx.PaneTree.{
  PaneTree, PaneId, SplitAxis, Removal, not_found, removed, leaf, split, split_leaf, remove_from,
  remove_first, remove_second,
}
use rttx.PaneTree.Leaves.{leaves, split_leaf-found, split_leaf-absent}

-- The panes that a removal leaves.
abbrev pub panes_of : Option PaneTree → List PaneId
panes_of none = []
panes_of (some t) = leaves t

-- What a removal of `pane` from `t` may return.
abbrev pub Removes : PaneTree → PaneId → Removal → Type 0
Removes t pane (not_found u) = (contains (leaves t) pane ≡ false) × (u ≡ t)
Removes t pane (removed rest) =
    (contains (leaves t) pane ≡ true) × (panes_of rest ≡ erase pane (leaves t))

-- The tree that a removal hands back.
abbrev pub tree_of : Removal → Option PaneTree
tree_of (not_found t) = some t
tree_of (removed rest) = rest

module _ (axis : SplitAxis) (ratio : F32) (f s : PaneTree) (pane : PaneId) where
  remove_second-Removes :
      (o : Removal)
      → contains (leaves f) pane ≡ false
      → Removes s pane o
      → Removes (split axis ratio f s) pane (remove_second axis ratio f o)
  unfolding remove_second
  remove_second-Removes (not_found u) h r =
      ground (arith, contains-append (leaves f) (leaves s) pane)
  remove_second-Removes (removed none) h r = ground (
    arith,
    contains-append (leaves f) (leaves s) pane,
    erase-append pane (leaves f) (leaves s),
    append-nil (leaves f),
  )
  remove_second-Removes (removed (some u)) h r =
      ground
        (arith, contains-append (leaves f) (leaves s) pane, erase-append pane (leaves f) (leaves s))

  remove_first-Removes :
      (o q : Removal)
      → Removes f pane o
      → Removes s pane q
      → Removes (split axis ratio f s) pane (remove_first axis ratio s o q)
  unfolding remove_first
  remove_first-Removes (not_found u) q r k = rw (r.1) (remove_second-Removes q r.0 k)
  remove_first-Removes (removed none) q r k =
      ground
        (arith, contains-append (leaves f) (leaves s) pane, erase-append pane (leaves f) (leaves s))
  remove_first-Removes (removed (some u)) q r k =
      ground
        (arith, contains-append (leaves f) (leaves s) pane, erase-append pane (leaves f) (leaves s))

pub remove_from-Removes : (t : PaneTree) (pane : PaneId) → Removes t pane (remove_from t pane)
unfolding remove_from
remove_from-Removes (leaf p) pane = ground arith
remove_from-Removes (split axis ratio f s) pane =
    remove_first-Removes axis ratio f s pane (remove_from f pane) (remove_from s pane)
      (remove_from-Removes f pane) (remove_from-Removes s pane)

-- Removing a pane that is not there hands the tree back.
pub remove_from-absent :
    (t : PaneTree) (pane : PaneId)
    → contains (leaves t) pane ≡ false
    → remove_from t pane ≡ not_found t
remove_from-absent t pane h = absent (remove_from t pane) (remove_from-Removes t pane)
  where
    absent : (o : Removal) → Removes t pane o → o ≡ not_found t
    absent (not_found u) r = ap not_found r.1
    absent (removed rest) r = cc

-- Removing the pane that a split put in undoes the split.
pub remove_from-split_leaf :
    (t : PaneTree) (target new_pane : PaneId) (axis : SplitAxis) (ratio : F32)
    → contains (leaves t) target ≡ true
    → contains (leaves t) new_pane ≡ false
    → remove_from (split_leaf t target new_pane axis ratio).0 new_pane ≡ removed (some t)
unfolding split_leaf remove_from
remove_from-split_leaf (leaf p) target new_pane axis ratio h k = ground arith
remove_from-split_leaf (split a r f s) target new_pane axis ratio h k = ground (
  arith,
  contains-append (leaves f) (leaves s) target,
  contains-append (leaves f) (leaves s) new_pane,
  split_leaf-found target new_pane axis ratio f,
  split_leaf-found target new_pane axis ratio s,
  split_leaf-absent target new_pane axis ratio f,
  remove_from-absent f new_pane,
  remove_from-absent s new_pane,
  remove_from-split_leaf f target new_pane axis ratio,
  remove_from-split_leaf s target new_pane axis ratio,
)
