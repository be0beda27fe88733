-- ===== src/PaneTree/Leaves.antt =====
-- services/rttx-server/src/pane_tree.rs: what the walks do to the panes of a tree, left to right.
use rttx.Common.{
  ◌≡◌, refl, ◌∙◌, true, false, some, List, [], ◌∷◌, ◌++◌, append_assoc, arith, contains,
  contains-append, insert_after, insert_after-append, get_elem?, length, length-append, ◌<◌,
  get_elem?-append_left,
}
use rttx.Common.Float.{F32}
use rttx.PaneTree.{PaneTree, PaneId, SplitAxis, leaf, split, collect, first_leaf, split_leaf}

-- The panes in order, by plain recursion.
abbrev pub leaves : PaneTree → List PaneId
leaves (leaf pane) = pane ∷ []
leaves (split axis ratio f s) = leaves f ++ leaves s

pub collect-eq : (t : PaneTree) (out : List PaneId) → collect t out ≡ out ++ leaves t
unfolding collect
collect-eq (leaf pane) out = refl
collect-eq (split axis ratio f s) out =
    rw (collect-eq f out, collect-eq s (out ++ leaves f)) (append_assoc out (leaves f) (leaves s))

pub leaves_pos : (t : PaneTree) → 0 < length (leaves t)
leaves_pos (leaf pane) = omega arith
leaves_pos (split axis ratio f s) = omega (arith, length-append (leaves f) (leaves s), leaves_pos f)

pub first_leaf-head : (t : PaneTree) → get_elem? (leaves t) 0 ≡ some (first_leaf t)
unfolding first_leaf
first_leaf-head (leaf pane) = refl
first_leaf-head (split axis ratio f s) =
    get_elem?-append_left (leaves f) (leaves s) 0 (leaves_pos f) ∙ first_leaf-head f

pub contains-first_leaf : (t : PaneTree) → contains (leaves t) (first_leaf t) ≡ true
unfolding first_leaf
contains-first_leaf (leaf pane) = ground arith
contains-first_leaf (split axis ratio f s) =
    ground (arith, contains-append (leaves f) (leaves s) (first_leaf f), contains-first_leaf f)

module _ (target new_pane : PaneId) (axis : SplitAxis) (ratio : F32) where
  -- `split_leaf` returns whether the target is there.
  pub split_leaf-found :
      (t : PaneTree) → (split_leaf t target new_pane axis ratio).1 ≡ contains (leaves t) target
  unfolding split_leaf
  split_leaf-found (leaf pane) = ground arith
  split_leaf-found (split a r f s) =
      ground (
        arith,
        split_leaf-found f,
        split_leaf-found s,
        contains-append (leaves f) (leaves s) target,
      )

  pub split_leaf-absent :
      (t : PaneTree)
      → contains (leaves t) target ≡ false
      → (split_leaf t target new_pane axis ratio).0 ≡ t
  unfolding split_leaf
  split_leaf-absent (leaf pane) h = ground arith
  split_leaf-absent (split a r f s) h = ground (
    arith,
    split_leaf-found f,
    split_leaf-found s,
    contains-append (leaves f) (leaves s) target,
    split_leaf-absent f,
    split_leaf-absent s,
  )

  pub leaves-split_leaf :
      (t : PaneTree)
      → leaves (split_leaf t target new_pane axis ratio).0 ≡ insert_after target new_pane (leaves t)
  unfolding split_leaf
  leaves-split_leaf (leaf pane) = ground arith
  leaves-split_leaf (split a r f s) = ground (
    arith,
    split_leaf-found f,
    split_leaf-absent f,
    insert_after-append target new_pane (leaves f) (leaves s),
    leaves-split_leaf f,
    leaves-split_leaf s,
  )
