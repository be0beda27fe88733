-- ===== src/PaneTree.antt =====
-- services/rttx-server/src/pane_tree.rs: the pane tree of a workspace, its nodes and their walks.
-- A `Box` or a `&mut` leaves no trace: a function that changes a tree returns the new one. A mutable
-- reference to a node is the node with the function that writes it back.
pub mod Leaves
pub mod Ratio
pub mod Remove
use rttx.Common.{
  ℕ, Uuid, Bool, true, false, ◌&&◌, Option, none, some, List, [], ◌∷◌, ◌++◌, ◌==◌, if◌then◌else◌,
}
use rttx.Common.Float.{F32, is_finite, lt, zero_f32, one_f32}

abbrev pub PaneId : Type 0
PaneId = Uuid

pub data SplitAxis : Type 0 where
  horizontal vertical : SplitAxis

pub data Side : Type 0 where
  first second : Side

pub data PaneTree : Type 0 where
  leaf : PaneId → PaneTree
  split : SplitAxis → F32 → PaneTree → PaneTree → PaneTree

unfoldable pub ratio_is_valid : F32 → Bool
ratio_is_valid ratio = is_finite ratio && lt zero_f32 ratio && lt ratio one_f32

-- `out` is the vector that the walk pushes to.
unfoldable pub collect : PaneTree → List PaneId → List PaneId
collect (leaf pane) out = out ++ pane ∷ []
collect (split axis ratio f s) out = collect s (collect f out)

unfoldable pub first_leaf : PaneTree → PaneId
first_leaf (leaf pane) = pane
first_leaf (split axis ratio f s) = first_leaf f

-- The tree after the call, and what it returns.
unfoldable pub split_leaf : PaneTree → PaneId → PaneId → SplitAxis → F32 → PaneTree × Bool
split_leaf (leaf pane) target new_pane axis ratio =
    if pane == target
    then (split axis ratio (leaf target) (leaf new_pane), true)
    else (leaf pane, false)
split_leaf (split a r f s) target new_pane axis ratio =
    let (f', in_first) = split_leaf f target new_pane axis ratio in
    let (s', in_second) = split_leaf s target new_pane axis ratio in
    if in_first then (split a r f' s, true) else (split a r f' s', in_second)

-- A `&mut PaneTree` into a tree.
pub record NodeRef : Type 0 where
  pub node : PaneTree
  pub write : PaneTree → PaneTree

unfoldable pub under_first : SplitAxis → F32 → PaneTree → Option NodeRef → Option NodeRef
under_first a r s none = none
under_first a r s (some n) = some (record { node = n.node; write = λ t. split a r (n.write t) s })

unfoldable pub under_second : SplitAxis → F32 → PaneTree → Option NodeRef → Option NodeRef
under_second a r f none = none
under_second a r f (some n) = some (record { node = n.node; write = λ t. split a r f (n.write t) })

unfoldable pub node_at_mut : PaneTree → List Side → Option NodeRef
unfolding under_first under_second
node_at_mut t [] = some (record { node = t; write = λ u. u })
node_at_mut (leaf pane) (side ∷ rest) = none
node_at_mut (split a r f s) (first ∷ rest) = under_first a r s (node_at_mut f rest)
node_at_mut (split a r f s) (second ∷ rest) = under_second a r f (node_at_mut s rest)

pub data Removal : Type 0 where
  not_found : PaneTree → Removal
  removed : Option PaneTree → Removal

-- The match on the second child's removal, once the first child turned out not to hold the pane.
unfoldable pub remove_second : SplitAxis → F32 → PaneTree → Removal → Removal
remove_second axis ratio orig_first (removed none) = removed (some orig_first)
remove_second axis ratio orig_first (removed (some new_second)) =
    removed (some (split axis ratio orig_first new_second))
remove_second axis ratio orig_first (not_found orig_second) =
    not_found (split axis ratio orig_first orig_second)

-- The match on the first child's removal.
unfoldable pub remove_first : SplitAxis → F32 → PaneTree → Removal → Removal → Removal
unfolding remove_second
remove_first axis ratio s (removed none) in_second = removed (some s)
remove_first axis ratio s (removed (some new_first)) in_second =
    removed (some (split axis ratio new_first s))
remove_first axis ratio s (not_found orig_first) in_second =
    remove_second axis ratio orig_first in_second

unfoldable pub remove_from : PaneTree → PaneId → Removal
unfolding remove_first
remove_from (leaf pane) target = if pane == target then removed none else not_found (leaf pane)
remove_from (split axis ratio f s) target =
    remove_first axis ratio s (remove_from f target) (remove_from s target)
