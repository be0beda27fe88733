-- ===== src/WorkspaceTree.antt =====
-- services/rttx-server/src/pane_tree.rs: `WorkspaceTree`, the pane tree with its default-active pane.
-- A method that changes the tree returns the new one with its result.
pub mod Valid
pub mod Validate
pub mod Resize
pub mod View
pub mod Run
use rttx.Common.{
  ℕ, ◌==◌, Bool, true, false, not, ◌||◌, Option, none, some, List, [], ◌∷◌, ◌++◌, length, contains,
  if◌then◌else◌, is_some, Result, ok, err, and_then,
}
use rttx.Common.Float.{F32}
use rttx.PaneTree.{
  PaneId, SplitAxis, Side, PaneTree, leaf, split, ratio_is_valid, collect, first_leaf, split_leaf,
  NodeRef, node_at_mut, Removal, remove_from,
}

pub data CloseOutcome : Type 0 where
  removed : PaneId → CloseOutcome
  emptied : CloseOutcome
  not_found : CloseOutcome

pub data TreeInvariant : Type 0 where
  duplicate_pane : PaneId → TreeInvariant
  invalid_ratio : TreeInvariant
  default_active_mismatch : TreeInvariant

pub record WorkspaceTree : Type 0 where
  pub root : Option PaneTree
  pub default_active : Option PaneId

unfoldable pub new : WorkspaceTree
new = record { root = none; default_active = none }

unfoldable pub is_empty : WorkspaceTree → Bool
is_empty w = not (is_some w.root)

unfoldable pub panes : WorkspaceTree → List PaneId
panes w = elim w.root [ none ↦ [] | some root ↦ collect root [] ]

unfoldable pub leaf_count : WorkspaceTree → ℕ
leaf_count w = length (panes w)

unfoldable pub contains_pane : WorkspaceTree → PaneId → Bool
contains_pane w pane = contains (panes w) pane

unfoldable pub insert_root : WorkspaceTree → PaneId → WorkspaceTree × Bool
insert_root w pane =
    if is_some w.root
    then (w, false)
    else (record { root = some (leaf pane); default_active = some pane }, true)

-- `self.root.as_mut().is_some_and(|root| root.split_leaf(..))`
unfoldable pub split_root :
    WorkspaceTree → Option PaneTree → PaneId → PaneId → SplitAxis → F32 → WorkspaceTree × Bool
split_root w none target new_pane axis ratio = (w, false)
split_root w (some root) target new_pane axis ratio =
    let (root', done) = split_leaf root target new_pane axis ratio in
    (record w { root = some root' }, done)

unfoldable pub split_pane : WorkspaceTree → PaneId → PaneId → SplitAxis → F32 → WorkspaceTree × Bool
unfolding split_root
split_pane w target new_pane axis ratio =
    if not (ratio_is_valid ratio) || contains_pane w new_pane || not (contains_pane w target)
    then (w, false)
    else split_root w w.root target new_pane axis ratio

-- `self.default_active == Some(pane)`
abbrev pub is_active : Option PaneId → PaneId → Bool
is_active none pane = false
is_active (some a) pane = a == pane

abbrev pub unwrap_or : Option PaneId → PaneId → PaneId
unwrap_or none d = d
unwrap_or (some a) d = a

-- The match on the removal.
unfoldable pub close_with : WorkspaceTree → PaneId → Removal → WorkspaceTree × CloseOutcome
close_with w pane (Removal.not_found unchanged) = (record w { root = some unchanged }, not_found)
close_with w pane (Removal.removed none) = (record { root = none; default_active = none }, emptied)
close_with w pane (Removal.removed (some new_root)) =
    let active : PaneId =
      if is_active w.default_active pane
      then first_leaf new_root
      else unwrap_or w.default_active (first_leaf new_root) in
    (record { root = some new_root; default_active = some active }, removed active)

-- `let Some(root) = self.root.take() else { return NotFound }`
unfoldable pub close_rooted :
    WorkspaceTree → Option PaneTree → PaneId → WorkspaceTree × CloseOutcome
unfolding close_with
close_rooted w none pane = (w, not_found)
close_rooted w (some root) pane = close_with w pane (remove_from root pane)

unfoldable pub close : WorkspaceTree → PaneId → WorkspaceTree × CloseOutcome
unfolding close_rooted
close w pane = close_rooted w w.root pane

-- `Some(PaneTree::Split { ratio: slot, .. }) => *slot = ratio`
unfoldable pub write_ratio : NodeRef → PaneTree → F32 → Option PaneTree
write_ratio ref (leaf pane) ratio = none
write_ratio ref (split axis slot f s) ratio = some (ref.write (split axis ratio f s))

unfoldable pub write_at : Option NodeRef → F32 → Option PaneTree
unfolding write_ratio
write_at none ratio = none
write_at (some ref) ratio = write_ratio ref ref.node ratio

unfoldable pub resize_root : PaneTree → List Side → F32 → Option PaneTree
unfolding write_at
resize_root root path ratio = write_at (node_at_mut root path) ratio

-- The tree with the root that was written, if one was.
unfoldable pub store_root : WorkspaceTree → Option PaneTree → WorkspaceTree × Bool
store_root w none = (w, false)
store_root w (some root') = (record w { root = some root' }, true)

-- `let Some(root) = self.root.as_mut() else { return false }`, and the match on the node.
unfoldable pub resize_rooted :
    WorkspaceTree → Option PaneTree → List Side → F32 → WorkspaceTree × Bool
unfolding store_root resize_root
resize_rooted w none path ratio = (w, false)
resize_rooted w (some root) path ratio = store_root w (resize_root root path ratio)

unfoldable pub resize_split : WorkspaceTree → List Side → F32 → WorkspaceTree × Bool
unfolding resize_rooted
resize_split w path ratio =
    if not (ratio_is_valid ratio) then (w, false) else resize_rooted w w.root path ratio

unfoldable pub set_default_active : WorkspaceTree → PaneId → WorkspaceTree × Bool
set_default_active w pane =
    if not (contains_pane w pane)
    then (w, false)
    else (record w { default_active = some pane }, true)

-- `seen` is the vector that the walk pushes to.
unfoldable pub validate_node : PaneTree → List PaneId → Result (List PaneId) TreeInvariant
validate_node (leaf pane) seen =
    if contains seen pane then err (duplicate_pane pane) else ok (seen ++ pane ∷ [])
validate_node (split axis ratio f s) seen =
    if not (ratio_is_valid ratio)
    then err invalid_ratio
    else and_then (validate_node f seen) (validate_node s)

unfoldable pub validate_active : List PaneId → Option PaneId → Result (Unit {0}) TreeInvariant
validate_active seen none = err default_active_mismatch
validate_active seen (some active) =
    if contains seen active then ok tt else err default_active_mismatch

-- The checks behind `let Some(root) = &self.root else { .. }`.
unfoldable pub validate_root : Option PaneTree → Option PaneId → Result (Unit {0}) TreeInvariant
unfolding validate_active
validate_root none active = if is_some active then err default_active_mismatch else ok tt
validate_root (some root) active =
    and_then (validate_node root []) (λ seen. validate_active seen active)

unfoldable pub validate : WorkspaceTree → Result (Unit {0}) TreeInvariant
unfolding validate_root
validate w = validate_root w.root w.default_active
