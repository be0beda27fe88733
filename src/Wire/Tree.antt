-- ===== src/Wire/Tree.antt =====
-- The pane tree on the wire, from the daemon's tree to the client's layout:
-- protocols/rttx-proto/src/v3_tree.rs, services/rttx-server/src/protocol.rs and
-- clients/rttx/src/workspace/tree.rs.
pub mod View
pub mod Paths
use rttx.Common.{
  ℕ, Bool, true, false, Option, none, some, List, [], ◌∷◌, ◌==◌, if◌then◌else◌, Uuid, Result, ok,
  err,
}
use rttx.Common.Float.{F32}
use rttx.Common.Double.{F64, f64_from, clamp}
use rttx.PaneTree.{PaneTree, leaf, split, SplitAxis, Side, first, second}
use rttx.WorkspaceTree.{WorkspaceTree}
use rttx.Layout.{LayoutNode, terminal, split_node, SplitOrientation}
use rttx.Wire.Uuids.{FrameError, UuidLib, uuid_to_bytes, bytes_to_uuid}

-- `PaneTreeNode { node: Option<Node> }`; the children of a split are messages that may be missing.
mutual
  pub data PaneTreeNode : Type 0 where
    empty_node : PaneTreeNode
    leaf_node : List ℕ → PaneTreeNode
    split_of : ℕ → F32 → Child → Child → PaneTreeNode

  pub data Child : Type 0 where
    missing : Child
    present : PaneTreeNode → Child

pub data PaneSplitAxis : Type 0 where
  unspecified_axis horizontal_axis vertical_axis : PaneSplitAxis

pub data PaneTreeSide : Type 0 where
  unspecified_side first_side second_side : PaneTreeSide

-- `axis as i32`
unfoldable pub axis_number : PaneSplitAxis → ℕ
axis_number unspecified_axis = 0
axis_number horizontal_axis = 1
axis_number vertical_axis = 2

-- `PaneSplitAxis::try_from`
unfoldable pub axis_from : ℕ → Option PaneSplitAxis
axis_from n =
    if n == 0
    then some unspecified_axis
    else (if n == 1 then some horizontal_axis else (if n == 2 then some vertical_axis else none))

-- `PaneTreeSide::try_from`
unfoldable pub side_from : ℕ → Option PaneTreeSide
side_from n =
    if n == 0
    then some unspecified_side
    else (if n == 1 then some first_side else (if n == 2 then some second_side else none))

unfoldable pub split_axis_to_proto : SplitAxis → PaneSplitAxis
split_axis_to_proto SplitAxis.horizontal = horizontal_axis
split_axis_to_proto SplitAxis.vertical = vertical_axis

unfoldable pub proto_axis_to_split : PaneSplitAxis → SplitAxis
proto_axis_to_split unspecified_axis = SplitAxis.horizontal
proto_axis_to_split horizontal_axis = SplitAxis.horizontal
proto_axis_to_split vertical_axis = SplitAxis.vertical

unfoldable pub orientation_from : Option PaneSplitAxis → SplitOrientation
orientation_from (some vertical_axis) = SplitOrientation.vertical
orientation_from _ = SplitOrientation.horizontal

unfoldable pub orientation_from_axis : ℕ → SplitOrientation
unfolding orientation_from axis_from
orientation_from_axis axis = orientation_from (axis_from axis)

-- 0.05 and 0.95
abbrev pub min_ratio : F64
min_ratio = 0x3fa999999999999a

abbrev pub max_ratio : F64
max_ratio = 0x3fee666666666666

unfoldable pub pane_tree_split : PaneSplitAxis → F32 → PaneTreeNode → PaneTreeNode → PaneTreeNode
unfolding axis_number
pane_tree_split axis ratio f s = split_of (axis_number axis) ratio (present f) (present s)

-- The match on the two children's layouts.
unfoldable pub join_layouts : ℕ → F32 → Option LayoutNode → Option LayoutNode → Option LayoutNode
unfolding orientation_from_axis f64_from clamp
join_layouts axis ratio (some f) (some s) =
    some (split_node (orientation_from_axis axis) (clamp (f64_from ratio) min_ratio max_ratio) f s)
join_layouts axis ratio (some only) none = some only
join_layouts axis ratio none (some only) = some only
join_layouts axis ratio none none = none

module _ (lib : UuidLib) where
  unfoldable pub pane_tree_leaf : Uuid → PaneTreeNode
  unfolding uuid_to_bytes
  pane_tree_leaf pane_id = leaf_node (uuid_to_bytes lib pane_id)

  unfoldable pub pane_tree_to_proto : PaneTree → PaneTreeNode
  unfolding pane_tree_leaf pane_tree_split split_axis_to_proto
  pane_tree_to_proto (leaf pane) = pane_tree_leaf pane
  pane_tree_to_proto (split axis ratio f s) =
      pane_tree_split (split_axis_to_proto axis) ratio (pane_tree_to_proto f) (pane_tree_to_proto s)

  unfoldable pub tree_of_root : Option PaneTree → Option PaneTreeNode
  unfolding pane_tree_to_proto
  tree_of_root none = none
  tree_of_root (some root) = some (pane_tree_to_proto root)

  unfoldable pub workspace_tree_to_proto : WorkspaceTree → Option PaneTreeNode
  unfolding tree_of_root
  workspace_tree_to_proto tree = tree_of_root tree.root

  unfoldable pub terminal_for : Result Uuid FrameError → Option LayoutNode
  terminal_for (ok pane_id) = some (terminal (lib.to_string pane_id) none none none)
  terminal_for (err e) = none

  unfoldable pub leaf_layout : List ℕ → Option LayoutNode
  unfolding bytes_to_uuid terminal_for
  leaf_layout pane_id = terminal_for (bytes_to_uuid lib pane_id)

  -- `split_layout` is the clause of a split.
  unfoldable mutual
    unfolding leaf_layout join_layouts

    pub layout_from_pane_tree : PaneTreeNode → Option LayoutNode
    layout_from_pane_tree empty_node = none
    layout_from_pane_tree (leaf_node pane_id) = leaf_layout pane_id
    layout_from_pane_tree (split_of axis ratio f s) =
        join_layouts axis ratio (layout_from_child f) (layout_from_child s)

    pub layout_from_child : Child → Option LayoutNode
    layout_from_child missing = none
    layout_from_child (present node) = layout_from_pane_tree node
