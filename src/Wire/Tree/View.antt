-- ===== src/Wire/Tree/View.antt =====
-- What a client renders from the daemon's tree: the same panes in the same order under ratios that can
-- be drawn.
use rttx.Common.{◌≡◌, refl, sym, ap, ◌∙◌, arith, true, false, none, some, List, [], ◌∷◌, ◌++◌, map}
use rttx.Common.Float.{F32}
use rttx.Common.Double.{F64, f64_from, clamp, lt_f64, is_nan_f64}
use rttx.PaneTree.{PaneTree, PaneId, leaf, split, SplitAxis, ratio_is_valid}
use rttx.PaneTree.Leaves.{leaves}
use rttx.PaneTree.Ratio.{HasValidRatios}
use rttx.Layout.{LayoutNode, terminal, split_node, SplitOrientation, terminal_uuids}
use rttx.Wire.Uuids.{UuidLib, bytes_to_uuid-uuid_to_bytes}
use rttx.Wire.Tree.{
  split_axis_to_proto, axis_number, axis_from, orientation_from, orientation_from_axis, min_ratio,
  max_ratio, pane_tree_split, join_layouts, pane_tree_leaf, pane_tree_to_proto,
  layout_from_pane_tree, layout_from_child, leaf_layout, terminal_for,
}

-- The layout that draws a tree: side by side for a horizontal split.
abbrev pub orientation_of : SplitAxis → SplitOrientation
orientation_of SplitAxis.horizontal = SplitOrientation.horizontal
orientation_of SplitAxis.vertical = SplitOrientation.vertical

abbrev pub layout_of : UuidLib → PaneTree → LayoutNode
layout_of lib (leaf pane) = terminal (lib.to_string pane) none none none
layout_of lib (split axis ratio f s) =
    split_node (orientation_of axis) (clamp (f64_from ratio) min_ratio max_ratio) (layout_of lib f)
      (layout_of lib s)

-- Every ratio of a layout lies between `MIN_RATIO` and `MAX_RATIO` and none is NaN.
abbrev pub HasDrawableRatios : LayoutNode → Type 0
HasDrawableRatios (terminal uuid profile cwd title) = Unit {0}
HasDrawableRatios (split_node o r f s) =
    ((is_nan_f64 r ≡ false) × (lt_f64 r min_ratio ≡ false) × (lt_f64 max_ratio r ≡ false))
    × HasDrawableRatios f
    × HasDrawableRatios s

orientation_lem :
    (axis : SplitAxis)
    → orientation_from_axis (axis_number (split_axis_to_proto axis)) ≡ orientation_of axis
unfolding orientation_from_axis axis_number split_axis_to_proto orientation_from axis_from
orientation_lem SplitAxis.horizontal = refl
orientation_lem SplitAxis.vertical = refl

layout-eq :
    (lib : UuidLib) (t : PaneTree)
    → layout_from_pane_tree lib (pane_tree_to_proto lib t) ≡ some (layout_of lib t)
unfolding layout_from_pane_tree pane_tree_to_proto pane_tree_leaf pane_tree_split layout_from_child
    join_layouts leaf_layout terminal_for
layout-eq lib (leaf pane) = rw (bytes_to_uuid-uuid_to_bytes lib pane) refl
layout-eq lib (split axis ratio f s) =
    rw (layout-eq lib f, layout-eq lib s, orientation_lem axis) refl

uuids-layout_of :
    (lib : UuidLib) (t : PaneTree) → terminal_uuids (layout_of lib t) ≡ map lib.to_string (leaves t)
unfolding terminal_uuids
uuids-layout_of lib (leaf pane) = refl
uuids-layout_of lib (split axis ratio f s) =
    rw (uuids-layout_of lib f, uuids-layout_of lib s) (maps (leaves f) (leaves s))
  where
    maps :
        (xs ys : List PaneId)
        → map lib.to_string xs ++ map lib.to_string ys ≡ map lib.to_string (xs ++ ys)
    maps [] ys = refl
    maps (x ∷ xs) ys = ap (λ zs. lib.to_string x ∷ zs) (maps xs ys)

-- The layout that a client builds from the wire form of any pane tree draws that tree: it exists, has
-- the tree's shape and orientations, and its terminals are the tree's panes in order.
pub layout_from_pane_tree-pane_tree_to_proto :
    (lib : UuidLib) (t : PaneTree)
    → (layout_from_pane_tree lib (pane_tree_to_proto lib t) ≡ some (layout_of lib t))
      × (terminal_uuids (layout_of lib t) ≡ map lib.to_string (leaves t))
layout_from_pane_tree-pane_tree_to_proto lib t = (layout-eq lib t, uuids-layout_of lib t)

abbrev IsDrawable : F64 → Type 0
IsDrawable r = (is_nan_f64 r ≡ false) × (lt_f64 r min_ratio ≡ false) × (lt_f64 max_ratio r ≡ false)

drawn_ratio :
    (ratio : F32)
    → ratio_is_valid ratio ≡ true
    → IsDrawable (clamp (f64_from ratio) min_ratio max_ratio)
unfolding ratio_is_valid f64_from clamp
drawn_ratio ratio h = (ground arith, (clamped (f64_from ratio)).0, (clamped (f64_from ratio)).1)
  where
    clamped :
        (x : F64)
        → (lt_f64 (clamp x min_ratio max_ratio) min_ratio ≡ false)
          × (lt_f64 max_ratio (clamp x min_ratio max_ratio) ≡ false)
    clamped x = ground arith

layout_of-HasDrawableRatios :
    (lib : UuidLib) (t : PaneTree) → HasValidRatios t → HasDrawableRatios (layout_of lib t)
layout_of-HasDrawableRatios lib (leaf pane) v = tt
layout_of-HasDrawableRatios lib (split axis ratio f s) v = (
  drawn_ratio ratio v.0,
  layout_of-HasDrawableRatios lib f v.1,
  layout_of-HasDrawableRatios lib s v.2,
)

some_inj : {A : Type 0} {a b : A} → some a ≡ some b → a ≡ b
some_inj h = ground (arith, h)

-- The layout that a client builds from the wire form of a tree of valid ratios has ratios that are
-- numbers between 0.05 and 0.95 only.
pub layout_from_pane_tree-HasDrawableRatios :
    (lib : UuidLib) (t : PaneTree) (layout : LayoutNode)
    → HasValidRatios t
    → layout_from_pane_tree lib (pane_tree_to_proto lib t) ≡ some layout
    → HasDrawableRatios layout
layout_from_pane_tree-HasDrawableRatios lib t layout v h =
    rw (sym (some_inj (sym (layout-eq lib t) ∙ h))) (layout_of-HasDrawableRatios lib t v)
