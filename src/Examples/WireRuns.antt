-- ===== src/Examples/WireRuns.antt =====
-- protocols/rttx-proto: a tree, a path, a handshake and a scrollback on the wire.
use rttx.Common.{
  ◌<◌, true, ◌⊎◌, zero, ℕ, ◌≤◌, ◌≡◌, refl, some, List, [], ◌∷◌, map, ok, arith, contains,
}
use rttx.PaneTree.Leaves.{leaves}
use rttx.Layout.{terminal_uuids}
use rttx.Wire.Tree.{pane_tree_to_proto, layout_from_pane_tree}
use rttx.Wire.Tree.View.{
  layout_of, HasDrawableRatios, layout_from_pane_tree-pane_tree_to_proto,
  layout_from_pane_tree-HasDrawableRatios,
}
use rttx.Wire.Handshake.{negotiate_version, Speaks, negotiate_version-highest}
use rttx.Wire.Sizes.{
  min_client_pane_size, lower_all, lower, map_or_min, both_of, min_client_pane_size-Least,
}
use rttx.Wire.Scrollback.{cap_limit, page, page-Reassembles}
use rttx.Examples.{padded_uuids, two_leaves, two_leaves-HasValidRatios}

layout_from_pane_tree-pane_tree_to_proto_example :
    (layout_from_pane_tree padded_uuids (pane_tree_to_proto padded_uuids two_leaves)
      ≡ some (layout_of padded_uuids two_leaves))
    × (terminal_uuids (layout_of padded_uuids two_leaves)
        ≡ map padded_uuids.to_string (leaves two_leaves))
layout_from_pane_tree-pane_tree_to_proto_example =
    layout_from_pane_tree-pane_tree_to_proto padded_uuids two_leaves

layout_from_pane_tree-HasDrawableRatios_example :
    HasDrawableRatios (layout_of padded_uuids two_leaves)
layout_from_pane_tree-HasDrawableRatios_example =
    layout_from_pane_tree-HasDrawableRatios padded_uuids two_leaves
      (layout_of padded_uuids two_leaves) two_leaves-HasValidRatios
      (layout_from_pane_tree-pane_tree_to_proto padded_uuids two_leaves).0

one_to_three : Speaks 1 3 3
one_to_three = (omega arith, omega arith)

both_to_four : Speaks 3 4 3
both_to_four = (omega arith, omega arith)

negotiate_version-highest_example :
    (v : ℕ) × (negotiate_version 1 3 3 4 ≡ ok v) × Speaks 1 3 v × Speaks 3 4 v × (3 ≤ v)
negotiate_version-highest_example = negotiate_version-highest 1 3 3 4 3 one_to_three both_to_four

negotiates_three : negotiate_version 1 3 3 4 ≡ ok 3
unfolding negotiate_version
negotiates_three = refl

abbrev sizes : List (ℕ × ℕ)
sizes = (80, 24) ∷ (0, 10) ∷ (120, 50) ∷ []

sizes_shared : min_client_pane_size sizes ≡ some (80, 10)
unfolding min_client_pane_size lower_all lower map_or_min both_of
sizes_shared = refl

min_client_pane_size-Least_example :
    ((contains (map (λ s. s.0) sizes) 80 ≡ true) × (0 < 80))
    × ((contains (map (λ s. s.1) sizes) 10 ≡ true) × (0 < 10))
    × ((80 ≤ 120) ⊎ (120 ≡ zero))
    × ((10 ≤ 50) ⊎ (50 ≡ zero))
min_client_pane_size-Least_example =
    min_client_pane_size-Least sizes 80 10 2 120 50 sizes_shared refl

abbrev buffer : List ℕ
buffer = 9 ∷ 8 ∷ 7 ∷ 6 ∷ []

page-Reassembles_example : page 2 buffer 0 3 ≡ some buffer
unfolding cap_limit
page-Reassembles_example = page-Reassembles buffer 3 2 (omega arith) (omega arith) (omega arith)
