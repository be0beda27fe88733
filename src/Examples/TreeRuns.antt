-- ===== src/Examples/TreeRuns.antt =====
-- services/rttx-server/src/pane_tree.rs: a tree of two panes, split, resized, closed and checked.
use rttx.Common.{◌≡◌, refl, ◌↔◌, ◌≢◌, true, ◌&&◌, some, List, [], ◌∷◌, ok, is_some, if◌then◌else◌}
use rttx.Common.Float.{half_f32}
use rttx.PaneTree.{SplitAxis, Side, ratio_is_valid, split_leaf}
use rttx.PaneTree.Remove.{panes_of}
use rttx.WorkspaceTree.{
  new, panes, contains_pane, split_pane, split_root, close, resize_split, validate,
}
use rttx.WorkspaceTree.Valid.{IsValid}
use rttx.WorkspaceTree.Validate.{validate-IsValid}
use rttx.WorkspaceTree.Resize.{ratio_at?, resize_split-Writes}
use rttx.WorkspaceTree.View.{view}
use rttx.WorkspaceTree.Run.{
  Call, inserts, splits, closes, resizes, activates, run, view_run, validate-run, run-view,
  close-split_pane,
}
use rttx.Examples.{two_panes, two_panes-IsValid}

abbrev calls : List Call
calls =
    inserts 1
    ∷ splits 1 2 SplitAxis.vertical half_f32
    ∷ splits 2 3 SplitAxis.horizontal half_f32
    ∷ activates 3
    ∷ closes 1
    ∷ resizes [] 0x3e800000
    ∷ closes 3
    ∷ []

validate-run_example : validate (run new calls) ≡ ok tt
validate-run_example = validate-run calls

run-view_example : view (run two_panes calls) ≡ view_run (view two_panes) calls
run-view_example = run-view two_panes calls two_panes-IsValid

validate-IsValid_example : (validate two_panes ≡ ok tt) ↔ IsValid two_panes
validate-IsValid_example = validate-IsValid two_panes

splits_in_two : (split_pane two_panes 1 3 SplitAxis.horizontal half_f32).1 ≡ true
unfolding split_pane split_root split_leaf contains_pane panes ratio_is_valid rttx.PaneTree.collect
splits_in_two = refl

close-split_pane_example :
    (close (split_pane two_panes 1 3 SplitAxis.horizontal half_f32).0 3).0 ≡ two_panes
close-split_pane_example =
    close-split_pane two_panes 1 3 SplitAxis.horizontal half_f32 two_panes-IsValid splits_in_two

resize_split-Writes_example :
    let r = resize_split two_panes [] 0x3e800000 in
    (r.1 ≡ (ratio_is_valid 0x3e800000 && is_some (ratio_at? two_panes.root [])))
    × (r.0 ≡ (if r.1 then r.0 else two_panes))
    × (ratio_at? r.0.root [] ≡ (if r.1 then some 0x3e800000 else ratio_at? two_panes.root []))
    × (panes_of r.0.root ≡ panes_of two_panes.root)
    × (r.0.default_active ≡ two_panes.default_active)
resize_split-Writes_example = resize_split-Writes two_panes [] 0x3e800000

not_root : Side.first ∷ [] ≢ []
not_root h = cc

-- The third pane comes in behind the second and the focus goes back to it once the others are closed.
panes_after : panes (run new calls) ≡ 2 ∷ []
unfolding panes run rttx.WorkspaceTree.Run.step close resize_split ratio_is_valid
    rttx.WorkspaceTree.set_default_active contains_pane split_pane rttx.WorkspaceTree.insert_root
    new rttx.PaneTree.collect split_leaf rttx.PaneTree.remove_from rttx.PaneTree.node_at_mut
panes_after = refl
