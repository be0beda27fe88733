-- ===== src/WorkspaceTree/Resize.antt =====
-- services/rttx-server/src/pane_tree.rs: `resize_split` changes the ratio that its path addresses,
-- and nothing else.
pub mod Walk
use rttx.Common.{
  ◌≡◌, refl, sym, ap, ◌∙◌, ◌≢◌, inl, inr, Bool, true, false, ◌&&◌, if◌then◌else◌, Option, none,
  some, List, [], ◌∷◌, ◌++◌, arith, Bool-cases, is_some,
}
use rttx.Common.Float.{F32}
use rttx.PaneTree.{
  PaneId, SplitAxis, Side, first, second, PaneTree, leaf, split, ratio_is_valid, NodeRef,
  node_at_mut, under_first, under_second,
}
use rttx.PaneTree.Leaves.{leaves}
use rttx.PaneTree.Ratio.{HasValidRatios, HasValidRatios?}
use rttx.PaneTree.Remove.{panes_of}
use rttx.WorkspaceTree.{
  WorkspaceTree, write_ratio, write_at, resize_root, store_root, resize_rooted, resize_split,
}
use rttx.WorkspaceTree.Valid.{IsValid, ActiveIsPresent}
use rttx.WorkspaceTree.Resize.Walk.{
  ratio_at, Resizes, shape, leaves_of_shape, resize_root-Resizes, resize_root-HasValidRatios,
}

abbrev pub ratio_at? : Option PaneTree → List Side → Option F32
ratio_at? none path = none
ratio_at? (some root) path = ratio_at root path

-- What `resize_split` may do to a tree.
pub record ResizesSplit (w : WorkspaceTree) (path : List Side) (ratio : F32)
    (r : WorkspaceTree × Bool) : Type 0 where
  pub succeeds : r.1 ≡ (ratio_is_valid ratio && is_some (ratio_at? w.root path))
  pub refused : r.1 ≡ false → r.0 ≡ w
  pub written : r.1 ≡ true → ratio_at? r.0.root path ≡ some ratio
  pub others :
      (other : List Side) → other ≢ path → ratio_at? r.0.root other ≡ ratio_at? w.root other
  pub same_panes : panes_of r.0.root ≡ panes_of w.root
  pub same_active : r.0.default_active ≡ w.default_active

store_root-ResizesSplit :
    (w : WorkspaceTree) (root : PaneTree) (path : List Side) (ratio : F32) (o : Option PaneTree)
    → w.root ≡ some root
    → ratio_is_valid ratio ≡ true
    → Resizes root path ratio o
    → ResizesSplit w path ratio (store_root w o)
unfolding store_root
store_root-ResizesSplit w root path ratio none e v h = record {
  succeeds = ground arith;
  refused = λ _. refl;
  written = λ k. cc;
  others = λ other n. refl;
  same_panes = refl;
  same_active = refl;
}
store_root-ResizesSplit w root path ratio (some u) e v h = record {
  succeeds = ground arith;
  refused = λ k. cc;
  written = λ _. h.1;
  others = λ other n. rw e (h.2 other n);
  same_panes = rw e (leaves_of_shape u root h.3);
  same_active = refl;
}

unchanged :
    (w : WorkspaceTree) (path : List Side) (ratio : F32)
    → (ratio_is_valid ratio && is_some (ratio_at? w.root path)) ≡ false
    → ResizesSplit w path ratio (w, false)
unchanged w path ratio h = record {
  succeeds = sym h;
  refused = λ _. refl;
  written = λ k. cc;
  others = λ other n. refl;
  same_panes = refl;
  same_active = refl;
}

resize_rooted-ResizesSplit :
    (w : WorkspaceTree) (root : Option PaneTree) (path : List Side) (ratio : F32)
    → w.root ≡ root
    → ratio_is_valid ratio ≡ true
    → ResizesSplit w path ratio (resize_rooted w root path ratio)
unfolding resize_rooted
resize_rooted-ResizesSplit w none path ratio e v = unchanged w path ratio (ground arith)
resize_rooted-ResizesSplit w (some root) path ratio e v =
    store_root-ResizesSplit w root path ratio (resize_root root path ratio) e v
      (resize_root-Resizes root path ratio)

pub resize_split-ResizesSplit :
    (w : WorkspaceTree) (path : List Side) (ratio : F32)
    → ResizesSplit w path ratio (resize_split w path ratio)
unfolding resize_split
resize_split-ResizesSplit w path ratio = elim (Bool-cases (ratio_is_valid ratio)) [
  | inr bad ↦ rw (bad, resize_split) (unchanged w path ratio (rw bad))
  | inl good ↦ rw (good, resize_split) (resize_rooted-ResizesSplit w w.root path ratio refl good)
]

-- `resize_split` returns true exactly when the ratio is valid and the path addresses a split; then
-- that split has the new ratio, and else the tree is as before. The panes in order and the
-- default-active pane stay.
pub resize_split-Writes :
    (w : WorkspaceTree) (path : List Side) (ratio : F32)
    → let r = resize_split w path ratio in
      (r.1 ≡ (ratio_is_valid ratio && is_some (ratio_at? w.root path)))
      × (r.0 ≡ (if r.1 then r.0 else w))
      × (ratio_at? r.0.root path ≡ (if r.1 then some ratio else ratio_at? w.root path))
      × (panes_of r.0.root ≡ panes_of w.root)
      × (r.0.default_active ≡ w.default_active)
resize_split-Writes w path ratio =
    let h = resize_split-ResizesSplit w path ratio in
    elim (Bool-cases (resize_split w path ratio).1) [
      | inl done ↦ (h.succeeds, rw done refl, rw done (h.written done), h.same_panes, h.same_active)
      | inr not_done ↦ (
        h.succeeds,
        rw not_done (h.refused not_done),
        rw not_done (ap (λ u. ratio_at? u.root path) (h.refused not_done)),
        h.same_panes,
        h.same_active,
      )
    ]

-- `resize_split` keeps the ratio of every split that its path does not address.
pub resize_split-elsewhere :
    (w : WorkspaceTree) (path other : List Side) (ratio : F32)
    → other ≢ path
    → ratio_at? (resize_split w path ratio).0.root other ≡ ratio_at? w.root other
resize_split-elsewhere w path other ratio n =
    (resize_split-ResizesSplit w path ratio).others other n

store_root-IsValid :
    (w : WorkspaceTree) (root : PaneTree) (path : List Side) (ratio : F32) (o : Option PaneTree)
    → w.root ≡ some root
    → Resizes root path ratio o
    → HasValidRatios? o
    → IsValid w
    → IsValid (store_root w o).0
unfolding store_root
store_root-IsValid w root path ratio none e h r v = v
store_root-IsValid w root path ratio (some u) e h r v =
    let same = leaves_of_shape u root h.3 in
    record {
      distinct = rw same (rw e at v.distinct);
      ratios = r;
      active = still w.default_active (rw e at v.active);
    }
  where
    still : (a : Option PaneId) → ActiveIsPresent (some root) a → ActiveIsPresent (some u) a
    still none k = k
    still (some a) k = rw (leaves_of_shape u root h.3) k

resize_rooted-IsValid :
    (w : WorkspaceTree) (root : Option PaneTree) (path : List Side) (ratio : F32)
    → w.root ≡ root
    → ratio_is_valid ratio ≡ true
    → IsValid w
    → IsValid (resize_rooted w root path ratio).0
unfolding resize_rooted
resize_rooted-IsValid w none path ratio e h v = v
resize_rooted-IsValid w (some root) path ratio e h v =
    store_root-IsValid w root path ratio (resize_root root path ratio) e
      (resize_root-Resizes root path ratio)
      (resize_root-HasValidRatios root path ratio h (rw e at v.ratios)) v

pub resize_split-IsValid :
    (w : WorkspaceTree) (path : List Side) (ratio : F32)
    → IsValid w
    → IsValid (resize_split w path ratio).0
unfolding resize_split
resize_split-IsValid w path ratio v = ground (arith, resize_rooted-IsValid w w.root path ratio refl)
