-- ===== src/WorkspaceTree/Resize/Walk.antt =====
-- services/rttx-server/src/pane_tree.rs: a write through `node_at_mut` changes the ratio that its path
-- addresses, and nothing else of the tree.
use rttx.Common.{
  ◌≡◌, refl, sym, ap, ◌∙◌, ◌≢◌, true, Option, none, some, List, [], ◌∷◌, ◌++◌, is_some,
}
use rttx.Common.Float.{F32}
use rttx.PaneTree.{
  PaneId, SplitAxis, Side, first, second, PaneTree, leaf, split, ratio_is_valid, NodeRef,
  node_at_mut, under_first, under_second,
}
use rttx.PaneTree.Leaves.{leaves}
use rttx.PaneTree.Ratio.{HasValidRatios, HasValidRatios?}
use rttx.WorkspaceTree.{write_ratio, write_at, resize_root}

-- The ratio of the split that a path from the root addresses.
abbrev pub ratio_at : PaneTree → List Side → Option F32
ratio_at (leaf pane) path = none
ratio_at (split axis ratio f s) [] = some ratio
ratio_at (split axis ratio f s) (first ∷ path) = ratio_at f path
ratio_at (split axis ratio f s) (second ∷ path) = ratio_at s path

-- The shape of a tree with the axes and panes, but without the ratios.
pub data Shape : Type 0 where
  pane_shape : PaneId → Shape
  split_shape : SplitAxis → Shape → Shape → Shape

abbrev pub shape : PaneTree → Shape
shape (leaf pane) = pane_shape pane
shape (split axis ratio f s) = split_shape axis (shape f) (shape s)

-- What a resize of the split at `path` may return.
abbrev pub Resizes : PaneTree → List Side → F32 → Option PaneTree → Type 0
Resizes t path ratio none = ratio_at t path ≡ none
Resizes t path ratio (some u) =
    (is_some (ratio_at t path) ≡ true)
    × (ratio_at u path ≡ some ratio)
    × ((other : List Side) → other ≢ path → ratio_at u other ≡ ratio_at t other)
    × (shape u ≡ shape t)

resize_here :
    (a : SplitAxis) (r ratio : F32) (f s : PaneTree)
    → Resizes (split a r f s) [] ratio (some (split a ratio f s))
resize_here a r ratio f s = (refl, refl, others, refl)
  where
    others :
        (other : List Side)
        → other ≢ []
        → ratio_at (split a ratio f s) other ≡ ratio_at (split a r f s) other
    others [] n = absurd (n refl)
    others (first ∷ rest) n = refl
    others (second ∷ rest) n = refl

abbrev rebuilt : (PaneTree → PaneTree) → Option PaneTree → Option PaneTree
rebuilt g none = none
rebuilt g (some t) = some (g t)

module _ (a : SplitAxis) (r ratio : F32) where
  write_at-first :
      (s : PaneTree) (m : Option NodeRef)
      → write_at (under_first a r s m) ratio ≡ rebuilt (λ t. split a r t s) (write_at m ratio)
  unfolding write_at under_first
  write_at-first s none = refl
  write_at-first s (some n) = written n n.node
    where
      written :
          (n : NodeRef) (t : PaneTree)
          → write_ratio (record { node = n.node; write = λ u. split a r (n.write u) s }) t ratio
            ≡ rebuilt (λ u. split a r u s) (write_ratio n t ratio)
      written n (leaf p) = refl
      written n (split b q f g) = refl

  write_at-second :
      (f : PaneTree) (m : Option NodeRef)
      → write_at (under_second a r f m) ratio ≡ rebuilt (λ t. split a r f t) (write_at m ratio)
  unfolding write_at under_second
  write_at-second f none = refl
  write_at-second f (some n) = written n n.node
    where
      written :
          (n : NodeRef) (t : PaneTree)
          → write_ratio (record { node = n.node; write = λ u. split a r f (n.write u) }) t ratio
            ≡ rebuilt (λ u. split a r f u) (write_ratio n t ratio)
      written n (leaf p) = refl
      written n (split b q g h) = refl

  resize_first :
      (f s : PaneTree) (rest : List Side) (o : Option PaneTree)
      → Resizes f rest ratio o
      → Resizes (split a r f s) (first ∷ rest) ratio (rebuilt (λ t. split a r t s) o)
  resize_first f s rest none h = h
  resize_first f s rest (some u) h = (h.0, h.1, others, ap (λ x. split_shape a x (shape s)) h.3)
    where
      others :
          (other : List Side)
          → other ≢ first ∷ rest
          → ratio_at (split a r u s) other ≡ ratio_at (split a r f s) other
      others [] n = refl
      others (first ∷ q) n = h.2 q (λ e. n (ap (◌∷◌ first) e))
      others (second ∷ q) n = refl

  resize_second :
      (f s : PaneTree) (rest : List Side) (o : Option PaneTree)
      → Resizes s rest ratio o
      → Resizes (split a r f s) (second ∷ rest) ratio (rebuilt (λ t. split a r f t) o)
  resize_second f s rest none h = h
  resize_second f s rest (some u) h = (h.0, h.1, others, ap (λ x. split_shape a (shape f) x) h.3)
    where
      others :
          (other : List Side)
          → other ≢ second ∷ rest
          → ratio_at (split a r f u) other ≡ ratio_at (split a r f s) other
      others [] n = refl
      others (first ∷ q) n = refl
      others (second ∷ q) n = h.2 q (λ e. n (ap (◌∷◌ second) e))

-- A resize writes the ratio at its path and keeps every other ratio and the shape; without a split
-- at the path it refuses.
pub resize_root-Resizes :
    (t : PaneTree) (path : List Side) (ratio : F32)
    → Resizes t path ratio (resize_root t path ratio)
unfolding resize_root node_at_mut
resize_root-Resizes (leaf p) [] ratio = refl
resize_root-Resizes (leaf p) (side ∷ rest) ratio = refl
resize_root-Resizes (split a r f s) [] ratio = resize_here a r ratio f s
resize_root-Resizes (split a r f s) (first ∷ rest) ratio =
    rw (write_at-first a r ratio s (node_at_mut f rest)) (
      resize_first a r ratio f s rest (resize_root f rest ratio) (resize_root-Resizes f rest ratio))
resize_root-Resizes (split a r f s) (second ∷ rest) ratio =
    rw (write_at-second a r ratio f (node_at_mut s rest)) (
      resize_second a r ratio f s rest (resize_root s rest ratio)
        (resize_root-Resizes s rest ratio))

shape_leaves : Shape → List PaneId
shape_leaves (pane_shape p) = p ∷ []
shape_leaves (split_shape a f s) = shape_leaves f ++ shape_leaves s

shape_leaves-shape : (t : PaneTree) → shape_leaves (shape t) ≡ leaves t
unfolding shape_leaves
shape_leaves-shape (leaf p) = refl
shape_leaves-shape (split a r f s) = rw (shape_leaves-shape f, shape_leaves-shape s)

pub leaves_of_shape : (t u : PaneTree) → shape t ≡ shape u → leaves t ≡ leaves u
leaves_of_shape t u e = sym (shape_leaves-shape t) ∙ ap shape_leaves e ∙ shape_leaves-shape u

pub resize_root-HasValidRatios :
    (t : PaneTree) (path : List Side) (ratio : F32)
    → ratio_is_valid ratio ≡ true
    → HasValidRatios t
    → HasValidRatios? (resize_root t path ratio)
unfolding resize_root node_at_mut
resize_root-HasValidRatios (leaf p) [] ratio h v = tt
resize_root-HasValidRatios (leaf p) (side ∷ rest) ratio h v = tt
resize_root-HasValidRatios (split a r f s) [] ratio h v = (h, v.1, v.2)
resize_root-HasValidRatios (split a r f s) (first ∷ rest) ratio h v =
    rw (write_at-first a r ratio s (node_at_mut f rest))
      (wrap (resize_root f rest ratio) (resize_root-HasValidRatios f rest ratio h v.1))
  where
    wrap :
        (o : Option PaneTree) → HasValidRatios? o → HasValidRatios? (rebuilt (λ t. split a r t s) o)
    wrap none k = tt
    wrap (some u) k = (v.0, k, v.2)
resize_root-HasValidRatios (split a r f s) (second ∷ rest) ratio h v =
    rw (write_at-second a r ratio f (node_at_mut s rest))
      (wrap (resize_root s rest ratio) (resize_root-HasValidRatios s rest ratio h v.2))
  where
    wrap :
        (o : Option PaneTree) → HasValidRatios? o → HasValidRatios? (rebuilt (λ t. split a r f t) o)
    wrap none k = tt
    wrap (some u) k = (v.0, v.1, k)
