-- ===== src/WorkspaceTree/Run.antt =====
-- services/rttx-server/src/pane_tree.rs: any sequence of calls on a workspace tree.
use rttx.Common.{
  ◌≡◌, refl, ap, ◌∙◌, true, false, Option, none, some, List, [], ◌∷◌, arith, ◌==◌, if◌then◌else◌,
  contains, ok,
}
use rttx.Common.Float.{F32}
use rttx.PaneTree.{PaneId, PaneTree, SplitAxis, Side, first_leaf}
use rttx.PaneTree.Leaves.{leaves}
use rttx.PaneTree.Remove.{panes_of, remove_from-split_leaf}
use rttx.WorkspaceTree.{
  WorkspaceTree, new, insert_root, split_pane, split_root, close, resize_split, set_default_active,
  validate, contains_pane, is_active, unwrap_or,
}
use rttx.WorkspaceTree.Valid.{
  IsValid, ActiveIsPresent, panes-eq, new-IsValid, insert_root-IsValid, split_pane-IsValid,
  close-IsValid, set_default_active-IsValid,
}
use rttx.WorkspaceTree.Resize.{resize_split-IsValid}
use rttx.WorkspaceTree.Validate.{validate-IsValid}
use rttx.WorkspaceTree.View.{
  View, view, insert_root_view, split_view, close_view, activate_view, insert_root-view,
  split_pane-view, close-view, resize_split-view, set_default_active-view,
}

pub data Call : Type 0 where
  inserts : PaneId → Call
  splits : PaneId → PaneId → SplitAxis → F32 → Call
  closes : PaneId → Call
  resizes : List Side → F32 → Call
  activates : PaneId → Call

unfoldable pub step : WorkspaceTree → Call → WorkspaceTree
step w (inserts pane) = (insert_root w pane).0
step w (splits target new_pane axis ratio) = (split_pane w target new_pane axis ratio).0
step w (closes pane) = (close w pane).0
step w (resizes path ratio) = (resize_split w path ratio).0
step w (activates pane) = (set_default_active w pane).0

unfoldable pub run : WorkspaceTree → List Call → WorkspaceTree
run w [] = w
run w (c ∷ cs) = run (step w c) cs

-- The same calls on a list of panes with a focus.
abbrev pub view_step : View → Call → View
view_step v (inserts pane) = (insert_root_view v pane).0
view_step v (splits target new_pane axis ratio) = (split_view v target new_pane ratio).0
view_step v (closes pane) = (close_view v pane).0
view_step v (resizes path ratio) = v
view_step v (activates pane) = (activate_view v pane).0

abbrev pub view_run : View → List Call → View
view_run v [] = v
view_run v (c ∷ cs) = view_run (view_step v c) cs

pub step-IsValid : (w : WorkspaceTree) (c : Call) → IsValid w → IsValid (step w c)
unfolding step
step-IsValid w (inserts pane) v = insert_root-IsValid w pane v
step-IsValid w (splits target new_pane axis ratio) v =
    split_pane-IsValid w target new_pane axis ratio v
step-IsValid w (closes pane) v = close-IsValid w pane v
step-IsValid w (resizes path ratio) v = resize_split-IsValid w path ratio v
step-IsValid w (activates pane) v = set_default_active-IsValid w pane v

run-IsValid : (w : WorkspaceTree) (cs : List Call) → IsValid w → IsValid (run w cs)
unfolding run
run-IsValid w [] v = v
run-IsValid w (c ∷ cs) v = run-IsValid (step w c) cs (step-IsValid w c v)

-- After any sequence of calls on a new tree, `validate` accepts the tree.
pub validate-run : (cs : List Call) → validate (run new cs) ≡ ok tt
validate-run cs = (validate-IsValid (run new cs)).1 (run-IsValid new cs new-IsValid)

step-view : (w : WorkspaceTree) (c : Call) → IsValid w → view (step w c) ≡ view_step (view w) c
unfolding step
step-view w (inserts pane) v = ap (λ r. r.0) (insert_root-view w pane)
step-view w (splits target new_pane axis ratio) v =
    ap (λ r. r.0) (split_pane-view w target new_pane axis ratio)
step-view w (closes pane) v = ap (λ r. r.0) (close-view w pane v)
step-view w (resizes path ratio) v = resize_split-view w path ratio
step-view w (activates pane) v = ap (λ r. r.0) (set_default_active-view w pane)

-- From a valid tree, any sequence of calls does to the panes in order and the default-active pane
-- what the calls on lists do: an insertion into an empty list, an insertion behind the target, a
-- removal with a move of the focus to the first pane left, and a change of the focus.
pub run-view :
    (w : WorkspaceTree) (cs : List Call) → IsValid w → view (run w cs) ≡ view_run (view w) cs
unfolding run
run-view w [] v = refl
run-view w (c ∷ cs) v =
    run-view (step w c) cs (step-IsValid w c v) ∙ ap (λ u. view_run u cs) (step-view w c v)

contains_ne :
    (a n : PaneId) (xs : List PaneId)
    → contains xs a ≡ true
    → contains xs n ≡ false
    → (a == n) ≡ false
contains_ne a n [] h k = cc
contains_ne a n (x ∷ xs) h k = ground (arith, contains_ne a n xs)

module _ (w : WorkspaceTree) (target new_pane : PaneId) (axis : SplitAxis) (ratio : F32) where
  -- The pane that was active before the split stays so.
  kept_focus :
      (root : PaneTree) (active : Option PaneId)
      → contains (leaves root) new_pane ≡ false
      → ActiveIsPresent (some root) active
      → active
        ≡ some (
            if is_active active new_pane
            then first_leaf root
            else unwrap_or active (first_leaf root))
  kept_focus root none h p = absurd p
  kept_focus root (some a) h p = rw (contains_ne a new_pane (leaves root) p h)

  closes_split :
      (root : PaneTree)
      → w.root ≡ some root
      → contains (panes_of w.root) new_pane ≡ false
      → contains (panes_of w.root) target ≡ true
      → IsValid w
      → (close (split_root w (some root) target new_pane axis ratio).0 new_pane).0 ≡ w
  unfolding split_root close
  closes_split root e h k v =
      let p : contains (leaves root) new_pane ≡ false = rw e at h in
      let q : contains (leaves root) target ≡ true = rw e at k in
      rw (remove_from-split_leaf root target new_pane axis ratio q p)
        (ground (arith, kept_focus root w.default_active p (rw e at v.active)))

  close_rooted_split :
      (root : Option PaneTree)
      → w.root ≡ root
      → contains (panes_of w.root) new_pane ≡ false
      → contains (panes_of w.root) target ≡ true
      → IsValid w
      → (close (split_root w root target new_pane axis ratio).0 new_pane).0 ≡ w
  unfolding split_root
  close_rooted_split none e h k v = cc
  close_rooted_split (some root) e h k v = closes_split root e h k v

  -- Closing the pane that a successful split of a valid tree has added gives the tree back.
  pub close-split_pane :
      IsValid w
      → (split_pane w target new_pane axis ratio).1 ≡ true
      → (close (split_pane w target new_pane axis ratio).0 new_pane).0 ≡ w
  unfolding split_pane contains_pane
  close-split_pane v done = ground (arith, panes-eq w, close_rooted_split w.root refl)
