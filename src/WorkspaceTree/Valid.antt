-- ===== src/WorkspaceTree/Valid.antt =====
-- services/rttx-server/src/pane_tree.rs: the invariant of a workspace tree, and that every method
-- keeps it.
use rttx.Common.{
  ◌≡◌, refl, inl, inr, true, false, Option, none, some, List, [], arith, ◌==◌, if◌then◌else◌,
  Bool-cases, contains, erase, IsDistinct, insert_after-IsDistinct, contains-insert_after,
  erase-IsDistinct, contains-erase_ne,
}
use rttx.Common.Float.{F32}
use rttx.PaneTree.{
  PaneId, SplitAxis, PaneTree, Removal, ratio_is_valid, collect, first_leaf, split_leaf,
  remove_from,
}
use rttx.PaneTree.Leaves.{leaves, collect-eq, leaves-split_leaf, contains-first_leaf}
use rttx.PaneTree.Remove.{panes_of, tree_of, Removes, remove_from-Removes}
use rttx.PaneTree.Ratio.{HasValidRatios?, split_leaf-HasValidRatios, remove_from-HasValidRatios}
use rttx.WorkspaceTree.{
  WorkspaceTree, new, panes, contains_pane, insert_root, split_pane, split_root, close, close_with,
  close_rooted, is_active, unwrap_or, set_default_active,
}

-- The default-active pane is one of the panes, and there is one exactly when there are panes.
abbrev pub ActiveIsPresent : Option PaneTree → Option PaneId → Type 0
ActiveIsPresent none none = Unit {0}
ActiveIsPresent none (some active) = ⊥
ActiveIsPresent (some root) none = ⊥
ActiveIsPresent (some root) (some active) = contains (leaves root) active ≡ true

pub record IsValid (w : WorkspaceTree) : Type 0 where
  pub distinct : IsDistinct (panes_of w.root)
  pub ratios : HasValidRatios? w.root
  pub active : ActiveIsPresent w.root w.default_active

pub panes-eq : (w : WorkspaceTree) → panes w ≡ panes_of w.root
unfolding panes
panes-eq w = panes_root w.root
  where
    panes_root :
        (root : Option PaneTree)
        → (elim root as (λ _. List PaneId) [ none ↦ [] | some t ↦ collect t [] ]) ≡ panes_of root
    panes_root none = refl
    panes_root (some t) = collect-eq t []

pub contains_pane-eq :
    (w : WorkspaceTree) (pane : PaneId) → contains_pane w pane ≡ contains (panes_of w.root) pane
unfolding contains_pane
contains_pane-eq w pane = rw (panes-eq w)

-- A split refuses a new pane that is already there.
pub split_pane_old :
    (w : WorkspaceTree) (target new_pane : PaneId) (axis : SplitAxis) (ratio : F32)
    → contains (panes_of w.root) new_pane ≡ true
    → split_pane w target new_pane axis ratio ≡ (w, false)
unfolding split_pane
split_pane_old w target new_pane axis ratio h = ground (arith, contains_pane-eq w new_pane)

pub new-IsValid : IsValid new
unfolding new
new-IsValid = record { distinct = tt; ratios = tt; active = tt }

pub insert_root-IsValid :
    (w : WorkspaceTree) (pane : PaneId) → IsValid w → IsValid (insert_root w pane).0
unfolding insert_root
insert_root-IsValid w pane v = ground arith

split_root-IsValid :
    (w : WorkspaceTree) (root : Option PaneTree) (target new_pane : PaneId) (axis : SplitAxis)
    (ratio : F32)
    → w.root ≡ root
    → ratio_is_valid ratio ≡ true
    → contains (panes_of root) new_pane ≡ false
    → contains (panes_of root) target ≡ true
    → IsValid w
    → IsValid (split_root w root target new_pane axis ratio).0
unfolding split_root
split_root-IsValid w none target new_pane axis ratio e r n t v = v
split_root-IsValid w (some root) target new_pane axis ratio e r n t v = record {
  distinct =
      rw (leaves-split_leaf target new_pane axis ratio root)
        (insert_after-IsDistinct target new_pane (leaves root) n t (rw e at v.distinct));
  ratios = split_leaf-HasValidRatios root target new_pane axis ratio r (rw e at v.ratios);
  active = still w.default_active (rw e at v.active);
}
  where
    still :
        (a : Option PaneId)
        → ActiveIsPresent (some root) a
        → ActiveIsPresent (some (split_leaf root target new_pane axis ratio).0) a
    still none h = h
    still (some a) h = ground (
      arith,
      leaves-split_leaf target new_pane axis ratio root,
      contains-insert_after target new_pane a (leaves root),
    )

pub split_pane-IsValid :
    (w : WorkspaceTree) (target new_pane : PaneId) (axis : SplitAxis) (ratio : F32)
    → IsValid w
    → IsValid (split_pane w target new_pane axis ratio).0
unfolding split_pane contains_pane
split_pane-IsValid w target new_pane axis ratio v =
    ground (arith, panes-eq w, split_root-IsValid w w.root target new_pane axis ratio refl)

-- The default-active pane after a close is one of the panes that are left.
close_active :
    (new_root root : PaneTree) (active : Option PaneId) (pane : PaneId)
    → leaves new_root ≡ erase pane (leaves root)
    → ActiveIsPresent (some root) active
    → contains (leaves new_root) (
        if is_active active pane
        then first_leaf new_root
        else unwrap_or active (first_leaf new_root))
      ≡ true
close_active new_root root none pane e h = absurd h
close_active new_root root (some a) pane e h = elim (Bool-cases (a == pane)) [
  | inl same ↦ rw same (contains-first_leaf new_root)
  | inr other ↦ rw (other, e, contains-erase_ne pane a (leaves root) (λ p. ground arith)) h
]

close_with-IsValid :
    (w : WorkspaceTree) (root : PaneTree) (pane : PaneId) (o : Removal)
    → w.root ≡ some root
    → Removes root pane o
    → HasValidRatios? (tree_of o)
    → IsValid w
    → IsValid (close_with w pane o).0
unfolding close_with
close_with-IsValid w root pane (Removal.not_found u) e r q v = rw r.1 (rw (← e) v)
close_with-IsValid w root pane (Removal.removed none) e r q v = ground arith
close_with-IsValid w root pane (Removal.removed (some u)) e r q v = record {
  distinct = rw r.1 (erase-IsDistinct pane (leaves root) (rw e at v.distinct));
  ratios = q;
  active = close_active u root w.default_active pane r.1 (rw e at v.active);
}

close_rooted-IsValid :
    (w : WorkspaceTree) (root : Option PaneTree) (pane : PaneId)
    → w.root ≡ root
    → IsValid w
    → IsValid (close_rooted w root pane).0
unfolding close_rooted
close_rooted-IsValid w none pane e v = v
close_rooted-IsValid w (some root) pane e v =
    close_with-IsValid w root pane (remove_from root pane) e (remove_from-Removes root pane)
      (remove_from-HasValidRatios root pane (rw e at v.ratios)) v

pub close-IsValid : (w : WorkspaceTree) (pane : PaneId) → IsValid w → IsValid (close w pane).0
unfolding close
close-IsValid w pane v = close_rooted-IsValid w w.root pane refl v

present_active :
    (root : Option PaneTree) (pane : PaneId)
    → contains (panes_of root) pane ≡ true
    → ActiveIsPresent root (some pane)
present_active none pane h = cc
present_active (some root) pane h = h

pub set_default_active-IsValid :
    (w : WorkspaceTree) (pane : PaneId) → IsValid w → IsValid (set_default_active w pane).0
unfolding set_default_active contains_pane
set_default_active-IsValid w pane v = ground (arith, panes-eq w, present_active w.root pane)
