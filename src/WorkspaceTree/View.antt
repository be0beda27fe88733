-- ===== src/WorkspaceTree/View.antt =====
-- services/rttx-server/src/pane_tree.rs: what a client sees of a workspace tree, the panes in order
-- and the default-active one, and what each method does to that view.
use rttx.Common.{
  ◌≡◌, refl, Bool, true, false, not, ◌&&◌, Option, none, some, List, [], ◌∷◌, arith, ◌==◌,
  if◌then◌else◌, is_some, contains, insert_after, erase, get_elem?,
}
use rttx.Common.Float.{F32}
use rttx.PaneTree.{
  PaneId, SplitAxis, Side, PaneTree, Removal, ratio_is_valid, first_leaf, remove_from,
}
use rttx.PaneTree.Leaves.{leaves, leaves-split_leaf, split_leaf-found, first_leaf-head, leaves_pos}
use rttx.PaneTree.Remove.{panes_of, Removes, remove_from-Removes}
use rttx.WorkspaceTree.{
  WorkspaceTree, CloseOutcome, removed, emptied, not_found, contains_pane, insert_root, split_pane,
  split_root, close, close_with, close_rooted, is_active, unwrap_or, resize_split,
  set_default_active,
}
use rttx.WorkspaceTree.Valid.{IsValid, ActiveIsPresent, panes-eq}
use rttx.WorkspaceTree.Resize.{resize_split-ResizesSplit}

pub record View : Type 0 where
  pub panes : List PaneId
  pub active : Option PaneId

abbrev pub view : WorkspaceTree → View
view w = record { panes = panes_of w.root; active = w.default_active }

abbrev pub is_nil : List PaneId → Bool
is_nil [] = true
is_nil (x ∷ xs) = false

-- The methods on views, each with its result.
abbrev pub insert_root_view : View → PaneId → View × Bool
insert_root_view v pane =
    if is_nil v.panes then (record { panes = pane ∷ []; active = some pane }, true) else (v, false)

abbrev pub split_view : View → PaneId → PaneId → F32 → View × Bool
split_view v target new_pane ratio =
    if ratio_is_valid ratio && (not (contains v.panes new_pane) && contains v.panes target)
    then (record v { panes = insert_after target new_pane v.panes }, true)
    else (v, false)

-- The focus moves only if the closed pane had it, and then to the first pane that is left.
abbrev pub active_after : View → PaneId → Option PaneId
active_after v pane = if is_active v.active pane then get_elem? (erase pane v.panes) 0 else v.active

abbrev pub outcome_view : Option PaneId → CloseOutcome
outcome_view none = emptied
outcome_view (some a) = removed a

abbrev pub close_view : View → PaneId → View × CloseOutcome
close_view v pane =
    if contains v.panes pane
    then (
      record { panes = erase pane v.panes; active = active_after v pane },
      outcome_view (active_after v pane),
    )
    else (v, not_found)

abbrev pub activate_view : View → PaneId → View × Bool
activate_view v pane =
    if contains v.panes pane then (record v { active = some pane }, true) else (v, false)

abbrev seen_as {ℓ} : {R : Type ℓ} → WorkspaceTree × R → View × R
seen_as (w, r) = (view w, r)

leaves_nonempty : (t : PaneTree) → is_nil (leaves t) ≡ false
leaves_nonempty t = grind (arith, leaves_pos t)

is_nil-panes_of : (root : Option PaneTree) → is_nil (panes_of root) ≡ not (is_some root)
is_nil-panes_of none = refl
is_nil-panes_of (some root) = leaves_nonempty root

pub insert_root-view :
    (w : WorkspaceTree) (pane : PaneId)
    → seen_as (insert_root w pane) ≡ insert_root_view (view w) pane
unfolding insert_root
insert_root-view w pane = ground (arith, is_nil-panes_of w.root)

split_root-view :
    (w : WorkspaceTree) (root : Option PaneTree) (target new_pane : PaneId) (axis : SplitAxis)
    (ratio : F32)
    → w.root ≡ root
    → contains (panes_of root) target ≡ true
    → seen_as (split_root w root target new_pane axis ratio) ≡ (
      record { panes = insert_after target new_pane (panes_of root); active = w.default_active },
      true,
    )
unfolding split_root
split_root-view w none target new_pane axis ratio e h = cc
split_root-view w (some root) target new_pane axis ratio e h = ground (
  arith,
  leaves-split_leaf target new_pane axis ratio root,
  split_leaf-found target new_pane axis ratio root,
)

pub split_pane-view :
    (w : WorkspaceTree) (target new_pane : PaneId) (axis : SplitAxis) (ratio : F32)
    → seen_as (split_pane w target new_pane axis ratio) ≡ split_view (view w) target new_pane ratio
unfolding split_pane contains_pane
split_pane-view w target new_pane axis ratio =
    ground (arith, panes-eq w, split_root-view w w.root target new_pane axis ratio refl)

erase_nil :
    (p a : PaneId) (xs : List PaneId) → contains xs a ≡ true → [] ≡ erase p xs → (a == p) ≡ true
erase_nil p a [] h e = cc
erase_nil p a (x ∷ []) h e = ground arith
erase_nil p a (x ∷ y ∷ xs) h e = ground arith

abbrev moved : Option PaneId → PaneId → List PaneId → Option PaneId
moved active pane rest = if is_active active pane then get_elem? rest 0 else active

emptied_active :
    (root : PaneTree) (active : Option PaneId) (pane : PaneId)
    → ActiveIsPresent (some root) active
    → [] ≡ erase pane (leaves root)
    → moved active pane (erase pane (leaves root)) ≡ none
emptied_active root none pane h e = absurd h
emptied_active root (some a) pane h e = rw (erase_nil pane a (leaves root) h e, ← e)

kept_active :
    (u root : PaneTree) (active : Option PaneId) (pane : PaneId)
    → ActiveIsPresent (some root) active
    → leaves u ≡ erase pane (leaves root)
    → moved active pane (erase pane (leaves root))
      ≡ some (if is_active active pane then first_leaf u else unwrap_or active (first_leaf u))
kept_active u root none pane h e = absurd h
kept_active u root (some a) pane h e = rw (← e) (ground (arith, first_leaf-head u))

close_with-view :
    (w : WorkspaceTree) (root : PaneTree) (pane : PaneId) (o : Removal)
    → w.root ≡ some root
    → Removes root pane o
    → ActiveIsPresent (some root) w.default_active
    → seen_as (close_with w pane o) ≡ close_view (view w) pane
unfolding close_with
close_with-view w root pane (Removal.not_found u) e r v = ground arith
close_with-view w root pane (Removal.removed none) e r v =
    ground (arith, emptied_active root w.default_active pane v r.1)
close_with-view w root pane (Removal.removed (some u)) e r v =
    ground (arith, kept_active u root w.default_active pane v r.1)

close_rooted-view :
    (w : WorkspaceTree) (root : Option PaneTree) (pane : PaneId)
    → w.root ≡ root
    → IsValid w
    → seen_as (close_rooted w root pane) ≡ close_view (view w) pane
unfolding close_rooted
close_rooted-view w none pane e v = ground arith
close_rooted-view w (some root) pane e v =
    close_with-view w root pane (remove_from root pane) e (remove_from-Removes root pane)
      (rw e at v.active)

pub close-view :
    (w : WorkspaceTree) (pane : PaneId)
    → IsValid w
    → seen_as (close w pane) ≡ close_view (view w) pane
unfolding close
close-view w pane v = close_rooted-view w w.root pane refl v

pub resize_split-view :
    (w : WorkspaceTree) (path : List Side) (ratio : F32)
    → view (resize_split w path ratio).0 ≡ view w
resize_split-view w path ratio =
    let h = resize_split-ResizesSplit w path ratio in ground (arith, h.same_panes, h.same_active)

pub set_default_active-view :
    (w : WorkspaceTree) (pane : PaneId)
    → seen_as (set_default_active w pane) ≡ activate_view (view w) pane
unfolding set_default_active contains_pane
set_default_active-view w pane = ground (arith, panes-eq w)
