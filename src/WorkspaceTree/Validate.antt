-- ===== src/WorkspaceTree/Validate.antt =====
-- services/rttx-server/src/pane_tree.rs: `validate` decides the invariant.
use rttx.Common.{
  ◌≡◌, refl, ap, ◌∙◌, ◌↔◌, inl, inr, false, Option, none, some, List, [], ◌∷◌, ◌++◌, arith,
  Bool-cases, contains, contains-append, IsDistinct, append_assoc, ok, and_then-ok,
}
use rttx.PaneTree.{PaneId, PaneTree, leaf, split, ratio_is_valid}
use rttx.PaneTree.Leaves.{leaves}
use rttx.PaneTree.Remove.{panes_of}
use rttx.PaneTree.Ratio.{HasValidRatios, HasValidRatios?}
use rttx.WorkspaceTree.{WorkspaceTree, validate_node, validate_active, validate_root, validate}
use rttx.WorkspaceTree.Valid.{IsValid, ActiveIsPresent}

IsDistinct-snoc :
    (xs : List PaneId) (p : PaneId)
    → contains xs p ≡ false
    → IsDistinct xs
    → IsDistinct (xs ++ p ∷ [])
IsDistinct-snoc [] p h d = (refl, tt)
IsDistinct-snoc (x ∷ xs) p h d = ground (arith, IsDistinct-snoc xs p, contains-append xs (p ∷ []) x)

snoc-IsDistinct :
    (xs : List PaneId) (p : PaneId) → IsDistinct (xs ++ p ∷ []) → contains xs p ≡ false
snoc-IsDistinct [] p d = refl
snoc-IsDistinct (x ∷ xs) p d = ground (arith, snoc-IsDistinct xs p, contains-append xs (p ∷ []) x)

prefix-IsDistinct : (xs ys : List PaneId) → IsDistinct (xs ++ ys) → IsDistinct xs
prefix-IsDistinct [] ys d = tt
prefix-IsDistinct (x ∷ xs) ys d = ground (arith, prefix-IsDistinct xs ys, contains-append xs ys x)

-- What a walk that accepts has seen.
validate_node_sound :
    (t : PaneTree) (seen seen' : List PaneId)
    → validate_node t seen ≡ ok seen'
    → IsDistinct seen
    → (seen' ≡ seen ++ leaves t) × HasValidRatios t × IsDistinct seen'
unfolding validate_node
validate_node_sound (leaf p) seen seen' e d = ground (arith, IsDistinct-snoc seen p)
validate_node_sound (split a r f s) seen seen' e d = elim (Bool-cases (ratio_is_valid r)) [
  | inr bad ↦ absurd (ground arith)
  | inl good ↦
      let (mid, e1, e2) =
        and_then-ok (validate_node f seen) (validate_node s) (rw (good, validate_node) at e) in
      let h = validate_node_sound f seen mid e1 d in
      let k = validate_node_sound s mid seen' e2 h.2 in
      (
        k.0 ∙ ap (λ x. x ++ leaves s) h.0 ∙ append_assoc seen (leaves f) (leaves s),
        (good, h.1, k.1),
        k.2,
      )
]

validate_node_complete :
    (t : PaneTree) (seen : List PaneId)
    → HasValidRatios t
    → IsDistinct (seen ++ leaves t)
    → validate_node t seen ≡ ok (seen ++ leaves t)
unfolding validate_node
validate_node_complete (leaf p) seen v d = ground (arith, snoc-IsDistinct seen p)
validate_node_complete (split a r f s) seen v d =
    let assoc = append_assoc seen (leaves f) (leaves s) in
    let d' : IsDistinct ((seen ++ leaves f) ++ leaves s) = rw assoc d in
    rw (v.0, validate_node_complete f seen v.1 (prefix-IsDistinct (seen ++ leaves f) (leaves s) d'))
      (validate_node_complete s (seen ++ leaves f) v.2 d' ∙ ap ok assoc)

validate_active_lem :
    (root : PaneTree) (active : Option PaneId)
    → (validate_active (leaves root) active ≡ ok tt) ↔ ActiveIsPresent (some root) active
unfolding validate_active
validate_active_lem root none = (λ h. cc, λ h. absurd h)
validate_active_lem root (some a) = ground arith

validate_root_sound :
    (w : WorkspaceTree) (root : Option PaneTree) (active : Option PaneId)
    → w.root ≡ root
    → w.default_active ≡ active
    → validate_root root active ≡ ok tt
    → IsValid w
unfolding validate_root
validate_root_sound w none none e a h = ground arith
validate_root_sound w none (some p) e a h = cc
validate_root_sound w (some root) active e a h =
    let (seen, e1, e2) =
      and_then-ok (validate_node root []) (λ seen. validate_active seen active) h in
    let k = validate_node_sound root [] seen e1 tt in
    record {
      distinct = rw (e, ← k.0) k.2;
      ratios = rw e k.1;
      active = rw (e, a) ((validate_active_lem root active).0 (rw k.0 at e2));
    }

validate_root_complete :
    (root : Option PaneTree) (active : Option PaneId)
    → IsDistinct (panes_of root)
    → HasValidRatios? root
    → ActiveIsPresent root active
    → validate_root root active ≡ ok tt
unfolding validate_root
validate_root_complete none none d r h = refl
validate_root_complete none (some p) d r h = absurd h
validate_root_complete (some root) active d r h =
    rw (validate_node_complete root [] r d) ((validate_active_lem root active).1 h)

-- `validate` accepts a tree exactly when it keeps the invariant: no pane stands twice, every ratio
-- is valid, and the default-active pane is one of the panes, or absent from an empty tree.
pub validate-IsValid : (w : WorkspaceTree) → (validate w ≡ ok tt) ↔ IsValid w
unfolding validate
validate-IsValid w = (
  validate_root_sound w w.root w.default_active refl refl,
  λ v. validate_root_complete w.root w.default_active v.distinct v.ratios v.active,
)
