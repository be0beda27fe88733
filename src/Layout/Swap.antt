-- ===== src/Layout/Swap.antt =====
-- clients/rttx/src/workspace/layout.rs: swapping two terminals, and turning every split.
use rttx.Common.{
  ◌≡◌, refl, ap, sym, ◌∙◌, arith, Bool, inl, inr, true, false, not, ◌&&◌, ◌||◌, Option, none, some,
  List, [], ◌∷◌, ◌++◌, if◌then◌else◌, map, is_some, Bool-cases,
}
use rttx.Common.Text.{Text, text_eq, text_eq_iff}
use rttx.Layout.{
  LayoutNode, terminal, split_node, terminal_uuids, contains_terminal, rotated, toggled,
  SplitOrientation,
}

-- `rep_a` and `rep_b` are the two slots that the walk writes.
unfoldable pub collect_replacements :
    LayoutNode
    → Text
    → Text
    → Option LayoutNode × Option LayoutNode
    → Option LayoutNode × Option LayoutNode
collect_replacements (terminal uuid profile cwd title) a b (rep_a, rep_b) =
    if text_eq uuid a
    then (some (terminal uuid profile cwd title), rep_b)
    else (if text_eq uuid b
        then (rep_a, some (terminal uuid profile cwd title))
        else (rep_a, rep_b))
collect_replacements (split_node o r f s) a b reps =
    collect_replacements s a b (collect_replacements f a b reps)

unfoldable pub apply_replacements : LayoutNode → Text → Text → LayoutNode → LayoutNode → LayoutNode
apply_replacements (terminal uuid profile cwd title) a b val_a val_b =
    if text_eq uuid a
    then val_a
    else (if text_eq uuid b then val_b else terminal uuid profile cwd title)
apply_replacements (split_node o r f s) a b val_a val_b =
    split_node o r (apply_replacements f a b val_a val_b) (apply_replacements s a b val_a val_b)

unfoldable pub swap_found :
    LayoutNode → Text → Text → Option LayoutNode × Option LayoutNode → LayoutNode
unfolding apply_replacements
swap_found t a b (some node_a, some node_b) = apply_replacements t a b node_b node_a
swap_found t a b (none, _) = t
swap_found t a b (some node_a, none) = t

unfoldable pub swap_terminals : LayoutNode → Text → Text → LayoutNode
unfolding collect_replacements swap_found
swap_terminals t a b =
    if text_eq a b
    then t
    else (if not (contains_terminal t a) || not (contains_terminal t b)
        then t
        else swap_found t a b (collect_replacements t a b (none, none)))

-- The leaves from left to right, and the layout with nothing but its splits.
abbrev pub leaves : LayoutNode → List LayoutNode
leaves (terminal uuid profile cwd title) = terminal uuid profile cwd title ∷ []
leaves (split_node o r f s) = leaves f ++ leaves s

abbrev pub frame : LayoutNode → LayoutNode
frame (terminal uuid profile cwd title) = terminal [] none none none
frame (split_node o r f s) = split_node o r (frame f) (frame s)

abbrev pub is_named : Text → LayoutNode → Bool
is_named u (terminal uuid profile cwd title) = text_eq uuid u
is_named u (split_node o r f s) = false

-- The last leaf with a UUID, or else what was found before.
abbrev pub last_named : Text → Option LayoutNode → List LayoutNode → Option LayoutNode
last_named u found [] = found
last_named u found (l ∷ ls) = last_named u (if is_named u l then some l else found) ls

abbrev pub has_leaf : Text → List LayoutNode → Bool
has_leaf u ls = is_some (last_named u none ls)

abbrev pub unwrap_leaf : Option LayoutNode → LayoutNode → LayoutNode
unwrap_leaf none l = l
unwrap_leaf (some found) l = found

-- What stands at a leaf once the terminals `a` and `b` changed places.
abbrev pub exchange : Text → Text → Option LayoutNode → Option LayoutNode → LayoutNode → LayoutNode
exchange a b leaf_a leaf_b l =
    if is_named a l
    then unwrap_leaf leaf_b l
    else (if is_named b l then unwrap_leaf leaf_a l else l)

abbrev pub exchanged : Text → Text → List LayoutNode → List LayoutNode
exchanged a b ls = map (exchange a b (last_named a none ls) (last_named b none ls)) ls

last_named-append :
    (u : Text) (found : Option LayoutNode) (xs ys : List LayoutNode)
    → last_named u found (xs ++ ys) ≡ last_named u (last_named u found xs) ys
last_named-append u found [] ys = refl
last_named-append u found (x ∷ xs) ys =
    last_named-append u (if is_named u x then some x else found) xs ys

collect-last_named :
    (t : LayoutNode) (a b : Text) (p q : Option LayoutNode)
    → text_eq a b ≡ false
    → collect_replacements t a b (p, q) ≡ (last_named a p (leaves t), last_named b q (leaves t))
unfolding collect_replacements
collect-last_named (terminal uuid profile cwd title) a b p q h =
    ground (arith, text_eq_iff uuid a, text_eq_iff uuid b, text_eq_iff a b)
collect-last_named (split_node o r f s) a b p q h =
    ap (collect_replacements s a b) (collect-last_named f a b p q h)
    ∙ collect-last_named s a b (last_named a p (leaves f)) (last_named b q (leaves f)) h
    ∙ rw (last_named-append a p (leaves f) (leaves s), last_named-append b q (leaves f) (leaves s))
        refl

-- A slot holds, at most, a terminal.
HoldsLeaf : Option LayoutNode → Type 0
HoldsLeaf none = Unit {0}
HoldsLeaf (some t) = (leaves t ≡ t ∷ []) × (frame t ≡ terminal [] none none none)

last_named-HoldsLeaf :
    (u : Text) (t : LayoutNode) (found : Option LayoutNode)
    → HoldsLeaf found
    → HoldsLeaf (last_named u found (leaves t))
unfolding HoldsLeaf
last_named-HoldsLeaf u (terminal uuid profile cwd title) found h =
    elim (Bool-cases (text_eq uuid u)) [ inl same ↦ rw same (refl, refl) | inr other ↦ rw other h ]
last_named-HoldsLeaf u (split_node o r f s) found h =
    rw (last_named-append u found (leaves f) (leaves s))
      (last_named-HoldsLeaf u s (last_named u found (leaves f)) (last_named-HoldsLeaf u f found h))

last_named-is_some :
    (u : Text) (t : LayoutNode) (found : Option LayoutNode)
    → is_some (last_named u found (leaves t)) ≡ (is_some found || contains_terminal t u)
unfolding contains_terminal
last_named-is_some u (terminal uuid profile cwd title) found = ground arith
last_named-is_some u (split_node o r f s) found = ground (
  arith,
  last_named-append u found (leaves f) (leaves s),
  last_named-is_some u f found,
  last_named-is_some u s (last_named u found (leaves f)),
)

map-append :
    (f : LayoutNode → LayoutNode) (xs ys : List LayoutNode)
    → map f (xs ++ ys) ≡ map f xs ++ map f ys
map-append f [] ys = refl
map-append f (x ∷ xs) ys = ap (λ zs. f x ∷ zs) (map-append f xs ys)

module _ (a b : Text) (val_a val_b : LayoutNode) where
  abbrev put : LayoutNode → LayoutNode
  put l = if is_named a l then val_a else (if is_named b l then val_b else l)

  leaves-apply_replacements :
      (t : LayoutNode)
      → leaves val_a ≡ val_a ∷ []
      → leaves val_b ≡ val_b ∷ []
      → leaves (apply_replacements t a b val_a val_b) ≡ map put (leaves t)
  unfolding apply_replacements
  leaves-apply_replacements (terminal uuid profile cwd title) h k = ground arith
  leaves-apply_replacements (split_node o r f s) h k = ground (
    arith,
    leaves-apply_replacements f h k,
    leaves-apply_replacements s h k,
    map-append put (leaves f) (leaves s),
  )

  frame-apply_replacements :
      (t : LayoutNode)
      → frame val_a ≡ terminal [] none none none
      → frame val_b ≡ terminal [] none none none
      → frame (apply_replacements t a b val_a val_b) ≡ frame t
  unfolding apply_replacements
  frame-apply_replacements (terminal uuid profile cwd title) h k = ground arith
  frame-apply_replacements (split_node o r f s) h k =
      ground (arith, frame-apply_replacements f h k, frame-apply_replacements s h k)

swap_found-Exchanges :
    (t : LayoutNode) (a b : Text) (p q : Option LayoutNode)
    → HoldsLeaf p
    → HoldsLeaf q
    → last_named a none (leaves t) ≡ p
    → last_named b none (leaves t) ≡ q
    → is_some p ≡ true
    → is_some q ≡ true
    → (frame (swap_found t a b (p, q)) ≡ frame t)
      × (leaves (swap_found t a b (p, q)) ≡ exchanged a b (leaves t))
unfolding swap_found HoldsLeaf
swap_found-Exchanges t a b none q h k m n i j = cc
swap_found-Exchanges t a b (some node_a) none h k m n i j = cc
swap_found-Exchanges t a b (some node_a) (some node_b) h k m n i j = (
  frame-apply_replacements a b node_b node_a t k.1 h.1,
  leaves-apply_replacements a b node_b node_a t k.0 h.0
      ∙ sym (
          ap (λ o. map (exchange a b o (last_named b none (leaves t))) (leaves t)) m
          ∙ ap (λ o. map (exchange a b (some node_a) o) (leaves t)) n),
)

swap_contained :
    (t : LayoutNode) (a b : Text)
    → (frame (swap_terminals t a b) ≡ frame t)
      × (leaves (swap_terminals t a b) ≡ (
          if not (text_eq a b) && (contains_terminal t a && contains_terminal t b)
          then exchanged a b (leaves t)
          else leaves t))
unfolding swap_terminals HoldsLeaf
swap_contained t a b = elim (Bool-cases (text_eq a b)) [
  | inl h ↦ rw (swap_terminals, h) (refl, refl)
  | inr h ↦ elim (Bool-cases (contains_terminal t a && contains_terminal t b)) [
    | inr missing ↦ ground (arith, h, missing)
    | inl both ↦ ground (
      arith,
      h,
      both,
      collect-last_named t a b none none h,
      last_named-is_some a t none,
      last_named-is_some b t none,
      swap_found-Exchanges t a b (last_named a none (leaves t)) (last_named b none (leaves t))
          (last_named-HoldsLeaf a t none tt) (last_named-HoldsLeaf b t none tt) refl refl,
    )
  ]
]

-- A swap keeps every split with its orientation and its ratio. Where the layout has both terminals and
-- they differ, they change places, each with its profile, directory and title (of several with one
-- UUID, the last), and every other terminal stays as it is; else all of them do.
pub swap_terminals-Exchanges :
    (t : LayoutNode) (a b : Text)
    → (frame (swap_terminals t a b) ≡ frame t)
      × (leaves (swap_terminals t a b) ≡ (
          if not (text_eq a b) && (has_leaf a (leaves t) && has_leaf b (leaves t))
          then exchanged a b (leaves t)
          else leaves t))
swap_terminals-Exchanges t a b =
    rw (last_named-is_some a t none, last_named-is_some b t none) (swap_contained t a b)

toggled_twice : (o : SplitOrientation) → toggled (toggled o) ≡ o
unfolding toggled
toggled_twice SplitOrientation.horizontal = refl
toggled_twice SplitOrientation.vertical = refl

-- Turning a layout twice gives it back, and one turn keeps the terminals and their order.
pub rotated-rotated :
    (t : LayoutNode) → (rotated (rotated t) ≡ t) × (terminal_uuids (rotated t) ≡ terminal_uuids t)
unfolding rotated terminal_uuids
rotated-rotated (terminal uuid profile cwd title) = (refl, refl)
rotated-rotated (split_node o r f s) =
    ground (arith, toggled_twice o, rotated-rotated f, rotated-rotated s)
