-- ===== src/Layout/Navigate.antt =====
-- clients/rttx/src/workspace/layout.rs: moving the focus to a neighbour or along the cycle.
pub mod Cycle
pub mod Adjacent
use rttx.Common.{
  ℕ, ◌+◌, ◌-◌, ◌%◌, ◌≡◌, refl, sym, ap, ◌∙◌, arith, ◌≢◌, ◌⊎◌, inl, inr, Bool, true, false, not,
  ◌&&◌, ◌||◌, Option, none, some, List, [], ◌∷◌, ◌++◌, if◌then◌else◌, is_some, Bool-cases,
  Option-cases, ltb, length, get_elem?,
}
use rttx.Common.Text.{Text, text_eq, text_eq_iff, text_eq_refl}
use rttx.Layout.{
  LayoutNode, terminal, split_node, terminal_uuids, contains_terminal, rotated, toggled,
  SplitOrientation, Direction,
}

-- `matches!((orientation, direction), ...)`
unfoldable pub matches_axis : SplitOrientation → Direction → Bool
matches_axis SplitOrientation.horizontal Direction.left = true
matches_axis SplitOrientation.horizontal Direction.right = true
matches_axis SplitOrientation.horizontal Direction.up = false
matches_axis SplitOrientation.horizontal Direction.down = false
matches_axis SplitOrientation.vertical Direction.left = false
matches_axis SplitOrientation.vertical Direction.right = false
matches_axis SplitOrientation.vertical Direction.up = true
matches_axis SplitOrientation.vertical Direction.down = true

unfoldable pub toward_first : Direction → Bool
toward_first Direction.left = true
toward_first Direction.right = false
toward_first Direction.up = true
toward_first Direction.down = false

unfoldable pub pick_first : SplitOrientation → Direction → Bool
pick_first SplitOrientation.horizontal Direction.left = false
pick_first SplitOrientation.horizontal Direction.right = true
pick_first SplitOrientation.horizontal Direction.up = true
pick_first SplitOrientation.horizontal Direction.down = true
pick_first SplitOrientation.vertical Direction.left = true
pick_first SplitOrientation.vertical Direction.right = true
pick_first SplitOrientation.vertical Direction.up = false
pick_first SplitOrientation.vertical Direction.down = true

unfoldable pub edge_terminal : LayoutNode → Direction → Text
unfolding pick_first
edge_terminal (terminal uuid profile cwd title) direction = uuid
edge_terminal (split_node o r f s) direction =
    let in_first = edge_terminal f direction in
    let in_second = edge_terminal s direction in
    if pick_first o direction then in_first else in_second

-- The part after both recursive calls found nothing: where the target is below this split.
unfoldable pub cross :
    SplitOrientation → LayoutNode → LayoutNode → Direction → Bool → Bool → Option Text × Bool
unfolding matches_axis toward_first edge_terminal
cross o f s direction in_first in_second =
    if not in_first && not in_second
    then (none, false)
    else (if not (matches_axis o direction)
        then (none, true)
        else (if toward_first direction && in_second
            then (some (edge_terminal f direction), true)
            else (if not (toward_first direction) && in_first
                then (some (edge_terminal s direction), true)
                else (none, true))))

-- The early returns on the children's answers, then the crossing.
unfoldable pub adjacent_of :
    SplitOrientation
    → LayoutNode
    → LayoutNode
    → Direction
    → Option Text × Bool
    → Option Text × Bool
    → Option Text × Bool
unfolding cross
adjacent_of o f s direction (some v, in_first) answer = (some v, true)
adjacent_of o f s direction (none, in_first) (some v, in_second) = (some v, true)
adjacent_of o f s direction (none, in_first) (none, in_second) =
    cross o f s direction in_first in_second

unfoldable pub find_adjacent_inner : LayoutNode → Text → Direction → Option Text × Bool
unfolding adjacent_of
find_adjacent_inner (terminal uuid profile cwd title) target direction = (none, text_eq uuid target)
find_adjacent_inner (split_node o r f s) target direction =
    adjacent_of o f s direction (find_adjacent_inner f target direction)
      (find_adjacent_inner s target direction)

unfoldable pub find_adjacent : LayoutNode → Text → Direction → Option Text
unfolding find_adjacent_inner
find_adjacent t target direction = (find_adjacent_inner t target direction).0

-- `iter().position(...)`
unfoldable pub position : List Text → Text → Option ℕ
position [] u = none
position (x ∷ xs) u =
    let rest = position xs u in
    if text_eq x u then some 0 else (elim rest [ none ↦ none | some i ↦ some (i + 1) ])

-- `uuids[i]`; an index out of range, which would panic, is `none`.
unfoldable pub nth_from : List Text → Bool → Option ℕ → Option Text
nth_from uuids forward none = none
nth_from uuids forward (some index) =
    get_elem? uuids ((index + (if forward then 1 else length uuids - 1)) % length uuids)

unfoldable pub cycle_terminal : LayoutNode → Text → Bool → Option Text
unfolding position nth_from
cycle_terminal t target forward =
    if ltb (length (terminal_uuids t)) 2
    then none
    else nth_from (terminal_uuids t) forward (position (terminal_uuids t) target)

-- The direction after a turn of the layout.
abbrev pub turned : Direction → Direction
turned Direction.left = Direction.up
turned Direction.right = Direction.down
turned Direction.up = Direction.left
turned Direction.down = Direction.right

toggled-turned :
    (o : SplitOrientation) (d : Direction)
    → (matches_axis (toggled o) (turned d) ≡ matches_axis o d)
      × (toward_first (turned d) ≡ toward_first d)
      × (pick_first (toggled o) (turned d) ≡ pick_first o d)
unfolding toggled matches_axis toward_first pick_first
toggled-turned SplitOrientation.horizontal Direction.left = (refl, refl, refl)
toggled-turned SplitOrientation.horizontal Direction.right = (refl, refl, refl)
toggled-turned SplitOrientation.horizontal Direction.up = (refl, refl, refl)
toggled-turned SplitOrientation.horizontal Direction.down = (refl, refl, refl)
toggled-turned SplitOrientation.vertical Direction.left = (refl, refl, refl)
toggled-turned SplitOrientation.vertical Direction.right = (refl, refl, refl)
toggled-turned SplitOrientation.vertical Direction.up = (refl, refl, refl)
toggled-turned SplitOrientation.vertical Direction.down = (refl, refl, refl)

edge_terminal-rotated :
    (t : LayoutNode) (d : Direction) → edge_terminal (rotated t) (turned d) ≡ edge_terminal t d
unfolding edge_terminal rotated
edge_terminal-rotated (terminal uuid profile cwd title) d = refl
edge_terminal-rotated (split_node o r f s) d =
    ground (arith, toggled-turned o d, edge_terminal-rotated f d, edge_terminal-rotated s d)

adjacent_of-rotated :
    (o : SplitOrientation) (f s : LayoutNode) (d : Direction) (p q : Option Text × Bool)
    → adjacent_of (toggled o) (rotated f) (rotated s) (turned d) p q ≡ adjacent_of o f s d p q
unfolding adjacent_of cross
adjacent_of-rotated o f s d (some v, b) q = refl
adjacent_of-rotated o f s d (none, b) (some v, c) = refl
adjacent_of-rotated o f s d (none, b) (none, c) =
    ground (arith, toggled-turned o d, edge_terminal-rotated f d, edge_terminal-rotated s d)

inner_rotated :
    (t : LayoutNode) (u : Text) (d : Direction)
    → find_adjacent_inner (rotated t) u (turned d) ≡ find_adjacent_inner t u d
unfolding find_adjacent_inner rotated
inner_rotated (terminal uuid profile cwd title) u d = refl
inner_rotated (split_node o r f s) u d =
    rw (inner_rotated f u d, inner_rotated s u d)
      (adjacent_of-rotated o f s d (find_adjacent_inner f u d) (find_adjacent_inner s u d))

-- Turning the layout turns its neighbours: the neighbour in a direction is, after the turn, the
-- neighbour in the turned direction.
pub find_adjacent-rotated :
    (t : LayoutNode) (u : Text) (d : Direction)
    → find_adjacent (rotated t) u (turned d) ≡ find_adjacent t u d
unfolding find_adjacent
find_adjacent-rotated t u d = ap (λ x. x.0) (inner_rotated t u d)

edge_terminal-contained :
    (t : LayoutNode) (d : Direction) → contains_terminal t (edge_terminal t d) ≡ true
unfolding edge_terminal contains_terminal
edge_terminal-contained (terminal uuid profile cwd title) d = text_eq_refl uuid
edge_terminal-contained (split_node o r f s) d = elim (Bool-cases (pick_first o d)) [
  | inl h ↦ ground (arith, edge_terminal-contained f d)
  | inr h ↦ ground (arith, edge_terminal-contained s d)
]
