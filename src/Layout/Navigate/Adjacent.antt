-- ===== src/Layout/Navigate/Adjacent.antt =====
-- clients/rttx/src/workspace/layout.rs: the neighbour that is found is another terminal of the layout.
use rttx.Common.{
  ◌≡◌, refl, arith, ◌≢◌, inl, inr, Bool, true, false, ◌||◌, Option, none, some, ◌++◌, is_some,
  Bool-cases,
}
use rttx.Common.Text.{Text, text_eq, text_eq_iff}
use rttx.Layout.{
  LayoutNode, terminal, split_node, terminal_uuids, contains_terminal, Direction, SplitOrientation,
}
use rttx.Layout.Terminals.{AreDistinct, contains_terminal-eq, distinct-append, distinct-apart}
use rttx.Layout.Navigate.{
  adjacent_of, edge_terminal-contained, cross, find_adjacent_inner, find_adjacent, toward_first,
}

-- The flag that the walk returns is whether the target is below, and an answer comes from below only.
Flags : Option Text × Bool → Bool → Type 0
Flags p b = (p.1 ≡ b) × (is_some p.0 ≡ true → b ≡ true)

adjacent_of-Flags :
    (o : SplitOrientation) (f s : LayoutNode) (d : Direction) (p q : Option Text × Bool)
    (a b : Bool)
    → Flags p a
    → Flags q b
    → Flags (adjacent_of o f s d p q) (a || b)
unfolding adjacent_of cross Flags
adjacent_of-Flags o f s d (some v, x) q a b h k = ground arith
adjacent_of-Flags o f s d (none, x) (some v, y) a b h k = ground arith
adjacent_of-Flags o f s d (none, x) (none, y) a b h k =
    (ground (arith, h.0, k.0), λ e. ground (arith, h.0, k.0))

inner_flag :
    (t : LayoutNode) (u : Text) (d : Direction)
    → Flags (find_adjacent_inner t u d) (contains_terminal t u)
unfolding find_adjacent_inner contains_terminal Flags
inner_flag (terminal uuid profile cwd title) u d = (refl, λ h. cc)
inner_flag (split_node o r f s) u d =
    adjacent_of-Flags o f s d (find_adjacent_inner f u d) (find_adjacent_inner s u d)
      (contains_terminal f u) (contains_terminal s u) (inner_flag f u d) (inner_flag s u d)

cross-Apart :
    (o : SplitOrientation) (f s : LayoutNode) (u v : Text) (d : Direction)
    → AreDistinct (terminal_uuids f ++ terminal_uuids s)
    → (cross o f s d (contains_terminal f u) (contains_terminal s u)).0 ≡ some v
    → ((contains_terminal f v || contains_terminal s v) ≡ true) × (text_eq v u ≡ false)
unfolding cross
cross-Apart o f s u v d dis h = elim (Bool-cases (toward_first d)) [
  | inl e ↦ ground (
    arith,
    edge_terminal-contained f d,
    contains_terminal-eq f v,
    contains_terminal-eq s v,
    contains_terminal-eq s u,
    distinct-apart (terminal_uuids f) (terminal_uuids s) v dis,
    text_eq_iff v u,
  )
  | inr e ↦ ground (
    arith,
    edge_terminal-contained s d,
    contains_terminal-eq s v,
    contains_terminal-eq f u,
    contains_terminal-eq s u,
    distinct-apart (terminal_uuids f) (terminal_uuids s) u dis,
    text_eq_iff v u,
  )
]

adjacent_of-Apart :
    (o : SplitOrientation) (f s : LayoutNode) (u v : Text) (d : Direction)
    (p q : Option Text × Bool)
    → AreDistinct (terminal_uuids f ++ terminal_uuids s)
    → p.1 ≡ contains_terminal f u
    → q.1 ≡ contains_terminal s u
    → (p.0 ≡ some v → (contains_terminal f v ≡ true) × (text_eq v u ≡ false))
    → (q.0 ≡ some v → (contains_terminal s v ≡ true) × (text_eq v u ≡ false))
    → (adjacent_of o f s d p q).0 ≡ some v
    → ((contains_terminal f v || contains_terminal s v) ≡ true) × (text_eq v u ≡ false)
unfolding adjacent_of
adjacent_of-Apart o f s u v d (some w, b) q dis hp hq kp kq h = ground (arith, kp h)
adjacent_of-Apart o f s u v d (none, b) (some w, c) dis hp hq kp kq h = ground (arith, kq h)
adjacent_of-Apart o f s u v d (none, b) (none, c) dis hp hq kp kq h =
    cross-Apart o f s u v d dis (ground (arith, h, hp, hq))

inner_apart :
    (t : LayoutNode) (u v : Text) (d : Direction)
    → AreDistinct (terminal_uuids t)
    → (find_adjacent_inner t u d).0 ≡ some v
    → (contains_terminal t v ≡ true) × (text_eq v u ≡ false)
unfolding find_adjacent_inner contains_terminal terminal_uuids Flags
inner_apart (terminal uuid profile cwd title) u v d dis h = cc
inner_apart (split_node o r f s) u v d dis h =
    adjacent_of-Apart o f s u v d (find_adjacent_inner f u d) (find_adjacent_inner s u d) dis
      (inner_flag f u d).0 (inner_flag s u d).0
      (inner_apart f u v d (distinct-append (terminal_uuids f) (terminal_uuids s) dis).0)
      (inner_apart s u v d (distinct-append (terminal_uuids f) (terminal_uuids s) dis).1) h

-- Where no UUID stands twice, the neighbour that is found is a terminal of the layout other than the
-- one that the search started from, which is in the layout too.
pub find_adjacent-contained :
    (t : LayoutNode) (u v : Text) (d : Direction)
    → AreDistinct (terminal_uuids t)
    → find_adjacent t u d ≡ some v
    → (contains_terminal t v ≡ true) × (contains_terminal t u ≡ true) × (v ≢ u)
unfolding find_adjacent Flags
find_adjacent-contained t u v d dis h = (
  (inner_apart t u v d dis h).0,
  (inner_flag t u d).1 (ground (arith, h)),
  λ e. ground (arith, inner_apart t u v d dis h, text_eq_iff v u),
)
