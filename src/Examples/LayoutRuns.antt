-- ===== src/Examples/LayoutRuns.antt =====
-- clients/rttx/src/workspace/layout.rs: a layout of three terminals.
use rttx.Common.{
  ◌≢◌, not, ℕ, ◌≤◌, ◌≡◌, refl, ◌≢◌, true, false, ◌&&◌, none, some, [], ◌∷◌, is_some, if◌then◌else◌,
  length, arith,
}
use rttx.Common.Text.{Text, text_eq}
use rttx.Layout.{
  LayoutNode, terminal, split_node, SplitOrientation, Direction, half_f64, terminal_uuids,
  contains_terminal, split_terminal, split_terminal_with_new_uuid, remove_terminal, split,
  new_terminal, either_child,
}
use rttx.Layout.Terminals.{
  AreDistinct, uuids_of, without, insert_behind, has, remove_terminal-without,
}
use rttx.Layout.Splits.{
  is_shallow, first_depth, leaf_depths, pair_with, split_terminal_with_new_uuid-eq,
  split_terminal-Inserts, remove_terminal-split_terminal,
}
use rttx.Layout.Swap.{swap_terminals, exchanged, has_leaf, frame, leaves, swap_terminals-Exchanges}
use rttx.Layout.Navigate.{
  find_adjacent, find_adjacent_inner, adjacent_of, cross, edge_terminal, cycle_terminal,
}
use rttx.Layout.Navigate.Cycle.{cycle_terminal-back}
use rttx.Layout.Navigate.Adjacent.{find_adjacent-contained}

abbrev named : ℕ → LayoutNode
named n = terminal (n ∷ []) none none none

-- One terminal on the left, two on the right, one above the other.
abbrev three : LayoutNode
three =
    split_node SplitOrientation.horizontal half_f64 (named 1)
      (split_node SplitOrientation.vertical half_f64 (named 2) (named 3))

three-AreDistinct : AreDistinct (terminal_uuids three)
unfolding terminal_uuids text_eq
three-AreDistinct = (refl, (refl, (refl, tt)))

contains_one : contains_terminal three (1 ∷ []) ≡ true
unfolding contains_terminal text_eq
contains_one = refl

split_terminal_with_new_uuid-eq_example :
    split_terminal_with_new_uuid three (2 ∷ []) SplitOrientation.vertical (4 ∷ []) ≡ (
      if is_shallow (first_depth (2 ∷ []) (leaf_depths 1 three))
      then pair_with
          (2 ∷ [])
          SplitOrientation.vertical
          (4 ∷ [])
          (split_terminal three (2 ∷ []) SplitOrientation.vertical (4 ∷ []))
      else none)
split_terminal_with_new_uuid-eq_example =
    split_terminal_with_new_uuid-eq (2 ∷ []) SplitOrientation.vertical (4 ∷ []) three

split_terminal-Inserts_example :
    (is_some (split_terminal three (2 ∷ []) SplitOrientation.vertical (4 ∷ []))
      ≡ contains_terminal three (2 ∷ []))
    × (uuids_of (split_terminal three (2 ∷ []) SplitOrientation.vertical (4 ∷ [])) ≡ (
        if contains_terminal three (2 ∷ [])
        then insert_behind (2 ∷ []) (4 ∷ []) (terminal_uuids three)
        else []))
split_terminal-Inserts_example =
    split_terminal-Inserts (2 ∷ []) SplitOrientation.vertical (4 ∷ []) three

fresh_four : has (terminal_uuids three) (4 ∷ []) ≡ false
unfolding terminal_uuids text_eq
fresh_four = refl

abbrev one_split : LayoutNode
one_split =
    split_node SplitOrientation.horizontal half_f64
      (split_node SplitOrientation.vertical half_f64 (named 1) (named 4))
      (split_node SplitOrientation.vertical half_f64 (named 2) (named 3))

splits_one : split_terminal three (1 ∷ []) SplitOrientation.vertical (4 ∷ []) ≡ some one_split
unfolding split_terminal either_child split new_terminal text_eq
splits_one = refl

remove_terminal-split_terminal_example : remove_terminal one_split (4 ∷ []) ≡ some three
remove_terminal-split_terminal_example =
    remove_terminal-split_terminal (1 ∷ []) SplitOrientation.vertical (4 ∷ []) three one_split
      fresh_four splits_one

remove_terminal-without_example :
    uuids_of (remove_terminal three (2 ∷ [])) ≡ without (2 ∷ []) (terminal_uuids three)
remove_terminal-without_example = remove_terminal-without three (2 ∷ [])

swap_terminals-Exchanges_example :
    (frame (swap_terminals three (1 ∷ []) (3 ∷ [])) ≡ frame three)
    × (leaves (swap_terminals three (1 ∷ []) (3 ∷ [])) ≡ (
        if not (text_eq (1 ∷ []) (3 ∷ []))
          && (has_leaf (1 ∷ []) (leaves three) && has_leaf (3 ∷ []) (leaves three))
        then exchanged (1 ∷ []) (3 ∷ []) (leaves three)
        else leaves three))
swap_terminals-Exchanges_example = swap_terminals-Exchanges three (1 ∷ []) (3 ∷ [])

three_long : 2 ≤ length (terminal_uuids three)
unfolding terminal_uuids
three_long = omega arith

cycle_terminal-back_example :
    (v : Text) × (v ≢ 1 ∷ [])
    × (cycle_terminal three (1 ∷ []) false ≡ some v)
    × (contains_terminal three v ≡ true)
    × (cycle_terminal three v true ≡ some (1 ∷ []))
cycle_terminal-back_example =
    cycle_terminal-back three (1 ∷ []) false three-AreDistinct three_long contains_one

right_of_one : find_adjacent three (1 ∷ []) Direction.right ≡ some (2 ∷ [])
unfolding find_adjacent find_adjacent_inner adjacent_of cross edge_terminal text_eq
right_of_one = refl

abbrev two : Text
two = 2 ∷ []

find_adjacent-contained_example :
    (contains_terminal three (2 ∷ []) ≡ true)
    × (contains_terminal three (1 ∷ []) ≡ true)
    × (two ≢ 1 ∷ [])
find_adjacent-contained_example =
    find_adjacent-contained three (1 ∷ []) (2 ∷ []) Direction.right three-AreDistinct right_of_one
