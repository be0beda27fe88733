-- ===== src/Layout.antt =====
-- clients/rttx/src/workspace/layout.rs: the client's layout tree of terminals. A `&mut self` method
-- returns the new tree beside its result; `fresh` is the text of the UUID that `new_v4` draws, and a
-- double is its 64 bits.
pub mod Terminals
pub mod Splits
pub mod Swap
pub mod Rename
pub mod Cwd
pub mod Title
pub mod Navigate
use rttx.Common.{
  ℕ, ◌+◌, Bool, true, false, not, ◌&&◌, ◌||◌, Option, none, some, List, [], ◌∷◌, ◌++◌, leb,
  if◌then◌else◌, is_some,
}
use rttx.Common.Text.{Text, text_eq}
use rttx.Common.Double.{F64}

abbrev pub half_f64 : F64
half_f64 = 0x3fe0000000000000

pub data SplitOrientation : Type 0 where
  horizontal vertical : SplitOrientation

pub data Direction : Type 0 where
  left right up down : Direction

-- `Terminal { uuid, profile, cwd, custom_title }` and `Split { orientation, ratio, first, second }`
pub data LayoutNode : Type 0 where
  terminal : Text → Option Text → Option Text → Option Text → LayoutNode
  split_node : SplitOrientation → F64 → LayoutNode → LayoutNode → LayoutNode

abbrev pub max_split_depth : ℕ
max_split_depth = 5

unfoldable pub toggled : SplitOrientation → SplitOrientation
toggled horizontal = vertical
toggled vertical = horizontal

unfoldable pub new_terminal : Text → LayoutNode
new_terminal fresh = terminal fresh none none none

unfoldable pub split : LayoutNode → SplitOrientation → Text → LayoutNode
unfolding new_terminal
split t orientation fresh = split_node orientation half_f64 t (new_terminal fresh)

unfoldable pub terminal_count : LayoutNode → ℕ
terminal_count (terminal uuid profile cwd title) = 1
terminal_count (split_node o r f s) = terminal_count f + terminal_count s

unfoldable pub terminal_uuids : LayoutNode → List Text
terminal_uuids (terminal uuid profile cwd title) = uuid ∷ []
terminal_uuids (split_node o r f s) = terminal_uuids f ++ terminal_uuids s

unfoldable pub contains_terminal : LayoutNode → Text → Bool
contains_terminal (terminal u profile cwd title) uuid = text_eq u uuid
contains_terminal (split_node o r f s) uuid = contains_terminal f uuid || contains_terminal s uuid

unfoldable pub replace_terminal_uuid : LayoutNode → Text → Text → LayoutNode × Bool
replace_terminal_uuid (terminal uuid profile cwd title) old_uuid new_uuid =
    if text_eq uuid old_uuid
    then (terminal new_uuid profile cwd title, true)
    else (terminal uuid profile cwd title, false)
replace_terminal_uuid (split_node o r f s) old_uuid new_uuid =
    let (f', in_first) = replace_terminal_uuid f old_uuid new_uuid in
    let (s', in_second) = replace_terminal_uuid s old_uuid new_uuid in
    if in_first then (split_node o r f' s, true) else (split_node o r f' s', in_second)

-- The two arms of `map_or_else` over the children's results.
unfoldable pub map_second : (LayoutNode → LayoutNode) → Option LayoutNode → Option LayoutNode
map_second f none = none
map_second f (some t) = some (f t)

unfoldable pub either_child :
    SplitOrientation
    → F64
    → LayoutNode
    → LayoutNode
    → Option LayoutNode
    → Option LayoutNode
    → Option LayoutNode
unfolding map_second
either_child o r f s (some new_first) in_second = some (split_node o r new_first s)
either_child o r f s none in_second =
    map_second (λ new_second. split_node o r f new_second) in_second

unfoldable pub split_terminal : LayoutNode → Text → SplitOrientation → Text → Option LayoutNode
unfolding either_child
split_terminal (terminal uuid profile cwd title) target orientation fresh =
    if text_eq uuid target
    then some (split (terminal uuid profile cwd title) orientation fresh)
    else none
split_terminal (split_node o r f s) target orientation fresh =
    either_child o r f s (split_terminal f target orientation fresh)
      (split_terminal s target orientation fresh)

unfoldable pub deeper : Option ℕ → Option ℕ → Option ℕ
deeper (some d) in_second = some (d + 1)
deeper none (some d) = some (d + 1)
deeper none none = none

unfoldable pub depth_of_terminal : LayoutNode → Text → Option ℕ
unfolding deeper
depth_of_terminal (terminal uuid profile cwd title) target =
    if text_eq uuid target then some 1 else none
depth_of_terminal (split_node o r f s) target =
    deeper (depth_of_terminal f target) (depth_of_terminal s target)

-- `self.depth_of_terminal(target_uuid)? >= MAX_SPLIT_DEPTH`: whether the function goes on.
unfoldable pub may_split : Option ℕ → Bool
may_split none = false
may_split (some depth) = not (leb max_split_depth depth)

unfoldable pub either_child_with :
    SplitOrientation
    → F64
    → LayoutNode
    → LayoutNode
    → Option (LayoutNode × Text)
    → Option (LayoutNode × Text)
    → Option (LayoutNode × Text)
either_child_with o r f s (some (new_first, u)) in_second = some (split_node o r new_first s, u)
either_child_with o r f s none (some (new_second, u)) = some (split_node o r f new_second, u)
either_child_with o r f s none none = none

-- The new node and the UUID of its second child, where it is a terminal.
unfoldable pub with_second_uuid : LayoutNode → Option (LayoutNode × Text)
with_second_uuid (split_node o r f (terminal u profile cwd title)) =
    some (split_node o r f (terminal u profile cwd title), u)
with_second_uuid _ = none

unfoldable pub split_terminal_with_new_uuid :
    LayoutNode → Text → SplitOrientation → Text → Option (LayoutNode × Text)
unfolding may_split depth_of_terminal either_child_with with_second_uuid split
split_terminal_with_new_uuid (terminal uuid profile cwd title) target orientation fresh =
    if may_split (depth_of_terminal (terminal uuid profile cwd title) target)
    then (if text_eq uuid target
        then with_second_uuid (split (terminal uuid profile cwd title) orientation fresh)
        else none)
    else none
split_terminal_with_new_uuid (split_node o r f s) target orientation fresh =
    let in_first = split_terminal_with_new_uuid f target orientation fresh in
    let in_second = split_terminal_with_new_uuid s target orientation fresh in
    if may_split (depth_of_terminal (split_node o r f s) target)
    then either_child_with o r f s in_first in_second
    else none

unfoldable pub join :
    SplitOrientation → F64 → Option LayoutNode → Option LayoutNode → Option LayoutNode
join o r none none = none
join o r none (some s) = some s
join o r (some f) none = some f
join o r (some f) (some s) = some (split_node o r f s)

unfoldable pub remove_terminal : LayoutNode → Text → Option LayoutNode
unfolding join
remove_terminal (terminal uuid profile cwd title) target =
    if text_eq uuid target then none else some (terminal uuid profile cwd title)
remove_terminal (split_node o r f s) target =
    join o r (remove_terminal f target) (remove_terminal s target)

unfoldable pub rotated : LayoutNode → LayoutNode
unfolding toggled
rotated (terminal uuid profile cwd title) = terminal uuid profile cwd title
rotated (split_node o r f s) = split_node (toggled o) r (rotated f) (rotated s)
