-- ===== src/Common/FilePath.antt =====
-- `std::path::Path::file_name` on a Unix path: the last component, unless it is `..`. Empty components
-- and `.` do not count.
use rttx.Common.Tests.{◌==◌, if◌then◌else◌}
use mathlib.Core.Bool.{Bool, not, ◌&&◌}
use mathlib.Core.Option.{Option, none, some}
use mathlib.Core.List.{List, [], ◌∷◌}
use mathlib.Core.Path.{◌≡◌, refl}
use rttx.Common.Text.{Text, text, text_eq, is_empty}

abbrev slash : List Text → List Text
slash parts = [] ∷ parts

abbrev grow {ℓ} : {A : Type ℓ} → A → List (List A) → List (List A)
grow c [] = (c ∷ []) ∷ []
grow c (part ∷ parts) = (c ∷ part) ∷ parts

-- The parts between the slashes.
unfoldable pub split_slash : Text → List Text
split_slash [] = [] ∷ []
split_slash (c ∷ s) = let parts = split_slash s in if c == b'/' then slash parts else grow c parts

abbrev pub is_component : Text → Bool
is_component part = not (is_empty part) && not (text_eq part (text "."))

unfoldable pub last_component : List Text → Option Text
last_component [] = none
last_component (part ∷ parts) = elim (last_component parts) [
  | some later ↦ some later
  | none ↦ if is_component part then some part else none
]

unfoldable pub file_name : Text → Option Text
unfolding split_slash last_component
file_name path = elim (last_component (split_slash path)) [
  | none ↦ none
  | some part ↦ if text_eq part (text "..") then none else some part
]

file_name_cases :
    (file_name (text "/home/me/src/") ≡ some (text "src"))
    × (file_name (text "/") ≡ none)
    × (file_name (text "a/..") ≡ none)
    × (file_name (text "/a/.") ≡ some (text "a"))
unfolding file_name text_eq
file_name_cases = (refl, refl, refl, refl)
