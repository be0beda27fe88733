-- ===== src/Wire/Tree/Paths.antt =====
-- The two decoders of a split's path: services/rttx-server/src/protocol.rs takes a path whole or not at
-- all, protocols/rttx-proto/src/v3_tree.rs drops the steps that it does not know.
use rttx.Common.{
  ℕ, suc, ◌<◌, ◌≤◌, ◌≡◌, refl, ap, arith, Option, none, some, List, [], ◌∷◌, length, map,
}
use rttx.PaneTree.{Side}
use rttx.Wire.Tree.{PaneTreeSide, unspecified_side, first_side, second_side, side_from}

unfoldable pub proto_side_to_side : PaneTreeSide → Option Side
proto_side_to_side first_side = some Side.first
proto_side_to_side second_side = some Side.second
proto_side_to_side unspecified_side = none

-- `try_from(v).ok().and_then(proto_side_to_side)`
unfoldable pub step_side : Option PaneTreeSide → Option Side
unfolding proto_side_to_side
step_side none = none
step_side (some side) = proto_side_to_side side

unfoldable pub collect_sides : Option Side → Option (List Side) → Option (List Side)
collect_sides none rest = none
collect_sides (some side) none = none
collect_sides (some side) (some sides) = some (side ∷ sides)

unfoldable pub decode_side_path : List ℕ → Option (List Side)
unfolding step_side side_from collect_sides
decode_side_path [] = some []
decode_side_path (v ∷ raw) = collect_sides (step_side (side_from v)) (decode_side_path raw)

unfoldable pub keep_side : Option PaneTreeSide → List PaneTreeSide → List PaneTreeSide
keep_side none rest = rest
keep_side (some unspecified_side) rest = rest
keep_side (some first_side) rest = first_side ∷ rest
keep_side (some second_side) rest = second_side ∷ rest

-- `decode_side_path` of v3_tree.rs
unfoldable pub decode_known_sides : List ℕ → List PaneTreeSide
unfolding keep_side side_from
decode_known_sides [] = []
decode_known_sides (v ∷ raw) = keep_side (side_from v) (decode_known_sides raw)

abbrev pub wire_side : Side → PaneTreeSide
wire_side Side.first = first_side
wire_side Side.second = second_side

keep_side-length :
    (o : Option PaneTreeSide) (rest : List PaneTreeSide)
    → length (keep_side o rest) ≤ suc (length rest)
unfolding keep_side
keep_side-length none rest = omega arith
keep_side-length (some unspecified_side) rest = omega arith
keep_side-length (some first_side) rest = omega arith
keep_side-length (some second_side) rest = omega arith

decode_known-length : (raw : List ℕ) → length (decode_known_sides raw) ≤ length raw
unfolding decode_known_sides
decode_known-length [] = omega arith
decode_known-length (v ∷ raw) =
    omega (arith, keep_side-length (side_from v) (decode_known_sides raw), decode_known-length raw)

-- The relation that the two decoders' answers stand in, for a path of `n` numbers.
abbrev pub Agree : ℕ → Option (List Side) → List PaneTreeSide → Type 0
Agree n none known = length known < n
Agree n (some sides) known = (known ≡ map wire_side sides) × (length known ≡ n)

Agree-cons :
    (n : ℕ) (o : Option PaneTreeSide) (rest : Option (List Side)) (known : List PaneTreeSide)
    → length known ≤ n
    → Agree n rest known
    → Agree (suc n) (collect_sides (step_side o) rest) (keep_side o known)
unfolding collect_sides step_side keep_side proto_side_to_side
Agree-cons n none rest known l h = omega arith
Agree-cons n (some unspecified_side) rest known l h = omega arith
Agree-cons n (some first_side) none known l h = omega (arith, h)
Agree-cons n (some first_side) (some sides) known l h = (ap (λ s. first_side ∷ s) h.0, ap suc h.1)
Agree-cons n (some second_side) none known l h = omega (arith, h)
Agree-cons n (some second_side) (some sides) known l h = (ap (λ s. second_side ∷ s) h.0, ap suc h.1)

-- Where the daemon's decoder takes a path, the lenient one keeps the same steps, one for each number;
-- where the daemon's refuses, the lenient one has lost a step.
pub decode_side_path-Agree :
    (raw : List ℕ) → Agree (length raw) (decode_side_path raw) (decode_known_sides raw)
unfolding decode_side_path decode_known_sides
decode_side_path-Agree [] = (refl, refl)
decode_side_path-Agree (v ∷ raw) =
    Agree-cons (length raw) (side_from v) (decode_side_path raw) (decode_known_sides raw)
      (decode_known-length raw) (decode_side_path-Agree raw)
