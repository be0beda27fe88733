-- ===== src/Layout/Rename.antt =====
-- clients/rttx/src/workspace/layout.rs: giving a terminal another UUID.
use rttx.Common.{◌≡◌, refl, arith, false, List, [], ◌∷◌, ◌++◌, if◌then◌else◌}
use rttx.Common.Text.{Text, text_eq}
use rttx.Layout.{
  LayoutNode, terminal, split_node, terminal_uuids, contains_terminal, replace_terminal_uuid,
}
use rttx.Layout.Terminals.{has, contains_terminal-eq}

-- The list with its first `old_uuid` replaced.
abbrev pub substitute : Text → Text → List Text → List Text
substitute old_uuid new_uuid [] = []
substitute old_uuid new_uuid (x ∷ xs) =
    if text_eq x old_uuid then new_uuid ∷ xs else x ∷ substitute old_uuid new_uuid xs

substitute-append :
    (a b : Text) (xs ys : List Text)
    → substitute a b (xs ++ ys)
      ≡ (if has xs a then substitute a b xs ++ ys else xs ++ substitute a b ys)
substitute-append a b [] ys = refl
substitute-append a b (x ∷ xs) ys = ground (arith, substitute-append a b xs ys)

substitute_absent : (a b : Text) (xs : List Text) → has xs a ≡ false → substitute a b xs ≡ xs
substitute_absent a b [] h = refl
substitute_absent a b (x ∷ xs) h = ground (arith, substitute_absent a b xs)

-- A replacement changes the first terminal that has the old UUID and no other, and tells whether there
-- is one.
pub replace_terminal_uuid-Substitutes :
    (t : LayoutNode) (a b : Text)
    → ((replace_terminal_uuid t a b).1 ≡ contains_terminal t a)
      × (terminal_uuids (replace_terminal_uuid t a b).0 ≡ substitute a b (terminal_uuids t))
unfolding replace_terminal_uuid contains_terminal terminal_uuids
replace_terminal_uuid-Substitutes (terminal uuid profile cwd title) a b = ground arith
replace_terminal_uuid-Substitutes (split_node o r f s) a b = ground (
  arith,
  replace_terminal_uuid-Substitutes f a b,
  replace_terminal_uuid-Substitutes s a b,
  substitute-append a b (terminal_uuids f) (terminal_uuids s),
  contains_terminal-eq f a,
  substitute_absent a b (terminal_uuids f),
)
