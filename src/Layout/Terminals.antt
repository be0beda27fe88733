-- ===== src/Layout/Terminals.antt =====
-- clients/rttx/src/workspace/layout.rs: what the layout operations do to the terminals, in order.
use rttx.Common.{
  inl, inr, ℕ, ◌≡◌, refl, sym, arith, Bool, true, false, ◌||◌, Option, none, some, List, [], ◌∷◌,
  ◌++◌, if◌then◌else◌, append-nil, Bool-cases, length, length-append,
}
use rttx.Common.Text.{Text, text_eq, text_eq_iff}
use rttx.Layout.{
  LayoutNode, terminal, split_node, SplitOrientation, terminal_count, terminal_uuids,
  contains_terminal, join, remove_terminal,
}

-- `v.contains(&u)` on texts.
abbrev pub has : List Text → Text → Bool
has [] u = false
has (x ∷ xs) u = text_eq x u || has xs u

abbrev pub without : Text → List Text → List Text
without u [] = []
without u (x ∷ xs) = if text_eq x u then without u xs else x ∷ without u xs

-- The list with `n` put right behind its first `u`.
abbrev pub insert_behind : Text → Text → List Text → List Text
insert_behind u n [] = []
insert_behind u n (x ∷ xs) = if text_eq x u then x ∷ n ∷ xs else x ∷ insert_behind u n xs

-- No text stands twice.
abbrev pub AreDistinct : List Text → Type 0
AreDistinct [] = Unit {0}
AreDistinct (x ∷ xs) = (has xs x ≡ false) × AreDistinct xs

pub has-append : (xs ys : List Text) (u : Text) → has (xs ++ ys) u ≡ (has xs u || has ys u)
has-append [] ys u = refl
has-append (x ∷ xs) ys u = ground (arith, has-append xs ys u)

pub without-append :
    (u : Text) (xs ys : List Text) → without u (xs ++ ys) ≡ without u xs ++ without u ys
without-append u [] ys = refl
without-append u (x ∷ xs) ys = ground (arith, without-append u xs ys)

pub insert_behind-append :
    (u n : Text) (xs ys : List Text)
    → insert_behind u n (xs ++ ys)
      ≡ (if has xs u then insert_behind u n xs ++ ys else xs ++ insert_behind u n ys)
insert_behind-append u n [] ys = refl
insert_behind-append u n (x ∷ xs) ys = ground (arith, insert_behind-append u n xs ys)

pub contains_terminal-eq :
    (t : LayoutNode) (u : Text) → contains_terminal t u ≡ has (terminal_uuids t) u
unfolding contains_terminal terminal_uuids
contains_terminal-eq (terminal uuid profile cwd title) u = ground arith
contains_terminal-eq (split_node o r f s) u = ground (
  arith,
  contains_terminal-eq f u,
  contains_terminal-eq s u,
  has-append (terminal_uuids f) (terminal_uuids s) u,
)

-- The count is the number of terminals that the walk lists.
pub terminal_count-eq : (t : LayoutNode) → terminal_count t ≡ length (terminal_uuids t)
unfolding terminal_count terminal_uuids
terminal_count-eq (terminal uuid profile cwd title) = refl
terminal_count-eq (split_node o r f s) = omega (
  arith,
  terminal_count-eq f,
  terminal_count-eq s,
  length-append (terminal_uuids f) (terminal_uuids s),
)

-- The terminals of what an operation leaves, none when nothing is left.
abbrev pub uuids_of : Option LayoutNode → List Text
uuids_of none = []
uuids_of (some t) = terminal_uuids t

uuids_of-join :
    (o : SplitOrientation) (r : ℕ) (f s : Option LayoutNode)
    → uuids_of (join o r f s) ≡ uuids_of f ++ uuids_of s
unfolding join terminal_uuids
uuids_of-join o r none none = refl
uuids_of-join o r none (some s) = refl
uuids_of-join o r (some f) none = sym (append-nil (terminal_uuids f))
uuids_of-join o r (some f) (some s) = refl

-- A removal keeps every terminal but the removed one, in order; nothing is left exactly when no other
-- terminal was there.
pub remove_terminal-without :
    (t : LayoutNode) (u : Text) → uuids_of (remove_terminal t u) ≡ without u (terminal_uuids t)
unfolding remove_terminal terminal_uuids
remove_terminal-without (terminal uuid profile cwd title) u = ground arith
remove_terminal-without (split_node o r f s) u = ground (
  arith,
  uuids_of-join o r (remove_terminal f u) (remove_terminal s u),
  remove_terminal-without f u,
  remove_terminal-without s u,
  without-append u (terminal_uuids f) (terminal_uuids s),
)

pub distinct-append : (xs ys : List Text) → AreDistinct (xs ++ ys) → AreDistinct xs × AreDistinct ys
distinct-append [] ys d = (tt, d)
distinct-append (x ∷ xs) ys d = ground (arith, distinct-append xs ys d.1, has-append xs ys x)

pub distinct-apart :
    (xs ys : List Text) (u : Text) → AreDistinct (xs ++ ys) → has xs u ≡ true → has ys u ≡ false
distinct-apart [] ys u d h = cc
distinct-apart (x ∷ xs) ys u d h = elim (Bool-cases (text_eq x u)) [
  | inl e ↦ ground (arith, text_eq_iff x u, has-append xs ys x, d)
  | inr e ↦ ground (arith, distinct-apart xs ys u d.1)
]
