-- ===== src/Layout/Cwd.antt =====
-- clients/rttx/src/workspace/layout.rs: a terminal's working directory.
use rttx.Common.{
  ◌≡◌, refl, arith, inl, inr, Bool, true, false, Option, none, some, if◌then◌else◌, Bool-cases,
}
use rttx.Common.Text.{Text, text_eq, text_eq_iff}
use rttx.Layout.{LayoutNode, terminal, split_node, terminal_uuids, contains_terminal}
use rttx.Layout.Terminals.{AreDistinct, contains_terminal-eq, distinct-append, distinct-apart}

-- `first.or_else(|| second)`
abbrev pub or_else : Option Text → Option Text → Option Text
or_else (some x) o = some x
or_else none o = o

pub or_else-none : (o : Option Text) → or_else o none ≡ o
or_else-none none = refl
or_else-none (some x) = refl

unfoldable pub terminal_cwd : LayoutNode → Text → Option Text
terminal_cwd (terminal uuid profile cwd title) target = if text_eq uuid target then cwd else none
terminal_cwd (split_node o r f s) target = or_else (terminal_cwd f target) (terminal_cwd s target)

unfoldable pub set_terminal_cwd : LayoutNode → Text → Option Text → LayoutNode × Bool
set_terminal_cwd (terminal uuid profile cwd title) target cwd' =
    if text_eq uuid target
    then (terminal uuid profile cwd' title, true)
    else (terminal uuid profile cwd title, false)
set_terminal_cwd (split_node o r f s) target cwd' =
    let (f', in_first) = set_terminal_cwd f target cwd' in
    let (s', in_second) = set_terminal_cwd s target cwd' in
    if in_first then (split_node o r f' s, true) else (split_node o r f' s', in_second)

terminal_cwd-absent :
    (t : LayoutNode) (u : Text) → contains_terminal t u ≡ false → terminal_cwd t u ≡ none
unfolding terminal_cwd contains_terminal
terminal_cwd-absent (terminal uuid profile cwd title) u h = ground arith
terminal_cwd-absent (split_node o r f s) u h =
    ground (arith, terminal_cwd-absent f u, terminal_cwd-absent s u)

set_terminal_cwd-found :
    (t : LayoutNode) (u : Text) (c : Option Text)
    → ((set_terminal_cwd t u c).1 ≡ contains_terminal t u)
      × (terminal_uuids (set_terminal_cwd t u c).0 ≡ terminal_uuids t)
unfolding set_terminal_cwd terminal_uuids contains_terminal
set_terminal_cwd-found (terminal uuid profile cwd title) u c = ground arith
set_terminal_cwd-found (split_node o r f s) u c =
    ground (arith, set_terminal_cwd-found f u c, set_terminal_cwd-found s u c)

set_terminal_cwd-absent :
    (t : LayoutNode) (u : Text) (c : Option Text)
    → contains_terminal t u ≡ false
    → (set_terminal_cwd t u c).0 ≡ t
unfolding set_terminal_cwd contains_terminal
set_terminal_cwd-absent (terminal uuid profile cwd title) u c h = ground arith
set_terminal_cwd-absent (split_node o r f s) u c h = ground (
  arith,
  set_terminal_cwd-found f u c,
  set_terminal_cwd-found s u c,
  set_terminal_cwd-absent f u c,
  set_terminal_cwd-absent s u c,
)

set_terminal_cwd_self :
    (t : LayoutNode) (u : Text) (c : Option Text)
    → AreDistinct (terminal_uuids t)
    → contains_terminal t u ≡ true
    → terminal_cwd (set_terminal_cwd t u c).0 u ≡ c
unfolding set_terminal_cwd terminal_cwd contains_terminal terminal_uuids
set_terminal_cwd_self (terminal uuid profile cwd title) u c d h = ground arith
set_terminal_cwd_self (split_node o r f s) u c d h = elim (Bool-cases (contains_terminal f u)) [
  | inl k ↦ ground (
    arith,
    set_terminal_cwd-found f u c,
    set_terminal_cwd_self f u c (distinct-append (terminal_uuids f) (terminal_uuids s) d).0 k,
    terminal_cwd-absent s u,
    contains_terminal-eq f u,
    contains_terminal-eq s u,
    distinct-apart (terminal_uuids f) (terminal_uuids s) u d,
    or_else-none c,
  )
  | inr k ↦ ground (
    arith,
    set_terminal_cwd-found f u c,
    set_terminal_cwd-absent f u c k,
    terminal_cwd-absent f u k,
    set_terminal_cwd_self s u c (distinct-append (terminal_uuids f) (terminal_uuids s) d).1,
  )
]

set_terminal_cwd-other :
    (t : LayoutNode) (u v : Text) (c : Option Text)
    → text_eq u v ≡ false
    → terminal_cwd (set_terminal_cwd t u c).0 v ≡ terminal_cwd t v
unfolding set_terminal_cwd terminal_cwd
set_terminal_cwd-other (terminal uuid profile cwd title) u v c h =
    ground (arith, text_eq_iff uuid u, text_eq_iff uuid v, text_eq_iff u v)
set_terminal_cwd-other (split_node o r f s) u v c h =
    ground (arith, set_terminal_cwd-other f u v c h, set_terminal_cwd-other s u v c h)

-- In a layout whose UUIDs are distinct, setting a terminal's working directory tells whether the
-- terminal is there, keeps the terminals in order, and from then on reading it at any terminal of the
-- layout gives the new value at that terminal and the old one at the others.
pub terminal_cwd-set_terminal_cwd :
    (t : LayoutNode) (u v : Text) (c : Option Text)
    → AreDistinct (terminal_uuids t)
    → contains_terminal t v ≡ true
    → ((set_terminal_cwd t u c).1 ≡ contains_terminal t u)
      × (terminal_uuids (set_terminal_cwd t u c).0 ≡ terminal_uuids t)
      × (terminal_cwd (set_terminal_cwd t u c).0 v ≡ (if text_eq u v then c else terminal_cwd t v))
terminal_cwd-set_terminal_cwd t u v c d h = elim (Bool-cases (text_eq u v)) [
  | inl e ↦
      ground (arith, set_terminal_cwd-found t u c, set_terminal_cwd_self t u c d, text_eq_iff u v)
  | inr e ↦ ground (arith, set_terminal_cwd-found t u c, set_terminal_cwd-other t u v c e)
]
