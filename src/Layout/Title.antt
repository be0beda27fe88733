-- ===== src/Layout/Title.antt =====
-- clients/rttx/src/workspace/layout.rs: a terminal's custom title.
use rttx.Common.{◌≡◌, arith, inl, inr, Bool, true, false, Option, none, if◌then◌else◌, Bool-cases}
use rttx.Common.Text.{Text, text_eq, text_eq_iff}
use rttx.Layout.{LayoutNode, terminal, split_node, terminal_uuids, contains_terminal}
use rttx.Layout.Terminals.{AreDistinct, contains_terminal-eq, distinct-append, distinct-apart}
use rttx.Layout.Cwd.{or_else, or_else-none}

unfoldable pub terminal_custom_title : LayoutNode → Text → Option Text
terminal_custom_title (terminal uuid profile cwd title) target =
    if text_eq uuid target then title else none
terminal_custom_title (split_node o r f s) target =
    or_else (terminal_custom_title f target) (terminal_custom_title s target)

unfoldable pub set_terminal_custom_title : LayoutNode → Text → Option Text → LayoutNode × Bool
set_terminal_custom_title (terminal uuid profile cwd title) target title' =
    if text_eq uuid target
    then (terminal uuid profile cwd title', true)
    else (terminal uuid profile cwd title, false)
set_terminal_custom_title (split_node o r f s) target title' =
    let (f', in_first) = set_terminal_custom_title f target title' in
    let (s', in_second) = set_terminal_custom_title s target title' in
    if in_first then (split_node o r f' s, true) else (split_node o r f' s', in_second)

terminal_custom_title-absent :
    (t : LayoutNode) (u : Text) → contains_terminal t u ≡ false → terminal_custom_title t u ≡ none
unfolding terminal_custom_title contains_terminal
terminal_custom_title-absent (terminal uuid profile cwd title) u h = ground arith
terminal_custom_title-absent (split_node o r f s) u h =
    ground (arith, terminal_custom_title-absent f u, terminal_custom_title-absent s u)

set_terminal_custom_title-found :
    (t : LayoutNode) (u : Text) (c : Option Text)
    → ((set_terminal_custom_title t u c).1 ≡ contains_terminal t u)
      × (terminal_uuids (set_terminal_custom_title t u c).0 ≡ terminal_uuids t)
unfolding set_terminal_custom_title terminal_uuids contains_terminal
set_terminal_custom_title-found (terminal uuid profile cwd title) u c = ground arith
set_terminal_custom_title-found (split_node o r f s) u c =
    ground (arith, set_terminal_custom_title-found f u c, set_terminal_custom_title-found s u c)

set_terminal_custom_title-absent :
    (t : LayoutNode) (u : Text) (c : Option Text)
    → contains_terminal t u ≡ false
    → (set_terminal_custom_title t u c).0 ≡ t
unfolding set_terminal_custom_title contains_terminal
set_terminal_custom_title-absent (terminal uuid profile cwd title) u c h = ground arith
set_terminal_custom_title-absent (split_node o r f s) u c h = ground (
  arith,
  set_terminal_custom_title-found f u c,
  set_terminal_custom_title-found s u c,
  set_terminal_custom_title-absent f u c,
  set_terminal_custom_title-absent s u c,
)

set_terminal_custom_title_self :
    (t : LayoutNode) (u : Text) (c : Option Text)
    → AreDistinct (terminal_uuids t)
    → contains_terminal t u ≡ true
    → terminal_custom_title (set_terminal_custom_title t u c).0 u ≡ c
unfolding set_terminal_custom_title terminal_custom_title contains_terminal terminal_uuids
set_terminal_custom_title_self (terminal uuid profile cwd title) u c d h = ground arith
set_terminal_custom_title_self (split_node o r f s) u c d h =
    elim (Bool-cases (contains_terminal f u)) [
      | inl k ↦ ground (
        arith,
        set_terminal_custom_title-found f u c,
        set_terminal_custom_title_self f u c
            (distinct-append (terminal_uuids f) (terminal_uuids s) d).0 k,
        terminal_custom_title-absent s u,
        contains_terminal-eq f u,
        contains_terminal-eq s u,
        distinct-apart (terminal_uuids f) (terminal_uuids s) u d,
        or_else-none c,
      )
      | inr k ↦ ground (
        arith,
        set_terminal_custom_title-found f u c,
        set_terminal_custom_title-absent f u c k,
        terminal_custom_title-absent f u k,
        set_terminal_custom_title_self s u c
            (distinct-append (terminal_uuids f) (terminal_uuids s) d).1,
      )
    ]

set_terminal_custom_title-other :
    (t : LayoutNode) (u v : Text) (c : Option Text)
    → text_eq u v ≡ false
    → terminal_custom_title (set_terminal_custom_title t u c).0 v ≡ terminal_custom_title t v
unfolding set_terminal_custom_title terminal_custom_title
set_terminal_custom_title-other (terminal uuid profile cwd title) u v c h =
    ground (arith, text_eq_iff uuid u, text_eq_iff uuid v, text_eq_iff u v)
set_terminal_custom_title-other (split_node o r f s) u v c h =
    ground
      (arith, set_terminal_custom_title-other f u v c h, set_terminal_custom_title-other s u v c h)

-- In a layout whose UUIDs are distinct, setting a terminal's custom title tells whether the
-- terminal is there, keeps the terminals in order, and from then on reading it at any terminal of the
-- layout gives the new value at that terminal and the old one at the others.
pub terminal_custom_title-set_terminal_custom_title :
    (t : LayoutNode) (u v : Text) (c : Option Text)
    → AreDistinct (terminal_uuids t)
    → contains_terminal t v ≡ true
    → ((set_terminal_custom_title t u c).1 ≡ contains_terminal t u)
      × (terminal_uuids (set_terminal_custom_title t u c).0 ≡ terminal_uuids t)
      × (terminal_custom_title (set_terminal_custom_title t u c).0 v
          ≡ (if text_eq u v then c else terminal_custom_title t v))
terminal_custom_title-set_terminal_custom_title t u v c d h = elim (Bool-cases (text_eq u v)) [
  | inl e ↦ ground (
    arith,
    set_terminal_custom_title-found t u c,
    set_terminal_custom_title_self t u c d,
    text_eq_iff u v,
  )
  | inr e ↦
      ground
        (arith, set_terminal_custom_title-found t u c, set_terminal_custom_title-other t u v c e)
]
