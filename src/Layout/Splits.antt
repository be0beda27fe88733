-- ===== src/Layout/Splits.antt =====
-- clients/rttx/src/workspace/layout.rs: splitting a terminal, the depth limit, and taking it back.
use rttx.Common.{
  ℕ, suc, ◌+◌, ◌≡◌, refl, ap, sym, ◌∙◌, arith, List, ◌∷◌, ◌++◌, Bool, ltb, inl, inr, false, Option,
  none, some, [], if◌then◌else◌, is_some, Option-cases,
}
use rttx.Common.Text.{Text, text_eq, text_eq_refl}
use rttx.Layout.{
  LayoutNode, terminal, split_node, SplitOrientation, split, terminal_uuids, contains_terminal,
  map_second, either_child, split_terminal, depth_of_terminal, deeper, may_split, either_child_with,
  with_second_uuid, split_terminal_with_new_uuid, join, remove_terminal, new_terminal,
}
use rttx.Layout.Terminals.{
  uuids_of, has, insert_behind, has-append, insert_behind-append, contains_terminal-eq,
}

-- The leaves from left to right with their levels, the root's being `n`.
abbrev pub leaf_depths : ℕ → LayoutNode → List (Text × ℕ)
leaf_depths n (terminal uuid profile cwd title) = (uuid, n) ∷ []
leaf_depths n (split_node a r f s) = leaf_depths (suc n) f ++ leaf_depths (suc n) s

abbrev pub first_depth : Text → List (Text × ℕ) → Option ℕ
first_depth target [] = none
first_depth target ((uuid, n) ∷ leaves) =
    if text_eq uuid target then some n else first_depth target leaves

abbrev pub is_shallow : Option ℕ → Bool
is_shallow none = false
is_shallow (some depth) = ltb depth 5

-- A depth counted from below the level `n`.
abbrev below : ℕ → Option ℕ → Option ℕ
below n none = none
below n (some depth) = some (n + depth)

-- What `deeper` does, two levels down.
either_depth : Option ℕ → Option ℕ → Option ℕ
either_depth (some d) in_second = some d
either_depth none in_second = in_second

first_depth-append :
    (target : Text) (xs ys : List (Text × ℕ))
    → first_depth target (xs ++ ys) ≡ either_depth (first_depth target xs) (first_depth target ys)
unfolding either_depth
first_depth-append target [] ys = refl
first_depth-append target ((uuid, n) ∷ xs) ys = ground (arith, first_depth-append target xs ys)

below-deeper :
    (n : ℕ) (a b : Option ℕ)
    → either_depth (below (suc n) a) (below (suc n) b) ≡ below n (deeper a b)
unfolding either_depth deeper
below-deeper n (some d) b = ap some (omega arith)
below-deeper n none (some d) = ap some (omega arith)
below-deeper n none none = refl

shallow : (d : Option ℕ) → may_split d ≡ is_shallow (below 0 d)
unfolding may_split
shallow none = refl
shallow (some depth) = ground arith

module _ (target : Text) (o : SplitOrientation) (fresh : Text) where
  split_terminal-is_some :
      (t : LayoutNode) → is_some (split_terminal t target o fresh) ≡ has (terminal_uuids t) target
  unfolding split_terminal terminal_uuids either_child map_second
  split_terminal-is_some (terminal uuid profile cwd title) = ground arith
  split_terminal-is_some (split_node a r f s) = ground (
    arith,
    split_terminal-is_some f,
    split_terminal-is_some s,
    has-append (terminal_uuids f) (terminal_uuids s) target,
  )

  uuids-split_terminal :
      (t t' : LayoutNode)
      → split_terminal t target o fresh ≡ some t'
      → terminal_uuids t' ≡ insert_behind target fresh (terminal_uuids t)
  unfolding split_terminal terminal_uuids either_child map_second split new_terminal
  uuids-split_terminal (terminal uuid profile cwd title) t' h = ground arith
  uuids-split_terminal (split_node a r f s) t' h =
      elim (Option-cases (split_terminal f target o fresh)) [
        | inl e ↦ elim (Option-cases (split_terminal s target o fresh)) [
          | inl e' ↦ ground arith
          | inr (s', e') ↦ ground (
            arith,
            split_terminal-is_some f,
            insert_behind-append target fresh (terminal_uuids f) (terminal_uuids s),
            uuids-split_terminal s s' e',
          )
        ]
        | inr (f', e) ↦ ground (
          arith,
          split_terminal-is_some f,
          insert_behind-append target fresh (terminal_uuids f) (terminal_uuids s),
          uuids-split_terminal f f' e,
        )
      ]

  -- A split succeeds exactly when the target is in the layout, and then its terminals are the old
  -- ones with the fresh one right behind the target.
  pub split_terminal-Inserts :
      (t : LayoutNode)
      → (is_some (split_terminal t target o fresh) ≡ contains_terminal t target)
        × (uuids_of (split_terminal t target o fresh) ≡ (
            if contains_terminal t target
            then insert_behind target fresh (terminal_uuids t)
            else []))
  split_terminal-Inserts t = elim (Option-cases (split_terminal t target o fresh)) [
    | inl h ↦ ground (arith, split_terminal-is_some t, contains_terminal-eq t target)
    | inr (t', h) ↦ ground (
      arith,
      split_terminal-is_some t,
      contains_terminal-eq t target,
      uuids-split_terminal t t' h,
    )
  ]

  abbrev pub pair_with : Option LayoutNode → Option (LayoutNode × Text)
  pair_with none = none
  pair_with (some t) = some (t, fresh)

  depth-is_some :
      (t : LayoutNode)
      → is_some (depth_of_terminal t target) ≡ is_some (split_terminal t target o fresh)
  unfolding depth_of_terminal deeper split_terminal either_child map_second
  depth-is_some (terminal uuid profile cwd title) = ground arith
  depth-is_some (split_node a r f s) = ground (arith, depth-is_some f, depth-is_some s)

  depth-leaf_depths :
      (n : ℕ) (t : LayoutNode)
      → first_depth target (leaf_depths (suc n) t) ≡ below n (depth_of_terminal t target)
  unfolding depth_of_terminal deeper
  depth-leaf_depths n (terminal uuid profile cwd title) = ground arith
  depth-leaf_depths n (split_node a r f s) =
      first_depth-append target (leaf_depths (suc (suc n)) f) (leaf_depths (suc (suc n)) s)
      ∙ rw (depth-leaf_depths (suc n) f, depth-leaf_depths (suc n) s)
          (below-deeper n (depth_of_terminal f target) (depth_of_terminal s target))

  split_limited :
      (t : LayoutNode)
      → split_terminal_with_new_uuid t target o fresh ≡ (
          if may_split (depth_of_terminal t target)
          then pair_with (split_terminal t target o fresh)
          else none)
  unfolding split_terminal_with_new_uuid may_split depth_of_terminal deeper split_terminal
      either_child map_second either_child_with with_second_uuid split new_terminal
  split_limited (terminal uuid profile cwd title) = ground arith
  split_limited (split_node a r f s) =
      ground (arith, split_limited f, split_limited s, depth-is_some f, depth-is_some s)

  -- Splitting with the new UUID is splitting, where the first leaf with the target's UUID stands on one
  -- of the levels 1 to 4, and the UUID returned is the new terminal's; else it returns nothing.
  pub split_terminal_with_new_uuid-eq :
      (t : LayoutNode)
      → split_terminal_with_new_uuid t target o fresh ≡ (
          if is_shallow (first_depth target (leaf_depths 1 t))
          then pair_with (split_terminal t target o fresh)
          else none)
  split_terminal_with_new_uuid-eq t =
      split_limited t
      ∙ ap (λ b. if b then pair_with (split_terminal t target o fresh) else none)
          (shallow (depth_of_terminal t target) ∙ ap is_shallow (sym (depth-leaf_depths 0 t)))

  remove-absent :
      (t : LayoutNode) (u : Text) → has (terminal_uuids t) u ≡ false → remove_terminal t u ≡ some t
  unfolding remove_terminal join terminal_uuids
  remove-absent (terminal uuid profile cwd title) u h = ground arith
  remove-absent (split_node a r f s) u h = ground (
    arith,
    has-append (terminal_uuids f) (terminal_uuids s) u,
    remove-absent f u,
    remove-absent s u,
  )

  -- Removing the terminal that a split brought in gives the layout before the split, where its UUID
  -- was new.
  pub remove_terminal-split_terminal :
      (t t' : LayoutNode)
      → has (terminal_uuids t) fresh ≡ false
      → split_terminal t target o fresh ≡ some t'
      → remove_terminal t' fresh ≡ some t
  unfolding split_terminal terminal_uuids either_child map_second split new_terminal remove_terminal
      join
  remove_terminal-split_terminal (terminal uuid profile cwd title) t' h e =
      ground (arith, text_eq_refl fresh)
  remove_terminal-split_terminal (split_node a r f s) t' h e =
      elim (Option-cases (split_terminal f target o fresh)) [
        | inl q ↦ elim (Option-cases (split_terminal s target o fresh)) [
          | inl q' ↦ ground arith
          | inr (s', q') ↦ ground (
            arith,
            has-append (terminal_uuids f) (terminal_uuids s) fresh,
            remove-absent f fresh,
            remove_terminal-split_terminal s s',
          )
        ]
        | inr (f', q) ↦ ground (
          arith,
          has-append (terminal_uuids f) (terminal_uuids s) fresh,
          remove-absent s fresh,
          remove_terminal-split_terminal f f',
        )
      ]
