-- ===== src/Wire/Sizes.antt =====
-- services/rttx-server/src/protocol.rs: the PTY size of a pane that several clients draw.
use rttx.Common.{
  ℕ, zero, suc, ◌≤◌, ◌<◌, ◌≡◌, refl, sym, ap, ◌∙◌, ◌⊎◌, inl, inr, arith, min, true, Option, none,
  some, List, [], ◌∷◌, map, ltb, if◌then◌else◌, contains, get_elem?, Bool-cases,
}

-- `min.map_or(n, |m| m.min(n))`
unfoldable pub map_or_min : Option ℕ → ℕ → ℕ
map_or_min none n = n
map_or_min (some m) n = min m n

unfoldable pub lower : Option ℕ → ℕ → Option ℕ
unfolding map_or_min
lower least n = if ltb 0 n then some (map_or_min least n) else least

-- The loop, on its two variables.
unfoldable pub lower_all : Option ℕ → Option ℕ → List (ℕ × ℕ) → Option ℕ × Option ℕ
unfolding lower
lower_all min_cols min_rows [] = (min_cols, min_rows)
lower_all min_cols min_rows ((cols, rows) ∷ sizes) =
    lower_all (lower min_cols cols) (lower min_rows rows) sizes

-- `Some((min_cols?, min_rows?))`
unfoldable pub both_of : Option ℕ × Option ℕ → Option (ℕ × ℕ)
both_of (none, min_rows) = none
both_of (some cols, none) = none
both_of (some cols, some rows) = some (cols, rows)

unfoldable pub min_client_pane_size : List (ℕ × ℕ) → Option (ℕ × ℕ)
unfolding lower_all both_of
min_client_pane_size sizes = both_of (lower_all none none sizes)

-- One axis alone.
lower_axis : Option ℕ → List ℕ → Option ℕ
lower_axis least [] = least
lower_axis least (n ∷ ns) = lower_axis (lower least n) ns

lower_all-eq :
    (c r : Option ℕ) (sizes : List (ℕ × ℕ))
    → lower_all c r sizes
      ≡ (lower_axis c (map (λ s. s.0) sizes), lower_axis r (map (λ s. s.1) sizes))
unfolding lower_all lower_axis
lower_all-eq c r [] = refl
lower_all-eq c r ((cols, rows) ∷ sizes) = lower_all-eq (lower c cols) (lower r rows) sizes

-- `m` is the least of what the accumulator and the sizes have above zero.
Least : Option ℕ → List ℕ → ℕ → Type 0
Least none ns m = (contains ns m ≡ true) × (0 < m)
Least (some a) ns m = ((m ≡ a) ⊎ ((contains ns m ≡ true) × (0 < m))) × (m ≤ a)

axis-Least :
    (least : Option ℕ) (ns : List ℕ) (m : ℕ) → lower_axis least ns ≡ some m → Least least ns m
unfolding lower_axis Least lower map_or_min
axis-Least none [] m h = cc
axis-Least (some a) [] m h = ground (arith, h)
axis-Least none (n ∷ ns) m h = elim (Bool-cases (ltb 0 n)) [
  | inl pos ↦ ground (arith, pos, axis-Least (some n) ns m, h)
  | inr zero_n ↦ ground (arith, zero_n, axis-Least none ns m, h)
]
axis-Least (some a) (n ∷ ns) m h = elim (Bool-cases (ltb 0 n)) [
  | inl pos ↦ ground (arith, pos, axis-Least (some (min a n)) ns m, h)
  | inr zero_n ↦ ground (arith, zero_n, axis-Least (some a) ns m, h)
]

axis_below :
    (least : Option ℕ) (ns : List ℕ) (m i n : ℕ)
    → lower_axis least ns ≡ some m
    → get_elem? ns i ≡ some n
    → (m ≤ n) ⊎ (n ≡ 0)
unfolding lower_axis Least lower map_or_min
axis_below least [] m i n h g = cc
axis_below none (k ∷ ns) m zero n h g = ground (arith, h, g, axis-Least (some k) ns m)
axis_below (some a) (k ∷ ns) m zero n h g = ground (arith, h, g, axis-Least (some (min a k)) ns m)
axis_below least (k ∷ ns) m (suc i) n h g = axis_below (lower least k) ns m i n h g

get_elem?-map :
    (f : ℕ × ℕ → ℕ) (sizes : List (ℕ × ℕ)) (i : ℕ) (s : ℕ × ℕ)
    → get_elem? sizes i ≡ some s
    → get_elem? (map f sizes) i ≡ some (f s)
get_elem?-map f [] i s h = cc
get_elem?-map f (x ∷ sizes) zero s h = ap f_of h
  where
    f_of : Option (ℕ × ℕ) → Option ℕ
    f_of none = none
    f_of (some x) = some (f x)
get_elem?-map f (x ∷ sizes) (suc i) s h = get_elem?-map f sizes i s h

both_of-some :
    (p : Option ℕ × Option ℕ) (c r : ℕ) → both_of p ≡ some (c, r) → (p.0 ≡ some c) × (p.1 ≡ some r)
unfolding both_of
both_of-some (none, q) c r h = cc
both_of-some (some a, none) c r h = cc
both_of-some (some a, some b) c r h = ground (arith, ap (λ o. o) h)

-- The shared size is, on each axis, a size above zero that some client reported, and no larger than
-- what any client reported there, but for zeros.
pub min_client_pane_size-Least :
    (sizes : List (ℕ × ℕ)) (c r i a b : ℕ)
    → min_client_pane_size sizes ≡ some (c, r)
    → get_elem? sizes i ≡ some (a, b)
    → ((contains (map (λ s. s.0) sizes) c ≡ true) × (0 < c))
      × ((contains (map (λ s. s.1) sizes) r ≡ true) × (0 < r))
      × ((c ≤ a) ⊎ (a ≡ 0))
      × ((r ≤ b) ⊎ (b ≡ 0))
unfolding min_client_pane_size Least
min_client_pane_size-Least sizes c r i a b h g =
    let e = both_of-some (lower_all none none sizes) c r h in
    let split = lower_all-eq none none sizes in
    let p = sym (ap (λ x. x.0) split) ∙ e.0 in
    let q = sym (ap (λ x. x.1) split) ∙ e.1 in
    (
      axis-Least none (map (λ s. s.0) sizes) c p,
      axis-Least none (map (λ s. s.1) sizes) r q,
      axis_below none (map (λ s. s.0) sizes) c i a p (get_elem?-map (λ s. s.0) sizes i (a, b) g),
      axis_below none (map (λ s. s.1) sizes) r i b q (get_elem?-map (λ s. s.1) sizes i (a, b) g),
    )
