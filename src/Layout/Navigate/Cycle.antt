-- ===== src/Layout/Navigate/Cycle.antt =====
-- clients/rttx/src/workspace/layout.rs: the cycle through the terminals.
use native.Mathlib.Nat.{mod-lt, mod-add-mod, add-mod_right, mod-eq_of_lt}
use rttx.Common.{
  ℕ, zero, suc, ◌+◌, ◌-◌, ◌%◌, ◌<◌, ltb, ◌≤◌, ◌≡◌, ◌≢◌, refl, sym, ap, ◌∙◌, arith, inl, inr, Bool,
  true, false, not, some, List, [], ◌∷◌, if◌then◌else◌, Bool-cases, length, get_elem?,
  some_injective,
}
use rttx.Common.Text.{Text, text_eq, text_eq_iff}
use rttx.Layout.{LayoutNode, terminal_uuids, contains_terminal}
use rttx.Layout.Terminals.{has, AreDistinct, contains_terminal-eq}
use rttx.Layout.Navigate.{position, nth_from, cycle_terminal}

position-some :
    (xs : List Text) (u : Text)
    → has xs u ≡ true
    → (i : ℕ) × (position xs u ≡ some i) × (get_elem? xs i ≡ some u) × (i < length xs)
unfolding position
position-some [] u h = cc
position-some (x ∷ xs) u h = elim (Bool-cases (text_eq x u)) [
  | inl e ↦ (0, ground (arith, e), ap some ((text_eq_iff x u).0 e), omega arith)
  | inr e ↦
      (let (i, p, q, l) = position-some xs u (ground (arith, h, e)) in
        (suc i, ground (arith, e, p), q, omega (arith, l)))
]

get_elem?-has : (xs : List Text) (i : ℕ) (u : Text) → get_elem? xs i ≡ some u → has xs u ≡ true
get_elem?-has [] i u h = cc
get_elem?-has (x ∷ xs) zero u h = ground (arith, text_eq_iff x u)
get_elem?-has (x ∷ xs) (suc i) u h = ground (arith, get_elem?-has xs i u h)

-- With no text twice, an entry is found where it stands.
position-get_elem? :
    (xs : List Text) (i : ℕ) (u : Text)
    → AreDistinct xs
    → get_elem? xs i ≡ some u
    → position xs u ≡ some i
unfolding position
position-get_elem? [] i u d h = cc
position-get_elem? (x ∷ xs) zero u d h = ground (arith, text_eq_iff x u)
position-get_elem? (x ∷ xs) (suc i) u d h =
    ground (arith, position-get_elem? xs i u d.1 h, get_elem?-has xs i u h, text_eq_iff x u)

get_elem?-some : (xs : List Text) (i : ℕ) → i < length xs → (u : Text) × (get_elem? xs i ≡ some u)
get_elem?-some [] i h = elim h [ ]
get_elem?-some (x ∷ xs) zero h = (x, refl)
get_elem?-some (x ∷ xs) (suc i) h = get_elem?-some xs i (omega arith)

abbrev stride : Bool → ℕ → ℕ
stride forward n = if forward then 1 else n - 1

there_and_back : (b : Bool) (i n : ℕ) → i < n → ((i + stride b n) % n + stride (not b) n) % n ≡ i
there_and_back b i n h =
    mod-add-mod (i + stride b n) n (stride (not b) n)
    ∙ ap (λ m. m % n) (strides b)
    ∙ add-mod_right i n
    ∙ mod-eq_of_lt h
  where
    strides : (b : Bool) → i + stride b n + stride (not b) n ≡ i + n
    strides true = omega (arith, h)
    strides false = omega (arith, h)

onward : (b : Bool) (i n : ℕ) → i < n → 2 ≤ n → (i + stride b n) % n ≢ i
onward true i n h l e = elim (Bool-cases (ltb (i + 1) n)) [
  | inl more ↦
      (let moved : (i + 1) % n ≡ i + 1 = mod-eq_of_lt (ground (arith, more)) in
        omega (arith, moved, e))
  | inr last ↦
      (let end : i + 1 ≡ n = ground (arith, last, h) in
        let back : n % n ≡ 0 % n = ap (λ m. m % n) (omega arith) ∙ add-mod_right 0 n in
        let first : 0 % n ≡ 0 = mod-eq_of_lt (omega (arith, h)) in
        omega (arith, l, end, sym e ∙ ap (λ m. m % n) end ∙ back ∙ first))
]
onward false zero n h l e =
    let moved : (n - 1) % n ≡ n - 1 = mod-eq_of_lt (omega (arith, h)) in
    let same : 0 + (n - 1) ≡ n - 1 = omega arith in
    omega (arith, l, sym moved ∙ ap (λ m. m % n) (sym same) ∙ e)
onward false (suc i) n h l e =
    let back : (i + n) % n ≡ i = add-mod_right i n ∙ mod-eq_of_lt (omega (arith, h)) in
    let same : suc i + (n - 1) ≡ i + n = omega (arith, h) in
    omega (arith, sym back ∙ ap (λ m. m % n) (sym same) ∙ e)

-- In a layout of two terminals or more whose UUIDs are distinct, the cycle leads from any terminal to
-- another one, in either direction, and the other direction leads back.
pub cycle_terminal-back :
    (t : LayoutNode) (u : Text) (forward : Bool)
    → AreDistinct (terminal_uuids t)
    → 2 ≤ length (terminal_uuids t)
    → contains_terminal t u ≡ true
    → (v : Text) × (v ≢ u)
      × (cycle_terminal t u forward ≡ some v)
      × (contains_terminal t v ≡ true)
      × (cycle_terminal t v (not forward) ≡ some u)
unfolding cycle_terminal nth_from
cycle_terminal-back t u b d l h =
    let us = terminal_uuids t in
    let (i, p, q, i_lt) = position-some us u (sym (contains_terminal-eq t u) ∙ h) in
    let (v, e) =
      get_elem?-some us ((i + stride b (length us)) % length us)
        (mod-lt (i + stride b (length us)) (omega (arith, l))) in
    let at : position us v ≡ some ((i + stride b (length us)) % length us) =
      position-get_elem? us ((i + stride b (length us)) % length us) v d e in
    (
      v,
      (λ same. onward b i (length us) i_lt l (some_injective (sym at ∙ ap (position us) same ∙ p))),
      ground (arith, l, p, e),
      contains_terminal-eq t v ∙ get_elem?-has us ((i + stride b (length us)) % length us) v e,
      ground (
        arith,
        l,
        position-get_elem? us ((i + stride b (length us)) % length us) v d e,
        there_and_back b i (length us) i_lt,
        q,
      ),
    )
