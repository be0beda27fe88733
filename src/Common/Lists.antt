-- ===== src/Common/Lists.antt =====
-- Lists measured by native numbers, and lists of ids with the membership test of `Vec::contains`.
use Prim.Native.Nat.{ℕ, zero, suc, ◌+◌, ◌<◌}
use mathlib.Core.Path.{◌≡◌, refl}
use mathlib.Core.Logic.{◌≢◌}
use mathlib.Core.Bool.{Bool, true, false, ◌||◌}
use mathlib.Core.Option.{Option, none, some}
use mathlib.Core.List.{List, [], ◌∷◌, ◌++◌}
use native.Mathlib.Omega.{arith}
use rttx.Common.Tests.{◌==◌, if◌then◌else◌}

module _ {ℓ} {A : Type ℓ} where
  abbrev pub length : List A → ℕ
  length [] = 0
  length (x ∷ xs) = suc (length xs)

  abbrev pub get_elem? : List A → ℕ → Option A
  get_elem? [] i = none
  get_elem? (x ∷ xs) zero = some x
  get_elem? (x ∷ xs) (suc i) = get_elem? xs i

  pub length-append : (xs ys : List A) → length (xs ++ ys) ≡ length xs + length ys
  length-append [] ys = omega arith
  length-append (x ∷ xs) ys = omega (arith, length-append xs ys)

  pub get_elem?-append_left :
      (xs ys : List A) (i : ℕ) → i < length xs → get_elem? (xs ++ ys) i ≡ get_elem? xs i
  get_elem?-append_left [] ys i h = elim h [ ]
  get_elem?-append_left (x ∷ xs) ys zero h = refl
  get_elem?-append_left (x ∷ xs) ys (suc i) h = get_elem?-append_left xs ys i (omega arith)

-- `v.contains(&p)`
abbrev pub contains : List ℕ → ℕ → Bool
contains [] p = false
contains (x ∷ xs) p = x == p || contains xs p

-- The list without its first `p`.
abbrev pub erase : ℕ → List ℕ → List ℕ
erase p [] = []
erase p (x ∷ xs) = if x == p then xs else x ∷ erase p xs

-- The list with `n` put right behind its first `p`.
abbrev pub insert_after : ℕ → ℕ → List ℕ → List ℕ
insert_after p n [] = []
insert_after p n (x ∷ xs) = if x == p then x ∷ n ∷ xs else x ∷ insert_after p n xs

-- No entry stands twice.
abbrev pub IsDistinct : List ℕ → Type 0
IsDistinct [] = Unit {0}
IsDistinct (x ∷ xs) = (contains xs x ≡ false) × IsDistinct xs

pub contains-append :
    (xs ys : List ℕ) (p : ℕ) → contains (xs ++ ys) p ≡ (contains xs p || contains ys p)
contains-append [] ys p = refl
contains-append (x ∷ xs) ys p = ground (arith, contains-append xs ys p)

pub contains-insert_after :
    (p n q : ℕ) (xs : List ℕ)
    → contains xs p ≡ true
    → contains (insert_after p n xs) q ≡ (n == q || contains xs q)
contains-insert_after p n q [] h = cc
contains-insert_after p n q (x ∷ xs) h = ground (arith, contains-insert_after p n q xs)

pub insert_after-IsDistinct :
    (p n : ℕ) (xs : List ℕ)
    → contains xs n ≡ false
    → contains xs p ≡ true
    → IsDistinct xs
    → IsDistinct (insert_after p n xs)
insert_after-IsDistinct p n [] h k d = tt
insert_after-IsDistinct p n (x ∷ xs) h k d =
    ground (arith, insert_after-IsDistinct p n xs, contains-insert_after p n x xs)

pub insert_after-append :
    (p n : ℕ) (xs ys : List ℕ)
    → insert_after p n (xs ++ ys)
      ≡ (if contains xs p then insert_after p n xs ++ ys else xs ++ insert_after p n ys)
insert_after-append p n [] ys = refl
insert_after-append p n (x ∷ xs) ys = ground (arith, insert_after-append p n xs ys)

pub length-insert_after :
    (p n : ℕ) (xs : List ℕ) → contains xs p ≡ true → length (insert_after p n xs) ≡ suc (length xs)
length-insert_after p n [] h = cc
length-insert_after p n (x ∷ xs) h = ground (arith, length-insert_after p n xs)

pub erase-append :
    (p : ℕ) (xs ys : List ℕ)
    → erase p (xs ++ ys) ≡ (if contains xs p then erase p xs ++ ys else xs ++ erase p ys)
erase-append p [] ys = refl
erase-append p (x ∷ xs) ys = ground (arith, erase-append p xs ys)

pub contains-erase_ne : (p q : ℕ) (xs : List ℕ) → p ≢ q → contains (erase p xs) q ≡ contains xs q
contains-erase_ne p q [] h = refl
contains-erase_ne p q (x ∷ xs) h = ground (arith, contains-erase_ne p q xs h)

pub contains-erase_self : (p : ℕ) (xs : List ℕ) → IsDistinct xs → contains (erase p xs) p ≡ false
contains-erase_self p [] d = refl
contains-erase_self p (x ∷ xs) d = ground (arith, contains-erase_self p xs d.1)

pub contains-erase-false :
    (p q : ℕ) (xs : List ℕ) → contains xs q ≡ false → contains (erase p xs) q ≡ false
contains-erase-false p q [] h = refl
contains-erase-false p q (x ∷ xs) h = ground (arith, contains-erase-false p q xs)

pub erase-IsDistinct : (p : ℕ) (xs : List ℕ) → IsDistinct xs → IsDistinct (erase p xs)
erase-IsDistinct p [] d = tt
erase-IsDistinct p (x ∷ xs) d =
    ground (arith, erase-IsDistinct p xs d.1, contains-erase-false p x xs)

pub length-erase :
    (p : ℕ) (xs : List ℕ) → contains xs p ≡ true → suc (length (erase p xs)) ≡ length xs
length-erase p [] h = cc
length-erase p (x ∷ xs) h = ground (arith, length-erase p xs)

pub erase-insert_after :
    (p n : ℕ) (xs : List ℕ) → contains xs n ≡ false → erase n (insert_after p n xs) ≡ xs
erase-insert_after p n [] h = refl
erase-insert_after p n (x ∷ xs) h = ground (arith, erase-insert_after p n xs)
