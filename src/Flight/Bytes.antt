-- ===== src/Flight/Bytes.antt =====
-- services/rttx-server/src/flight.rs: reads after writes of the file, and numbers from their bytes.
use rttx.Common.{
  ℕ, zero, suc, ◌+◌, ◌-◌, ◌/◌, ◌<◌, ◌≤◌, ◌≡◌, refl, ap, ◌∙◌, ◌⊎◌, arith, none, some, List, [], ◌∷◌,
  length, get_elem?,
}
use rttx.Flight.{File, write_all_at, read_exact_at, to_le_bytes}

read-agree :
    (f g : File) (o n : ℕ)
    → ((i : ℕ) → o ≤ i → i < o + n → f i ≡ g i)
    → read_exact_at f o n ≡ read_exact_at g o n
unfolding read_exact_at
read-agree f g o zero h = refl
read-agree f g o (suc n) h =
    let rest = read-agree f g (o + 1) n (λ i l k. h i (omega (arith, l)) (omega (arith, k))) in
    cc (rest, h o (omega arith) (omega arith))

get_elem?-past : (buf : List ℕ) (i : ℕ) → length buf ≤ i → get_elem? buf i ≡ none
get_elem?-past [] i h = refl
get_elem?-past (b ∷ buf) zero h = absurd (omega (arith, h))
get_elem?-past (b ∷ buf) (suc i) h = get_elem?-past buf i (omega (arith, h))

-- A read beside a write sees what was there before.
pub read_exact_at-write_all_at_apart :
    (f : File) (o p n : ℕ) (buf : List ℕ)
    → (p + n ≤ o) ⊎ (o + length buf ≤ p)
    → read_exact_at (write_all_at f o buf) p n ≡ read_exact_at f p n
unfolding write_all_at
read_exact_at-write_all_at_apart f o p n buf h =
    read-agree (write_all_at f o buf) f p n
      (λ i l k. ground (arith, h, l, k, get_elem?-past buf (i - o)))

read-eq :
    (f : File) (o : ℕ) (buf : List ℕ)
    → ((k b : ℕ) → get_elem? buf k ≡ some b → f (o + k) ≡ b)
    → read_exact_at f o (length buf) ≡ buf
unfolding read_exact_at
read-eq f o [] h = refl
read-eq f o (b ∷ buf) h =
    let rest = read-eq f (o + 1) buf (λ k c e. ap f (shift k) ∙ h (suc k) c e) in
    let first = ap f (start o) ∙ h 0 b refl in cc (rest, first)
  where
    shift : (k : ℕ) → o + 1 + k ≡ o + suc k
    shift k = omega arith

    start : (o : ℕ) → o ≡ o + 0
    start o = omega arith

-- A read of what was written is what was written.
pub read_exact_at-write_all_at :
    (f : File) (o : ℕ) (buf : List ℕ) → read_exact_at (write_all_at f o buf) o (length buf) ≡ buf
unfolding write_all_at
read_exact_at-write_all_at f o buf = read-eq (write_all_at f o buf) o buf written
  where
    back : (k : ℕ) → o + k - o ≡ k
    back k = omega arith

    written : (k b : ℕ) → get_elem? buf k ≡ some b → write_all_at f o buf (o + k) ≡ b
    written k b e = ground (arith, e, ap (get_elem? buf) (back k))

pub length-to_le_bytes : (width n : ℕ) → length (to_le_bytes width n) ≡ width
length-to_le_bytes zero n = refl
length-to_le_bytes (suc width) n = ap suc (length-to_le_bytes width (n / 256))
