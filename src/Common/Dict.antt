-- ===== src/Common/Dict.antt =====
-- `HashMap<Uuid, V>` as an association list. Rust leaves the order of iteration open; here it is the
-- order of the list.
use mathlib.Core.Path.{◌≡◌, refl, ap, sym, ◌∙◌}
use mathlib.Core.Logic.{◌⊎◌, inl, inr}
use mathlib.Core.Bool.{true, false, ◌||◌}
use mathlib.Core.Option.{Option, none, some}
use mathlib.Core.List.{List, [], ◌∷◌}
use native.Mathlib.Omega.{arith}
use Prim.Native.Nat.{ℕ}
use rttx.Common.Tests.{◌==◌, if◌then◌else◌, is_some, Bool-cases, some_injective}
use rttx.Common.Lists.{contains, IsDistinct}

abbrev pub Dict {ℓ} : Type ℓ → Type ℓ
Dict V = List (ℕ × V)

module _ {ℓ} {V : Type ℓ} where
  abbrev pub keys : Dict V → List ℕ
  keys [] = []
  keys ((k, v) ∷ d) = k ∷ keys d

  unfoldable pub get : Dict V → ℕ → Option V
  get [] k = none
  get ((j, v) ∷ d) k = if j == k then some v else get d k

  unfoldable pub insert : Dict V → ℕ → V → Dict V
  insert [] k v = (k, v) ∷ []
  insert ((j, w) ∷ d) k v = if j == k then (k, v) ∷ d else (j, w) ∷ insert d k v

  unfoldable pub remove : Dict V → ℕ → Dict V
  remove [] k = []
  remove ((j, w) ∷ d) k = if j == k then d else (j, w) ∷ remove d k

  pub get-insert :
      (d : Dict V) (k j : ℕ) (v : V) → get (insert d k v) j ≡ (if k == j then some v else get d j)
  unfolding get insert
  get-insert [] k j v = refl
  get-insert ((i, w) ∷ d) k j v = ground (arith, get-insert d k j v)

  pub contains-keys : (d : Dict V) (k : ℕ) → contains (keys d) k ≡ is_some (get d k)
  unfolding get
  contains-keys [] k = refl
  contains-keys ((j, v) ∷ d) k = ground (arith, contains-keys d k)

  pub contains-keys-insert :
      (d : Dict V) (k j : ℕ) (v : V)
      → contains (keys (insert d k v)) j ≡ (k == j || contains (keys d) j)
  unfolding insert
  contains-keys-insert [] k j v = refl
  contains-keys-insert ((i, w) ∷ d) k j v = ground (arith, contains-keys-insert d k j v)

  pub insert-IsDistinct :
      (d : Dict V) (k : ℕ) (v : V) → IsDistinct (keys d) → IsDistinct (keys (insert d k v))
  unfolding insert
  insert-IsDistinct [] k v h = (refl, tt)
  insert-IsDistinct ((i, w) ∷ d) k v h =
      ground (arith, insert-IsDistinct d k v, contains-keys-insert d k i v)

  pub contains-keys-remove-false :
      (d : Dict V) (k j : ℕ) → contains (keys d) j ≡ false → contains (keys (remove d k)) j ≡ false
  unfolding remove
  contains-keys-remove-false [] k j h = refl
  contains-keys-remove-false ((i, w) ∷ d) k j h = ground (arith, contains-keys-remove-false d k j)

  pub remove-IsDistinct :
      (d : Dict V) (k : ℕ) → IsDistinct (keys d) → IsDistinct (keys (remove d k))
  unfolding remove
  remove-IsDistinct [] k h = tt
  remove-IsDistinct ((i, w) ∷ d) k h =
      ground (arith, remove-IsDistinct d k, contains-keys-remove-false d k i)

  get_absent : (d : Dict V) (k : ℕ) → contains (keys d) k ≡ false → get d k ≡ none
  unfolding get
  get_absent [] k h = refl
  get_absent ((j, v) ∷ d) k h = ground (arith, get_absent d k)

  pub get-remove :
      (d : Dict V) (k j : ℕ)
      → IsDistinct (keys d)
      → get (remove d k) j ≡ (if k == j then none else get d j)
  unfolding get remove
  get-remove [] k j h = ground arith
  get-remove ((i, w) ∷ d) k j h = ground (arith, get-remove d k j, get_absent d i)

  pub remove_absent : (d : Dict V) (k : ℕ) → get d k ≡ none → remove d k ≡ d
  unfolding get remove
  remove_absent [] k h = refl
  remove_absent ((i, w) ∷ d) k h = ground (arith, remove_absent d k)

  pub insert_twice : (d : Dict V) (k : ℕ) (u v : V) → insert (insert d k u) k v ≡ insert d k v
  unfolding insert
  insert_twice [] k u v = ground arith
  insert_twice ((i, w) ∷ d) k u v = ground (arith, insert_twice d k u v)

  pub insert_same : (d : Dict V) (k : ℕ) (v : V) → get d k ≡ some v → insert d k v ≡ d
  unfolding get insert
  insert_same [] k v h = cc
  insert_same ((i, w) ∷ d) k v h = ground (arith, insert_same d k v)

  pub get-insert_same : (d : Dict V) (k : ℕ) (v : V) → get (insert d k v) k ≡ some v
  get-insert_same d k v = ground (arith, get-insert d k k v)

  pub keys-insert_present :
      (d : Dict V) (k : ℕ) (v : V) → is_some (get d k) ≡ true → keys (insert d k v) ≡ keys d
  unfolding get insert
  keys-insert_present [] k v h = cc
  keys-insert_present ((i, w) ∷ d) k v h = ground (arith, keys-insert_present d k v)

  -- Where a value found after an insertion or a removal comes from.
  pub get-insert-cases :
      (d : Dict V) (k : ℕ) (v : V) (j : ℕ) (u : V)
      → get (insert d k v) j ≡ some u
      → ((j ≡ k) × (u ≡ v)) ⊎ (((k == j) ≡ false) × (get d j ≡ some u))
  get-insert-cases d k v j u h = elim (Bool-cases (k == j)) [
    | inl here ↦ inl (
      ground (arith, here),
      some_injective (sym h ∙ get-insert d k j v ∙ ap (λ b. if b then some v else get d j) here),
    )
    | inr there ↦
        inr (
          there,
          sym (ap (λ b. if b then some v else get d j) there) ∙ sym (get-insert d k j v) ∙ h,
        )
  ]

  pub get-remove-some :
      (d : Dict V) (k j : ℕ) (u : V)
      → IsDistinct (keys d)
      → get (remove d k) j ≡ some u
      → ((k == j) ≡ false) × (get d j ≡ some u)
  get-remove-some d k j u n h = ground (arith, get-remove d k j n, h)

  -- A value that is taken out and put back.
  pub get-reinserted :
      (d : Dict V) (k j : ℕ) (v : V)
      → IsDistinct (keys d)
      → get d k ≡ some v
      → get (insert (remove d k) k v) j ≡ get d j
  get-reinserted d k j v n h = elim (Bool-cases (k == j)) [
    | inl here ↦
        let same : k ≡ j = ground (arith, here) in
        get-insert (remove d k) k j v
        ∙ ap (λ b. if b then some v else get (remove d k) j) here
        ∙ sym h
        ∙ ap (get d) same
    | inr there ↦
        get-insert (remove d k) k j v
        ∙ ap (λ b. if b then some v else get (remove d k) j) there
        ∙ get-remove d k j n
        ∙ ap (λ b. if b then none else get d j) there
  ]
