-- ===== src/Common/Fallible.antt =====
-- Rust's `Result`, with `and_then` for a `?` that a later step follows.
use mathlib.Core.Path.{◌≡◌, refl}

pub data Result {ℓ κ} (Good : Type ℓ) (Bad : Type κ) : Type (ℓ ⊔ κ) where
  err : Bad → Result Good Bad
  ok : Good → Result Good Bad

module _ {ℓ κ μ} {Good : Type ℓ} {Next : Type μ} {Bad : Type κ} where
  abbrev pub and_then : Result Good Bad → (Good → Result Next Bad) → Result Next Bad
  and_then (err bad) next = err bad
  and_then (ok good) next = next good

  -- A chain that succeeds has succeeded at its first step.
  pub and_then-ok :
      (r : Result Good Bad) (next : Good → Result Next Bad) {last : Next}
      → and_then r next ≡ ok last
      → (good : Good) × (r ≡ ok good) × (next good ≡ ok last)
  and_then-ok (err bad) next h = cc
  and_then-ok (ok good) next h = (good, refl, h)
