-- ===== src/Common/Double.antt =====
-- IEEE 754 double precision numbers by their bits, and Rust's `f64::from(f32)` and `f64::clamp`. The
-- payload of a NaN is kept by the conversion; Rust leaves it open.
use Prim.Native.Nat.{ℕ, zero, suc, ◌+◌, ◌-◌, ◌*◌, ◌/◌, ◌%◌, ◌^◌}
use mathlib.Core.Bool.{Bool, false, ◌||◌}
use rttx.Common.Tests.{ltb, leb, ◌==◌, if◌then◌else◌}
use rttx.Common.Float.{F32, lt_signed, is_negative, magnitude}

abbrev pub F64 : Type 0
F64 = ℕ

abbrev pub is_nan_f64 : F64 → Bool
is_nan_f64 x = ltb 0x7ff0000000000000 (x % 0x8000000000000000)

abbrev pub lt_f64 : F64 → F64 → Bool
lt_f64 x y =
    if is_nan_f64 x || is_nan_f64 y
    then false
    else lt_signed (x / 0x8000000000000000 % 2 == 1) (y / 0x8000000000000000 % 2 == 1)
        (x % 0x8000000000000000) (y % 0x8000000000000000)

-- The exponent of the leading one of a subnormal's fraction `m`, looked for from `k` down.
abbrev pub leading_one : ℕ → ℕ → ℕ
leading_one m zero = 0
leading_one m (suc k) = let rest = leading_one m k in if leb (2 ^ suc k) m then suc k else rest

abbrev widen_fraction : ℕ → ℕ → ℕ
widen_fraction m k = (k + 874) * 0x10000000000000 + (m - 2 ^ k) * 2 ^ (52 - k)

abbrev widen_magnitude : ℕ → ℕ → ℕ
widen_magnitude e m =
    if e == 255
    then 0x7ff0000000000000 + m * 0x20000000
    else (if e == 0
        then (if m == 0 then 0 else widen_fraction m (leading_one m 22))
        else (e + 896) * 0x10000000000000 + m * 0x20000000)

-- `f64::from`
unfoldable pub f64_from : F32 → F64
f64_from x =
    (if is_negative x then 0x8000000000000000 else 0)
    + widen_magnitude (magnitude x / 0x800000) (magnitude x % 0x800000)

-- `self.clamp(low, high)`
unfoldable pub clamp : F64 → F64 → F64 → F64
clamp x low high = if lt_f64 x low then low else (if lt_f64 high x then high else x)
