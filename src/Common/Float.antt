-- ===== src/Common/Float.antt =====
-- IEEE 754 single precision numbers by their bits: a sign, eight bits of exponent and 23 of
-- fraction. `lt` is Rust's `<` and `is_finite` its `f32::is_finite`.
use Prim.Native.Nat.{ℕ, ◌/◌, ◌%◌}
use mathlib.Core.Bool.{Bool, true, false, not, ◌&&◌, ◌||◌}
use rttx.Common.Tests.{ltb, ◌==◌, if◌then◌else◌}

abbrev pub F32 : Type 0
F32 = ℕ

abbrev pub is_negative : F32 → Bool
is_negative x = x / 0x80000000 % 2 == 1

abbrev pub magnitude : F32 → ℕ
magnitude x = x % 0x80000000

abbrev pub is_nan : F32 → Bool
is_nan x = ltb 0x7f800000 (magnitude x)

abbrev pub is_finite : F32 → Bool
is_finite x = ltb (magnitude x) 0x7f800000

abbrev pub lt_signed : Bool → Bool → ℕ → ℕ → Bool
lt_signed false false a b = ltb a b
lt_signed true true a b = ltb b a
lt_signed true false a b = not (a == 0 && b == 0)
lt_signed false true a b = false

abbrev pub lt : F32 → F32 → Bool
lt x y =
    if is_nan x || is_nan y
    then false
    else lt_signed (is_negative x) (is_negative y) (magnitude x) (magnitude y)

abbrev pub zero_f32 : F32
zero_f32 = 0

abbrev pub half_f32 : F32
half_f32 = 0x3f000000

abbrev pub one_f32 : F32
one_f32 = 0x3f800000

abbrev pub nan_f32 : F32
nan_f32 = 0x7fc00000
