-- ===== src/Types/Floats.antt =====
-- The floats of the program as their IEEE bit patterns. Their order is read off the bits; conversions
-- and arithmetic round, and are a parameter.
use Prim.Native.Nat.{Ordering}
use uni5db.Base.{ℕ, ◌-◌, ◌%◌, ◌^◌, ◌≡◌, Bool, ◌||◌, Option, none, some, ltb, if◌then◌else◌, arith}
use uni5db.Base.Int.{ℤ, pos, negate, cmp_ℤ, swap, cmp_ℤ-swap}

-- The conversions and operations of the hardware that src/types and src/mem_store.rs use.
pub record FloatOps : Type 0 where
  pub f32_of_int : ℤ → ℕ
  pub f64_of_int : ℤ → ℕ
  pub f64_of_f32 : ℕ → ℕ
  pub add : ℕ → ℕ → ℕ
  pub div : ℕ → ℕ → ℕ

-- Of `w` bits, of which the mantissa has `m`: an exponent of ones with another mantissa than 0.
abbrev pub is_nan : ℕ → ℕ → ℕ → Bool
is_nan w m v = ltb (2 ^ (w - 1) - 2 ^ m) (v % 2 ^ (w - 1))

-- The magnitude with its sign; both zeros are 0.
abbrev pub magnitude : ℕ → ℕ → ℤ
magnitude w v = if ltb v (2 ^ (w - 1)) then pos v else negate (pos (v - 2 ^ (w - 1)))

abbrev pub cmp_float : ℕ → ℕ → ℕ → ℕ → Option Ordering
cmp_float w m a b =
    if is_nan w m a || is_nan w m b then none else some (cmp_ℤ (magnitude w a) (magnitude w b))

-- `partial_cmp` of `f32` and of `f64`.
unfoldable pub cmp_f32 : ℕ → ℕ → Option Ordering
cmp_f32 a b = cmp_float 32 23 a b

unfoldable pub cmp_f64 : ℕ → ℕ → Option Ordering
cmp_f64 a b = cmp_float 64 52 a b

abbrev pub swapped : Option Ordering → Option Ordering
swapped none = none
swapped (some o) = some (swap o)

cmp_float-swap : (w m a b : ℕ) → cmp_float w m a b ≡ swapped (cmp_float w m b a)
cmp_float-swap w m a b = ground (arith, cmp_ℤ-swap (magnitude w a) (magnitude w b))

pub cmp_f32-swap : (a b : ℕ) → cmp_f32 a b ≡ swapped (cmp_f32 b a)
unfolding cmp_f32
cmp_f32-swap a b = cmp_float-swap 32 23 a b

pub cmp_f64-swap : (a b : ℕ) → cmp_f64 a b ≡ swapped (cmp_f64 b a)
unfolding cmp_f64
cmp_f64-swap a b = cmp_float-swap 64 52 a b
