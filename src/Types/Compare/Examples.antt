-- ===== src/Types/Compare/Examples.antt =====
-- Values of src/types/column_value.rs compared, and what the theorem says of them.
use Prim.Native.Nat.{Ordering}
use uni5db.Base.{◌≡◌, refl, true, false, [], ◌∷◌, some}
use uni5db.Bytes.{Bytes}
use uni5db.Base.Int
use uni5db.Types.Value.{ColumnValue}
use uni5db.Types.Floats
use uni5db.Types.Floats.{FloatOps, swapped}
use uni5db.Types.Compare.{partial_cmp, value_eq}
use uni5db.Types.Compare.Swap.{partial_cmp-swap}

-- Every conversion and sum is 1.0.
abbrev ones : FloatOps
ones = record {
  f32_of_int = λ n. 0x3f800000;
  f64_of_int = λ n. 0x3ff0000000000000;
  f64_of_f32 = λ n. 0x3ff0000000000000;
  add = λ a b. 0x3ff0000000000000;
  div = λ a b. 0x3ff0000000000000;
}

-- "1.0" and "1.00"
abbrev tenths : Bytes
tenths = b'1' ∷ b'.' ∷ b'0' ∷ []

abbrev hundredths : Bytes
hundredths = b'1' ∷ b'.' ∷ b'0' ∷ b'0' ∷ []

minus_one_below_one :
    partial_cmp ones (ColumnValue.int16 65535) (ColumnValue.int32 1) ≡ some Ordering.lt
unfolding partial_cmp Int.signed
minus_one_below_one = refl

-- Numbers of different widths are not equal, though neither is below the other.
ones_apart : value_eq (ColumnValue.int16 1) (ColumnValue.int32 1) ≡ false
unfolding value_eq
ones_apart = refl

ones_level : partial_cmp ones (ColumnValue.int16 1) (ColumnValue.int32 1) ≡ some Ordering.eq
unfolding partial_cmp Int.signed
ones_level = refl

nan_apart :
    value_eq (ColumnValue.float64 0x7ff8000000000000) (ColumnValue.float64 0x7ff8000000000000)
    ≡ false
unfolding value_eq Floats.cmp_f64
nan_apart = refl

zeros_together : value_eq (ColumnValue.float64 0) (ColumnValue.float64 0x8000000000000000) ≡ true
unfolding value_eq Floats.cmp_f64 Int.negate
zeros_together = refl

partial_cmp-swap_example :
    partial_cmp ones (ColumnValue.numeric tenths) (ColumnValue.numeric hundredths)
    ≡ swapped (partial_cmp ones (ColumnValue.numeric hundredths) (ColumnValue.numeric tenths))
partial_cmp-swap_example =
    partial_cmp-swap ones (ColumnValue.numeric tenths) (ColumnValue.numeric hundredths)
