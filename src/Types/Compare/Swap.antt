-- ===== src/Types/Compare/Swap.antt =====
-- The comparison of `ColumnValue` in src/types/column_value.rs turned around.
use uni5db.Base.{◌≡◌, refl, ap, true, false, Bool, some}
use uni5db.Base.Int.{cmp_ℤ-swap, signed, swap}
use uni5db.Types.Value.{ColumnValue}
use uni5db.Types.Floats.{FloatOps, swapped, cmp_f32-swap, cmp_f64-swap}
use uni5db.Types.Decimal.Order.{numeric_cmp-swap, cmp_bytes-swap}
use uni5db.Types.Compare.{cmp_bool, partial_cmp}

cmp_bool-swap : (a b : Bool) → cmp_bool a b ≡ swap (cmp_bool b a)
cmp_bool-swap true true = refl
cmp_bool-swap true false = refl
cmp_bool-swap false true = refl
cmp_bool-swap false false = refl

module _ (ops : FloatOps) where
  open ops use {f32_of_int, f64_of_int, f64_of_f32}

  -- Two values compared the other way around give the opposite ordering, or none again.
  pub partial_cmp-swap : (a b : ColumnValue) → partial_cmp ops a b ≡ swapped (partial_cmp ops b a)
  unfolding partial_cmp
  partial_cmp-swap (ColumnValue.int16 a) (ColumnValue.int16 b) =
      ap some (cmp_ℤ-swap (signed 16 a) (signed 16 b))
  partial_cmp-swap (ColumnValue.int16 a) (ColumnValue.int32 b) =
      ap some (cmp_ℤ-swap (signed 16 a) (signed 32 b))
  partial_cmp-swap (ColumnValue.int32 a) (ColumnValue.int16 b) =
      ap some (cmp_ℤ-swap (signed 32 a) (signed 16 b))
  partial_cmp-swap (ColumnValue.int16 a) (ColumnValue.int64 b) =
      ap some (cmp_ℤ-swap (signed 16 a) (signed 64 b))
  partial_cmp-swap (ColumnValue.int64 a) (ColumnValue.int16 b) =
      ap some (cmp_ℤ-swap (signed 64 a) (signed 16 b))
  partial_cmp-swap (ColumnValue.int32 a) (ColumnValue.int32 b) =
      ap some (cmp_ℤ-swap (signed 32 a) (signed 32 b))
  partial_cmp-swap (ColumnValue.int64 a) (ColumnValue.int64 b) =
      ap some (cmp_ℤ-swap (signed 64 a) (signed 64 b))
  partial_cmp-swap (ColumnValue.int32 a) (ColumnValue.int64 b) =
      ap some (cmp_ℤ-swap (signed 32 a) (signed 64 b))
  partial_cmp-swap (ColumnValue.int64 a) (ColumnValue.int32 b) =
      ap some (cmp_ℤ-swap (signed 64 a) (signed 32 b))
  partial_cmp-swap (ColumnValue.float32 a) (ColumnValue.float32 b) = cmp_f32-swap a b
  partial_cmp-swap (ColumnValue.float64 a) (ColumnValue.float64 b) = cmp_f64-swap a b
  partial_cmp-swap (ColumnValue.float32 a) (ColumnValue.float64 b) = cmp_f64-swap (f64_of_f32 a) b
  partial_cmp-swap (ColumnValue.float64 a) (ColumnValue.float32 b) = cmp_f64-swap a (f64_of_f32 b)
  partial_cmp-swap (ColumnValue.int16 a) (ColumnValue.float32 b) =
      cmp_f32-swap (f32_of_int (signed 16 a)) b
  partial_cmp-swap (ColumnValue.float32 a) (ColumnValue.int16 b) =
      cmp_f32-swap a (f32_of_int (signed 16 b))
  partial_cmp-swap (ColumnValue.int16 a) (ColumnValue.float64 b) =
      cmp_f64-swap (f64_of_int (signed 16 a)) b
  partial_cmp-swap (ColumnValue.float64 a) (ColumnValue.int16 b) =
      cmp_f64-swap a (f64_of_int (signed 16 b))
  partial_cmp-swap (ColumnValue.int32 a) (ColumnValue.float32 b) =
      cmp_f32-swap (f32_of_int (signed 32 a)) b
  partial_cmp-swap (ColumnValue.float32 a) (ColumnValue.int32 b) =
      cmp_f32-swap a (f32_of_int (signed 32 b))
  partial_cmp-swap (ColumnValue.int64 a) (ColumnValue.float64 b) =
      cmp_f64-swap (f64_of_int (signed 64 a)) b
  partial_cmp-swap (ColumnValue.float64 a) (ColumnValue.int64 b) =
      cmp_f64-swap a (f64_of_int (signed 64 b))
  partial_cmp-swap (ColumnValue.numeric a) (ColumnValue.numeric b) = ap some (numeric_cmp-swap a b)
  partial_cmp-swap (ColumnValue.text a) (ColumnValue.text b) = ap some (cmp_bytes-swap a b)
  partial_cmp-swap (ColumnValue.boolean a) (ColumnValue.boolean b) = ap some (cmp_bool-swap a b)
  partial_cmp-swap (ColumnValue.date a) (ColumnValue.date b) = ap some (cmp_bytes-swap a b)
  partial_cmp-swap (ColumnValue.timestamp a) (ColumnValue.timestamp b) =
      ap some (cmp_bytes-swap a b)
  partial_cmp-swap (ColumnValue.timestamp_tz a) (ColumnValue.timestamp_tz b) =
      ap some (cmp_bytes-swap a b)
  partial_cmp-swap (ColumnValue.uuid a) (ColumnValue.uuid b) = ap some (cmp_bytes-swap a b)
  partial_cmp-swap (ColumnValue.bytea a) (ColumnValue.bytea b) = ap some (cmp_bytes-swap a b)
  partial_cmp-swap ColumnValue.null ColumnValue.null = refl
  partial_cmp-swap (ColumnValue.json _) ColumnValue.null = refl
  partial_cmp-swap (ColumnValue.jsonb _) ColumnValue.null = refl
  partial_cmp-swap (ColumnValue.array _) ColumnValue.null = refl
  partial_cmp-swap _ _ = refl
