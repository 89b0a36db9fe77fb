-- ===== src/Types/Compare.antt =====
-- `partial_cmp` and `==` of `ColumnValue`, of src/types/column_value.rs.
pub mod Swap
mod Examples
use Prim.Native.Nat.{Ordering}
use uni5db.Base.{ℕ, Bool, true, false, ◌&&◌, Option, none, some, bool_eq, ◌==◌, if◌then◌else◌}
use uni5db.Base.Int.{ℤ, cmp_ℤ, signed}
use uni5db.Bytes.{bytes_eq}
use uni5db.Types.Value.{ColumnValue, Values, nil, cons}
use uni5db.Types.Floats.{FloatOps, cmp_f32, cmp_f64}
use uni5db.Types.Decimal.{numeric_cmp, cmp_bytes}

abbrev pub cmp_bool : Bool → Bool → Ordering
cmp_bool false true = Ordering.lt
cmp_bool true false = Ordering.gt
cmp_bool _ _ = Ordering.eq

module _ (ops : FloatOps) where
  open ops use {f32_of_int, f64_of_int, f64_of_f32}

  unfoldable pub partial_cmp : ColumnValue → ColumnValue → Option Ordering
  partial_cmp (ColumnValue.int16 a) (ColumnValue.int16 b) = some (cmp_ℤ (signed 16 a) (signed 16 b))
  partial_cmp (ColumnValue.int16 a) (ColumnValue.int32 b) = some (cmp_ℤ (signed 16 a) (signed 32 b))
  partial_cmp (ColumnValue.int32 a) (ColumnValue.int16 b) = some (cmp_ℤ (signed 32 a) (signed 16 b))
  partial_cmp (ColumnValue.int16 a) (ColumnValue.int64 b) = some (cmp_ℤ (signed 16 a) (signed 64 b))
  partial_cmp (ColumnValue.int64 a) (ColumnValue.int16 b) = some (cmp_ℤ (signed 64 a) (signed 16 b))
  partial_cmp (ColumnValue.int32 a) (ColumnValue.int32 b) = some (cmp_ℤ (signed 32 a) (signed 32 b))
  partial_cmp (ColumnValue.int64 a) (ColumnValue.int64 b) = some (cmp_ℤ (signed 64 a) (signed 64 b))
  partial_cmp (ColumnValue.int32 a) (ColumnValue.int64 b) = some (cmp_ℤ (signed 32 a) (signed 64 b))
  partial_cmp (ColumnValue.int64 a) (ColumnValue.int32 b) = some (cmp_ℤ (signed 64 a) (signed 32 b))
  partial_cmp (ColumnValue.float32 a) (ColumnValue.float32 b) = cmp_f32 a b
  partial_cmp (ColumnValue.float64 a) (ColumnValue.float64 b) = cmp_f64 a b
  partial_cmp (ColumnValue.float32 a) (ColumnValue.float64 b) = cmp_f64 (f64_of_f32 a) b
  partial_cmp (ColumnValue.float64 a) (ColumnValue.float32 b) = cmp_f64 a (f64_of_f32 b)
  partial_cmp (ColumnValue.int16 a) (ColumnValue.float32 b) = cmp_f32 (f32_of_int (signed 16 a)) b
  partial_cmp (ColumnValue.float32 a) (ColumnValue.int16 b) = cmp_f32 a (f32_of_int (signed 16 b))
  partial_cmp (ColumnValue.int16 a) (ColumnValue.float64 b) = cmp_f64 (f64_of_int (signed 16 a)) b
  partial_cmp (ColumnValue.float64 a) (ColumnValue.int16 b) = cmp_f64 a (f64_of_int (signed 16 b))
  partial_cmp (ColumnValue.int32 a) (ColumnValue.float32 b) = cmp_f32 (f32_of_int (signed 32 a)) b
  partial_cmp (ColumnValue.float32 a) (ColumnValue.int32 b) = cmp_f32 a (f32_of_int (signed 32 b))
  partial_cmp (ColumnValue.int64 a) (ColumnValue.float64 b) = cmp_f64 (f64_of_int (signed 64 a)) b
  partial_cmp (ColumnValue.float64 a) (ColumnValue.int64 b) = cmp_f64 a (f64_of_int (signed 64 b))
  partial_cmp (ColumnValue.numeric a) (ColumnValue.numeric b) = some (numeric_cmp a b)
  partial_cmp (ColumnValue.text a) (ColumnValue.text b) = some (cmp_bytes a b)
  partial_cmp (ColumnValue.boolean a) (ColumnValue.boolean b) = some (cmp_bool a b)
  partial_cmp (ColumnValue.date a) (ColumnValue.date b) = some (cmp_bytes a b)
  partial_cmp (ColumnValue.timestamp a) (ColumnValue.timestamp b) = some (cmp_bytes a b)
  partial_cmp (ColumnValue.timestamp_tz a) (ColumnValue.timestamp_tz b) = some (cmp_bytes a b)
  partial_cmp (ColumnValue.uuid a) (ColumnValue.uuid b) = some (cmp_bytes a b)
  partial_cmp (ColumnValue.bytea a) (ColumnValue.bytea b) = some (cmp_bytes a b)
  partial_cmp _ _ = none

abbrev is_eq : Option Ordering → Bool
is_eq (some Ordering.eq) = true
is_eq _ = false

-- The derived `PartialEq`.
unfoldable mutual
  pub value_eq : ColumnValue → ColumnValue → Bool
  value_eq ColumnValue.null ColumnValue.null = true
  value_eq (ColumnValue.int16 a) (ColumnValue.int16 b) = a == b
  value_eq (ColumnValue.int32 a) (ColumnValue.int32 b) = a == b
  value_eq (ColumnValue.int64 a) (ColumnValue.int64 b) = a == b
  value_eq (ColumnValue.float32 a) (ColumnValue.float32 b) = is_eq (cmp_f32 a b)
  value_eq (ColumnValue.float64 a) (ColumnValue.float64 b) = is_eq (cmp_f64 a b)
  value_eq (ColumnValue.numeric a) (ColumnValue.numeric b) = bytes_eq a b
  value_eq (ColumnValue.text a) (ColumnValue.text b) = bytes_eq a b
  value_eq (ColumnValue.boolean a) (ColumnValue.boolean b) = bool_eq a b
  value_eq (ColumnValue.date a) (ColumnValue.date b) = bytes_eq a b
  value_eq (ColumnValue.timestamp a) (ColumnValue.timestamp b) = bytes_eq a b
  value_eq (ColumnValue.timestamp_tz a) (ColumnValue.timestamp_tz b) = bytes_eq a b
  value_eq (ColumnValue.uuid a) (ColumnValue.uuid b) = bytes_eq a b
  value_eq (ColumnValue.bytea a) (ColumnValue.bytea b) = bytes_eq a b
  value_eq (ColumnValue.json a) (ColumnValue.json b) = bytes_eq a b
  value_eq (ColumnValue.jsonb a) (ColumnValue.jsonb b) = bytes_eq a b
  value_eq (ColumnValue.array a) (ColumnValue.array b) = values_eq a b
  value_eq _ _ = false

  pub values_eq : Values → Values → Bool
  values_eq nil nil = true
  values_eq (cons a xs) (cons b ys) = value_eq a b && values_eq xs ys
  values_eq _ _ = false
