-- ===== src/Storage/Numeric/Fields.antt =====
-- The number that src/storage_layout/tuple_codec.rs reads from a field of fixed width is that of the value
-- that it decodes there.
use uni5db.Base.{
  ℕ, ◌≡◌, ◌≢◌, not, refl, [], ◌∷◌, Option, none, some, true, false, Bool, ◌==◌, length, ok, ◌>>=◌,
  Bool-cases, inl, inr,
}
use uni5db.Bytes.{Bytes}
use uni5db.Bytes.BigEndian.{from_be_bytes}
use uni5db.Types.Floats.{FloatOps}
use uni5db.Types.Value.{ColumnValue}
use uni5db.Types.DataType.{DataType, MySqlIntKind, tiny, small, medium, int, big}
use uni5db.Storage.Fixed
use uni5db.Storage.Fixed.{
  decode_fixed_value, decode_mysql_fixed_int, decode_fixed_bool, fixed_mismatch, int_mismatch,
}
use uni5db.Storage.Numeric.{
  FastNumericValue, widen, of_width, of_int, of_f32, decode_fixed_numeric_value,
}

module _ (ops : FloatOps) where
  -- The number that a value is, if it is one.
  abbrev pub numeric_of : ColumnValue → Option FastNumericValue
  numeric_of ColumnValue.null = some FastNumericValue.null
  numeric_of (ColumnValue.int16 v) = some (widen 16 v)
  numeric_of (ColumnValue.int32 v) = some (widen 32 v)
  numeric_of (ColumnValue.int64 v) = some (FastNumericValue.i64 v)
  numeric_of (ColumnValue.float32 v) = some (of_f32 ops v)
  numeric_of (ColumnValue.float64 v) = some (FastNumericValue.f64 v)
  numeric_of _ = none

  module _ (v : ColumnValue) (n : FastNumericValue) (number : numeric_of v ≡ some n) where
    of_width-decoded :
        (make : ℕ → ColumnValue) (f : ℕ → FastNumericValue) (width : ℕ) (bytes : Bytes)
        → ((raw : ℕ) → numeric_of (make raw) ≡ some (f raw))
        → Fixed.of_width fixed_mismatch make width bytes ≡ ok v
        → of_width f width bytes ≡ ok n
    of_width-decoded make f width bytes makes h =
        let made = makes (from_be_bytes bytes) in
        elim (Bool-cases (length bytes == width)) [
          | inl e ↦
              let decoded = rw e at h in rw e (let same : make (from_be_bytes bytes) ≡ v = cc in cc)
          | inr e ↦ absurd (let failed = rw e at h in cc)
        ]

    int-decoded :
        (make : ℕ → ColumnValue) (width : ℕ) (bytes : Bytes)
        → ((raw : ℕ)
            → (f : FastNumericValue) × (numeric_of (make raw) ≡ some f)
              × (of_int (make raw) ≡ ok f))
        → Fixed.of_width int_mismatch make width bytes ≡ ok v
        → (Fixed.of_width int_mismatch make width bytes >>= of_int) ≡ ok n
    int-decoded make width bytes makes h =
        let (f, made, read) = makes (from_be_bytes bytes) in
        elim (Bool-cases (length bytes == width)) [
          | inl e ↦
              let decoded = rw e at h in
              rw (e, ◌>>=◌) (let same : make (from_be_bytes bytes) ≡ v = cc in cc)
          | inr e ↦ absurd (let failed = rw e at h in cc)
        ]

    decode_mysql_fixed_int-number :
        (kind : MySqlIntKind) (unsigned : Bool) (bytes : Bytes)
        → decode_mysql_fixed_int kind unsigned bytes ≡ ok v
        → (decode_mysql_fixed_int kind unsigned bytes >>= of_int) ≡ ok n
    unfolding decode_mysql_fixed_int
    decode_mysql_fixed_int-number tiny false bytes h =
        int-decoded ColumnValue.int16 2 bytes (λ raw. (widen 16 raw, refl, refl)) h
    decode_mysql_fixed_int-number small false bytes h =
        int-decoded ColumnValue.int16 2 bytes (λ raw. (widen 16 raw, refl, refl)) h
    decode_mysql_fixed_int-number tiny true bytes h =
        int-decoded ColumnValue.int32 4 bytes (λ raw. (widen 32 raw, refl, refl)) h
    decode_mysql_fixed_int-number small true bytes h =
        int-decoded ColumnValue.int32 4 bytes (λ raw. (widen 32 raw, refl, refl)) h
    decode_mysql_fixed_int-number medium unsigned bytes h =
        int-decoded ColumnValue.int32 4 bytes (λ raw. (widen 32 raw, refl, refl)) h
    decode_mysql_fixed_int-number int false bytes h =
        int-decoded ColumnValue.int32 4 bytes (λ raw. (widen 32 raw, refl, refl)) h
    decode_mysql_fixed_int-number int true bytes h =
        int-decoded ColumnValue.int64 8 bytes (λ raw. (FastNumericValue.i64 raw, refl, refl)) h
    decode_mysql_fixed_int-number big false bytes h =
        int-decoded ColumnValue.int64 8 bytes (λ raw. (FastNumericValue.i64 raw, refl, refl)) h
    decode_mysql_fixed_int-number big true bytes h = cc

    decode_fixed_bool-number : (bytes : Bytes) → decode_fixed_bool bytes ≢ ok v
    decode_fixed_bool-number [] h = cc
    decode_fixed_bool-number (b ∷ []) h =
        let same : ColumnValue.boolean (not (b == 0)) ≡ v = cc in
        absurd (let none_there = rw (← same) at number in cc)
    decode_fixed_bool-number (b ∷ c ∷ bytes) h = cc

    pub decode_fixed_numeric_value-decode_fixed_value :
        (t : DataType) (bytes : Bytes)
        → decode_fixed_value t bytes ≡ ok v
        → decode_fixed_numeric_value ops t bytes ≡ ok n
    unfolding decode_fixed_value decode_fixed_numeric_value
    decode_fixed_numeric_value-decode_fixed_value DataType.boolean bytes h =
        absurd (decode_fixed_bool-number bytes h)
    decode_fixed_numeric_value-decode_fixed_value (DataType.mysql_int kind unsigned) bytes h =
        decode_mysql_fixed_int-number kind unsigned bytes h
    decode_fixed_numeric_value-decode_fixed_value (DataType.bit _) bytes h =
        of_width-decoded ColumnValue.int64 FastNumericValue.i64 8 bytes (λ raw. refl) h
    decode_fixed_numeric_value-decode_fixed_value DataType.year bytes h =
        of_width-decoded ColumnValue.int32 (widen 32) 4 bytes (λ raw. refl) h
    decode_fixed_numeric_value-decode_fixed_value DataType.int16 bytes h =
        of_width-decoded ColumnValue.int16 (widen 16) 2 bytes (λ raw. refl) h
    decode_fixed_numeric_value-decode_fixed_value DataType.int32 bytes h =
        of_width-decoded ColumnValue.int32 (widen 32) 4 bytes (λ raw. refl) h
    decode_fixed_numeric_value-decode_fixed_value DataType.int64 bytes h =
        of_width-decoded ColumnValue.int64 FastNumericValue.i64 8 bytes (λ raw. refl) h
    decode_fixed_numeric_value-decode_fixed_value DataType.float32 bytes h =
        of_width-decoded ColumnValue.float32 (of_f32 ops) 4 bytes (λ raw. refl) h
    decode_fixed_numeric_value-decode_fixed_value (DataType.mysql_float _) bytes h =
        of_width-decoded ColumnValue.float32 (of_f32 ops) 4 bytes (λ raw. refl) h
    decode_fixed_numeric_value-decode_fixed_value DataType.float64 bytes h =
        of_width-decoded ColumnValue.float64 FastNumericValue.f64 8 bytes (λ raw. refl) h
    decode_fixed_numeric_value-decode_fixed_value (DataType.mysql_double _) bytes h =
        of_width-decoded ColumnValue.float64 FastNumericValue.f64 8 bytes (λ raw. refl) h
    decode_fixed_numeric_value-decode_fixed_value _ bytes h = cc
