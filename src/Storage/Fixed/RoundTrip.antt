-- ===== src/Storage/Fixed/RoundTrip.antt =====
-- A value that was written to a fixed-width field of src/storage_layout/tuple_codec.rs is read back
-- by the type of the column.
use uni5db.Base.{ℕ, ◌^◌, ◌<◌, ◌≡◌, refl, true, false, some, arith, length, Result, ok, ==_refl}
use uni5db.Bytes.{Bytes}
use uni5db.Bytes.BigEndian.{to_be_bytes, from_be_bytes-to_be_bytes, length-to_be_bytes}
use uni5db.Types.Value.{ColumnValue, IsValid}
use uni5db.Types.DataType.{DataType, tiny, small, medium, int, big}
use uni5db.Types.Typing.{Kind, kind, stored_kind, HasType}
use uni5db.Storage.Fixed.{
  fixed_width, encode_fixed_value, decode_mysql_fixed_int, decode_fixed_value, of_width,
  decode_fixed_bool,
}

-- The bytes of a number have the width that the reader wants.
number_field :
    (mismatch : Result ColumnValue) (make : ℕ → ColumnValue) (width v : ℕ)
    → v < 256 ^ width
    → of_width mismatch make width (to_be_bytes width v) ≡ ok (make v)
number_field mismatch make width v h =
    rw (length-to_be_bytes width v, ==_refl width, from_be_bytes-to_be_bytes width v h)

module _ (mismatch : Result ColumnValue) (dst : Bytes) where
  int16_field :
      (v : ColumnValue)
      → length dst ≡ 2
      → Kind.int16 ≡ kind v
      → IsValid v
      → of_width mismatch ColumnValue.int16 2 (encode_fixed_value dst v) ≡ ok v
  unfolding encode_fixed_value
  int16_field (ColumnValue.int16 v) wide k h =
      rw wide (number_field mismatch ColumnValue.int16 2 v h)
  int16_field _ wide k h = cc

  int32_field :
      (v : ColumnValue)
      → length dst ≡ 4
      → Kind.int32 ≡ kind v
      → IsValid v
      → of_width mismatch ColumnValue.int32 4 (encode_fixed_value dst v) ≡ ok v
  unfolding encode_fixed_value
  int32_field (ColumnValue.int32 v) wide k h =
      rw wide (number_field mismatch ColumnValue.int32 4 v h)
  int32_field _ wide k h = cc

  int64_field :
      (v : ColumnValue)
      → length dst ≡ 8
      → Kind.int64 ≡ kind v
      → IsValid v
      → of_width mismatch ColumnValue.int64 8 (encode_fixed_value dst v) ≡ ok v
  unfolding encode_fixed_value
  int64_field (ColumnValue.int64 v) wide k h =
      rw wide (number_field mismatch ColumnValue.int64 8 v h)
  int64_field _ wide k h = cc

  float32_field :
      (v : ColumnValue)
      → length dst ≡ 4
      → Kind.float32 ≡ kind v
      → IsValid v
      → of_width mismatch ColumnValue.float32 4 (encode_fixed_value dst v) ≡ ok v
  unfolding encode_fixed_value
  float32_field (ColumnValue.float32 v) wide k h =
      rw wide (number_field mismatch ColumnValue.float32 4 v h)
  float32_field _ wide k h = cc

  float64_field :
      (v : ColumnValue)
      → length dst ≡ 8
      → Kind.float64 ≡ kind v
      → IsValid v
      → of_width mismatch ColumnValue.float64 8 (encode_fixed_value dst v) ≡ ok v
  unfolding encode_fixed_value
  float64_field (ColumnValue.float64 v) wide k h =
      rw wide (number_field mismatch ColumnValue.float64 8 v h)
  float64_field _ wide k h = cc

bool_field :
    (dst : Bytes) (v : ColumnValue)
    → length dst ≡ 1
    → Kind.boolean ≡ kind v
    → decode_fixed_bool (encode_fixed_value dst v) ≡ ok v
unfolding encode_fixed_value
bool_field dst (ColumnValue.boolean true) wide k = rw wide
bool_field dst (ColumnValue.boolean false) wide k = rw wide
bool_field dst _ wide k = cc

-- The kind of a value that has a type of fixed width.
typed_kind :
    (v : ColumnValue) (t : DataType) (width : ℕ)
    → fixed_width t ≡ some width
    → HasType v t
    → stored_kind t ≡ kind v
unfolding fixed_width
typed_kind (ColumnValue.array vs) (DataType.array t) width w ty = refl
typed_kind (ColumnValue.array vs) _ width w ty = absurd ty
typed_kind _ t width w ty = ty

width_of : (a b : ℕ) → some a ≡ some b → b ≡ a
width_of a b h = ground arith

-- A valid value of a type of fixed width that was written to a field of that width is read back.
pub decode_fixed_value-encode_fixed_value :
    (t : DataType) (dst : Bytes) (v : ColumnValue)
    → fixed_width t ≡ some (length dst)
    → HasType v t
    → IsValid v
    → decode_fixed_value t (encode_fixed_value dst v) ≡ ok v
unfolding decode_fixed_value decode_mysql_fixed_int fixed_width
decode_fixed_value-encode_fixed_value t dst v w ty h = go t w (typed_kind v t (length dst) w ty)
  where
    go :
        (t : DataType)
        → fixed_width t ≡ some (length dst)
        → stored_kind t ≡ kind v
        → decode_fixed_value t (encode_fixed_value dst v) ≡ ok v
    go DataType.boolean w k = bool_field dst v (width_of _ _ w) k
    go DataType.int16 w k = int16_field _ dst v (width_of _ _ w) k h
    go DataType.int32 w k = int32_field _ dst v (width_of _ _ w) k h
    go DataType.int64 w k = int64_field _ dst v (width_of _ _ w) k h
    go (DataType.mysql_int tiny false) w k = int16_field _ dst v (width_of _ _ w) k h
    go (DataType.mysql_int small false) w k = int16_field _ dst v (width_of _ _ w) k h
    go (DataType.mysql_int tiny true) w k = int32_field _ dst v (width_of _ _ w) k h
    go (DataType.mysql_int small true) w k = int32_field _ dst v (width_of _ _ w) k h
    go (DataType.mysql_int medium u) w k = int32_field _ dst v (width_of _ _ w) k h
    go (DataType.mysql_int int false) w k = cc
    go (DataType.mysql_int int true) w k = int64_field _ dst v (width_of _ _ w) k h
    go (DataType.mysql_int big false) w k = int64_field _ dst v (width_of _ _ w) k h
    go (DataType.mysql_int big true) w k = cc
    go (DataType.bit n) w k = int64_field _ dst v (width_of _ _ w) k h
    go DataType.year w k = int32_field _ dst v (width_of _ _ w) k h
    go DataType.float32 w k = float32_field _ dst v (width_of _ _ w) k h
    go (DataType.mysql_float n) w k = float32_field _ dst v (width_of _ _ w) k h
    go DataType.float64 w k = float64_field _ dst v (width_of _ _ w) k h
    go (DataType.mysql_double n) w k = float64_field _ dst v (width_of _ _ w) k h
    go _ w k = cc
