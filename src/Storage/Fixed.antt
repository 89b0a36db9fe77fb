-- ===== src/Storage/Fixed.antt =====
-- The fixed-width fields of rows, in src/storage_layout/tuple_codec.rs: the width of each type, the
-- places of the columns, and the bytes of a value.
pub mod RoundTrip
pub mod Places
use uni5db.Base.{
  ℕ, ◌+◌, Bool, true, false, not, List, [], ◌∷◌, Option, none, some, ◌==◌, if◌then◌else◌, length,
  Result, ok, err, user_error,
}
use uni5db.Bytes.{Bytes}
use uni5db.Bytes.BigEndian.{to_be_bytes, from_be_bytes}
use uni5db.Types.Value.{ColumnValue}
use uni5db.Types.DataType.{DataType, MySqlIntKind, tiny, small, medium, int, big}
use uni5db.Types.Schema.{ColumnSchema}
use uni5db.Storage.Tuple.{bool_byte}

unfoldable pub fixed_width : DataType → Option ℕ
fixed_width DataType.boolean = some 1
fixed_width DataType.int16 = some 2
fixed_width (DataType.mysql_int tiny false) = some 2
fixed_width (DataType.mysql_int small false) = some 2
fixed_width DataType.int32 = some 4
fixed_width (DataType.mysql_int int true) = some 8
fixed_width (DataType.mysql_int tiny unsigned) = some 4
fixed_width (DataType.mysql_int small unsigned) = some 4
fixed_width (DataType.mysql_int medium unsigned) = some 4
fixed_width DataType.int64 = some 8
fixed_width (DataType.mysql_int big false) = some 8
fixed_width (DataType.mysql_int big true) = none
fixed_width DataType.year = some 4
fixed_width (DataType.bit _) = some 8
fixed_width DataType.float32 = some 4
fixed_width (DataType.mysql_float _) = some 4
fixed_width DataType.float64 = some 8
fixed_width (DataType.mysql_double _) = some 8
fixed_width _ = none

-- The loop of `fixed_offsets_for_columns` from a running offset.
unfoldable pub offsets_from : ℕ → List ColumnSchema → List (Option ℕ)
offsets_from offset [] = []
offsets_from offset (column ∷ columns) = elim (fixed_width column.data_type) [
  | none ↦ none ∷ offsets_from offset columns
  | some width ↦ some offset ∷ offsets_from (offset + width) columns
]

unfoldable pub fixed_offsets_for_columns : List ColumnSchema → List (Option ℕ)
fixed_offsets_for_columns columns = offsets_from 0 columns

-- The loop of `variable_positions_for_columns` from a running position.
unfoldable pub positions_from : ℕ → List ColumnSchema → List (Option ℕ)
positions_from position [] = []
positions_from position (column ∷ columns) = elim (fixed_width column.data_type) [
  | some width ↦ none ∷ positions_from position columns
  | none ↦ some position ∷ positions_from (position + 1) columns
]

unfoldable pub variable_positions_for_columns : List ColumnSchema → List (Option ℕ)
variable_positions_for_columns columns = positions_from 0 columns

-- The field of `dst` after the call: the value's bytes if they have its length, and the old bytes
-- otherwise.
unfoldable pub encode_fixed_value : Bytes → ColumnValue → Bytes
encode_fixed_value dst (ColumnValue.boolean value) =
    if length dst == 1 then bool_byte value ∷ [] else dst
encode_fixed_value dst (ColumnValue.int16 value) =
    if length dst == 2 then to_be_bytes 2 value else dst
encode_fixed_value dst (ColumnValue.int32 value) =
    if length dst == 4 then to_be_bytes 4 value else dst
encode_fixed_value dst (ColumnValue.int64 value) =
    if length dst == 8 then to_be_bytes 8 value else dst
encode_fixed_value dst (ColumnValue.float32 value) =
    if length dst == 4 then to_be_bytes 4 value else dst
encode_fixed_value dst (ColumnValue.float64 value) =
    if length dst == 8 then to_be_bytes 8 value else dst
encode_fixed_value dst _ = dst

abbrev pub int_mismatch : Result ColumnValue
int_mismatch = err (user_error "XX000" "fixed MySQL integer type/width mismatch")

-- An integer of the width that the field has to have.
abbrev pub of_width : Result ColumnValue → (ℕ → ColumnValue) → ℕ → Bytes → Result ColumnValue
of_width mismatch make width bytes =
    if length bytes == width then ok (make (from_be_bytes bytes)) else mismatch

unfoldable pub decode_mysql_fixed_int : MySqlIntKind → Bool → Bytes → Result ColumnValue
decode_mysql_fixed_int tiny false bytes = of_width int_mismatch ColumnValue.int16 2 bytes
decode_mysql_fixed_int small false bytes = of_width int_mismatch ColumnValue.int16 2 bytes
decode_mysql_fixed_int tiny true bytes = of_width int_mismatch ColumnValue.int32 4 bytes
decode_mysql_fixed_int small true bytes = of_width int_mismatch ColumnValue.int32 4 bytes
decode_mysql_fixed_int medium unsigned bytes = of_width int_mismatch ColumnValue.int32 4 bytes
decode_mysql_fixed_int int false bytes = of_width int_mismatch ColumnValue.int32 4 bytes
decode_mysql_fixed_int int true bytes = of_width int_mismatch ColumnValue.int64 8 bytes
decode_mysql_fixed_int big false bytes = of_width int_mismatch ColumnValue.int64 8 bytes
decode_mysql_fixed_int big true bytes = int_mismatch

abbrev pub fixed_mismatch : Result ColumnValue
fixed_mismatch = err (user_error "XX000" "fixed value type/width mismatch")

-- `bytes[0] != 0` of a field of one byte.
abbrev pub decode_fixed_bool : Bytes → Result ColumnValue
decode_fixed_bool (b ∷ []) = ok (ColumnValue.boolean (not (b == 0)))
decode_fixed_bool _ = fixed_mismatch

unfoldable pub decode_fixed_value : DataType → Bytes → Result ColumnValue
decode_fixed_value DataType.boolean bytes = decode_fixed_bool bytes
decode_fixed_value (DataType.mysql_int kind unsigned) bytes =
    decode_mysql_fixed_int kind unsigned bytes
decode_fixed_value (DataType.bit _) bytes = of_width fixed_mismatch ColumnValue.int64 8 bytes
decode_fixed_value DataType.year bytes = of_width fixed_mismatch ColumnValue.int32 4 bytes
decode_fixed_value DataType.int16 bytes = of_width fixed_mismatch ColumnValue.int16 2 bytes
decode_fixed_value DataType.int32 bytes = of_width fixed_mismatch ColumnValue.int32 4 bytes
decode_fixed_value DataType.int64 bytes = of_width fixed_mismatch ColumnValue.int64 8 bytes
decode_fixed_value DataType.float32 bytes = of_width fixed_mismatch ColumnValue.float32 4 bytes
decode_fixed_value (DataType.mysql_float _) bytes =
    of_width fixed_mismatch ColumnValue.float32 4 bytes
decode_fixed_value DataType.float64 bytes = of_width fixed_mismatch ColumnValue.float64 8 bytes
decode_fixed_value (DataType.mysql_double _) bytes =
    of_width fixed_mismatch ColumnValue.float64 8 bytes
decode_fixed_value _ bytes = fixed_mismatch
