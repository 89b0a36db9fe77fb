-- ===== src/Storage/Numeric.antt =====
-- The numbers that an aggregation reads straight from rows in the fixed row format: `FastNumericValue` and
-- `FastNumericProjector` of src/storage_layout/row_codec.rs, with their readers of fast_row_decode.rs and
-- tuple_codec.rs.
pub mod Fields
pub mod Slots
mod Examples
use uni5db.Base.{
  ℕ, ◌+◌, ◌/◌, ◌%◌, ◌^◌, bit_and, not, List, [], ◌∷◌, Option, none, some, ltb, ◌==◌, if◌then◌else◌,
  length, get_elem?, Result, ok, err, user_error, ◌>>=◌,
}
use uni5db.Base.Int.{signed, bits}
use uni5db.Bytes.{Bytes}
use uni5db.Bytes.BigEndian.{from_be_bytes}
use uni5db.Types.Floats.{FloatOps}
use uni5db.Types.Value.{ColumnValue}
use uni5db.Types.DataType.{DataType}
use uni5db.Types.Schema.{ColumnSchema, TableSchema}
use uni5db.Storage.Cursor.{slice}
use uni5db.Storage.Fixed.{fixed_width, fixed_offsets_for_columns, decode_mysql_fixed_int}
use uni5db.Storage.Tag.{Tag, tag_of}
use uni5db.Storage.FixedRow.{fixed_row_version, place}
use uni5db.Storage.RowRecord.{is_fixed_row}
use uni5db.Storage.Projected.{filled, set_elem, max_column_id, outputs_from}

pub data FastNumericValue : Type 0 where
  null : FastNumericValue
  i64 f64 : ℕ → FastNumericValue

-- `v as i64` of an integer of `w` bits.
abbrev pub widen : ℕ → ℕ → FastNumericValue
widen w v = FastNumericValue.i64 (bits 64 (signed w v))

abbrev pub numeric_mismatch : Result FastNumericValue
numeric_mismatch = err (user_error "XX000" "fixed numeric type/width mismatch")

-- A number of the width that the field has to have.
abbrev pub of_width : (ℕ → FastNumericValue) → ℕ → Bytes → Result FastNumericValue
of_width make width bytes =
    if length bytes == width then ok (make (from_be_bytes bytes)) else numeric_mismatch

abbrev pub of_int : ColumnValue → Result FastNumericValue
of_int (ColumnValue.int16 v) = ok (widen 16 v)
of_int (ColumnValue.int32 v) = ok (widen 32 v)
of_int (ColumnValue.int64 v) = ok (FastNumericValue.i64 v)
of_int _ = numeric_mismatch

pub record FastNumericDirectSlot : Type 0 where
  pub column_id : ℕ
  pub directory_idx : ℕ
  pub fixed_value_start : Option ℕ
  pub fixed_width : Option ℕ
  pub null_byte_offset : ℕ
  pub null_bit : ℕ
  pub data_type : DataType
  pub output_idx : ℕ

pub record FastNumericProjector : Type 0 where
  pub column_id_to_output : List (Option ℕ)
  pub direct_slots : List FastNumericDirectSlot
  pub output_len : ℕ

abbrev pub slot_of : TableSchema → ColumnSchema → ℕ → ℕ → FastNumericDirectSlot
slot_of schema column column_idx output_idx = record {
  column_id = column.column_id;
  directory_idx = column_idx;
  fixed_value_start = elim (place (fixed_offsets_for_columns schema.columns) column_idx) [
    | none ↦ none
    | some offset ↦ some (33 + (length schema.columns + 7) / 8 + offset)
  ];
  fixed_width = fixed_width column.data_type;
  null_byte_offset = 33 + column_idx / 8;
  null_bit = 2 ^ (column_idx % 8);
  data_type = column.data_type;
  output_idx = output_idx;
}

-- The slots of the indices from `output_idx` on; an index without a column has none.
unfoldable pub slots_from : TableSchema → List ℕ → ℕ → List FastNumericDirectSlot
slots_from schema [] output_idx = []
slots_from schema (column_idx ∷ indices) output_idx = elim (get_elem? schema.columns column_idx) [
  | none ↦ slots_from schema indices (output_idx + 1)
  | some column ↦
      slot_of schema column column_idx output_idx ∷ slots_from schema indices (output_idx + 1)
]

unfoldable pub new : TableSchema → List ℕ → FastNumericProjector
new schema column_indices = record {
  column_id_to_output =
      outputs_from schema column_indices 0 (filled (max_column_id schema.columns + 1) none);
  direct_slots = slots_from schema column_indices 0;
  output_len = length column_indices;
}

module _ (ops : FloatOps) where
  abbrev pub of_f32 : ℕ → FastNumericValue
  of_f32 v = FastNumericValue.f64 (ops.f64_of_f32 v)

  unfoldable pub decode_fixed_numeric_value : DataType → Bytes → Result FastNumericValue
  decode_fixed_numeric_value (DataType.mysql_int kind unsigned) bytes =
      decode_mysql_fixed_int kind unsigned bytes >>= of_int
  decode_fixed_numeric_value (DataType.bit _) bytes = of_width FastNumericValue.i64 8 bytes
  decode_fixed_numeric_value DataType.year bytes = of_width (widen 32) 4 bytes
  decode_fixed_numeric_value DataType.int16 bytes = of_width (widen 16) 2 bytes
  decode_fixed_numeric_value DataType.int32 bytes = of_width (widen 32) 4 bytes
  decode_fixed_numeric_value DataType.int64 bytes = of_width FastNumericValue.i64 8 bytes
  decode_fixed_numeric_value DataType.float32 bytes = of_width of_f32 4 bytes
  decode_fixed_numeric_value (DataType.mysql_float _) bytes = of_width of_f32 4 bytes
  decode_fixed_numeric_value DataType.float64 bytes = of_width FastNumericValue.f64 8 bytes
  decode_fixed_numeric_value (DataType.mysql_double _) bytes = of_width FastNumericValue.f64 8 bytes
  decode_fixed_numeric_value _ bytes = numeric_mismatch

  -- The field of a slot that is not null.
  abbrev pub fixed_slot : Bytes → FastNumericDirectSlot → ℕ → Result FastNumericValue
  fixed_slot bytes slot start =
      let end = start + (elim slot.fixed_width [ none ↦ 0 | some width ↦ width ]) in
      if ltb (length bytes) end
      then err (user_error "XX000" "truncated fixed row numeric value")
      else decode_fixed_numeric_value slot.data_type (slice bytes start end)

  abbrev pub slot_value : Bytes → FastNumericDirectSlot → Result FastNumericValue
  slot_value bytes slot = elim (get_elem? bytes slot.null_byte_offset) [
    | none ↦ err (user_error "XX000" "truncated fixed row null bitmap")
    | some null_byte ↦
        if not (bit_and null_byte slot.null_bit == 0)
        then ok FastNumericValue.null
        else elim slot.fixed_value_start [
          | none ↦ err (user_error "XX000" "fixed row fast numeric column is not fixed-width")
          | some start ↦ fixed_slot bytes slot start
        ]
  ]

  -- The values after the call.
  unfoldable pub decode_fixed_row_numeric_slot :
      Bytes → List FastNumericValue → FastNumericDirectSlot → Result (List FastNumericValue)
  decode_fixed_row_numeric_slot bytes values slot = do
    value ← slot_value bytes slot
    ok (set_elem values slot.output_idx value)

  unfoldable pub decode_slots :
      Bytes → List FastNumericDirectSlot → List FastNumericValue → Result (List FastNumericValue)
  decode_slots bytes [] values = ok values
  decode_slots bytes (slot ∷ slots) values = do
    values ← decode_fixed_row_numeric_slot bytes values slot
    decode_slots bytes slots values

  unfoldable pub decode_fixed_row_record_fast_numeric_with :
      FastNumericProjector → Bytes → List FastNumericValue → Result (List FastNumericValue)
  decode_fixed_row_record_fast_numeric_with projector bytes values =
      if is_fixed_row bytes
      then decode_slots bytes projector.direct_slots values
      else err (user_error "XX000" "unsupported fixed row record version")
