-- ===== src/Storage/FixedRow.antt =====
-- The fixed row format as src/storage_layout/fast_row_decode.rs reads it: behind the header stand a
-- bitmap of the null columns, the fields of fixed width, a directory of the other columns, and their
-- values. `usize` has 64 bits, and a `RowMap` is its entries.
pub mod Regions
pub mod Columns
mod Examples
use uni5db.Base.{
  ℕ, zero, ◌+◌, ◌*◌, ◌/◌, ◌%◌, ◌^◌, bit_and, Bool, true, false, not, List, [], ◌∷◌, Option, none,
  some, ltb, leb, ◌==◌, if◌then◌else◌, length, get_elem?, take, Result, ok, err, user_error, ◌>>=◌,
}
use uni5db.Bytes.{Bytes}
use uni5db.Bytes.BigEndian.{from_be_bytes}
use uni5db.Types.Value.{ColumnValue}
use uni5db.Types.Schema.{ColumnSchema, TableSchema}
use uni5db.Store.Maps.{Map, hash_insert}
use uni5db.Storage.Cursor
use uni5db.Storage.Cursor.{Cursor, slice, u8}
use uni5db.Storage.Tuple.{decode_tuple_value}
use uni5db.Storage.Fixed.{
  fixed_width, fixed_offsets_for_columns, variable_positions_for_columns, decode_fixed_value,
}
use uni5db.Storage.Records.{finish}
use uni5db.Storage.RawRows.{row_header, checked_add}

abbrev pub fixed_row_version : ℕ
fixed_row_version = 4

pub record FixedRowLayout : Type 0 where
  pub stored_column_count : ℕ
  pub null_bitmap_start : ℕ
  pub fixed_region_start : ℕ
  pub variable_directory_start : ℕ
  pub variable_payload_start : ℕ
  pub fixed_offsets : List (Option ℕ)
  pub variable_positions : List (Option ℕ)

-- The sum of the widths of the fixed-width columns.
unfoldable pub fixed_region_len : List ColumnSchema → ℕ
fixed_region_len [] = 0
fixed_region_len (column ∷ columns) = elim (fixed_width column.data_type) [
  | none ↦ fixed_region_len columns
  | some width ↦ width + fixed_region_len columns
]

unfoldable pub count_some : List (Option ℕ) → ℕ
count_some [] = 0
count_some (none ∷ positions) = count_some positions
count_some (some _ ∷ positions) = 1 + count_some positions

-- The layout of a row of these columns whose bitmap begins at `start`.
abbrev pub layout_of : List ColumnSchema → ℕ → ℕ → FixedRowLayout
layout_of stored_columns count start = record {
  stored_column_count = count;
  null_bitmap_start = start;
  fixed_region_start = start + (count + 7) / 8;
  variable_directory_start = start + (count + 7) / 8 + fixed_region_len stored_columns;
  variable_payload_start =
      start
      + (count + 7) / 8
      + fixed_region_len stored_columns
      + count_some (variable_positions_for_columns stored_columns) * 8;
  fixed_offsets = fixed_offsets_for_columns stored_columns;
  variable_positions = variable_positions_for_columns stored_columns;
}

-- The checks behind the header.
unfoldable pub checked_layout : TableSchema → Bytes → ℕ → ℕ → Result FixedRowLayout
checked_layout schema bytes count start =
    if ltb (length schema.columns) count
    then err (user_error "XX000" "fixed row schema column count mismatch")
    else (let layout = layout_of (take count schema.columns) count start in
        if ltb (length bytes) layout.variable_payload_start
        then err (user_error "XX000" "truncated fixed row header")
        else ok layout)

unfoldable pub fixed_row_layout : TableSchema → Bytes → Result FixedRowLayout
fixed_row_layout schema bytes = do
  (version, c) ← u8 (Cursor.new bytes)
  if version == fixed_row_version
      then (do (header, c) ← row_header c; checked_layout schema bytes header.3 c.pos)
      else err (user_error "XX000" "unsupported fixed row record version")

unfoldable pub fixed_row_is_null : Bytes → FixedRowLayout → ℕ → Result Bool
fixed_row_is_null bytes layout column_idx =
    if leb layout.stored_column_count column_idx
    then ok true
    else elim (get_elem? bytes (layout.null_bitmap_start + column_idx / 8)) [
      | none ↦ err (user_error "XX000" "truncated fixed row null bitmap")
      | some byte ↦ ok (not (bit_and byte (2 ^ (column_idx % 8)) == 0))
    ]

-- `get(idx).and_then(..)` of the offsets and positions.
abbrev pub place : List (Option ℕ) → ℕ → Option ℕ
place places idx = elim (get_elem? places idx) [ none ↦ none | some found ↦ found ]

abbrev pub fixed_column : Bytes → FixedRowLayout → ColumnSchema → ℕ → Result ColumnValue
fixed_column bytes layout column offset =
    let start = layout.fixed_region_start + offset in
    let end = start + (elim (fixed_width column.data_type) [ none ↦ 0 | some width ↦ width ]) in
    if ltb (length bytes) end
    then err (user_error "XX000" "truncated fixed row fixed value")
    else decode_fixed_value column.data_type (slice bytes start end)

-- The value of a column of the directory from its start and length.
abbrev pub variable_value : Bytes → ℕ → ℕ → Result ColumnValue
variable_value bytes value_start len = elim (checked_add value_start len) [
  | none ↦ err (user_error "XX000" "fixed row variable length overflow")
  | some value_end ↦
      if ltb (length bytes) value_end
      then err (user_error "XX000" "truncated fixed row variable value")
      else (decode_tuple_value (Cursor.new (slice bytes value_start value_end))
          >>= finish "trailing bytes in fixed row variable value")
]

abbrev pub variable_column : Bytes → FixedRowLayout → ℕ → Result ColumnValue
variable_column bytes layout variable_position =
    let entry_start = layout.variable_directory_start + variable_position * 8 in
    if ltb (length bytes) (entry_start + 8)
    then err (user_error "XX000" "truncated fixed row variable directory")
    else elim (checked_add layout.variable_payload_start
        (from_be_bytes (slice bytes entry_start (entry_start + 4)))) [
          | none ↦ err (user_error "XX000" "fixed row variable offset overflow")
          | some value_start ↦
              variable_value bytes value_start
                (from_be_bytes (slice bytes (entry_start + 4) (entry_start + 8)))
        ]

-- The value of a column that the row has and that is not null.
abbrev pub stored_column : Bytes → FixedRowLayout → ColumnSchema → ℕ → Result ColumnValue
stored_column bytes layout column column_idx = elim (place layout.fixed_offsets column_idx) [
  | some offset ↦ fixed_column bytes layout column offset
  | none ↦ elim (place layout.variable_positions column_idx) [
    | none ↦ err (user_error "XX000" "fixed row missing variable column position")
    | some variable_position ↦ variable_column bytes layout variable_position
  ]
]

unfoldable pub decode_fixed_row_column :
    TableSchema → Bytes → FixedRowLayout → ℕ → Result ColumnValue
decode_fixed_row_column schema bytes layout column_idx =
    elim (get_elem? schema.columns column_idx) [
      | none ↦ err (user_error "XX000" "fixed row column index out of bounds")
      | some column ↦ if leb layout.stored_column_count column_idx then ok ColumnValue.null else (do
        is_null ← fixed_row_is_null bytes layout column_idx
        if is_null then ok ColumnValue.null else stored_column bytes layout column column_idx)
    ]

-- The loop over the columns from `column_idx` on.
unfoldable pub decode_columns :
    TableSchema
    → Bytes
    → FixedRowLayout
    → List ColumnSchema
    → ℕ
    → Map ColumnValue
    → Result (Map ColumnValue)
decode_columns schema bytes layout [] column_idx row = ok row
decode_columns schema bytes layout (column ∷ columns) column_idx row = do
  value ← decode_fixed_row_column schema bytes layout column_idx
  decode_columns schema bytes layout columns (column_idx + 1) (hash_insert column.name value row)

unfoldable pub decode_fixed_row_record : TableSchema → Bytes → Result (Map ColumnValue)
decode_fixed_row_record schema bytes = do
  layout ← fixed_row_layout schema bytes
  decode_columns schema bytes layout schema.columns 0 []
