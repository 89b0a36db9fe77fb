-- ===== src/Storage/RowWriter.antt =====
-- The writer of the fixed row format, `encode_row_record_with_mvcc` of
-- src/storage_layout/row_codec.rs, and `reencode_row_record_fast`. The code sizes the regions of the
-- row before its loop and fills them from left to right; here a region is what of it is filled.
pub mod Regions
pub mod Fields
pub mod Bitmap
pub mod Layout
pub mod Columns
pub mod RoundTrip
mod Examples
use uni5db.Base.{
  ℕ, zero, suc, ◌+◌, ◌-◌, ◌/◌, ◌%◌, ◌^◌, bit_or, Bool, List, [], ◌∷◌, ◌++◌, Option, none, some,
  if◌then◌else◌, length, Result, ok, ◌>>=◌,
}
use uni5db.Bytes.{Bytes}
use uni5db.Bytes.BigEndian.{to_be_bytes}
use uni5db.Types.Value.{ColumnValue, is_null}
use uni5db.Types.Schema.{ColumnSchema, TableSchema}
use uni5db.Store.Maps
use uni5db.Store.Maps.{Map}
use uni5db.Storage.Tuple.{encode_tuple_value}
use uni5db.Storage.Fixed.{fixed_width, encode_fixed_value}
use uni5db.Storage.Records.{MvccMeta, is_row_tombstone}
use uni5db.Storage.RawRows.{decode_row_record_raw}
use uni5db.Storage.FixedRow.{fixed_row_version}
use uni5db.Storage.RowRecord.{row_from_values, is_fixed_row}

pub record RowBuffer : Type 0 where
  pub null_bitmap : Bytes
  pub fixed_region : Bytes
  pub variable_directory : Bytes
  pub variable_payload : Bytes

abbrev pub zeros : ℕ → Bytes
zeros zero = []
zeros (suc n) = 0 ∷ zeros n

-- `buf[idx] |= mask`
unfoldable pub or_at : ℕ → ℕ → Bytes → Bytes
or_at idx mask [] = []
or_at zero mask (byte ∷ bytes) = bit_or byte mask ∷ bytes
or_at (suc idx) mask (byte ∷ bytes) = byte ∷ or_at idx mask bytes

-- `row.get(&column.name).unwrap_or(&ColumnValue::Null)`
abbrev pub value_in : Map ColumnValue → ColumnSchema → ColumnValue
value_in row column = elim (Maps.get column.name row) [
  | none ↦ ColumnValue.null
  | some value ↦ value
]

abbrev pub mark_null : ColumnValue → ℕ → Bytes → Bytes
mark_null value column_idx bitmap =
    if is_null value then or_at (column_idx / 8) (2 ^ (column_idx % 8)) bitmap else bitmap

-- The field of a column of fixed width, whose bytes are 0 before.
unfoldable pub fixed_field : ℕ → ColumnValue → Bytes
fixed_field width value =
    if is_null value then zeros width else encode_fixed_value (zeros width) value

unfoldable pub variable_bytes : ColumnValue → Bytes
variable_bytes value = if is_null value then [] else encode_tuple_value value

-- The directory's entry of a value behind `offset` bytes of other values.
abbrev pub directory_entry : ℕ → ColumnValue → Bytes
directory_entry offset value =
    to_be_bytes 4 (offset % 2 ^ 32)
    ++ to_be_bytes 4 ((offset + length (variable_bytes value)) % 2 ^ 32 - offset % 2 ^ 32)

-- One round of the loop over the columns, after the bitmap.
abbrev pub encode_by_width : Option ℕ → ColumnValue → Bytes → RowBuffer → RowBuffer
encode_by_width (some width) value null_bitmap buf = record {
  null_bitmap = null_bitmap;
  fixed_region = buf.fixed_region ++ fixed_field width value;
  variable_directory = buf.variable_directory;
  variable_payload = buf.variable_payload;
}
encode_by_width none value null_bitmap buf = record {
  null_bitmap = null_bitmap;
  fixed_region = buf.fixed_region;
  variable_directory =
      buf.variable_directory ++ directory_entry (length buf.variable_payload) value;
  variable_payload = buf.variable_payload ++ variable_bytes value;
}

unfoldable pub encode_columns : Map ColumnValue → List ColumnSchema → ℕ → RowBuffer → RowBuffer
encode_columns row [] column_idx buf = buf
encode_columns row (column ∷ columns) column_idx buf = encode_columns row columns (column_idx + 1) (
    encode_by_width (fixed_width column.data_type) (value_in row column)
      (mark_null (value_in row column) column_idx buf.null_bitmap) buf)

abbrev pub header : TableSchema → MvccMeta → Bytes
header schema mvcc =
    to_be_bytes 4 schema.schema_version
    ++ (to_be_bytes 8 schema.table_epoch
        ++ (to_be_bytes 8 mvcc.xmin
            ++ (to_be_bytes 8 mvcc.xmax ++ to_be_bytes 4 (length schema.columns % 2 ^ 32))))

abbrev pub filled : TableSchema → Map ColumnValue → RowBuffer
filled schema row = encode_columns row schema.columns 0 (record {
  null_bitmap = zeros ((length schema.columns + 7) / 8);
  fixed_region = [];
  variable_directory = [];
  variable_payload = [];
})

unfoldable pub encode_row_record_with_mvcc : TableSchema → Map ColumnValue → MvccMeta → Bytes
encode_row_record_with_mvcc schema row mvcc =
    let buf = filled schema row in
    fixed_row_version
    ∷ (header schema mvcc
        ++ (buf.null_bitmap
            ++ (buf.fixed_region ++ (buf.variable_directory ++ buf.variable_payload))))

-- With the default versions.
unfoldable pub encode_row_record : TableSchema → Map ColumnValue → Bytes
encode_row_record schema row =
    encode_row_record_with_mvcc schema row (record { xmin = 1; xmax = 0 })

unfoldable pub reencode_row_record_fast : TableSchema → Bytes → Result (Option Bytes)
reencode_row_record_fast schema bytes = if is_fixed_row bytes then ok none else (do
  found ← decode_row_record_raw bytes
  if is_row_tombstone found
      then ok none
      else ok (
          some (
            encode_row_record_with_mvcc schema (row_from_values schema.columns found.values [])
              found.mvcc)))
