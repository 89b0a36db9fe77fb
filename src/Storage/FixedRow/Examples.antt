-- ===== src/Storage/FixedRow/Examples.antt =====
-- A row of two columns in the fixed row format of src/storage_layout, whose text is null.
use uni5db.Base.{◌≡◌, refl, false, true, List, [], ◌∷◌, ◌++◌, none, some, arith, ok}
use uni5db.Bytes.{Bytes, bytes_eq}
use uni5db.Bytes.BigEndian
use uni5db.Storage.Cursor
use uni5db.Storage.Fixed
use uni5db.Store.Maps
use uni5db.Store.Maps.{Map}
use uni5db.Storage.FixedRow
use uni5db.Bytes.BigEndian.{to_be_bytes}
use uni5db.Types.Value.{ColumnValue}
use uni5db.Types.DataType.{DataType}
use uni5db.Types.Schema.{ColumnSchema, TableSchema}
use uni5db.Storage.FixedRow.{
  FixedRowLayout, layout_of, fixed_row_layout, decode_fixed_row_column, decode_fixed_row_record,
}
use uni5db.Storage.FixedRow.Columns.{decode_fixed_row_record-reads}
use uni5db.Storage.FixedRow.Regions.{Regions, fixed_row_layout-Regions}

abbrev column : Bytes → DataType → ColumnSchema
column name t = record {
  column_id = 1;
  name = name;
  data_type = t;
  primary_key = false;
  nullable = true;
  default = none;
  on_update = none;
  character_set = none;
  collation = none;
}

-- The third column was added after the row was written.
abbrev columns : List ColumnSchema
columns =
    column (105 ∷ []) DataType.int64
    ∷ column (116 ∷ []) DataType.text
    ∷ column (98 ∷ []) DataType.boolean
    ∷ []

abbrev users : TableSchema
users = record {
  table_name = 117 ∷ [];
  table_id = 7;
  schema_version = 2;
  table_epoch = 1;
  primary_key = 105 ∷ [];
  check_constraints = [];
  unique_constraints = [];
  foreign_keys = [];
  columns = columns;
}

abbrev row : Bytes
row =
    4
      ∷ (to_be_bytes 4 1
          ++ (to_be_bytes 8 1 ++ (to_be_bytes 8 5 ++ (to_be_bytes 8 0 ++ to_be_bytes 4 2))))
    ++ (2 ∷ (to_be_bytes 8 300 ++ to_be_bytes 8 0))

abbrev layout : FixedRowLayout
layout = layout_of (column (105 ∷ []) DataType.int64 ∷ column (116 ∷ []) DataType.text ∷ []) 2 33

fixed_row_layout_test : fixed_row_layout users row ≡ ok layout
unfolding fixed_row_layout Cursor.u8 Cursor.new Cursor.u32 to_be_bytes Cursor.u64
    FixedRow.checked_layout BigEndian.from_be_bytes FixedRow.fixed_region_len Fixed.fixed_width
    FixedRow.count_some Fixed.variable_positions_for_columns Fixed.positions_from
fixed_row_layout_test = refl

abbrev decoded : Map ColumnValue
decoded =
    (105 ∷ [], ColumnValue.int64 300)
    ∷ (116 ∷ [], ColumnValue.null)
    ∷ (98 ∷ [], ColumnValue.null)
    ∷ []

decode_fixed_row_record_test : decode_fixed_row_record users row ≡ ok decoded
unfolding decode_fixed_row_record fixed_row_layout Cursor.u8 Cursor.new Cursor.u32 to_be_bytes
    Cursor.u64 FixedRow.checked_layout BigEndian.from_be_bytes FixedRow.fixed_region_len
    Fixed.fixed_width FixedRow.count_some Fixed.variable_positions_for_columns Fixed.positions_from
    FixedRow.decode_columns FixedRow.decode_fixed_row_column FixedRow.fixed_row_is_null
    Fixed.fixed_offsets_for_columns Fixed.offsets_from Fixed.decode_fixed_value Maps.hash_insert
    bytes_eq
decode_fixed_row_record_test = refl

fixed_row_layout-Regions_example : Regions layout row (column (105 ∷ []) DataType.int64) 0
fixed_row_layout-Regions_example =
    fixed_row_layout-Regions users row layout 0 (column (105 ∷ []) DataType.int64)
      fixed_row_layout_test (omega arith) refl

-- The number of the first column is read back.
decode_fixed_row_record-reads_example :
    (layout : FixedRowLayout) × (value : ColumnValue) × (fixed_row_layout users row ≡ ok layout)
    × (decode_fixed_row_column users row layout 0 ≡ ok value)
    × (Maps.get (105 ∷ []) decoded ≡ some value)
unfolding bytes_eq
decode_fixed_row_record-reads_example =
    decode_fixed_row_record-reads users row decoded 0 (column (105 ∷ []) DataType.int64)
      decode_fixed_row_record_test refl (refl, (refl, tt))
