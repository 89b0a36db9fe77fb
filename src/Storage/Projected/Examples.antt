-- ===== src/Storage/Projected/Examples.antt =====
-- A projection of a row of two columns in the fixed row format of src/storage_layout.
use uni5db.Base.{◌≡◌, refl, false, true, List, [], ◌∷◌, ◌++◌, map, none, some, arith, ok}
use uni5db.Bytes.{Bytes, bytes_eq}
use uni5db.Bytes.BigEndian
use uni5db.Bytes.BigEndian.{to_be_bytes}
use uni5db.Types.Value.{ColumnValue}
use uni5db.Types.DataType.{DataType}
use uni5db.Types.Schema.{ColumnSchema, TableSchema}
use uni5db.Store.Maps
use uni5db.Store.Maps.{Map}
use uni5db.Storage.Cursor
use uni5db.Storage.Fixed
use uni5db.Storage.FixedRow
use uni5db.Storage.FixedRow.{decode_fixed_row_record}
use uni5db.Storage.Projected
use uni5db.Storage.Projected.{decode_fixed_row_record_projected_values_with}
use uni5db.Storage.Projected.Values.{column_value, project_columns-decode_fixed_row_record}

abbrev column : Bytes → DataType → ColumnSchema
column name t = record {
  column_id = 1;
  name = name;
  data_type = t;
  primary_key = false;
  nullable = true;
  default = none;
  on_update = none;
  character_set = none;
  collation = none;
}

abbrev orders : TableSchema
orders = record {
  table_name = 111 ∷ [];
  table_id = 8;
  schema_version = 1;
  table_epoch = 1;
  primary_key = 105 ∷ [];
  check_constraints = [];
  unique_constraints = [];
  foreign_keys = [];
  columns = column (105 ∷ []) DataType.int64 ∷ column (98 ∷ []) DataType.boolean ∷ [];
}

abbrev row : Bytes
row =
    4
      ∷ (to_be_bytes 4 1
          ++ (to_be_bytes 8 1 ++ (to_be_bytes 8 5 ++ (to_be_bytes 8 0 ++ to_be_bytes 4 2))))
    ++ (0 ∷ (to_be_bytes 8 300 ++ 1 ∷ []))

abbrev decoded : Map ColumnValue
decoded = (105 ∷ [], ColumnValue.int64 300) ∷ (98 ∷ [], ColumnValue.boolean true) ∷ []

decode_fixed_row_record_test : decode_fixed_row_record orders row ≡ ok decoded
unfolding decode_fixed_row_record FixedRow.fixed_row_layout Cursor.u8 Cursor.new Cursor.u32
    to_be_bytes Cursor.u64 FixedRow.checked_layout BigEndian.from_be_bytes FixedRow.fixed_region_len
    Fixed.fixed_width FixedRow.count_some Fixed.variable_positions_for_columns Fixed.positions_from
    FixedRow.decode_columns FixedRow.decode_fixed_row_column FixedRow.fixed_row_is_null
    Fixed.fixed_offsets_for_columns Fixed.offsets_from Fixed.decode_fixed_value Maps.hash_insert
    bytes_eq
decode_fixed_row_record_test = refl

-- The second column, then the first, into a buffer that held something else.
project_columns-decode_fixed_row_record_example :
    (values : List ColumnValue) × (decode_fixed_row_record_projected_values_with
        (Projected.new orders (1 ∷ 0 ∷ []))
        row
        (ColumnValue.null ∷ [])
      ≡ ok values)
    × (map some values ≡ map (column_value orders decoded) (1 ∷ 0 ∷ []))
unfolding bytes_eq
project_columns-decode_fixed_row_record_example =
    project_columns-decode_fixed_row_record orders row decoded (1 ∷ 0 ∷ []) (ColumnValue.null ∷ [])
      decode_fixed_row_record_test ((refl, tt), (tt, tt)) (omega arith, (omega arith, tt))
