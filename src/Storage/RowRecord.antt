-- ===== src/Storage/RowRecord.antt =====
-- `decode_row_record` of src/storage_layout/row_codec.rs, for rows of every format.
use uni5db.Base.{ℕ, Bool, false, List, [], ◌∷◌, ◌==◌, if◌then◌else◌, Result, ok, ◌>>=◌}
use uni5db.Bytes.{Bytes}
use uni5db.Types.Value.{ColumnValue}
use uni5db.Types.Schema.{ColumnSchema, TableSchema}
use uni5db.Store.Maps.{Map, hash_insert}
use uni5db.Storage.RawRows.{decode_row_record_raw}
use uni5db.Storage.FixedRow.{fixed_row_version, decode_fixed_row_record}

-- `values.get(id).cloned().unwrap_or(Null)` of the values by column id.
unfoldable pub value_of_column : ℕ → List (ℕ × ColumnValue) → ColumnValue
value_of_column id [] = ColumnValue.null
value_of_column id ((j, value) ∷ values) = if j == id then value else value_of_column id values

-- The loop over the columns.
unfoldable pub row_from_values :
    List ColumnSchema → List (ℕ × ColumnValue) → Map ColumnValue → Map ColumnValue
row_from_values [] values row = row
row_from_values (column ∷ columns) values row =
    row_from_values columns values
      (hash_insert column.name (value_of_column column.column_id values) row)

abbrev pub is_fixed_row : Bytes → Bool
is_fixed_row [] = false
is_fixed_row (version ∷ _) = version == fixed_row_version

unfoldable pub decode_row_record : TableSchema → Bytes → Result (Map ColumnValue)
decode_row_record schema bytes =
    if is_fixed_row bytes
    then decode_fixed_row_record schema bytes
    else (do row ← decode_row_record_raw bytes; ok (row_from_values schema.columns row.values []))
