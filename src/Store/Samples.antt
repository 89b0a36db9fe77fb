-- ===== src/Store/Samples.antt =====
-- A table of one column and rows of it, for the tests of the predicates and aggregates of
-- src/mem_store.rs.
use uni5db.Base.{true, false, [], ◌∷◌, none}
use uni5db.Types.Value.{ColumnValue}
use uni5db.Types.DataType.{DataType}
use uni5db.Types.Schema.{ColumnSchema, TableSchema}
use uni5db.Types.Floats.{FloatOps}
use uni5db.Store.Predicate.{RowMap}

abbrev pub zeros : FloatOps
zeros = record {
  f32_of_int = λ n. 0;
  f64_of_int = λ n. 0;
  f64_of_f32 = λ n. 0;
  add = λ a b. 0;
  div = λ a b. 0;
}

abbrev pub column : ColumnSchema
column = record {
  column_id = 1;
  name = b'i' ∷ [];
  data_type = DataType.int32;
  primary_key = true;
  nullable = false;
  default = none;
  on_update = none;
  character_set = none;
  collation = none;
}

abbrev pub table : TableSchema
table = record {
  table_name = b't' ∷ [];
  table_id = 3;
  schema_version = 1;
  table_epoch = 1;
  primary_key = b'i' ∷ [];
  check_constraints = [];
  unique_constraints = [];
  foreign_keys = [];
  columns = column ∷ [];
}

-- The row of 5, and one in which the column is null.
abbrev pub five : RowMap
five = (b'i' ∷ [], ColumnValue.int32 5) ∷ []

abbrev pub unknown : RowMap
unknown = (b'i' ∷ [], ColumnValue.null) ∷ []
