-- ===== src/Types/Schema.antt =====
-- The schemas of src/types/schema.rs. A name is its bytes.
use Prim.Native.Nat.{ℕ, suc}
use mathlib.Core.Bool.{Bool}
use mathlib.Core.List.{List, [], ◌∷◌}
use mathlib.Core.Option.{Option, none, some}
use uni5db.Base.{if◌then◌else◌, ◌+◌, ◌%◌, ◌^◌, ◌==◌, map}
use uni5db.Bytes.{Bytes, bytes_eq}
use uni5db.Types.DataType.{DataType}

pub record ColumnSchema : Type 0 where
  pub column_id : ℕ
  pub name : Bytes
  pub data_type : DataType
  pub primary_key : Bool
  pub nullable : Bool
  pub default : Option Bytes
  pub on_update : Option Bytes
  pub character_set : Option Bytes
  pub collation : Option Bytes

pub record CheckConstraintSchema : Type 0 where
  pub name : Bytes
  pub expr : Bytes

pub record UniqueConstraintSchema : Type 0 where
  pub name : Bytes
  pub columns : List Bytes
  pub primary_key : Bool

pub record ForeignKeyConstraintSchema : Type 0 where
  pub name : Bytes
  pub columns : List Bytes
  pub foreign_table : Bytes
  pub referred_columns : List Bytes

pub record TableSchema : Type 0 where
  pub table_name : Bytes
  pub table_id : ℕ
  pub schema_version : ℕ
  pub table_epoch : ℕ
  pub primary_key : Bytes
  pub check_constraints : List CheckConstraintSchema
  pub unique_constraints : List UniqueConstraintSchema
  pub foreign_keys : List ForeignKeyConstraintSchema
  pub columns : List ColumnSchema

-- `pk_data_type`: a table without a primary key of its own has row ids of 64 bits.
unfoldable pub primary_key_type : List ColumnSchema → DataType
primary_key_type [] = DataType.int64
primary_key_type (column ∷ columns) =
    if column.primary_key then column.data_type else primary_key_type columns

unfoldable pub pk_data_type : TableSchema → DataType
pk_data_type schema = primary_key_type schema.columns

-- The first column of the name.
unfoldable pub find_named : Bytes → List ColumnSchema → Option ColumnSchema
find_named name [] = none
find_named name (column ∷ columns) =
    if bytes_eq column.name name then some column else find_named name columns

unfoldable pub find_column : TableSchema → Bytes → Option ColumnSchema
find_column schema name = find_named name schema.columns

-- The loop of `normalize_descriptor` over the columns, from the column `idx` on.
unfoldable pub numbered : ℕ → List ColumnSchema → List ColumnSchema
numbered idx [] = []
numbered idx (column ∷ columns) =
    record {
      column_id = if column.column_id == 0 then (idx % 2 ^ 32 + 1) % 2 ^ 32 else column.column_id;
      name = column.name;
      data_type = column.data_type;
      primary_key = column.primary_key;
      nullable = column.nullable;
      default = column.default;
      on_update = column.on_update;
      character_set = column.character_set;
      collation = column.collation;
    }
    ∷ numbered (suc idx) columns

unfoldable pub normalize_descriptor : TableSchema → TableSchema
normalize_descriptor schema = record {
  table_name = schema.table_name;
  table_id = schema.table_id;
  schema_version = if schema.schema_version == 0 then 1 else schema.schema_version;
  table_epoch = if schema.table_epoch == 0 then 1 else schema.table_epoch;
  primary_key = schema.primary_key;
  check_constraints = schema.check_constraints;
  unique_constraints = schema.unique_constraints;
  foreign_keys = schema.foreign_keys;
  columns = numbered 0 schema.columns;
}

unfoldable pub column_by_id : ℕ → List ColumnSchema → Option ColumnSchema
column_by_id id [] = none
column_by_id id (column ∷ columns) =
    if column.column_id == id then some column else column_by_id id columns

unfoldable pub find_column_by_id : TableSchema → ℕ → Option ColumnSchema
find_column_by_id schema id = column_by_id id schema.columns

unfoldable pub column_names : TableSchema → List Bytes
column_names schema = map (λ column. column.name) schema.columns
