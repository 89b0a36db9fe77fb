-- ===== src/Storage/Projected.antt =====
-- `RowValueProjector` of src/storage_layout/row_codec.rs, and the projected values of a row in the fixed
-- row format, of src/storage_layout/fast_row_decode.rs.
pub mod Values
mod Examples
use uni5db.Base.{
  ℕ, zero, suc, ◌+◌, ◌-◌, max, List, [], ◌∷◌, ◌++◌, Option, none, some, leb, ◌==◌, if◌then◌else◌,
  length, get_elem?, take, Result, ok, ◌>>=◌,
}
use uni5db.Bytes.{Bytes}
use uni5db.Types.Value.{ColumnValue}
use uni5db.Types.Schema.{ColumnSchema, TableSchema}
use uni5db.Storage.FixedRow.{FixedRowLayout, fixed_row_layout, decode_fixed_row_column}

module _ {A : Type 0} where
  unfoldable pub filled : ℕ → A → List A
  filled zero a = []
  filled (suc n) a = a ∷ filled n a

  -- `xs[idx] = a`, in range.
  unfoldable pub set_elem : List A → ℕ → A → List A
  set_elem [] idx a = []
  set_elem (x ∷ xs) zero a = a ∷ xs
  set_elem (x ∷ xs) (suc idx) a = x ∷ set_elem xs idx a

  abbrev pub resize : List A → ℕ → A → List A
  resize xs n a = take n xs ++ filled (n - length xs) a

pub record RowValueProjector : Type 0 where
  pub schema : TableSchema
  pub column_id_to_output : List (Option ℕ)
  pub column_indices : List ℕ
  pub output_len : ℕ

unfoldable pub max_column_id : List ColumnSchema → ℕ
max_column_id [] = 0
max_column_id (column ∷ columns) = max column.column_id (max_column_id columns)

abbrev pub set_output : List (Option ℕ) → ℕ → ℕ → List (Option ℕ)
set_output outputs column_id output_idx =
    set_elem
      (if leb (length outputs) column_id then resize outputs (column_id + 1) none else outputs)
      column_id (some output_idx)

-- The loop over the indices from `output_idx` on.
unfoldable pub outputs_from : TableSchema → List ℕ → ℕ → List (Option ℕ) → List (Option ℕ)
outputs_from schema [] output_idx outputs = outputs
outputs_from schema (column_idx ∷ indices) output_idx outputs =
    elim (get_elem? schema.columns column_idx) [
      | none ↦ outputs_from schema indices (output_idx + 1) outputs
      | some column ↦
          outputs_from schema indices (output_idx + 1)
            (set_output outputs column.column_id output_idx)
    ]

unfoldable pub new : TableSchema → List ℕ → RowValueProjector
new schema column_indices = record {
  schema = schema;
  column_id_to_output =
      outputs_from schema column_indices 0 (filled (max_column_id schema.columns + 1) none);
  column_indices = column_indices;
  output_len = length column_indices;
}

-- The loop over the columns from `output_idx` on.
unfoldable pub project_columns :
    TableSchema → Bytes → FixedRowLayout → List ℕ → ℕ → List ColumnValue → Result (List ColumnValue)
project_columns schema bytes layout [] output_idx values = ok values
project_columns schema bytes layout (column_idx ∷ indices) output_idx values = do
  value ← decode_fixed_row_column schema bytes layout column_idx
  project_columns schema bytes layout indices (output_idx + 1) (set_elem values output_idx value)

-- The buffer that the caller passes is emptied to nulls first.
unfoldable pub all_null : ℕ → List ColumnValue → List ColumnValue
all_null output_len values =
    if length values == output_len
    then filled (length values) ColumnValue.null
    else filled output_len ColumnValue.null

-- The buffer after the call.
unfoldable pub decode_fixed_row_record_projected_values_with :
    RowValueProjector → Bytes → List ColumnValue → Result (List ColumnValue)
decode_fixed_row_record_projected_values_with projector bytes values = do
  layout ← fixed_row_layout projector.schema bytes
  project_columns projector.schema bytes layout projector.column_indices 0
      (all_null projector.output_len values)
