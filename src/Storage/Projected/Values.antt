-- ===== src/Storage/Projected/Values.antt =====
-- The projected values of a row in the fixed row format of src/storage_layout are those that the whole
-- row is decoded to.
use uni5db.Base.{
  ℕ, zero, suc, ◌+◌, ◌<◌, ◌≡◌, refl, ap, List, [], ◌∷◌, ◌++◌, append_assoc, map, Option, none, some,
  arith, drop, length, length-append, get_elem?, All, ok, >>=-eq-ok,
}
use uni5db.Bytes.{Bytes}
use uni5db.Types.Value.{ColumnValue}
use uni5db.Types.Schema.{ColumnSchema, TableSchema}
use uni5db.Store.Maps.{Map, get}
use uni5db.Storage.FixedRow.{
  FixedRowLayout, fixed_row_layout, decode_fixed_row_column, decode_columns,
  decode_fixed_row_record,
}
use uni5db.Storage.FixedRow.Columns.{Unnamed, decode_columns-reads}
use uni5db.Storage.Projected
use uni5db.Storage.Projected.{
  filled, set_elem, project_columns, all_null, decode_fixed_row_record_projected_values_with,
}

-- No two columns have the same name.
abbrev pub DistinctNames : List ColumnSchema → Type 0
DistinctNames [] = Unit
DistinctNames (column ∷ columns) = Unnamed column.name columns × DistinctNames columns

-- What the decoded row has for the column at an index.
abbrev pub column_value : TableSchema → Map ColumnValue → ℕ → Option ColumnValue
column_value schema row i = elim (get_elem? schema.columns i) [
  | none ↦ none
  | some column ↦ get column.name row
]

later_columns :
    (columns : List ColumnSchema) (i : ℕ)
    → i < length columns
    → DistinctNames columns
    → (column : ColumnSchema) × (get_elem? columns i ≡ some column)
      × Unnamed column.name (drop (suc i) columns)
later_columns [] i lt names = absurd (omega arith)
later_columns (c ∷ columns) zero lt (here, names) = (c, refl, here)
later_columns (c ∷ columns) (suc i) lt (here, names) = later_columns columns i (omega arith) names

length-filled : (n : ℕ) (value : ColumnValue) → length (filled n value) ≡ n
unfolding filled
length-filled zero value = refl
length-filled (suc n) value = omega (arith, length-filled n value)

pub set_elem-append :
    {A : Type 0} (pre : List A) (old value : A) (rest : List A)
    → set_elem (pre ++ old ∷ rest) (length pre) value ≡ (pre ++ value ∷ []) ++ rest
unfolding set_elem
set_elem-append [] old value rest = refl
set_elem-append (x ∷ pre) old value rest = ap (λ xs. x ∷ xs) (set_elem-append pre old value rest)

length-all_null : (n : ℕ) (values : List ColumnValue) → length (all_null n values) ≡ n
unfolding all_null
length-all_null n values =
    ground (arith, length-filled (length values) ColumnValue.null, length-filled n ColumnValue.null)

module _ (schema : TableSchema) (bytes : Bytes) (layout : FixedRowLayout)
    (row : Map ColumnValue) where
  column_reads :
      (i : ℕ)
      → decode_columns schema bytes layout schema.columns 0 [] ≡ ok row
      → DistinctNames schema.columns
      → i < length schema.columns
      → (value : ColumnValue) × (decode_fixed_row_column schema bytes layout i ≡ ok value)
        × (column_value schema row i ≡ some value)
  column_reads i run names lt =
      let (column, at, later) = later_columns schema.columns i lt names in
      let (value, read, found) =
        decode_columns-reads schema bytes layout schema.columns 0 i column [] row run at later in
      let place : 0 + i ≡ i = omega arith in (value, rw place at read, rw (at, column_value) found)

  project_columns-reads :
      (indices : List ℕ) (pre rest : List ColumnValue)
      → decode_columns schema bytes layout schema.columns 0 [] ≡ ok row
      → DistinctNames schema.columns
      → All (λ i. i < length schema.columns) indices
      → length rest ≡ length indices
      → (values : List ColumnValue) × (project_columns schema bytes layout indices
            (length pre)
            (pre ++ rest)
          ≡ ok (pre ++ values))
        × (map some values ≡ map (column_value schema row) indices)
  unfolding project_columns
  project_columns-reads [] pre [] run names range same = ([], refl, refl)
  project_columns-reads [] pre (r ∷ rest) run names range same = absurd (omega arith)
  project_columns-reads (i ∷ indices) pre [] run names range same = absurd (omega arith)
  project_columns-reads (i ∷ indices) pre (r ∷ rest) run names (lt, range) same =
      let (value, read, found) = column_reads i run names lt in
      let (values, runs, equal) =
        project_columns-reads indices (pre ++ value ∷ []) rest run names range (omega arith) in
      let next : length pre + 1 ≡ length (pre ++ value ∷ []) =
        omega (arith, length-append pre (value ∷ [])) in
      (
        value ∷ values,
        rw (read, set_elem-append pre r value rest, next, runs)
            (ap ok (append_assoc pre (value ∷ []) values)),
        rw (equal, found) refl,
      )

-- When a whole row is decoded, the names of its columns being distinct, then so are its columns at any
-- indices within the schema, and the values are those of the row under the columns' names, whatever
-- the buffer held.
pub project_columns-decode_fixed_row_record :
    (schema : TableSchema) (bytes : Bytes) (row : Map ColumnValue) (indices : List ℕ)
    (buffer : List ColumnValue)
    → decode_fixed_row_record schema bytes ≡ ok row
    → DistinctNames schema.columns
    → All (λ i. i < length schema.columns) indices
    → (values : List ColumnValue) × (decode_fixed_row_record_projected_values_with
          (Projected.new schema indices)
          bytes
          buffer
        ≡ ok values)
      × (map some values ≡ map (column_value schema row) indices)
unfolding decode_fixed_row_record decode_fixed_row_record_projected_values_with Projected.new
project_columns-decode_fixed_row_record schema bytes row indices buffer run names range =
    let (layout, found, run) = >>=-eq-ok (fixed_row_layout schema bytes) _ run in
    let (values, runs, equal) =
      project_columns-reads schema bytes layout row indices [] (all_null (length indices) buffer)
        run names range (length-all_null (length indices) buffer) in
    (values, rw found runs, equal)
