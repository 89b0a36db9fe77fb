-- ===== src/Storage/FixedRow/Columns.antt =====
-- What `decode_fixed_row_record` of src/storage_layout/fast_row_decode.rs gives for each column.
use uni5db.Base.{
  ℕ, zero, suc, ◌+◌, ◌≡◌, refl, ◌∙◌, subst, false, List, [], ◌∷◌, some, arith, drop, get_elem?, All,
  ok, >>=-eq-ok,
}
use uni5db.Bytes.{Bytes, bytes_eq}
use uni5db.Bytes.Order.{bytes_eq_refl}
use uni5db.Types.Value.{ColumnValue}
use uni5db.Types.Schema.{ColumnSchema, TableSchema}
use uni5db.Store.Maps.{Map, get, hash_insert}
use uni5db.Store.Maps.Laws.{get-hash_insert}
use uni5db.Storage.FixedRow.{
  FixedRowLayout, fixed_row_layout, decode_fixed_row_column, decode_columns,
  decode_fixed_row_record,
}

-- No column has the name.
abbrev pub Unnamed : Bytes → List ColumnSchema → Type 0
Unnamed name columns = All (λ column. bytes_eq column.name name ≡ false) columns

module _ (schema : TableSchema) (bytes : Bytes) (layout : FixedRowLayout) where
  get-decode_columns :
      (name : Bytes) (columns : List ColumnSchema) (column_idx : ℕ) (row final : Map ColumnValue)
      → decode_columns schema bytes layout columns column_idx row ≡ ok final
      → Unnamed name columns
      → get name final ≡ get name row
  unfolding decode_columns
  get-decode_columns name [] column_idx row final run other = cc
  get-decode_columns name (c ∷ columns) column_idx row final run (hc, other) =
      let (value, read, run) =
        >>=-eq-ok (decode_fixed_row_column schema bytes layout column_idx) _ run in
      get-decode_columns name columns (column_idx + 1) (hash_insert c.name value row) final run
        other
      ∙ get-hash_insert name c.name value row
      ∙ (rw hc refl)

  pub decode_columns-reads :
      (columns : List ColumnSchema) (column_idx i : ℕ) (column : ColumnSchema)
      (row final : Map ColumnValue)
      → decode_columns schema bytes layout columns column_idx row ≡ ok final
      → get_elem? columns i ≡ some column
      → Unnamed column.name (drop (suc i) columns)
      → (value : ColumnValue) × (decode_fixed_row_column schema bytes layout (column_idx + i)
          ≡ ok value)
        × (get column.name final ≡ some value)
  unfolding decode_columns
  decode_columns-reads [] column_idx i column row final run at other = cc
  decode_columns-reads (c ∷ columns) column_idx zero column row final run at other =
      let (value, read, run) =
        >>=-eq-ok (decode_fixed_row_column schema bytes layout column_idx) _ run in
      let place : column_idx + 0 ≡ column_idx = omega arith in
      let same : c ≡ column = ground arith in
      let there : get c.name final ≡ some value =
        get-decode_columns c.name columns (column_idx + 1) (hash_insert c.name value row) final run
          (rw (← same) at other)
        ∙ get-hash_insert c.name c.name value row
        ∙ (rw (bytes_eq_refl c.name) refl) in
      (value, rw place read, subst (λ d. get d.name final ≡ some value) same there)
  decode_columns-reads (c ∷ columns) column_idx (suc i) column row final run at other =
      let (value, read, run) =
        >>=-eq-ok (decode_fixed_row_column schema bytes layout column_idx) _ run in
      let (v, read', found) =
        decode_columns-reads columns (column_idx + 1) i column (hash_insert c.name value row) final
          run at other in
      let place : column_idx + suc i ≡ column_idx + 1 + i = omega arith in
      (v, rw place read', found)

-- When a row is decoded, then so is each of its columns, and the row has the column's value under its
-- name, unless a later column has the same name.
pub decode_fixed_row_record-reads :
    (schema : TableSchema) (bytes : Bytes) (row : Map ColumnValue) (i : ℕ) (column : ColumnSchema)
    → decode_fixed_row_record schema bytes ≡ ok row
    → get_elem? schema.columns i ≡ some column
    → Unnamed column.name (drop (suc i) schema.columns)
    → (layout : FixedRowLayout) × (value : ColumnValue) × (fixed_row_layout schema bytes
        ≡ ok layout)
      × (decode_fixed_row_column schema bytes layout i ≡ ok value)
      × (get column.name row ≡ some value)
unfolding decode_fixed_row_record
decode_fixed_row_record-reads schema bytes row i column run at other =
    let (layout, found, run) = >>=-eq-ok (fixed_row_layout schema bytes) _ run in
    let (value, read, under) =
      decode_columns-reads schema bytes layout schema.columns 0 i column [] row run at other in
    let place : 0 + i ≡ i = omega arith in (layout, value, found, rw place at read, under)
