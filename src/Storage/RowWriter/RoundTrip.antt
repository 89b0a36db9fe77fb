-- ===== src/Storage/RowWriter/RoundTrip.antt =====
-- A row that src/storage_layout/row_codec.rs wrote in the fixed format is read back.
use uni5db.Base.{
  ℕ, zero, suc, ◌+◌, ◌^◌, ◌<◌, ◌≡◌, refl, ap, sym, ◌∙◌, subst, ◌⊎◌, inl, inr, false, List, [], ◌∷◌,
  none, some, arith, leb, length, get_elem?, drop, All, Bool-cases, Option-cases, ok, ◌>>=◌,
}
use uni5db.Bytes.{Bytes}
use uni5db.Types.Value.{ColumnValue, is_null, IsValid}
use uni5db.Types.Typing.{HasType}
use uni5db.Types.Schema.{ColumnSchema, TableSchema}
use uni5db.Store.Maps.{Map, get, hash_insert}
use uni5db.Storage.Fixed.{fixed_width}
use uni5db.Storage.Records.{MvccMeta}
use uni5db.Storage.RowRecord.{decode_row_record}
use uni5db.Storage.FixedRow.{
  FixedRowLayout, layout_of, decode_fixed_row_column, decode_columns, decode_fixed_row_record,
}
use uni5db.Storage.FixedRow.Columns.{Unnamed, decode_fixed_row_record-reads}
use uni5db.Storage.RowWriter.{value_in, encode_row_record_with_mvcc}
use uni5db.Storage.RowWriter.Layout.{
  FitsHeader, count, written, encode_row_record-parts, fixed_row_layout-written,
}
use uni5db.Storage.RowWriter.Columns.{
  get_elem?-lt, is_null-eq, fixed_row_is_null-written, fixed_column-written,
  variable_column-written,
}

-- A value that the column's part of a row can hold: null, or a valid one, of the column's type where its
-- field has a fixed width.
abbrev pub IsStored : ColumnSchema → ColumnValue → Type 0
IsStored column v =
    (v ≡ ColumnValue.null)
    ⊎ (IsValid v × ((fixed_width column.data_type ≡ none) ⊎ HasType v column.data_type))

All-at :
    {A : Type 0} (P : A → Type 0) (xs : List A) (i : ℕ) (x : A)
    → All P xs
    → get_elem? xs i ≡ some x
    → P x
All-at P [] i x h at = cc
All-at P (y ∷ xs) zero x (h, _) at = let same : y ≡ x = ground arith in subst P same h
All-at P (y ∷ xs) (suc i) x (_, h) at = All-at P xs i x h at

-- When every column can be read, so can the row.
decode_columns-total :
    (schema : TableSchema) (bytes : Bytes) (layout : FixedRowLayout) (columns : List ColumnSchema)
    (column_idx : ℕ) (row : Map ColumnValue)
    → ((i : ℕ) (column : ColumnSchema)
        → get_elem? columns i ≡ some column
        → (value : ColumnValue) × (decode_fixed_row_column schema bytes layout (column_idx + i)
            ≡ ok value))
    → (final : Map ColumnValue) × (decode_columns schema bytes layout columns column_idx row
        ≡ ok final)
unfolding decode_columns
decode_columns-total schema bytes layout [] column_idx row h = (row, refl)
decode_columns-total schema bytes layout (c ∷ columns) column_idx row h =
    let here : column_idx + 0 ≡ column_idx = omega arith in
    let (value, read) = h 0 c refl in
    let (final, run) =
      decode_columns-total schema bytes layout columns (column_idx + 1)
        (hash_insert c.name value row)
        (λ i column at.
          let next : column_idx + suc i ≡ column_idx + 1 + i = omega arith in
          rw next at (h (suc i) column at)) in
    (final, rw (rw here at read, ◌>>=◌) run)

module _ (schema : TableSchema) (row : Map ColumnValue) (mvcc : MvccMeta)
    (fits : FitsHeader schema mvcc) (small : length (written schema row mvcc) < 2 ^ 32)
    (stored : All (λ column. IsStored column (value_in row column)) schema.columns) where
  abbrev layout : FixedRowLayout
  layout = layout_of schema.columns (count schema row mvcc) 33

  decode_fixed_row_column-written :
      (i : ℕ) (column : ColumnSchema)
      → get_elem? schema.columns i ≡ some column
      → decode_fixed_row_column schema (written schema row mvcc) layout i ≡ ok (value_in row column)
  unfolding decode_fixed_row_column
  decode_fixed_row_column-written i column at =
      let here : leb (count schema row mvcc) i ≡ false =
        (let early = get_elem?-lt schema.columns i column at in ground arith) in
      let null_read = fixed_row_is_null-written schema row mvcc i column at in
      elim (Bool-cases (is_null (value_in row column))) [
        | inl e ↦
            rw (decode_fixed_row_column, at, here, null_read, ◌>>=◌, e)
              (ap ok (sym (is_null-eq (value_in row column) e)))
        | inr e ↦
            rw (decode_fixed_row_column, at, here, null_read, ◌>>=◌, e)
              (elim (All-at (λ column. IsStored column (value_in row column)) schema.columns i
                column stored at) [
                  | inl none_there ↦ absurd (let now = rw none_there at e in cc)
                  | inr (valid, inl w) ↦
                      variable_column-written schema row mvcc i column at fits small w valid e
                  | inr (valid, inr typed) ↦ elim (Option-cases (fixed_width column.data_type)) [
                    | inl w ↦
                        variable_column-written schema row mvcc i column at fits small w valid e
                    | inr (width, w) ↦
                        fixed_column-written schema row mvcc i column at width fits w typed valid e
                  ]
                ])
      ]

  decode_fixed_row_record-written :
      (read : Map ColumnValue) × (decode_fixed_row_record schema (written schema row mvcc)
        ≡ ok read)
  unfolding decode_fixed_row_record
  decode_fixed_row_record-written =
      let (final, run) =
        decode_columns-total schema (written schema row mvcc) layout schema.columns 0 []
          (λ i column at.
            let place : 0 + i ≡ i = omega arith in
            (value_in row column, rw place (decode_fixed_row_column-written i column at))) in
      (final, rw (fixed_row_layout-written schema row mvcc fits, ◌>>=◌) run)

  written-reads :
      (read : Map ColumnValue) (i : ℕ) (column : ColumnSchema)
      → decode_fixed_row_record schema (written schema row mvcc) ≡ ok read
      → get_elem? schema.columns i ≡ some column
      → Unnamed column.name (drop (suc i) schema.columns)
      → get column.name read ≡ some (value_in row column)
  written-reads read i column run at other =
      let (found, value, laid, decoded, there) =
        decode_fixed_row_record-reads schema (written schema row mvcc) read i column run at other in
      let same : found ≡ layout = (let now = fixed_row_layout-written schema row mvcc fits in cc) in
      let decoded = rw same at decoded in
      let same_value : value ≡ value_in row column =
        (let now = decode_fixed_row_column-written i column at in cc) in
      there ∙ ap some same_value

-- A row that was written is decoded, and the decoded row has under the name of each column the value that
-- the row had there, or null if it had none, unless a later column has the same name. Every value is null
-- or valid, and of its column's type where that has a fixed width; the record has less than 2 ^ 32 bytes,
-- and the numbers of its header are in their ranges.
pub decode_row_record-encode_row_record :
    (schema : TableSchema) (row : Map ColumnValue) (mvcc : MvccMeta)
    → FitsHeader schema mvcc
    → length (encode_row_record_with_mvcc schema row mvcc) < 2 ^ 32
    → All (λ column. IsStored column (value_in row column)) schema.columns
    → (read : Map ColumnValue) × (decode_row_record schema
          (encode_row_record_with_mvcc schema row mvcc)
        ≡ ok read)
      × ((i : ℕ) (column : ColumnSchema)
          → get_elem? schema.columns i ≡ some column
          → Unnamed column.name (drop (suc i) schema.columns)
          → get column.name read ≡ some (value_in row column))
unfolding decode_row_record
decode_row_record-encode_row_record schema row mvcc fits small stored =
    let parts = encode_row_record-parts schema row mvcc in
    let small = rw parts at small in
    let (read, run) = decode_fixed_row_record-written schema row mvcc fits small stored in
    (
      read,
      rw parts run,
      λ i column at other.
          written-reads schema row mvcc fits small stored read i column run at other,
    )
