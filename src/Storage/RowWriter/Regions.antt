-- ===== src/Storage/RowWriter/Regions.antt =====
-- The regions that the writer of src/storage_layout/row_codec.rs fills, each by itself.
use uni5db.Base.{
  ℕ, zero, suc, ◌+◌, ◌*◌, ◌/◌, ◌-◌, ◌%◌, ◌^◌, ◌≡◌, refl, ap, ◌∙◌, List, [], ◌∷◌, ◌++◌, append-nil,
  append_assoc, Option, none, some, arith, length, length-append, Option-cases, inl, inr,
}
use uni5db.Bytes.{Bytes}
use uni5db.Bytes.BigEndian.{to_be_bytes, length-to_be_bytes}
use uni5db.Types.Value.{ColumnValue}
use uni5db.Types.Schema.{ColumnSchema}
use uni5db.Store.Maps.{Map}
use uni5db.Storage.Fixed.{fixed_width, encode_fixed_value, positions_from}
use uni5db.Storage.Fixed.Places.{round_none, round_some}
use uni5db.Storage.FixedRow.{fixed_region_len, count_some}
use uni5db.Storage.FixedRow.Regions.{region_none, region_some}
use uni5db.Storage.RowWriter.{
  RowBuffer, zeros, or_at, value_in, mark_null, fixed_field, variable_bytes, directory_entry,
  encode_by_width, encode_columns,
}

abbrev pub field_by_width : Option ℕ → ColumnValue → Bytes → Bytes
field_by_width none value rest = rest
field_by_width (some width) value rest = fixed_field width value ++ rest

abbrev pub entry_by_width : Option ℕ → ℕ → ColumnValue → Bytes → Bytes → Bytes
entry_by_width none offset value rest same = directory_entry offset value ++ rest
entry_by_width (some width) offset value rest same = same

abbrev pub payload_by_width : Option ℕ → ColumnValue → Bytes → Bytes
payload_by_width none value rest = variable_bytes value ++ rest
payload_by_width (some width) value rest = rest

module _ (row : Map ColumnValue) where
  unfoldable pub nulls : ℕ → List ColumnSchema → Bytes → Bytes
  nulls column_idx [] bitmap = bitmap
  nulls column_idx (column ∷ columns) bitmap =
      nulls (column_idx + 1) columns (mark_null (value_in row column) column_idx bitmap)

  unfoldable pub fields : List ColumnSchema → Bytes
  fields [] = []
  fields (column ∷ columns) =
      field_by_width (fixed_width column.data_type) (value_in row column) (fields columns)

  -- The entries of the directory, behind `offset` bytes of values.
  unfoldable pub entries : ℕ → List ColumnSchema → Bytes
  entries offset [] = []
  entries offset (column ∷ columns) =
      entry_by_width (fixed_width column.data_type) offset (value_in row column)
        (entries (offset + length (variable_bytes (value_in row column))) columns)
        (entries offset columns)

  unfoldable pub payload : List ColumnSchema → Bytes
  payload [] = []
  payload (column ∷ columns) =
      payload_by_width (fixed_width column.data_type) (value_in row column) (payload columns)

  abbrev filled_by : List ColumnSchema → ℕ → RowBuffer → RowBuffer
  filled_by columns column_idx buf = record {
    null_bitmap = nulls column_idx columns buf.null_bitmap;
    fixed_region = buf.fixed_region ++ fields columns;
    variable_directory = buf.variable_directory ++ entries (length buf.variable_payload) columns;
    variable_payload = buf.variable_payload ++ payload columns;
  }

  filled_by_round :
      (width : Option ℕ) (column : ColumnSchema) (columns : List ColumnSchema) (column_idx : ℕ)
      (buf : RowBuffer)
      → fixed_width column.data_type ≡ width
      → filled_by columns (column_idx + 1) (
          encode_by_width width
            (value_in row column)
            (mark_null (value_in row column) column_idx buf.null_bitmap)
            buf)
        ≡ filled_by (column ∷ columns) column_idx buf
  unfolding nulls fields entries payload
  filled_by_round none column columns column_idx buf e =
      rw (e, length-append, append_assoc buf.variable_directory, append_assoc buf.variable_payload)
        refl
  filled_by_round (some width) column columns column_idx buf e = rw (e, append_assoc) refl

  -- What the loop over the columns leaves in each region.
  pub encode_columns-filled_by :
      (columns : List ColumnSchema) (column_idx : ℕ) (buf : RowBuffer)
      → encode_columns row columns column_idx buf ≡ filled_by columns column_idx buf
  unfolding encode_columns nulls fields entries payload
  encode_columns-filled_by [] column_idx buf =
      rw
        (
          append-nil buf.fixed_region,
          append-nil buf.variable_directory,
          append-nil buf.variable_payload,
        )
        refl
  encode_columns-filled_by (column ∷ columns) column_idx buf =
      encode_columns-filled_by columns (column_idx + 1) _
      ∙ filled_by_round (fixed_width column.data_type) column columns column_idx buf refl

-- The lengths of the regions are those of the layout.
pub length-zeros : (n : ℕ) → length (zeros n) ≡ n
length-zeros zero = refl
length-zeros (suc n) = ap suc (length-zeros n)

length-encode_fixed_value :
    (dst : Bytes) (v : ColumnValue) → length (encode_fixed_value dst v) ≡ length dst
unfolding encode_fixed_value
length-encode_fixed_value dst (ColumnValue.boolean v) = ground arith
length-encode_fixed_value dst (ColumnValue.int16 v) = ground (arith, length-to_be_bytes 2 v)
length-encode_fixed_value dst (ColumnValue.int32 v) = ground (arith, length-to_be_bytes 4 v)
length-encode_fixed_value dst (ColumnValue.int64 v) = ground (arith, length-to_be_bytes 8 v)
length-encode_fixed_value dst (ColumnValue.float32 v) = ground (arith, length-to_be_bytes 4 v)
length-encode_fixed_value dst (ColumnValue.float64 v) = ground (arith, length-to_be_bytes 8 v)
length-encode_fixed_value dst _ = refl

pub length-fixed_field : (width : ℕ) (v : ColumnValue) → length (fixed_field width v) ≡ width
unfolding fixed_field
length-fixed_field width v =
    ground (arith, length-zeros width, length-encode_fixed_value (zeros width) v)

pub length-directory_entry : (offset : ℕ) (v : ColumnValue) → length (directory_entry offset v) ≡ 8
length-directory_entry offset v = omega (
  arith,
  length-append (to_be_bytes 4 (offset % 2 ^ 32))
      (to_be_bytes 4 ((offset + length (variable_bytes v)) % 2 ^ 32 - offset % 2 ^ 32)),
  length-to_be_bytes 4 (offset % 2 ^ 32),
  length-to_be_bytes 4 ((offset + length (variable_bytes v)) % 2 ^ 32 - offset % 2 ^ 32),
)

or_at-length : (idx mask : ℕ) (bytes : Bytes) → length (or_at idx mask bytes) ≡ length bytes
unfolding or_at
or_at-length idx mask [] = refl
or_at-length zero mask (b ∷ bytes) = refl
or_at-length (suc idx) mask (b ∷ bytes) = ap suc (or_at-length idx mask bytes)

module _ (row : Map ColumnValue) where
  pub length-nulls :
      (column_idx : ℕ) (columns : List ColumnSchema) (bitmap : Bytes)
      → length (nulls row column_idx columns bitmap) ≡ length bitmap
  unfolding nulls
  length-nulls column_idx [] bitmap = refl
  length-nulls column_idx (column ∷ columns) bitmap =
      length-nulls (column_idx + 1) columns _
      ∙ ground (arith, or_at-length (column_idx / 8) (2 ^ (column_idx % 8)) bitmap)

  pub length-fields :
      (columns : List ColumnSchema) → length (fields row columns) ≡ fixed_region_len columns
  unfolding fields fixed_region_len
  length-fields [] = refl
  length-fields (column ∷ columns) = elim (Option-cases (fixed_width column.data_type)) [
    | inl e ↦ rw (region_none column columns e, e) (length-fields columns)
    | inr (w, e) ↦
        rw
          (
            region_some column columns w e,
            e,
            length-append,
            length-fixed_field,
            length-fields columns,
          )
          refl
  ]

  pub length-entries :
      (offset position : ℕ) (columns : List ColumnSchema)
      → length (entries row offset columns) ≡ count_some (positions_from position columns) * 8
  unfolding entries count_some
  length-entries offset position [] = unfold positions_from in refl
  length-entries offset position (column ∷ columns) =
      elim (Option-cases (fixed_width column.data_type)) [
        | inl e ↦
            let rest =
              length-entries (offset + length (variable_bytes (value_in row column))) (position + 1)
                columns in
            rw
              (
                (round_none 0 position column columns e).1,
                e,
                length-append,
                length-directory_entry,
                rest,
              )
              (omega arith)
        | inr (w, e) ↦
            rw ((round_some 0 position column columns w e).1, e)
              (length-entries offset position columns)
      ]
