-- ===== src/Storage/RowWriter/Layout.antt =====
-- The layout that src/storage_layout/fast_row_decode.rs reads from a row that row_codec.rs wrote.
use uni5db.Base.{
  ℕ, ◌+◌, ◌*◌, ◌/◌, ◌%◌, ◌^◌, ◌≤◌, ◌<◌, ◌≡◌, refl, ap, ◌∙◌, List, [], ◌∷◌, ◌++◌, false, arith, ltb,
  length, length-append, take, ok, ◌>>=◌,
}
use uni5db.Bytes.{Bytes}
use uni5db.Bytes.BigEndian.{to_be_bytes, length-to_be_bytes}
use uni5db.Types.Value.{ColumnValue}
use uni5db.Types.Schema.{ColumnSchema, TableSchema}
use uni5db.Store.Maps.{Map}
use uni5db.Storage.Cursor
use uni5db.Storage.Cursor.At.{u8-at}
use uni5db.Storage.Fixed.{variable_positions_for_columns}
use uni5db.Storage.Records.{MvccMeta}
use uni5db.Storage.RawRows.Header.{header_bytes, Reads-row_header}
use uni5db.Storage.FixedRow.{
  fixed_row_version, layout_of, checked_layout, fixed_row_layout, fixed_region_len, count_some,
}
use uni5db.Storage.RowWriter.{header, zeros, encode_row_record_with_mvcc}
use uni5db.Storage.RowWriter.Regions.{
  nulls, fields, entries, payload, encode_columns-filled_by, length-zeros, length-nulls,
  length-fields, length-entries,
}

take_all : (columns : List ColumnSchema) → take (length columns) columns ≡ columns
take_all [] = refl
take_all (c ∷ columns) = ap (◌∷◌ c) (take_all columns)

-- The numbers of the header are in their ranges.
pub record FitsHeader (schema : TableSchema) (mvcc : MvccMeta) : Type 0 where
  pub version_fits : schema.schema_version < 2 ^ 32
  pub epoch_fits : schema.table_epoch < 2 ^ 64
  pub xmin_fits : mvcc.xmin < 2 ^ 64
  pub xmax_fits : mvcc.xmax < 2 ^ 64
  pub count_fits : length schema.columns < 2 ^ 32

module _ (schema : TableSchema) (row : Map ColumnValue) (mvcc : MvccMeta) where
  abbrev pub count : ℕ
  count = length schema.columns

  abbrev pub written_bitmap : Bytes
  written_bitmap = nulls row 0 schema.columns (zeros ((count + 7) / 8))

  abbrev pub written_fields : Bytes
  written_fields = fields row schema.columns

  abbrev pub written_directory : Bytes
  written_directory = entries row 0 schema.columns

  abbrev pub written_payload : Bytes
  written_payload = payload row schema.columns

  abbrev pub written_header : Bytes
  written_header = fixed_row_version ∷ header schema mvcc

  -- A written row is its header and its regions.
  pub encode_row_record-parts :
      encode_row_record_with_mvcc schema row mvcc
      ≡ written_header
        ++ (written_bitmap ++ (written_fields ++ (written_directory ++ written_payload)))
  unfolding encode_row_record_with_mvcc
  encode_row_record-parts = rw (encode_columns-filled_by row schema.columns 0) refl

  pub length-written_header : length written_header ≡ 33
  length-written_header = omega (
    arith,
    length-to_be_bytes 4 schema.schema_version,
    length-to_be_bytes 8 schema.table_epoch,
    length-to_be_bytes 8 mvcc.xmin,
    length-to_be_bytes 8 mvcc.xmax,
    length-to_be_bytes 4 (count % 2 ^ 32),
    length-append (to_be_bytes 4 schema.schema_version) (
        to_be_bytes 8 schema.table_epoch
        ++ (to_be_bytes 8 mvcc.xmin
            ++ (to_be_bytes 8 mvcc.xmax ++ to_be_bytes 4 (count % 2 ^ 32)))),
    length-append (to_be_bytes 8 schema.table_epoch)
        (to_be_bytes 8 mvcc.xmin ++ (to_be_bytes 8 mvcc.xmax ++ to_be_bytes 4 (count % 2 ^ 32))),
    length-append (to_be_bytes 8 mvcc.xmin)
        (to_be_bytes 8 mvcc.xmax ++ to_be_bytes 4 (count % 2 ^ 32)),
    length-append (to_be_bytes 8 mvcc.xmax) (to_be_bytes 4 (count % 2 ^ 32)),
  )

  pub length-written_bitmap : length written_bitmap ≡ (count + 7) / 8
  length-written_bitmap = length-nulls row 0 schema.columns _ ∙ length-zeros ((count + 7) / 8)

  abbrev pub written : Bytes
  written =
      written_header
      ++ (written_bitmap ++ (written_fields ++ (written_directory ++ written_payload)))

  pub length-written :
      length written
      ≡ 33
        + (count + 7) / 8
        + fixed_region_len schema.columns
        + count_some (variable_positions_for_columns schema.columns) * 8
        + length written_payload
  unfolding variable_positions_for_columns
  length-written = omega (
    arith,
    length-written_header,
    length-written_bitmap,
    length-fields row schema.columns,
    length-entries row 0 0 schema.columns,
    length-append written_header
        (written_bitmap ++ (written_fields ++ (written_directory ++ written_payload))),
    length-append written_bitmap (written_fields ++ (written_directory ++ written_payload)),
    length-append written_fields (written_directory ++ written_payload),
    length-append written_directory written_payload,
  )

  checked_layout-written :
      (bytes : Bytes) (start : ℕ)
      → start ≡ 33
      → (layout_of schema.columns count 33).variable_payload_start ≤ length bytes
      → checked_layout schema bytes count start ≡ ok (layout_of schema.columns count 33)
  unfolding checked_layout
  checked_layout-written bytes start h enough =
      let whole : ltb count count ≡ false = ground arith in
      let reaches : ltb (length bytes) (layout_of schema.columns count 33).variable_payload_start
          ≡ false =
        ground arith in
      rw (h, whole, take_all schema.columns, reaches) refl

  -- The reader finds the layout of all the schema's columns.
  pub fixed_row_layout-written :
      FitsHeader schema mvcc
      → fixed_row_layout schema written ≡ ok (layout_of schema.columns count 33)
  unfolding fixed_row_layout Cursor.new
  fixed_row_layout-written fits =
      let body = written_bitmap ++ (written_fields ++ (written_directory ++ written_payload)) in
      let read_header = header_bytes schema.schema_version schema.table_epoch mvcc count in
      let small : count % 2 ^ 32 ≡ count = omega (arith, fits.count_fits) in
      let read =
        Reads-row_header schema.schema_version schema.table_epoch mvcc count fits.version_fits
          fits.epoch_fits fits.xmin_fits fits.xmax_fits fits.count_fits (fixed_row_version ∷ [])
          body in
      let start : length (fixed_row_version ∷ read_header) ≡ 33 =
        rw small at length-written_header in
      let wide = rw small at length-written in
      rw (small, u8-at [] fixed_row_version (read_header ++ body), read, ◌>>=◌)
        (checked_layout-written _ _ start (omega arith))
