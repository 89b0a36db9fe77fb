-- ===== src/Storage/RawRows/Tombstone.antt =====
-- The tombstones of src/storage_layout/row_codec.rs.
use uni5db.Base.{
  ℕ, ◌^◌, ◌<◌, ◌≡◌, ◌≢◌, refl, false, [], ◌∷◌, append-nil, leb, arith, ◌==◌, ==_refl, ok, length,
}
use uni5db.Bytes.{Bytes}
use uni5db.Types.Schema.{TableSchema}
use uni5db.Storage.Cursor
use uni5db.Storage.Cursor.{Cursor, u8, u32, u64, is_done}
use uni5db.Storage.Cursor.At.{u8-at}
use uni5db.Storage.Keys.{version_byte}
use uni5db.Storage.Records.{RowRecord, is_row_visible, is_row_tombstone}
use uni5db.Storage.RawRows.Header.{header_bytes, Reads-row_header}
use uni5db.Storage.RawRows.{row_values, encode_row_tombstone, decode_row_record_raw}

-- The row that a tombstone stands for.
abbrev pub tombstone : TableSchema → ℕ → RowRecord
tombstone schema version = record {
  schema_version = schema.schema_version;
  table_epoch = schema.table_epoch;
  mvcc = record { xmin = version; xmax = version };
  values = [];
}

module _ (schema : TableSchema) (version : ℕ) where
  abbrev body : Bytes
  body =
      header_bytes schema.schema_version schema.table_epoch
        (record { xmin = version; xmax = version }) 0

  -- A tombstone that was encoded is decoded to a row without values that begins and ends at its
  -- version, and a snapshot sees that row exactly from its version on; the version is not 0 and fits 64
  -- bits, like the epoch, and the schema version 32.
  pub decode_row_record_raw-encode_row_tombstone :
      (snapshot : ℕ)
      → schema.schema_version < 2 ^ 32
      → schema.table_epoch < 2 ^ 64
      → version < 2 ^ 64
      → version ≢ 0
      → (decode_row_record_raw (encode_row_tombstone schema version)
          ≡ ok (tombstone schema version))
        × (is_row_visible (tombstone schema version) snapshot ≡ leb version snapshot)
  unfolding decode_row_record_raw encode_row_tombstone Cursor.new is_row_visible is_row_tombstone
      is_done row_values
  decode_row_record_raw-encode_row_tombstone snapshot hs he hv nz =
      let header = rw append-nil at (
        Reads-row_header schema.schema_version schema.table_epoch
          (record { xmin = version; xmax = version }) 0 hs he hv hv (omega arith)
          (version_byte ∷ []) []) in
      let later : (version == 0) ≡ false = ground arith in
      (
        rw (u8-at [] version_byte body, header) (rw (==_refl (length (version_byte ∷ body))) refl),
        rw later refl,
      )
