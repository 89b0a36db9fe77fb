-- ===== src/Storage/RawRows/Header.antt =====
-- The header that all rows of src/storage_layout begin with behind their version.
use uni5db.Base.{ℕ, ◌^◌, ◌<◌, ◌++◌}
use uni5db.Bytes.{Bytes}
use uni5db.Bytes.BigEndian.{to_be_bytes}
use uni5db.Storage.Cursor.{u32, u64}
use uni5db.Storage.Cursor.At.{Reads, u32-at, u64-at}
use uni5db.Storage.Records.{MvccMeta}
use uni5db.Storage.Records.Combine.{Reads-then, Reads-map}
use uni5db.Storage.RawRows.{row_header}

module _ (schema_version table_epoch : ℕ) (mvcc : MvccMeta) (count : ℕ) where
  abbrev pub header_bytes : Bytes
  header_bytes =
      to_be_bytes 4 schema_version
      ++ (to_be_bytes 8 table_epoch
          ++ (to_be_bytes 8 mvcc.xmin ++ (to_be_bytes 8 mvcc.xmax ++ to_be_bytes 4 count)))

  pub Reads-row_header :
      schema_version < 2 ^ 32
      → table_epoch < 2 ^ 64
      → mvcc.xmin < 2 ^ 64
      → mvcc.xmax < 2 ^ 64
      → count < 2 ^ 32
      → Reads row_header header_bytes (schema_version, table_epoch, mvcc, count)
  Reads-row_header hs he hx hy hc =
      Reads-then u32 _ _ _ schema_version _ (λ pre rest. u32-at pre schema_version rest hs)
        (Reads-then u64 _ _ _ table_epoch _ (λ pre rest. u64-at pre table_epoch rest he)
          (Reads-then u64 _ _ _ mvcc.xmin _ (λ pre rest. u64-at pre mvcc.xmin rest hx)
            (Reads-then u64 _ _ _ mvcc.xmax _ (λ pre rest. u64-at pre mvcc.xmax rest hy)
              (Reads-map u32 (λ n. (schema_version, table_epoch, mvcc, n)) (to_be_bytes 4 count)
                count (λ pre rest. u32-at pre count rest hc)))))
