-- ===== src/Storage/Records/Examples.antt =====
-- A zone map and two row versions of src/storage_layout, and what the theorems say of them.
use uni5db.Base.{ℕ, ◌≡◌, [], ◌∷◌, none, some, arith, ok}
use uni5db.Types.Value.{int32}
use uni5db.Storage.Records.{
  RowRecord, ColumnZoneMap, OlapChunkMeta, encode_olap_chunk_meta, decode_olap_chunk_meta,
}
use uni5db.Storage.Records.RoundTrip.{ValidZones, decode_olap_chunk_meta-encode_olap_chunk_meta}

abbrev ages : ColumnZoneMap
ages = record { column_id = 2; null_count = 1; min = some (int32 7); max = none }

ages-ValidZones : ValidZones (ages ∷ [])
ages-ValidZones = (omega arith, ((omega arith, omega arith, omega arith, tt), tt))

abbrev chunk : OlapChunkMeta
chunk = record { chunk_id = 4; row_count = 100; zones = ages ∷ [] }

decode_olap_chunk_meta-encode_olap_chunk_meta_example :
    decode_olap_chunk_meta (encode_olap_chunk_meta chunk) ≡ ok chunk
decode_olap_chunk_meta-encode_olap_chunk_meta_example =
    decode_olap_chunk_meta-encode_olap_chunk_meta chunk (omega arith) (omega arith) ages-ValidZones

-- A version from 3 to 8 and the one from 8 on.
abbrev version : ℕ → ℕ → RowRecord
version xmin xmax = record {
  schema_version = 1;
  table_epoch = 1;
  mvcc = record { xmin = xmin; xmax = xmax };
  values = (1, int32 5) ∷ [];
}
