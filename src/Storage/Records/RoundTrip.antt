-- ===== src/Storage/Records/RoundTrip.antt =====
-- Chunk metadata, chunk columns and table statistics of src/storage_layout/olap_stats.rs are decoded
-- to what was encoded.
use uni5db.Base.{ℕ, ◌^◌, ◌<◌, ◌≡◌, List, [], ◌∷◌, length, All, All-map, ok}
use uni5db.Bytes.BigEndian.{to_be_bytes}
use uni5db.Types.Value.{ColumnValue, IsValid}
use uni5db.Storage.Cursor.{u32, u64}
use uni5db.Storage.Cursor.At.{Reads, u32-at, u64-at}
use uni5db.Storage.Tuple.{encode_tuple_value, decode_tuple_value}
use uni5db.Storage.Tuple.RoundTrip.{decode_tuple_value-encode_tuple_value}
use uni5db.Storage.Keys.{version_byte}
use uni5db.Storage.Records.{
  ColumnZoneMap, OlapChunkMeta, TableStats, encode_bound, decode_bound, encode_zone, decode_zone,
  encode_zone_maps, decode_zone_maps, expect_version, encode_olap_chunk_meta,
  decode_olap_chunk_meta, read_chunk_meta, encode_olap_column_chunk, decode_olap_column_chunk,
  read_column_chunk, encode_table_stats, decode_table_stats, read_table_stats,
}
use uni5db.Storage.Records.Combine.{
  Reads-then, Reads-map, Reads-decode_all, ValidBound, Reads-decode_bound, Reads-expect_version,
  Reads-finish,
}

-- The numbers of a zone map fit their widths, and its bounds are valid values.
abbrev pub ValidZone : ColumnZoneMap → Type 0
ValidZone zone =
    (zone.column_id < 2 ^ 32)
    × (zone.null_count < 2 ^ 64)
    × ValidBound zone.min
    × ValidBound zone.max

abbrev pub ValidZones : List ColumnZoneMap → Type 0
ValidZones zones = (length zones < 2 ^ 32) × All ValidZone zones

Reads-u32 : (v : ℕ) → v < 2 ^ 32 → Reads u32 (to_be_bytes 4 v) v
Reads-u32 v h pre rest = u32-at pre v rest h

Reads-u64 : (v : ℕ) → v < 2 ^ 64 → Reads u64 (to_be_bytes 8 v) v
Reads-u64 v h pre rest = u64-at pre v rest h

Reads-decode_zone :
    (zone : ColumnZoneMap) → ValidZone zone → Reads decode_zone (encode_zone zone) zone
unfolding decode_zone encode_zone
Reads-decode_zone zone (id, nulls, low, high) =
    Reads-then u32 _ _ _ zone.column_id zone (Reads-u32 zone.column_id id) (
      Reads-then u64 _ _ _ zone.null_count zone (Reads-u64 zone.null_count nulls) (
        Reads-then (decode_bound "unknown zone min tag") _ _ _ zone.min zone
          (Reads-decode_bound _ zone.min low)
          (Reads-map (decode_bound "unknown zone max tag")
            (λ max. record {
              column_id = zone.column_id;
              null_count = zone.null_count;
              min = zone.min;
              max = max;
            })
            (encode_bound zone.max) zone.max (Reads-decode_bound _ zone.max high))))

Reads-decode_zone_maps :
    (zones : List ColumnZoneMap)
    → ValidZones zones
    → Reads decode_zone_maps (encode_zone_maps zones) zones
unfolding decode_zone_maps encode_zone_maps
Reads-decode_zone_maps zones (few, valid) =
    Reads-then u32 _ _ _ (length zones) zones (Reads-u32 (length zones) few) (
      Reads-decode_all encode_zone decode_zone zones (
        All-map ValidZone (λ z. Reads decode_zone (encode_zone z) z) Reads-decode_zone zones valid))

-- The metadata of a chunk that was encoded is decoded to the same; its numbers fit their widths, its
-- zones fit 32 bits in number, and every bound is none or a valid value.
pub decode_olap_chunk_meta-encode_olap_chunk_meta :
    (meta : OlapChunkMeta)
    → meta.chunk_id < 2 ^ 64
    → meta.row_count < 2 ^ 32
    → ValidZones meta.zones
    → decode_olap_chunk_meta (encode_olap_chunk_meta meta) ≡ ok meta
unfolding decode_olap_chunk_meta encode_olap_chunk_meta
decode_olap_chunk_meta-encode_olap_chunk_meta meta id rows zones =
    Reads-finish read_chunk_meta _ (encode_olap_chunk_meta meta) meta (
      Reads-then (expect_version _) _ (version_byte ∷ []) _ tt meta (Reads-expect_version _) (
        Reads-then u64 _ _ _ meta.chunk_id meta (Reads-u64 meta.chunk_id id) (
          Reads-then u32 _ _ _ meta.row_count meta (Reads-u32 meta.row_count rows) (
            Reads-map decode_zone_maps
              (λ z. record { chunk_id = meta.chunk_id; row_count = meta.row_count; zones = z })
              (encode_zone_maps meta.zones) meta.zones (Reads-decode_zone_maps meta.zones zones)))))

-- The statistics of a table that were encoded are decoded to the same; the row count fits 64 bits, the
-- zones fit 32 bits in number, and every bound is none or a valid value.
pub decode_table_stats-encode_table_stats :
    (stats : TableStats)
    → stats.row_count < 2 ^ 64
    → ValidZones stats.zones
    → decode_table_stats (encode_table_stats stats) ≡ ok stats
unfolding decode_table_stats encode_table_stats
decode_table_stats-encode_table_stats stats rows zones =
    Reads-finish read_table_stats _ (encode_table_stats stats) stats (
      Reads-then (expect_version _) _ (version_byte ∷ []) _ tt stats (Reads-expect_version _) (
        Reads-then u64 _ _ _ stats.row_count stats (Reads-u64 stats.row_count rows) (
          Reads-map decode_zone_maps (λ z. record { row_count = stats.row_count; zones = z })
            (encode_zone_maps stats.zones) stats.zones (Reads-decode_zone_maps stats.zones zones))))

-- A chunk of the valid values of a column, fewer than 2 ^ 32, is decoded to the same values.
pub decode_olap_column_chunk-encode_olap_column_chunk :
    (values : List ColumnValue)
    → length values < 2 ^ 32
    → All IsValid values
    → decode_olap_column_chunk (encode_olap_column_chunk values) ≡ ok values
unfolding decode_olap_column_chunk encode_olap_column_chunk
decode_olap_column_chunk-encode_olap_column_chunk values few valid =
    Reads-finish read_column_chunk _ (encode_olap_column_chunk values) values (
      Reads-then (expect_version _) _ (version_byte ∷ []) _ tt values (Reads-expect_version _) (
        Reads-then u32 _ _ _ (length values) values (Reads-u32 (length values) few) (
          Reads-decode_all encode_tuple_value decode_tuple_value values (
            All-map IsValid (λ v. Reads decode_tuple_value (encode_tuple_value v) v)
              (λ v h pre rest. decode_tuple_value-encode_tuple_value v pre rest h) values valid))))
