-- ===== src/Storage/Records.antt =====
-- The records of src/storage_layout: zone maps (tuple_codec.rs), the metadata and the columns of
-- chunks, the statistics of tables and the visibility of row versions (olap_stats.rs), with the types
-- of keys.rs.
pub mod Combine
pub mod RoundTrip
pub mod Visible
mod Examples
use uni5db.Base.{
  ℕ, zero, suc, ◌^◌, Bool, true, false, ◌&&◌, ◌||◌, not, List, [], ◌∷◌, ◌++◌, Option, none, some,
  leb, ltb, ◌==◌, if◌then◌else◌, length, Result, ok, err, user_error, ◌>>=◌, String,
}
use uni5db.Bytes.{Bytes}
use uni5db.Bytes.BigEndian.{to_be_bytes}
use uni5db.Types.Value.{ColumnValue}
use uni5db.Storage.Cursor
use uni5db.Storage.Cursor.{Cursor, is_done, u8, u32, u64}
use uni5db.Storage.Tuple.{encode_tuple_value, decode_tuple_value}
use uni5db.Storage.Keys.{version_byte}

pub record MvccMeta : Type 0 where
  pub xmin : ℕ
  pub xmax : ℕ

-- The values by column id.
pub record RowRecord : Type 0 where
  pub schema_version : ℕ
  pub table_epoch : ℕ
  pub mvcc : MvccMeta
  pub values : List (ℕ × ColumnValue)

pub record ColumnZoneMap : Type 0 where
  pub column_id : ℕ
  pub null_count : ℕ
  pub min : Option ColumnValue
  pub max : Option ColumnValue

pub record OlapChunkMeta : Type 0 where
  pub chunk_id : ℕ
  pub row_count : ℕ
  pub zones : List ColumnZoneMap

pub record TableStats : Type 0 where
  pub row_count : ℕ
  pub zones : List ColumnZoneMap

abbrev is_empty : List (ℕ × ColumnValue) → Bool
is_empty [] = true
is_empty _ = false

unfoldable pub is_row_tombstone : RowRecord → Bool
is_row_tombstone row = not (row.mvcc.xmax == 0) && is_empty row.values

unfoldable pub is_row_visible : RowRecord → ℕ → Bool
is_row_visible row snapshot =
    if is_row_tombstone row
    then leb row.mvcc.xmin snapshot
    else leb row.mvcc.xmin snapshot && (row.mvcc.xmax == 0 || ltb snapshot row.mvcc.xmax)

-- The loops that write the elements of a slice one behind the other, and read `count` of them.
module _ {A : Type 0} where
  unfoldable pub encode_all : (A → Bytes) → List A → Bytes
  encode_all encode [] = []
  encode_all encode (a ∷ as') = encode a ++ encode_all encode as'

  unfoldable pub decode_all : (Cursor → Result (A × Cursor)) → ℕ → Cursor → Result (List A × Cursor)
  decode_all decode zero c = ok ([], c)
  decode_all decode (suc n) c = do
    (a, c) ← decode c
    (as', c) ← decode_all decode n c
    ok (a ∷ as', c)

abbrev pub encode_bound : Option ColumnValue → Bytes
encode_bound (some value) = 1 ∷ encode_tuple_value value
encode_bound none = 0 ∷ []

-- A bound of a zone behind its tag.
abbrev pub tagged_bound : String → ℕ → Cursor → Result (Option ColumnValue × Cursor)
tagged_bound message tag c =
    if tag == 0
    then ok (none, c)
    else if tag == 1
    then (do (value, c) ← decode_tuple_value c; ok (some value, c))
    else err (user_error "XX000" message)

abbrev pub decode_bound : String → Cursor → Result (Option ColumnValue × Cursor)
decode_bound message c = do (tag, c) ← u8 c; tagged_bound message tag c

unfoldable pub encode_zone : ColumnZoneMap → Bytes
encode_zone zone =
    to_be_bytes 4 zone.column_id
    ++ (to_be_bytes 8 zone.null_count ++ (encode_bound zone.min ++ encode_bound zone.max))

unfoldable pub decode_zone : Cursor → Result (ColumnZoneMap × Cursor)
decode_zone c = do
  (column_id, c) ← u32 c
  (null_count, c) ← u64 c
  (min, c) ← decode_bound "unknown zone min tag" c
  (max, c) ← decode_bound "unknown zone max tag" c
  ok (record { column_id = column_id; null_count = null_count; min = min; max = max }, c)

unfoldable pub encode_zone_maps : List ColumnZoneMap → Bytes
encode_zone_maps zones = to_be_bytes 4 (length zones) ++ encode_all encode_zone zones

unfoldable pub decode_zone_maps : Cursor → Result (List ColumnZoneMap × Cursor)
decode_zone_maps c = do (count, c) ← u32 c; decode_all decode_zone count c

-- The version byte that every record begins with, and the check that nothing is left.
abbrev pub expect_version : String → Cursor → Result (Unit {0} × Cursor)
expect_version message c = do
  (version, c) ← u8 c
  if version == version_byte then ok (tt, c) else err (user_error "XX000" message)

abbrev pub finish : {A : Type 0} → String → A × Cursor → Result A
finish message (a, c) = if is_done c then ok a else err (user_error "XX000" message)

unfoldable pub encode_olap_chunk_meta : OlapChunkMeta → Bytes
encode_olap_chunk_meta meta =
    version_byte
    ∷ (to_be_bytes 8 meta.chunk_id ++ (to_be_bytes 4 meta.row_count ++ encode_zone_maps meta.zones))

abbrev pub read_chunk_meta : Cursor → Result (OlapChunkMeta × Cursor)
read_chunk_meta c = do
  (_, c) ← expect_version "unsupported OLAP chunk meta version" c
  (chunk_id, c) ← u64 c
  (row_count, c) ← u32 c
  (zones, c) ← decode_zone_maps c
  ok (record { chunk_id = chunk_id; row_count = row_count; zones = zones }, c)

unfoldable pub decode_olap_chunk_meta : Bytes → Result OlapChunkMeta
decode_olap_chunk_meta bytes = do
  found ← read_chunk_meta (Cursor.new bytes)
  finish "trailing bytes in OLAP chunk meta" found

unfoldable pub encode_olap_column_chunk : List ColumnValue → Bytes
encode_olap_column_chunk values =
    version_byte ∷ (to_be_bytes 4 (length values) ++ encode_all encode_tuple_value values)

abbrev pub read_column_chunk : Cursor → Result (List ColumnValue × Cursor)
read_column_chunk c = do
  (_, c) ← expect_version "unsupported OLAP column chunk version" c
  (count, c) ← u32 c
  decode_all decode_tuple_value count c

unfoldable pub decode_olap_column_chunk : Bytes → Result (List ColumnValue)
decode_olap_column_chunk bytes = do
  found ← read_column_chunk (Cursor.new bytes)
  finish "trailing bytes in OLAP column chunk" found

unfoldable pub encode_table_stats : TableStats → Bytes
encode_table_stats stats =
    version_byte ∷ (to_be_bytes 8 stats.row_count ++ encode_zone_maps stats.zones)

abbrev pub read_table_stats : Cursor → Result (TableStats × Cursor)
read_table_stats c = do
  (_, c) ← expect_version "unsupported table stats version" c
  (row_count, c) ← u64 c
  (zones, c) ← decode_zone_maps c
  ok (record { row_count = row_count; zones = zones }, c)

unfoldable pub decode_table_stats : Bytes → Result TableStats
decode_table_stats bytes = do
  found ← read_table_stats (Cursor.new bytes)
  finish "trailing bytes in table stats" found
