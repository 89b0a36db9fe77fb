-- ===== src/Storage/RawRows.antt =====
-- The self-describing row records of src/storage_layout: `encode_row_tombstone` of row_codec.rs, and
-- `decode_row_record_raw` with both of its formats of fast_row_decode.rs. `usize` has 64 bits.
pub mod Header
pub mod Tombstone
use uni5db.Base.{
  ℕ, zero, suc, ◌+◌, ◌*◌, ◌-◌, ◌^◌, min, Bool, true, false, List, [], ◌∷◌, ◌++◌, Option, none, some,
  ltb, ◌==◌, if◌then◌else◌, length, Result, ok, err, user_error, ◌>>=◌,
}
use uni5db.Bytes.{Bytes}
use uni5db.Bytes.BigEndian.{to_be_bytes, from_be_bytes}
use uni5db.Types.Value.{ColumnValue}
use uni5db.Types.Schema.{TableSchema}
use uni5db.Storage.Cursor
use uni5db.Storage.Cursor.{Cursor, slice, is_done, u8, u32, u64}
use uni5db.Storage.Tuple.{decode_tuple_value}
use uni5db.Storage.Keys.{version_byte}
use uni5db.Storage.Records.{MvccMeta, RowRecord, finish}

abbrev pub fast_row_version : ℕ
fast_row_version = 3

unfoldable pub encode_row_tombstone : TableSchema → ℕ → Bytes
encode_row_tombstone schema version =
    version_byte
    ∷ (to_be_bytes 4 schema.schema_version
        ++ (to_be_bytes 8 schema.table_epoch
            ++ (to_be_bytes 8 version ++ (to_be_bytes 8 version ++ to_be_bytes 4 0))))

abbrev pub checked_add : ℕ → ℕ → Option ℕ
checked_add a b = if ltb (a + b) (2 ^ 64) then some (a + b) else none

abbrev pub saturating_mul : ℕ → ℕ → ℕ
saturating_mul a b = min (a * b) (2 ^ 64 - 1)

-- `BTreeMap::insert` of the values by column id.
unfoldable pub insert_value : ℕ → ColumnValue → List (ℕ × ColumnValue) → List (ℕ × ColumnValue)
insert_value id value [] = (id, value) ∷ []
insert_value id value ((j, w) ∷ values) =
    let rest = insert_value id value values in
    if j == id
    then (j, value) ∷ values
    else if ltb id j
    then (id, value) ∷ (j, w) ∷ values
    else (j, w) ∷ rest

-- The fields that both formats begin with, behind the version.
abbrev pub RowHeader : Type 0
RowHeader = ℕ × ℕ × MvccMeta × ℕ

abbrev pub row_header : Cursor → Result (RowHeader × Cursor)
row_header c = do
  (schema_version, c) ← u32 c
  (table_epoch, c) ← u64 c
  (xmin, c) ← u64 c
  (xmax, c) ← u64 c
  (count, c) ← u32 c
  ok ((schema_version, table_epoch, record { xmin = xmin; xmax = xmax }, count), c)

-- The header, and where the directory and the payload begin.
unfoldable pub fast_row_header : Bytes → Result (RowHeader × ℕ × ℕ)
fast_row_header bytes = do
  (version, c) ← u8 (Cursor.new bytes)
  if version == fast_row_version
      then (do
        (header, c) ← row_header c
        let start = c.pos
        elim (checked_add start (saturating_mul header.3 12)) [
          | none ↦ err (user_error "XX000" "fast row directory overflow")
          | some payload_start ↦
              if ltb (length bytes) payload_start
              then err (user_error "XX000" "truncated fast row directory")
              else ok (header, start, payload_start)
        ])
      else err (user_error "XX000" "unsupported fast row record version")

-- The end of a value from its start and length.
abbrev pub value_range : Bytes → ℕ → ℕ → ℕ → ℕ → Result (ℕ × ℕ × ℕ)
value_range bytes column_id payload_start offset len = elim (checked_add payload_start offset) [
  | none ↦ err (user_error "XX000" "fast row payload offset overflow")
  | some value_start ↦ elim (checked_add value_start len) [
    | none ↦ err (user_error "XX000" "fast row payload length overflow")
    | some value_end ↦
        if ltb (length bytes) value_end
        then err (user_error "XX000" "truncated fast row payload")
        else ok (column_id, value_start, value_end)
  ]
]

unfoldable pub fast_row_directory_entry : Bytes → ℕ → ℕ → ℕ → Result (ℕ × ℕ × ℕ)
fast_row_directory_entry bytes directory_start entry_idx payload_start =
    let start = directory_start + entry_idx * 12 in
    if ltb (length bytes) (start + 12)
    then err (user_error "XX000" "truncated fast row directory entry")
    else value_range bytes (from_be_bytes (slice bytes start (start + 4))) payload_start
        (from_be_bytes (slice bytes (start + 4) (start + 8)))
        (from_be_bytes (slice bytes (start + 8) (start + 12)))

-- The loop over the directory from `entry_idx` on, with `n` entries to go.
unfoldable pub fast_row_values :
    Bytes → ℕ → ℕ → ℕ → ℕ → List (ℕ × ColumnValue) → Result (List (ℕ × ColumnValue))
fast_row_values bytes directory_start payload_start entry_idx zero values = ok values
fast_row_values bytes directory_start payload_start entry_idx (suc n) values = do
  (column_id, value_start, value_end) ←
      fast_row_directory_entry bytes directory_start entry_idx payload_start
  found ← decode_tuple_value (Cursor.new (slice bytes value_start value_end))
  value ← finish "trailing bytes in fast row value" found
  fast_row_values bytes directory_start payload_start (entry_idx + 1) n
      (insert_value column_id value values)

abbrev pub row_of : RowHeader → List (ℕ × ColumnValue) → RowRecord
row_of header values = record {
  schema_version = header.0;
  table_epoch = header.1;
  mvcc = header.2;
  values = values;
}

unfoldable pub decode_fast_row_record_raw : Bytes → Result RowRecord
decode_fast_row_record_raw bytes = do
  (header, directory_start, payload_start) ← fast_row_header bytes
  values ← fast_row_values bytes directory_start payload_start 0 header.3 []
  ok (row_of header values)

-- The loop of the older format.
unfoldable pub row_values :
    ℕ → List (ℕ × ColumnValue) → Cursor → Result (List (ℕ × ColumnValue) × Cursor)
row_values zero values c = ok (values, c)
row_values (suc n) values c = do
  (column_id, c) ← u32 c
  (value, c) ← decode_tuple_value c
  row_values n (insert_value column_id value values) c

abbrev pub legacy_row : Cursor → Result (RowRecord × Cursor)
legacy_row c = do
  (header, c) ← row_header c
  (values, c) ← row_values header.3 [] c
  ok (row_of header values, c)

-- The rest of `decode_row_record_raw` behind the version.
abbrev pub by_version : Bytes → ℕ → Cursor → Result RowRecord
by_version bytes version c =
    if version == fast_row_version
    then decode_fast_row_record_raw bytes
    else if version == version_byte
    then (legacy_row c >>= finish "trailing bytes in v2 row record")
    else err (user_error "XX000" "unsupported row record version")

unfoldable pub decode_row_record_raw : Bytes → Result RowRecord
decode_row_record_raw bytes = do (version, c) ← u8 (Cursor.new bytes); by_version bytes version c
