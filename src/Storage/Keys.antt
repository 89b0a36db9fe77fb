-- ===== src/Storage/Keys.antt =====
-- src/storage_layout/keys.rs: the keys of rows, row versions, index entries, column chunks and
-- statistics, and the ranges that scan them.
pub mod Decode
pub mod Scan
use uni5db.Base.{
  ℕ, ◌+◌, ◌-◌, ◌^◌, Bool, true, false, [], ◌∷◌, ◌++◌, Option, none, some, ◌==◌, if◌then◌else◌,
  length, drop, Result, ok, err, user_error, ◌>>=◌, String,
}
use uni5db.Bytes.{Bytes, strip_prefix}
use uni5db.Bytes.BigEndian.{to_be_bytes, from_be_bytes}
use uni5db.Types.Value.{ColumnValue}
use uni5db.Types.DataType.{DataType}
use uni5db.Storage.Cursor.{slice, push_bytes_segment}
use uni5db.Storage.Prefix.{next_prefix}
use uni5db.Storage.Key.{encode_key_value, decode_key_value}

abbrev pub version_byte : ℕ
version_byte = 2

abbrev pub desc_version_max : ℕ
desc_version_max = 2 ^ 64 - 1

pub record RangeScan : Type 0 where
  pub start : Bytes
  pub end : Option Bytes
  pub limit : Option ℕ
  pub reverse : Bool

-- `vec![VERSION, kind]` and the two fields that most keys begin with.
abbrev table_key : ℕ → ℕ → ℕ → Bytes
table_key kind table_id table_epoch =
    version_byte ∷ kind ∷ (to_be_bytes 4 table_id ++ to_be_bytes 8 table_epoch)

abbrev prefix_range : Bytes → Option ℕ → RangeScan
prefix_range start limit = record {
  start = start;
  end = next_prefix start;
  limit = limit;
  reverse = false;
}

-- `kind` is the text of the descriptor's kind.
unfoldable pub catalog_descriptor_key : Bytes → ℕ → Bytes
catalog_descriptor_key kind id = version_byte ∷ b'c' ∷ (push_bytes_segment kind ++ to_be_bytes 4 id)

unfoldable pub row_prefix : ℕ → ℕ → Bytes
row_prefix table_id table_epoch = table_key b'r' table_id table_epoch

unfoldable pub row_key : ℕ → ℕ → ColumnValue → Bytes
row_key table_id table_epoch pk = row_prefix table_id table_epoch ++ encode_key_value pk

unfoldable pub row_version_prefix : ℕ → ℕ → ColumnValue → Bytes
row_version_prefix table_id table_epoch pk =
    table_key b'v' table_id table_epoch ++ encode_key_value pk

unfoldable pub row_version_key : ℕ → ℕ → ColumnValue → ℕ → Bytes
row_version_key table_id table_epoch pk version =
    row_version_prefix table_id table_epoch pk ++ to_be_bytes 8 (desc_version_max - version)

unfoldable pub row_version_range : ℕ → ℕ → ColumnValue → Option ℕ → RangeScan
row_version_range table_id table_epoch pk limit =
    prefix_range (row_version_prefix table_id table_epoch pk) limit

unfoldable pub row_versions_range : ℕ → ℕ → Option ℕ → RangeScan
row_versions_range table_id table_epoch limit =
    prefix_range (table_key b'v' table_id table_epoch) limit

abbrev strip : Bytes → Bytes → String → Result Bytes
strip key prefix message = elim (strip_prefix key prefix) [
  | none ↦ err (user_error "XX000" message)
  | some suffix ↦ ok suffix
]

-- A key value that takes the whole of `suffix`.
abbrev whole_value : DataType → Bytes → String → Result ColumnValue
whole_value data_type suffix message = do
  (value, consumed) ← decode_key_value data_type suffix
  if consumed == length suffix then ok value else err (user_error "XX000" message)

unfoldable pub decode_pk_from_row_version_key : Bytes → ℕ → ℕ → DataType → Result (ColumnValue × ℕ)
decode_pk_from_row_version_key key table_id table_epoch data_type = do
  suffix ←
      strip key (table_key b'v' table_id table_epoch) "v2 row version key missing expected prefix"
  (value, consumed) ← decode_key_value data_type suffix
  if length suffix == consumed + 8
      then ok (value, desc_version_max - from_be_bytes (slice suffix consumed (consumed + 8)))
      else err (user_error "XX000" "malformed v2 row version key suffix")

unfoldable pub decode_pk_from_row_key : Bytes → ℕ → ℕ → DataType → Result ColumnValue
decode_pk_from_row_key key table_id table_epoch data_type = do
  suffix ← strip key (row_prefix table_id table_epoch) "v2 row key missing expected prefix"
  whole_value data_type suffix "malformed v2 row key suffix"

unfoldable pub row_range : ℕ → ℕ → Option ℕ → RangeScan
row_range table_id table_epoch limit = prefix_range (row_prefix table_id table_epoch) limit

-- A bound is a value and whether it belongs to the range.
abbrev pub Bound : Type 0
Bound = Option (ColumnValue × Bool)

abbrev lower_key : ℕ → ℕ → Bound → Bytes
lower_key table_id table_epoch (some (value, true)) = row_key table_id table_epoch value
lower_key table_id table_epoch (some (value, false)) = row_key table_id table_epoch value ++ 0 ∷ []
lower_key table_id table_epoch none = row_prefix table_id table_epoch

abbrev upper_key : ℕ → ℕ → Bound → Option Bytes
upper_key table_id table_epoch (some (value, true)) =
    some (row_key table_id table_epoch value ++ 0 ∷ [])
upper_key table_id table_epoch (some (value, false)) = some (row_key table_id table_epoch value)
upper_key table_id table_epoch none = next_prefix (row_prefix table_id table_epoch)

unfoldable pub row_range_between : ℕ → ℕ → Bound → Bound → Option ℕ → RangeScan
row_range_between table_id table_epoch lower upper limit = record {
  start = lower_key table_id table_epoch lower;
  end = upper_key table_id table_epoch upper;
  limit = limit;
  reverse = false;
}

unfoldable pub index_all_prefix : ℕ → Bytes
index_all_prefix index_id = version_byte ∷ b'i' ∷ to_be_bytes 4 index_id

unfoldable pub index_prefix : ℕ → ColumnValue → Bytes
index_prefix index_id index_value =
    (version_byte ∷ b'i' ∷ to_be_bytes 4 index_id) ++ encode_key_value index_value

unfoldable pub index_entry_key : ℕ → ColumnValue → ColumnValue → Bytes
index_entry_key index_id index_value pk = index_prefix index_id index_value ++ encode_key_value pk

unfoldable pub decode_pk_from_index_entry_key :
    Bytes → ℕ → ColumnValue → DataType → Result ColumnValue
decode_pk_from_index_entry_key key index_id index_value pk_data_type = do
  suffix ← strip key (index_prefix index_id index_value) "v2 index key missing expected prefix"
  whole_value pk_data_type suffix "malformed v2 index key suffix"

abbrev chunk_key : ℕ → ℕ → ℕ → Bytes
chunk_key kind table_id table_epoch =
    version_byte ∷ b'o' ∷ kind ∷ (to_be_bytes 4 table_id ++ to_be_bytes 8 table_epoch)

unfoldable pub olap_chunk_meta_prefix : ℕ → ℕ → Bytes
olap_chunk_meta_prefix table_id table_epoch = chunk_key b'm' table_id table_epoch

unfoldable pub olap_chunk_meta_key : ℕ → ℕ → ℕ → Bytes
olap_chunk_meta_key table_id table_epoch chunk_id =
    chunk_key b'm' table_id table_epoch ++ to_be_bytes 8 chunk_id

unfoldable pub olap_chunk_column_prefix : ℕ → ℕ → Bytes
olap_chunk_column_prefix table_id table_epoch = chunk_key b'c' table_id table_epoch

unfoldable pub olap_chunk_meta_range : ℕ → ℕ → RangeScan
unfolding olap_chunk_meta_prefix
olap_chunk_meta_range table_id table_epoch =
    prefix_range (olap_chunk_meta_prefix table_id table_epoch) none

unfoldable pub olap_chunk_column_key : ℕ → ℕ → ℕ → ℕ → Bytes
olap_chunk_column_key table_id table_epoch chunk_id column_id =
    chunk_key b'c' table_id table_epoch ++ (to_be_bytes 8 chunk_id ++ to_be_bytes 4 column_id)

unfoldable pub stats_prefix : ℕ → ℕ → Bytes
stats_prefix table_id table_epoch = table_key b's' table_id table_epoch

-- `column_id.unwrap_or(0)`
unfoldable pub stats_key : ℕ → ℕ → Option ℕ → Bytes
stats_key table_id table_epoch column_id =
    table_key b's' table_id table_epoch
    ++ to_be_bytes 4 (elim column_id [ none ↦ 0 | some id ↦ id ])
