-- ===== src/Locks/Conflict.antt =====
-- When two locks conflict, as `mysql_locks_conflict` of src/core/server/mysql_locks.rs has it.
pub mod Symmetry
use uni5db.Base.{Bool, true, false, ◌&&◌, not, Option, none, some, ◌++◌, ◌∷◌, [], if◌then◌else◌}
use uni5db.Bytes.{Bytes, bytes_eq, bytes_lt, starts_with}
use uni5db.Locks.{
  MySqlLock, MySqlLockScope, MySqlLockKind, database, schema, scope_eq, metadata_read,
  metadata_write, table_lock, record_lock, gap, next_key, insert_intention, index_record, index_gap,
  index_next_key, index_insert_intention,
}

unfoldable pub mysql_range_contains_value : Option Bytes → Option Bytes → Bytes → Bool
mysql_range_contains_value lower upper value =
    elim lower [ none ↦ true | some l ↦ not (bytes_lt value l) ]
    && elim upper [ none ↦ true | some u ↦ bytes_lt value u ]

-- `left_upper <= right_lower`, when both ends are there.
abbrev pub before : Option Bytes → Option Bytes → Bool
before (some upper) (some lower) = not (bytes_lt lower upper)
before _ _ = false

unfoldable pub mysql_ranges_overlap :
    Option Bytes → Option Bytes → Option Bytes → Option Bytes → Bool
mysql_ranges_overlap left_lower left_upper right_lower right_upper =
    not (before left_upper right_lower) && not (before right_upper left_lower)

abbrev pub mysql_record_range_conflict : Bytes → Option Bytes → Option Bytes → Bool
mysql_record_range_conflict value lower upper = mysql_range_contains_value lower upper value

abbrev pub mysql_gap_range_conflict :
    Option Bytes → Option Bytes → Option Bytes → Option Bytes → Bool
mysql_gap_range_conflict left_lower left_upper right_lower right_upper =
    mysql_ranges_overlap left_lower left_upper right_lower right_upper

unfoldable pub mysql_index_value_in_range : Bytes → Bytes → Option Bytes → Option Bytes → Bool
mysql_index_value_in_range index_name value lower upper =
    starts_with value (index_name ++ b'=' ∷ []) && mysql_range_contains_value lower upper value

-- The match on the scopes, given whether the schemas are the same and the objects are.
unfoldable pub scopes_overlap : MySqlLockScope → MySqlLockScope → Bool → Bool → Bool
scopes_overlap database _ same_schema same_object = true
scopes_overlap _ database same_schema same_object = true
scopes_overlap schema _ same_schema same_object = same_schema
scopes_overlap _ schema same_schema same_object = same_schema
scopes_overlap existing requested same_schema same_object =
    same_schema && (scope_eq existing requested && same_object)

unfoldable pub mysql_object_scopes_overlap : MySqlLock → MySqlLock → Bool
mysql_object_scopes_overlap existing requested =
    if not (bytes_eq existing.database_name requested.database_name)
    then false
    else scopes_overlap existing.scope requested.scope
        (bytes_eq existing.schema_name requested.schema_name)
        (bytes_eq existing.table_name requested.table_name)

-- One holds the metadata for reading and the other for writing.
abbrev read_and_write : MySqlLockKind → MySqlLockKind → Bool
read_and_write metadata_read metadata_write = true
read_and_write metadata_write metadata_read = true
read_and_write _ _ = false

-- The last arms of the match on the kinds, for the locks of an index.
abbrev pub index_kinds_conflict : MySqlLockKind → MySqlLockKind → Bool
index_kinds_conflict (index_record i left) (index_record j right) =
    bytes_eq i j && bytes_eq left right
index_kinds_conflict (index_insert_intention i a) (index_insert_intention j b) = false
index_kinds_conflict (index_record i value) (index_next_key j lower upper) =
    bytes_eq i j && mysql_index_value_in_range i value lower upper
index_kinds_conflict (index_next_key j lower upper) (index_record i value) =
    bytes_eq i j && mysql_index_value_in_range i value lower upper
index_kinds_conflict (index_record i value) (index_gap j lower upper) =
    bytes_eq i j && mysql_index_value_in_range i value lower upper
index_kinds_conflict (index_gap j lower upper) (index_record i value) =
    bytes_eq i j && mysql_index_value_in_range i value lower upper
index_kinds_conflict (index_insert_intention i value) (index_gap j lower upper) =
    bytes_eq i j && mysql_index_value_in_range i value lower upper
index_kinds_conflict (index_gap j lower upper) (index_insert_intention i value) =
    bytes_eq i j && mysql_index_value_in_range i value lower upper
index_kinds_conflict (index_insert_intention i value) (index_next_key j lower upper) =
    bytes_eq i j && mysql_index_value_in_range i value lower upper
index_kinds_conflict (index_next_key j lower upper) (index_insert_intention i value) =
    bytes_eq i j && mysql_index_value_in_range i value lower upper
index_kinds_conflict (index_gap i ll lu) (index_gap j rl ru) =
    bytes_eq i j && mysql_gap_range_conflict ll lu rl ru
index_kinds_conflict (index_next_key i ll lu) (index_next_key j rl ru) =
    bytes_eq i j && mysql_gap_range_conflict ll lu rl ru
index_kinds_conflict (index_gap i ll lu) (index_next_key j rl ru) =
    bytes_eq i j && mysql_gap_range_conflict ll lu rl ru
index_kinds_conflict (index_next_key i ll lu) (index_gap j rl ru) =
    bytes_eq i j && mysql_gap_range_conflict ll lu rl ru
index_kinds_conflict _ _ = false

-- The match on the kinds, in the order of its arms.
unfoldable pub kinds_conflict : MySqlLockKind → MySqlLockKind → Bool
kinds_conflict metadata_read metadata_read = false
kinds_conflict metadata_read other = read_and_write metadata_read other
kinds_conflict other metadata_read = read_and_write other metadata_read
kinds_conflict metadata_write other = true
kinds_conflict other metadata_write = true
kinds_conflict table_lock other = true
kinds_conflict other table_lock = true
kinds_conflict (record_lock left) (record_lock right) = bytes_eq left right
kinds_conflict (record_lock value) (next_key lower upper) =
    mysql_record_range_conflict value lower upper
kinds_conflict (next_key lower upper) (record_lock value) =
    mysql_record_range_conflict value lower upper
kinds_conflict (record_lock value) (gap lower upper) = mysql_record_range_conflict value lower upper
kinds_conflict (gap lower upper) (record_lock value) = mysql_record_range_conflict value lower upper
kinds_conflict (insert_intention a) (insert_intention b) = false
kinds_conflict (insert_intention value) (gap lower upper) =
    mysql_record_range_conflict value lower upper
kinds_conflict (gap lower upper) (insert_intention value) =
    mysql_record_range_conflict value lower upper
kinds_conflict (insert_intention value) (next_key lower upper) =
    mysql_record_range_conflict value lower upper
kinds_conflict (next_key lower upper) (insert_intention value) =
    mysql_record_range_conflict value lower upper
kinds_conflict (gap ll lu) (gap rl ru) = mysql_gap_range_conflict ll lu rl ru
kinds_conflict (next_key ll lu) (next_key rl ru) = mysql_gap_range_conflict ll lu rl ru
kinds_conflict (gap ll lu) (next_key rl ru) = mysql_gap_range_conflict ll lu rl ru
kinds_conflict (next_key ll lu) (gap rl ru) = mysql_gap_range_conflict ll lu rl ru
kinds_conflict (record_lock a) other = false
kinds_conflict other (record_lock a) = false
kinds_conflict (gap a b) other = false
kinds_conflict other (gap a b) = false
kinds_conflict (next_key a b) other = false
kinds_conflict other (next_key a b) = false
kinds_conflict (insert_intention a) other = false
kinds_conflict other (insert_intention a) = false
kinds_conflict existing requested = index_kinds_conflict existing requested

unfoldable pub mysql_locks_conflict : MySqlLock → MySqlLock → Bool
mysql_locks_conflict existing requested =
    if not (mysql_object_scopes_overlap existing requested)
    then false
    else kinds_conflict existing.kind requested.kind
