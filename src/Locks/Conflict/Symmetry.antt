-- ===== src/Locks/Conflict/Symmetry.antt =====
-- The conflict of src/core/server/mysql_locks.rs does not depend on which of two locks came first.
use uni5db.Base.{◌≡◌, Bool, Option, arith}
use uni5db.Bytes.{Bytes}
use uni5db.Bytes.Order.{bytes_eq_sym}
use uni5db.Locks.{
  MySqlLock, MySqlLockScope, MySqlLockKind, scope_eq, metadata_read, metadata_write, table_lock,
  record_lock, gap, next_key, insert_intention, index_record, index_gap, index_next_key,
  index_insert_intention,
}
use uni5db.Locks.Conflict.{
  mysql_ranges_overlap, scopes_overlap, mysql_object_scopes_overlap, kinds_conflict,
  mysql_locks_conflict,
}

ranges_overlap_sym :
    (a b c d : Option Bytes) → mysql_ranges_overlap a b c d ≡ mysql_ranges_overlap c d a b
unfolding mysql_ranges_overlap
ranges_overlap_sym a b c d = ground arith

scope_eq_sym : (a b : MySqlLockScope) → scope_eq a b ≡ scope_eq b a
scope_eq_sym a b = ground arith

scopes_overlap_sym :
    (a b : MySqlLockScope) (s o : Bool) → scopes_overlap a b s o ≡ scopes_overlap b a s o
unfolding scopes_overlap
scopes_overlap_sym a b s o = ground (arith, scope_eq_sym a b)

kinds_conflict_sym : (a b : MySqlLockKind) → kinds_conflict a b ≡ kinds_conflict b a
unfolding kinds_conflict
kinds_conflict_sym (record_lock a) (record_lock b) = bytes_eq_sym a b
kinds_conflict_sym (gap a b) (gap c d) = ranges_overlap_sym a b c d
kinds_conflict_sym (gap a b) (next_key c d) = ranges_overlap_sym a b c d
kinds_conflict_sym (next_key a b) (gap c d) = ranges_overlap_sym a b c d
kinds_conflict_sym (next_key a b) (next_key c d) = ranges_overlap_sym a b c d
kinds_conflict_sym (index_record i a) (index_record j b) = rw (bytes_eq_sym i j, bytes_eq_sym a b)
kinds_conflict_sym (index_gap i a b) (index_gap j c d) =
    rw (bytes_eq_sym i j, ranges_overlap_sym a b c d)
kinds_conflict_sym (index_gap i a b) (index_next_key j c d) =
    rw (bytes_eq_sym i j, ranges_overlap_sym a b c d)
kinds_conflict_sym (index_next_key i a b) (index_gap j c d) =
    rw (bytes_eq_sym i j, ranges_overlap_sym a b c d)
kinds_conflict_sym (index_next_key i a b) (index_next_key j c d) =
    rw (bytes_eq_sym i j, ranges_overlap_sym a b c d)
kinds_conflict_sym metadata_read b = ground arith
kinds_conflict_sym metadata_write b = ground arith
kinds_conflict_sym table_lock b = ground arith
kinds_conflict_sym (record_lock x) b = ground arith
kinds_conflict_sym (gap x y) b = ground arith
kinds_conflict_sym (next_key x y) b = ground arith
kinds_conflict_sym (insert_intention x) b = ground arith
kinds_conflict_sym (index_record i x) b = ground arith
kinds_conflict_sym (index_gap i x y) b = ground arith
kinds_conflict_sym (index_next_key i x y) b = ground arith
kinds_conflict_sym (index_insert_intention i x) b = ground arith

-- Two locks conflict in one order exactly when they conflict in the other.
pub mysql_locks_conflict_sym :
    (a b : MySqlLock) → mysql_locks_conflict a b ≡ mysql_locks_conflict b a
unfolding mysql_locks_conflict mysql_object_scopes_overlap
mysql_locks_conflict_sym a b = rw (
  bytes_eq_sym a.database_name b.database_name,
  bytes_eq_sym a.schema_name b.schema_name,
  bytes_eq_sym a.table_name b.table_name,
  scopes_overlap_sym a.scope b.scope _ _,
  kinds_conflict_sym a.kind b.kind,
)
