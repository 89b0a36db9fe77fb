-- ===== src/Locks.antt =====
-- The MySQL locks of src/core/server: the types of shared.rs, the conflicts, the queue and the wait
-- graph of mysql_locks.rs, and the releases of context_session.rs. A string is its bytes, and a
-- session a number.
pub mod Conflict
pub mod Build
pub mod Queue
pub mod Waits
pub mod Manager
mod Examples
use uni5db.Base.{ℕ, Bool, true, false, ◌&&◌, List, Option, none, some, ◌==◌}
use uni5db.Bytes.{Bytes, bytes_eq}

pub data MySqlLockDuration : Type 0 where
  statement transaction : MySqlLockDuration

pub data MySqlLockPriority : Type 0 where
  normal high : MySqlLockPriority

pub data MySqlLockScope : Type 0 where
  database schema table index view sequence : MySqlLockScope

-- `record_lock` is `Record` and `table_lock` is `Table`.
pub data MySqlLockKind : Type 0 where
  metadata_read metadata_write table_lock : MySqlLockKind
  record_lock : Bytes → MySqlLockKind
  gap next_key : Option Bytes → Option Bytes → MySqlLockKind
  insert_intention : Bytes → MySqlLockKind
  index_record : Bytes → Bytes → MySqlLockKind
  index_gap index_next_key : Bytes → Option Bytes → Option Bytes → MySqlLockKind
  index_insert_intention : Bytes → Bytes → MySqlLockKind

pub record MySqlLock : Type 0 where
  pub owner : ℕ
  pub scope : MySqlLockScope
  pub duration : MySqlLockDuration
  pub database_name : Bytes
  pub schema_name : Bytes
  pub table_name : Bytes
  pub kind : MySqlLockKind

pub record MySqlLockWaiter : Type 0 where
  pub session_id : ℕ
  pub priority : MySqlLockPriority
  pub locks : List MySqlLock

-- The derived equalities.
abbrev pub duration_eq : MySqlLockDuration → MySqlLockDuration → Bool
duration_eq statement statement = true
duration_eq transaction transaction = true
duration_eq _ _ = false

abbrev pub scope_eq : MySqlLockScope → MySqlLockScope → Bool
scope_eq database database = true
scope_eq schema schema = true
scope_eq table table = true
scope_eq index index = true
scope_eq view view = true
scope_eq sequence sequence = true
scope_eq _ _ = false

abbrev pub option_eq : Option Bytes → Option Bytes → Bool
option_eq none none = true
option_eq (some a) (some b) = bytes_eq a b
option_eq _ _ = false

unfoldable pub kind_eq : MySqlLockKind → MySqlLockKind → Bool
kind_eq metadata_read metadata_read = true
kind_eq metadata_write metadata_write = true
kind_eq table_lock table_lock = true
kind_eq (record_lock a) (record_lock b) = bytes_eq a b
kind_eq (gap a b) (gap c d) = option_eq a c && option_eq b d
kind_eq (next_key a b) (next_key c d) = option_eq a c && option_eq b d
kind_eq (insert_intention a) (insert_intention b) = bytes_eq a b
kind_eq (index_record i a) (index_record j b) = bytes_eq i j && bytes_eq a b
kind_eq (index_gap i a b) (index_gap j c d) = bytes_eq i j && (option_eq a c && option_eq b d)
kind_eq (index_next_key i a b) (index_next_key j c d) =
    bytes_eq i j && (option_eq a c && option_eq b d)
kind_eq (index_insert_intention i a) (index_insert_intention j b) = bytes_eq i j && bytes_eq a b
kind_eq _ _ = false

unfoldable pub lock_eq : MySqlLock → MySqlLock → Bool
lock_eq a b =
    a.owner == b.owner
    && scope_eq a.scope b.scope
    && duration_eq a.duration b.duration
    && bytes_eq a.database_name b.database_name
    && bytes_eq a.schema_name b.schema_name
    && bytes_eq a.table_name b.table_name
    && kind_eq a.kind b.kind
