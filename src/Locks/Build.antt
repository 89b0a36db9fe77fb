-- ===== src/Locks/Build.antt =====
-- The constructors of locks of src/core/server/mysql_locks.rs.
use uni5db.Base.{ℕ, List, [], ◌∷◌, ◌++◌}
use uni5db.Bytes.{Bytes}
use uni5db.Bytes.Ascii.{to_ascii_lowercase}
use uni5db.Locks.{
  MySqlLock, MySqlLockScope, MySqlLockDuration, MySqlLockKind, statement, transaction, database,
  schema, table, index, view, sequence, metadata_read,
}

unfoldable pub normalize_mysql_lock_name : Bytes → Bytes
normalize_mysql_lock_name value = to_ascii_lowercase value

unfoldable pub mysql_lock_with_duration :
    ℕ → MySqlLockScope → MySqlLockDuration → Bytes → Bytes → Bytes → MySqlLockKind → MySqlLock
mysql_lock_with_duration session_id scope duration database_name schema_name object_name kind =
    record {
      owner = session_id;
      scope = scope;
      duration = duration;
      database_name = normalize_mysql_lock_name database_name;
      schema_name = normalize_mysql_lock_name schema_name;
      table_name = normalize_mysql_lock_name object_name;
      kind = kind;
    }

unfoldable pub mysql_lock : ℕ → Bytes → Bytes → Bytes → MySqlLockKind → MySqlLock
mysql_lock session_id database_name schema_name table_name kind =
    mysql_lock_with_duration session_id table transaction database_name schema_name table_name kind

unfoldable pub mysql_statement_lock : ℕ → Bytes → Bytes → Bytes → MySqlLockKind → MySqlLock
mysql_statement_lock session_id database_name schema_name table_name kind =
    mysql_lock_with_duration session_id table statement database_name schema_name table_name kind

unfoldable pub mysql_schema_lock : ℕ → Bytes → Bytes → MySqlLockKind → MySqlLock
mysql_schema_lock session_id database_name schema_name kind = record {
  owner = session_id;
  scope = schema;
  duration = statement;
  database_name = normalize_mysql_lock_name database_name;
  schema_name = normalize_mysql_lock_name schema_name;
  table_name = [];
  kind = kind;
}

unfoldable pub mysql_database_lock : ℕ → Bytes → MySqlLockKind → MySqlLock
mysql_database_lock session_id database_name kind = record {
  owner = session_id;
  scope = database;
  duration = statement;
  database_name = normalize_mysql_lock_name database_name;
  schema_name = [];
  table_name = [];
  kind = kind;
}

unfoldable pub mysql_index_lock : ℕ → Bytes → Bytes → Bytes → MySqlLockKind → MySqlLock
mysql_index_lock session_id database_name schema_name index_name kind =
    mysql_lock_with_duration session_id index statement database_name schema_name index_name kind

unfoldable pub mysql_view_lock : ℕ → Bytes → Bytes → Bytes → MySqlLockKind → MySqlLock
mysql_view_lock session_id database_name schema_name view_name kind =
    mysql_lock_with_duration session_id view statement database_name schema_name view_name kind

unfoldable pub mysql_sequence_lock : ℕ → Bytes → Bytes → Bytes → MySqlLockKind → MySqlLock
mysql_sequence_lock session_id database_name schema_name sequence_name kind =
    mysql_lock_with_duration session_id sequence statement database_name schema_name sequence_name
      kind

unfoldable pub add_metadata_read_lock : List MySqlLock → ℕ → Bytes → Bytes → Bytes → List MySqlLock
add_metadata_read_lock locks session_id database_name schema_name table_name =
    locks ++ mysql_lock session_id database_name schema_name table_name metadata_read ∷ []
