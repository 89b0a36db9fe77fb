-- ===== src/Locks/Examples.antt =====
-- Two sessions of src/core/server that want locks on one table, and what the theorems say of them.
use uni5db.Base.{ℕ, ◌≡◌, ◌⊎◌, refl, [], ◌∷◌, arith, All}
use uni5db.Bytes.{bytes_eq}
use uni5db.Locks.{
  MySqlLock, MySqlLockWaiter, normal, table, transaction, table_lock, metadata_write,
}
use uni5db.Locks.Conflict.{
  mysql_locks_conflict, mysql_object_scopes_overlap, scopes_overlap, kinds_conflict,
}
use uni5db.Locks.Queue.{mysql_lock_queue_blocker, Blocked, mysql_lock_queue_blocker-Blocked}
use uni5db.Locks.Waits.{
  deadlock, clear, wait_of, insert_wait, remove_wait, mysql_register_lock_wait,
}
use uni5db.Locks.Waits.Graph.{Reaches, NoCycle, Reaches-first}
use uni5db.Locks.Waits.Search.{mysql_register_lock_wait-decides}
use uni5db.Locks.Waits.Acyclic.{NoCycle-mysql_register_lock_wait}
use uni5db.Locks.Manager.{LockState, attempt, grant}
use uni5db.Locks.Manager.Held.{Held, grant-Held}
use uni5db.Locks.Manager.Safety.{IsSafe, start, then_step, round, after, Steps-IsSafe}

abbrev lock_of : ℕ → MySqlLock
lock_of session = record {
  owner = session;
  scope = table;
  duration = transaction;
  database_name = b'd' ∷ [];
  schema_name = b's' ∷ [];
  table_name = b't' ∷ [];
  kind = table_lock;
}

abbrev write_of : ℕ → MySqlLock
write_of session = record {
  owner = session;
  scope = table;
  duration = transaction;
  database_name = b'd' ∷ [];
  schema_name = b's' ∷ [];
  table_name = b't' ∷ [];
  kind = metadata_write;
}

abbrev waiter_of : ℕ → MySqlLockWaiter
waiter_of session = record { session_id = session; priority = normal; locks = lock_of session ∷ [] }

abbrev empty : LockState
empty = record {
  active_mysql_locks = [];
  active_mysql_lock_queue = [];
  active_mysql_lock_waits = [];
}

-- Session 1 holds the table.
abbrev held : LockState
held = record {
  active_mysql_locks = lock_of 1 ∷ [];
  active_mysql_lock_queue = [];
  active_mysql_lock_waits = [];
}

empty-NoCycle : NoCycle []
unfolding wait_of
empty-NoCycle a r = let (b, e, _) = Reaches-first [] a a r in cc

mysql_register_lock_wait-decides_example :
    (Reaches (insert_wait 1 2 ((2, 1) ∷ [])) 2 1
      × (mysql_register_lock_wait 1 2 ((2, 1) ∷ [])
          ≡ (deadlock, remove_wait 1 (insert_wait 1 2 ((2, 1) ∷ [])))))
    ⊎ (¬ (Reaches (insert_wait 1 2 ((2, 1) ∷ [])) 2 1)
        × (mysql_register_lock_wait 1 2 ((2, 1) ∷ []) ≡ (clear, insert_wait 1 2 ((2, 1) ∷ []))))
mysql_register_lock_wait-decides_example = mysql_register_lock_wait-decides 1 2 ((2, 1) ∷ [])

NoCycle-mysql_register_lock_wait_example : NoCycle (mysql_register_lock_wait 1 2 []).1
NoCycle-mysql_register_lock_wait_example =
    NoCycle-mysql_register_lock_wait 1 2 [] (λ e. omega arith) empty-NoCycle

mysql_lock_queue_blocker-Blocked_example :
    Blocked (waiter_of 3 ∷ waiter_of 2 ∷ []) 2 normal (lock_of 2 ∷ []) 3
unfolding mysql_lock_queue_blocker mysql_locks_conflict mysql_object_scopes_overlap bytes_eq
    scopes_overlap kinds_conflict
mysql_lock_queue_blocker-Blocked_example =
    mysql_lock_queue_blocker-Blocked (waiter_of 3 ∷ waiter_of 2 ∷ []) 2 normal (lock_of 2 ∷ []) 3
      refl

abbrev two_rounds : LockState
two_rounds =
    after (attempt 2 (lock_of 2 ∷ []) (after (attempt 1 (lock_of 1 ∷ []) empty) empty))
      (after (attempt 1 (lock_of 1 ∷ []) empty) empty)

Steps-IsSafe_example : IsSafe two_rounds
Steps-IsSafe_example =
    Steps-IsSafe empty two_rounds
      (then_step empty (after (attempt 1 (lock_of 1 ∷ []) empty) empty) two_rounds
        (then_step empty empty (after (attempt 1 (lock_of 1 ∷ []) empty) empty) (start empty)
          (round 1 (lock_of 1 ∷ []) empty (refl, tt)))
        (round 2 (lock_of 2 ∷ []) (after (attempt 1 (lock_of 1 ∷ []) empty) empty) (refl, tt)))
      (tt, empty-NoCycle)

grant-Held_example :
    All (Held (grant 1 (write_of 1 ∷ []) held).active_mysql_locks) (write_of 1 ∷ [])
    × ((l : MySqlLock)
        → Held held.active_mysql_locks l
        → Held (grant 1 (write_of 1 ∷ []) held).active_mysql_locks l)
grant-Held_example = grant-Held 1 (write_of 1 ∷ []) held
