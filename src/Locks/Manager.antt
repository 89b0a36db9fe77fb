-- ===== src/Locks/Manager.antt =====
-- The lock manager of src/core/server: `acquire_mysql_locks` and `remove_mysql_lock_waiter` of
-- mysql_locks.rs, `release_session_table_locks` and `release_session_statement_locks` of
-- context_session.rs. The three maps behind their locks are one state; a round of the loop of
-- `acquire_mysql_locks` holds `active_mysql_locks` until it grants or waits.
pub mod Grant
pub mod Safety
pub mod Held
use uni5db.Base.{
  ℕ, Bool, true, false, ◌&&◌, ◌||◌, not, List, [], ◌∷◌, ◌++◌, Option, none, some, ◌==◌,
  if◌then◌else◌, any,
}
use uni5db.Locks.{MySqlLock, MySqlLockWaiter, MySqlLockDuration, statement, duration_eq, lock_eq}
use uni5db.Locks.Conflict.{mysql_locks_conflict}
use uni5db.Locks.Queue.{mysql_lock_priority, mysql_lock_queue_blocker}
use uni5db.Locks.Waits.{
  Waits, WalkEnd, deadlock, clear, out_of_fuel, remove_wait, mysql_register_lock_wait,
}

pub record LockState : Type 0 where
  pub active_mysql_locks : List MySqlLock
  pub active_mysql_lock_queue : List MySqlLockWaiter
  pub active_mysql_lock_waits : Waits

-- `retain` on the locks and on the queue.
unfoldable pub retain : (MySqlLock → Bool) → List MySqlLock → List MySqlLock
retain keep [] = []
retain keep (lock ∷ locks) = let rest = retain keep locks in if keep lock then lock ∷ rest else rest

unfoldable pub leave_queue : ℕ → List MySqlLockWaiter → List MySqlLockWaiter
leave_queue session_id [] = []
leave_queue session_id (waiter ∷ queue) =
    let rest = leave_queue session_id queue in
    if not (waiter.session_id == session_id) then waiter ∷ rest else rest

-- The part before the loop; with nothing requested the whole call does nothing.
unfoldable pub enqueue : ℕ → List MySqlLock → LockState → LockState
enqueue session_id requested st =
    if any (λ waiter. waiter.session_id == session_id) st.active_mysql_lock_queue
    then st
    else record {
      active_mysql_locks = st.active_mysql_locks;
      active_mysql_lock_queue =
          st.active_mysql_lock_queue
          ++ (record {
            session_id = session_id;
            priority = mysql_lock_priority requested;
            locks = requested;
          })
            ∷ [];
      active_mysql_lock_waits = st.active_mysql_lock_waits;
    }

-- The owner of the first lock of another session that conflicts with `lock`.
unfoldable pub find_conflict : ℕ → MySqlLock → List MySqlLock → Option ℕ
find_conflict session_id lock [] = none
find_conflict session_id lock (existing ∷ locks) =
    let rest = find_conflict session_id lock locks in
    if not (existing.owner == session_id) && mysql_locks_conflict existing lock
    then some existing.owner
    else rest

unfoldable pub conflict_owner : ℕ → List MySqlLock → List MySqlLock → Option ℕ
conflict_owner session_id [] locks = none
conflict_owner session_id (lock ∷ requested) locks =
    let rest = conflict_owner session_id requested locks in
    elim (find_conflict session_id lock locks) [ some owner ↦ some owner | none ↦ rest ]

-- The loop that pushes the requested locks which are not there yet.
unfoldable pub push_locks : List MySqlLock → List MySqlLock → List MySqlLock
push_locks [] locks = locks
push_locks (lock ∷ requested) locks =
    push_locks requested
      (if any (λ existing. lock_eq existing lock) locks then locks else locks ++ lock ∷ [])

unfoldable pub remove_mysql_lock_waiter : ℕ → LockState → LockState
remove_mysql_lock_waiter session_id st = record {
  active_mysql_locks = st.active_mysql_locks;
  active_mysql_lock_queue = leave_queue session_id st.active_mysql_lock_queue;
  active_mysql_lock_waits = remove_wait session_id st.active_mysql_lock_waits;
}

-- How a round of the loop ends: the call returns, it waits to be notified, or it fails.
pub data Round : Type 0 where
  granted : LockState → Round
  waiting : LockState → Round
  deadlocked : LockState → Round
  stuck : Round

-- `stuck` stands for a walk through the wait graph without an end.
unfoldable pub wait_for : ℕ → ℕ → LockState → Round
wait_for session_id owner st =
    let (end, waits) = mysql_register_lock_wait session_id owner st.active_mysql_lock_waits in
    let registered : LockState = record {
      active_mysql_locks = st.active_mysql_locks;
      active_mysql_lock_queue = st.active_mysql_lock_queue;
      active_mysql_lock_waits = waits;
    } in
    elim end [
      | deadlock ↦ deadlocked (remove_mysql_lock_waiter session_id registered)
      | clear ↦ waiting registered
      | out_of_fuel ↦ stuck
    ]

unfoldable pub grant : ℕ → List MySqlLock → LockState → LockState
grant session_id requested st = record {
  active_mysql_locks = push_locks requested st.active_mysql_locks;
  active_mysql_lock_queue = leave_queue session_id st.active_mysql_lock_queue;
  active_mysql_lock_waits = remove_wait session_id st.active_mysql_lock_waits;
}

-- One round of the loop of `acquire_mysql_locks`.
unfoldable pub attempt : ℕ → List MySqlLock → LockState → Round
attempt session_id requested st = elim (conflict_owner session_id requested st.active_mysql_locks) [
  | some owner ↦ wait_for session_id owner st
  | none ↦
      elim (mysql_lock_queue_blocker st.active_mysql_lock_queue session_id
        (mysql_lock_priority requested) requested) [
          | some owner ↦ wait_for session_id owner st
          | none ↦ granted (grant session_id requested st)
        ]
]

-- After the time limit: `remove_mysql_lock_waiter` and `mysql_lock_timeout_error`.
unfoldable pub time_out : ℕ → LockState → LockState
time_out session_id st =
    let removed = remove_mysql_lock_waiter session_id st in
    record {
      active_mysql_locks = removed.active_mysql_locks;
      active_mysql_lock_queue = removed.active_mysql_lock_queue;
      active_mysql_lock_waits = remove_wait session_id removed.active_mysql_lock_waits;
    }

unfoldable pub release_session_table_locks : ℕ → LockState → LockState
release_session_table_locks session_id st = record {
  active_mysql_locks = retain (λ lock. not (lock.owner == session_id)) st.active_mysql_locks;
  active_mysql_lock_queue = leave_queue session_id st.active_mysql_lock_queue;
  active_mysql_lock_waits = remove_wait session_id st.active_mysql_lock_waits;
}

unfoldable pub release_session_statement_locks : ℕ → LockState → LockState
release_session_statement_locks session_id st = record {
  active_mysql_locks =
      retain (λ lock. not (lock.owner == session_id) || not (duration_eq lock.duration statement))
        st.active_mysql_locks;
  active_mysql_lock_queue = st.active_mysql_lock_queue;
  active_mysql_lock_waits = st.active_mysql_lock_waits;
}
