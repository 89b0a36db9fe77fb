-- ===== src/Locks/Manager/Safety.antt =====
-- What every step of the lock manager of src/core/server keeps.
use uni5db.Base.{ℕ, ◌≡◌, ◌≢◌, false, List, none, some, arith, ◌==◌, All, inl, inr, Option-cases}
use uni5db.Locks.{MySqlLock}
use uni5db.Locks.Queue.{
  mysql_lock_priority, mysql_lock_queue_blocker, mysql_lock_queue_blocker-Blocked,
}
use uni5db.Locks.Waits.{Waits, deadlock, clear, insert_wait, remove_wait, mysql_register_lock_wait}
use uni5db.Locks.Waits.Graph.{NoCycle, NoCycle-remove_wait}
use uni5db.Locks.Waits.Search.{mysql_register_lock_wait-decides}
use uni5db.Locks.Waits.Acyclic.{NoCycle-mysql_register_lock_wait}
use uni5db.Locks.Manager.{
  LockState, Round, granted, waiting, deadlocked, stuck, enqueue, conflict_owner, attempt, wait_for,
  grant, time_out, remove_mysql_lock_waiter, release_session_table_locks,
  release_session_statement_locks,
}
use uni5db.Locks.Manager.Grant.{
  Exclusive, conflict_owner-Free, conflict_owner-other, push_locks-Exclusive, retain-Exclusive,
}

-- No two sessions hold conflicting locks, and no session waits for itself.
abbrev pub IsSafe : LockState → Type 0
IsSafe st = Exclusive st.active_mysql_locks × NoCycle st.active_mysql_lock_waits

-- The state that a round leaves.
abbrev pub after : Round → LockState → LockState
after (granted st) old = st
after (waiting st) old = st
after (deadlocked st) old = st
after stuck old = old

-- A step of some session. The code drops the locks between finding an owner to wait for and
-- registering the wait, so `register` may also happen in a state that others changed in between.
pub data Step : LockState → LockState → Type 0 where
  enqueue_step :
      (s : ℕ) (requested : List MySqlLock) (st : LockState) → Step st (enqueue s requested st)
  round :
      (s : ℕ) (requested : List MySqlLock) (st : LockState)
      → All (λ l. l.owner ≡ s) requested
      → Step st (after (attempt s requested st) st)
  register :
      (s owner : ℕ) (st : LockState)
      → (owner == s) ≡ false
      → Step st (after (wait_for s owner st) st)
  give_up : (s : ℕ) (st : LockState) → Step st (time_out s st)
  leave : (s : ℕ) (st : LockState) → Step st (remove_mysql_lock_waiter s st)
  release : (s : ℕ) (st : LockState) → Step st (release_session_table_locks s st)
  release_statement : (s : ℕ) (st : LockState) → Step st (release_session_statement_locks s st)

pub data Steps : LockState → LockState → Type 0 where
  start : (st : LockState) → Steps st st
  then_step : (a b c : LockState) → Steps a b → Step b c → Steps a c

apart : (owner s : ℕ) → (owner == s) ≡ false → owner ≢ s
apart owner s h e = ground arith

-- The rounds, by cases.
module _ (s owner : ℕ) (st : LockState) where
  wait_for-end :
      (waits : Waits)
      → ((mysql_register_lock_wait s owner st.active_mysql_lock_waits ≡ (deadlock, waits))
          → wait_for s owner st
            ≡ deadlocked (
                remove_mysql_lock_waiter s (record {
                  active_mysql_locks = st.active_mysql_locks;
                  active_mysql_lock_queue = st.active_mysql_lock_queue;
                  active_mysql_lock_waits = waits;
                })))
        × ((mysql_register_lock_wait s owner st.active_mysql_lock_waits ≡ (clear, waits))
            → wait_for s owner st
              ≡ waiting (record {
                active_mysql_locks = st.active_mysql_locks;
                active_mysql_lock_queue = st.active_mysql_lock_queue;
                active_mysql_lock_waits = waits;
              }))
  unfolding wait_for
  wait_for-end waits = ((λ e. ground arith), (λ e. ground arith))

  wait_for-IsSafe : (owner == s) ≡ false → IsSafe st → IsSafe (after (wait_for s owner st) st)
  unfolding remove_mysql_lock_waiter
  wait_for-IsSafe ne (h, free) =
      let kept =
        NoCycle-mysql_register_lock_wait s owner st.active_mysql_lock_waits (apart owner s ne)
          free in
      let inserted : Waits = insert_wait s owner st.active_mysql_lock_waits in
      elim (mysql_register_lock_wait-decides s owner st.active_mysql_lock_waits) [
        | inl (r, e) ↦
            rw ((wait_for-end (remove_wait s inserted)).0 e)
              (h, NoCycle-remove_wait s (remove_wait s inserted) (rw e at kept))
        | inr (r, e) ↦ rw ((wait_for-end inserted).1 e) (h, rw e at kept)
      ]

module _ (s : ℕ) (requested : List MySqlLock) (st : LockState) where
  attempt-conflict :
      (owner : ℕ)
      → conflict_owner s requested st.active_mysql_locks ≡ some owner
      → attempt s requested st ≡ wait_for s owner st
  unfolding attempt
  attempt-conflict owner e = ground arith

  attempt-queue :
      (owner : ℕ)
      → conflict_owner s requested st.active_mysql_locks ≡ none
      → mysql_lock_queue_blocker st.active_mysql_lock_queue s
          (mysql_lock_priority requested)
          requested
        ≡ some owner
      → attempt s requested st ≡ wait_for s owner st
  unfolding attempt
  attempt-queue owner e q = ground arith

  attempt-grant :
      conflict_owner s requested st.active_mysql_locks ≡ none
      → mysql_lock_queue_blocker st.active_mysql_lock_queue s
          (mysql_lock_priority requested)
          requested
        ≡ none
      → attempt s requested st ≡ granted (grant s requested st)
  unfolding attempt
  attempt-grant e q = ground arith

  attempt-IsSafe :
      All (λ l. l.owner ≡ s) requested → IsSafe st → IsSafe (after (attempt s requested st) st)
  unfolding grant
  attempt-IsSafe own h = elim (Option-cases (conflict_owner s requested st.active_mysql_locks)) [
    | inr (owner, e) ↦ rw (attempt-conflict owner e) (
        wait_for-IsSafe s owner st (conflict_owner-other s requested st.active_mysql_locks owner e)
          h)
    | inl e ↦
        elim (Option-cases (
          mysql_lock_queue_blocker st.active_mysql_lock_queue s (mysql_lock_priority requested)
            requested)) [
              | inr (owner, q) ↦
                  let (_, _, _, _, _, (other, _, _), at) =
                    mysql_lock_queue_blocker-Blocked st.active_mysql_lock_queue s
                      (mysql_lock_priority requested) requested owner q in
                  rw (attempt-queue owner e q) (wait_for-IsSafe s owner st (rw at at other) h)
              | inl q ↦ rw (attempt-grant e q) (
                push_locks-Exclusive s requested st.active_mysql_locks own
                    (conflict_owner-Free s requested st.active_mysql_locks own e) h.0,
                NoCycle-remove_wait s st.active_mysql_lock_waits h.1,
              )
            ]
  ]

enqueue-same :
    (s : ℕ) (requested : List MySqlLock) (st : LockState)
    → ((enqueue s requested st).active_mysql_locks ≡ st.active_mysql_locks)
      × ((enqueue s requested st).active_mysql_lock_waits ≡ st.active_mysql_lock_waits)
unfolding enqueue
enqueue-same s requested st = (ground arith, ground arith)

Step-IsSafe : (a b : LockState) → Step a b → IsSafe a → IsSafe b
unfolding time_out remove_mysql_lock_waiter release_session_table_locks
    release_session_statement_locks
Step-IsSafe a _ (enqueue_step s requested _) h =
    let (locks, waits) = enqueue-same s requested a in rw (locks, waits) h
Step-IsSafe a _ (round s requested _ own) h = attempt-IsSafe s requested a own h
Step-IsSafe a _ (register s owner _ ne) h = wait_for-IsSafe s owner a ne h
Step-IsSafe a _ (give_up s _) (h, free) =
    (h, NoCycle-remove_wait s _ (NoCycle-remove_wait s a.active_mysql_lock_waits free))
Step-IsSafe a _ (leave s _) (h, free) = (h, NoCycle-remove_wait s a.active_mysql_lock_waits free)
Step-IsSafe a _ (release s _) (h, free) = (
  retain-Exclusive _ a.active_mysql_locks h,
  NoCycle-remove_wait s a.active_mysql_lock_waits free,
)
Step-IsSafe a _ (release_statement s _) (h, free) =
    (retain-Exclusive _ a.active_mysql_locks h, free)

-- Every step of any session, be it a round of an acquisition, a registered wait, a time-out or a
-- release, keeps it so that no two sessions hold conflicting locks and that no session waits for
-- itself through others; the requested locks of a round name its session as their owner.
pub Steps-IsSafe : (a b : LockState) → Steps a b → IsSafe a → IsSafe b
Steps-IsSafe a b (start _) h = h
Steps-IsSafe a c (then_step _ b _ steps move) h = Step-IsSafe b c move (Steps-IsSafe a b steps h)
