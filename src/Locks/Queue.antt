-- ===== src/Locks/Queue.antt =====
-- The queue of waiting requests of src/core/server/mysql_locks.rs.
use uni5db.Base.{
  ℕ, ◌≡◌, refl, ap, Bool, true, false, List, [], ◌∷◌, ◌++◌, Option, none, some, arith, ◌==◌,
  if◌then◌else◌, any, All, Bool-cases, inl, inr,
}
use uni5db.Locks.{MySqlLock, MySqlLockWaiter, MySqlLockPriority, normal, high, metadata_write}
use uni5db.Locks.Conflict.{mysql_locks_conflict}

abbrev pub is_metadata_write : MySqlLock → Bool
is_metadata_write lock = elim lock.kind [ metadata_write ↦ true | _ ↦ false ]

unfoldable pub mysql_lock_priority : List MySqlLock → MySqlLockPriority
mysql_lock_priority locks = if any is_metadata_write locks then high else normal

-- The derived order: `Normal < High`.
abbrev pub priority_gt : MySqlLockPriority → MySqlLockPriority → Bool
priority_gt high normal = true
priority_gt _ _ = false

-- One of the queued locks conflicts with one of the requested.
abbrev pub any_conflict : List MySqlLock → List MySqlLock → Bool
any_conflict queued requested = any (λ q. any (λ r. mysql_locks_conflict q r) requested) queued

unfoldable pub mysql_lock_queue_blocker :
    List MySqlLockWaiter → ℕ → MySqlLockPriority → List MySqlLock → Option ℕ
mysql_lock_queue_blocker [] session_id priority requested = none
mysql_lock_queue_blocker (waiter ∷ queue) session_id priority requested =
    let rest = mysql_lock_queue_blocker queue session_id priority requested in
    if waiter.session_id == session_id
    then none
    else if priority_gt priority waiter.priority
    then rest
    else if any_conflict waiter.locks requested
    then some waiter.session_id
    else rest

-- A waiter that holds a request back: it is of another session, of no lower priority, and one of its
-- locks conflicts with one of the requested.
abbrev pub HoldsBack : ℕ → MySqlLockPriority → List MySqlLock → MySqlLockWaiter → Type 0
HoldsBack session_id priority requested waiter =
    ((waiter.session_id == session_id) ≡ false)
    × (priority_gt priority waiter.priority ≡ false)
    × (any_conflict waiter.locks requested ≡ true)

-- The first such waiter before the request's own place.
abbrev pub Blocked : List MySqlLockWaiter → ℕ → MySqlLockPriority → List MySqlLock → ℕ → Type 0
Blocked queue session_id priority requested blocker =
    (ahead : List MySqlLockWaiter) × (waiter : MySqlLockWaiter) × (behind : List MySqlLockWaiter)
    × (queue ≡ ahead ++ waiter ∷ behind)
    × All (λ w. (w.session_id == session_id) ≡ false) ahead
    × HoldsBack session_id priority requested waiter
    × (waiter.session_id ≡ blocker)

Blocked-later :
    (first : MySqlLockWaiter) (queue : List MySqlLockWaiter) (session_id : ℕ)
    (priority : MySqlLockPriority) (requested : List MySqlLock) (blocker : ℕ)
    → (first.session_id == session_id) ≡ false
    → Blocked queue session_id priority requested blocker
    → Blocked (first ∷ queue) session_id priority requested blocker
Blocked-later first queue session_id priority requested blocker other
      (ahead, waiter, behind, split, others, back, at) =
    (first ∷ ahead, waiter, behind, ap (◌∷◌ first) split, (other, others), back, at)

-- The session that the queue makes a request wait for is that of a waiter that holds it back, being
-- of another session, of no lower priority and in conflict with it, and that stands before the
-- request's own place.
pub mysql_lock_queue_blocker-Blocked :
    (queue : List MySqlLockWaiter) (session_id : ℕ) (priority : MySqlLockPriority)
    (requested : List MySqlLock) (blocker : ℕ)
    → mysql_lock_queue_blocker queue session_id priority requested ≡ some blocker
    → Blocked queue session_id priority requested blocker
unfolding mysql_lock_queue_blocker
mysql_lock_queue_blocker-Blocked [] session_id priority requested blocker h = cc
mysql_lock_queue_blocker-Blocked (waiter ∷ queue) session_id priority requested blocker h =
    let later : (waiter.session_id == session_id) ≡ false
        → mysql_lock_queue_blocker queue session_id priority requested ≡ some blocker
        → Blocked (waiter ∷ queue) session_id priority requested blocker =
      λ other e.
        Blocked-later waiter queue session_id priority requested blocker other
          (mysql_lock_queue_blocker-Blocked queue session_id priority requested blocker e) in
    elim (Bool-cases (waiter.session_id == session_id)) [
      | inl own ↦ absurd (ground arith)
      | inr other ↦ elim (Bool-cases (priority_gt priority waiter.priority)) [
        | inl over ↦ later other (ground arith)
        | inr under ↦ elim (Bool-cases (any_conflict waiter.locks requested)) [
          | inr free ↦ later other (ground arith)
          | inl meets ↦ ([], waiter, queue, refl, tt, (other, under, meets), ground arith)
        ]
      ]
    ]

never_held :
    (queue : List MySqlLockWaiter) (session_id : ℕ) (requested : List MySqlLock)
    → All (λ w. w.priority ≡ normal) queue
    → mysql_lock_queue_blocker queue session_id high requested ≡ none
unfolding mysql_lock_queue_blocker
never_held [] session_id requested h = refl
never_held (waiter ∷ queue) session_id requested (n, h) =
    rw (n, never_held queue session_id requested h) (ground arith)

-- A request for a metadata write is never held back by a queue of normal priority.
pub mysql_lock_queue_blocker-mysql_lock_priority :
    (queue : List MySqlLockWaiter) (session_id : ℕ) (requested : List MySqlLock)
    → All (λ w. w.priority ≡ normal) queue
    → any is_metadata_write requested ≡ true
    → mysql_lock_queue_blocker queue session_id (mysql_lock_priority requested) requested ≡ none
unfolding mysql_lock_priority
mysql_lock_queue_blocker-mysql_lock_priority queue session_id requested h w =
    rw w (never_held queue session_id requested h)
