-- ===== src/Locks/Manager/Held.antt =====
-- What a granted request holds, in src/core/server/mysql_locks.rs.
use uni5db.Base.{
  ℕ, ◌≡◌, refl, sym, subst, Bool, true, ◌||◌, List, [], ◌∷◌, ◌++◌, Option, none, some, arith, any,
  All, Bool-cases, inl, inr, ==_refl,
}
use uni5db.Bytes.{Bytes}
use uni5db.Bytes.Order.{bytes_eq_refl}
use uni5db.Locks.{
  MySqlLock, MySqlLockScope, MySqlLockDuration, MySqlLockKind, scope_eq, duration_eq, option_eq,
  kind_eq, lock_eq, record_lock, gap, next_key, insert_intention, index_record, index_gap,
  index_next_key, index_insert_intention,
}
use uni5db.Locks.Manager.{LockState, push_locks, grant}

option_eq_refl : (o : Option Bytes) → option_eq o o ≡ true
option_eq_refl none = refl
option_eq_refl (some b) = bytes_eq_refl b

scope_eq_refl : (s : MySqlLockScope) → scope_eq s s ≡ true
scope_eq_refl s = ground arith

duration_eq_refl : (d : MySqlLockDuration) → duration_eq d d ≡ true
duration_eq_refl d = ground arith

kind_eq_refl : (k : MySqlLockKind) → kind_eq k k ≡ true
unfolding kind_eq
kind_eq_refl (record_lock a) = bytes_eq_refl a
kind_eq_refl (gap a b) = rw (option_eq_refl a, option_eq_refl b)
kind_eq_refl (next_key a b) = rw (option_eq_refl a, option_eq_refl b)
kind_eq_refl (insert_intention a) = bytes_eq_refl a
kind_eq_refl (index_record i a) = rw (bytes_eq_refl i, bytes_eq_refl a)
kind_eq_refl (index_gap i a b) = rw (bytes_eq_refl i, option_eq_refl a, option_eq_refl b)
kind_eq_refl (index_next_key i a b) = rw (bytes_eq_refl i, option_eq_refl a, option_eq_refl b)
kind_eq_refl (index_insert_intention i a) = rw (bytes_eq_refl i, bytes_eq_refl a)
kind_eq_refl _ = refl

lock_eq_refl : (l : MySqlLock) → lock_eq l l ≡ true
unfolding lock_eq
lock_eq_refl l = rw (
  ==_refl l.owner,
  scope_eq_refl l.scope,
  duration_eq_refl l.duration,
  bytes_eq_refl l.database_name,
  bytes_eq_refl l.schema_name,
  bytes_eq_refl l.table_name,
  kind_eq_refl l.kind,
)

-- A lock like `l` is among the locks.
abbrev pub Held : List MySqlLock → MySqlLock → Type 0
Held locks l = any (λ e. lock_eq e l) locks ≡ true

any-snoc :
    (p : MySqlLock → Bool) (locks : List MySqlLock) (l : MySqlLock)
    → any p (locks ++ l ∷ []) ≡ (any p locks || p l)
any-snoc p [] l = ground arith
any-snoc p (e ∷ locks) l = ground (arith, any-snoc p locks l)

push_locks-keeps :
    (requested locks : List MySqlLock) (l : MySqlLock)
    → Held locks l
    → Held (push_locks requested locks) l
unfolding push_locks
push_locks-keeps [] locks l h = h
push_locks-keeps (r ∷ requested) locks l h = elim (Bool-cases (any (λ e. lock_eq e r) locks)) [
  | inl there ↦ rw there (push_locks-keeps requested locks l h)
  | inr new ↦
      rw new (
        push_locks-keeps requested (locks ++ r ∷ []) l
          (rw (any-snoc (λ e. lock_eq e l) locks r, h)))
]

push_locks-Held :
    (requested locks : List MySqlLock) → All (Held (push_locks requested locks)) requested
unfolding push_locks
push_locks-Held [] locks = tt
push_locks-Held (r ∷ requested) locks = elim (Bool-cases (any (λ e. lock_eq e r) locks)) [
  | inl there ↦
      let same : push_locks (r ∷ requested) locks ≡ push_locks requested locks = ground arith in
      subst (λ m. All (Held m) (r ∷ requested)) (sym same)
        (push_locks-keeps requested locks r there, push_locks-Held requested locks)
  | inr new ↦
      let same : push_locks (r ∷ requested) locks ≡ push_locks requested (locks ++ r ∷ []) =
        ground arith in
      subst (λ m. All (Held m) (r ∷ requested)) (sym same)
        (
          push_locks-keeps requested (locks ++ r ∷ []) r
              (rw (any-snoc (λ e. lock_eq e r) locks r, new, lock_eq_refl r)),
          push_locks-Held requested (locks ++ r ∷ []),
        )
]

-- After a grant every requested lock is held, and every lock that was held still is.
pub grant-Held :
    (s : ℕ) (requested : List MySqlLock) (st : LockState)
    → All (Held (grant s requested st).active_mysql_locks) requested
      × ((l : MySqlLock)
          → Held st.active_mysql_locks l
          → Held (grant s requested st).active_mysql_locks l)
unfolding grant
grant-Held s requested st = (
  push_locks-Held requested st.active_mysql_locks,
  λ l h. push_locks-keeps requested st.active_mysql_locks l h,
)
