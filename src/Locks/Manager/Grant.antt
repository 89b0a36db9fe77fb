-- ===== src/Locks/Manager/Grant.antt =====
-- When the lock manager of src/core/server/mysql_locks.rs grants, and what it then holds.
use uni5db.Base.{
  ℕ, ◌≡◌, ◌∙◌, Bool, true, false, List, [], ◌∷◌, ◌++◌, none, some, arith, ◌==◌, any, All,
  All-append, All-map, All-zip, ◌⊎◌, inl, inr, Bool-cases, Option-cases, ==_refl,
}
use uni5db.Locks.{MySqlLock, lock_eq}
use uni5db.Locks.Conflict.{mysql_locks_conflict}
use uni5db.Locks.Conflict.Symmetry.{mysql_locks_conflict_sym}
use uni5db.Locks.Manager.{find_conflict, conflict_owner, push_locks, retain}

-- Two locks that may be held at once: of one session, or without a conflict.
abbrev pub Free : MySqlLock → MySqlLock → Type 0
Free a b = ((a.owner == b.owner) ≡ true) ⊎ (mysql_locks_conflict a b ≡ false)

-- No two sessions hold conflicting locks.
abbrev pub Exclusive : List MySqlLock → Type 0
Exclusive locks = All (λ a. All (λ b. Free a b) locks) locks

Free-sym : (a b : MySqlLock) → Free a b → Free b a
Free-sym a b (inl h) = inl (ground arith)
Free-sym a b (inr h) = inr (mysql_locks_conflict_sym b a ∙ h)

module _ (session_id : ℕ) where
  -- Without a conflict, every lock that is held may stand beside the requested one.
  find_conflict-Free :
      (lock : MySqlLock) (locks : List MySqlLock)
      → lock.owner ≡ session_id
      → find_conflict session_id lock locks ≡ none
      → All (λ e. Free e lock) locks
  unfolding find_conflict
  find_conflict-Free lock [] own h = tt
  find_conflict-Free lock (e ∷ locks) own h = elim (Bool-cases (e.owner == session_id)) [
    | inl same ↦ (inl (rw own same), find_conflict-Free lock locks own (ground arith))
    | inr other ↦ elim (Bool-cases (mysql_locks_conflict e lock)) [
      | inl meets ↦ absurd (ground arith)
      | inr free ↦ (inr free, find_conflict-Free lock locks own (ground arith))
    ]
  ]

  pub conflict_owner-Free :
      (requested locks : List MySqlLock)
      → All (λ l. l.owner ≡ session_id) requested
      → conflict_owner session_id requested locks ≡ none
      → All (λ l. All (λ e. Free e l) locks) requested
  unfolding conflict_owner
  conflict_owner-Free [] locks own h = tt
  conflict_owner-Free (l ∷ requested) locks (o, own) h =
      elim (Option-cases (find_conflict session_id l locks)) [
        | inl e ↦
            (find_conflict-Free l locks o e, conflict_owner-Free requested locks own (ground arith))
        | inr (owner, e) ↦ absurd (ground arith)
      ]

  -- The owner that a request waits for is another session.
  find_conflict-other :
      (lock : MySqlLock) (locks : List MySqlLock) (owner : ℕ)
      → find_conflict session_id lock locks ≡ some owner
      → (owner == session_id) ≡ false
  unfolding find_conflict
  find_conflict-other lock [] owner h = cc
  find_conflict-other lock (e ∷ locks) owner h =
      ground (arith, find_conflict-other lock locks owner)

  pub conflict_owner-other :
      (requested locks : List MySqlLock) (owner : ℕ)
      → conflict_owner session_id requested locks ≡ some owner
      → (owner == session_id) ≡ false
  unfolding conflict_owner
  conflict_owner-other [] locks owner h = cc
  conflict_owner-other (l ∷ requested) locks owner h =
      elim (Option-cases (find_conflict session_id l locks)) [
        | inl e ↦ conflict_owner-other requested locks owner (ground arith)
        | inr (o, e) ↦ find_conflict-other l locks owner (ground arith)
      ]

  push-Exclusive :
      (locks : List MySqlLock) (l : MySqlLock)
      → Exclusive locks
      → All (λ e. Free e l) locks
      → Exclusive (locks ++ l ∷ [])
  push-Exclusive locks l h free =
      All-append _ locks (l ∷ [])
        (All-zip (λ a. All (λ b. Free a b) locks) (λ a. Free a l)
          (λ a. All (λ b. Free a b) (locks ++ l ∷ []))
          (λ a k f. All-append _ locks (l ∷ []) k (f, tt)) locks h free)
        (
          All-append _ locks (l ∷ [])
              (All-map (λ e. Free e l) (λ e. Free l e) (λ e f. Free-sym e l f) locks free)
              (inl (==_refl l.owner), tt),
          tt,
        )

  pub push_locks-Exclusive :
      (requested locks : List MySqlLock)
      → All (λ l. l.owner ≡ session_id) requested
      → All (λ l. All (λ e. Free e l) locks) requested
      → Exclusive locks
      → Exclusive (push_locks requested locks)
  unfolding push_locks
  push_locks-Exclusive [] locks own free h = h
  push_locks-Exclusive (l ∷ requested) locks (o, own) (f, free) h =
      elim (Bool-cases (any (λ e. lock_eq e l) locks)) [
        | inl there ↦ rw there (push_locks-Exclusive requested locks own free h)
        | inr new ↦ rw new (
            push_locks-Exclusive requested (locks ++ l ∷ []) own
              (All-zip (λ r. r.owner ≡ session_id) (λ r. All (λ e. Free e r) locks)
                (λ r. All (λ e. Free e r) (locks ++ l ∷ []))
                (λ r p k. All-append _ locks (l ∷ []) k (inl (rw (o, p) (==_refl session_id)), tt))
                requested own free)
              (push-Exclusive locks l h f))
      ]

retain-All :
    (P : MySqlLock → Type 0) (keep : MySqlLock → Bool) (ls : List MySqlLock)
    → All P ls
    → All P (retain keep ls)
unfolding retain
retain-All P keep [] h = tt
retain-All P keep (l ∷ ls) (hl, h) = elim (Bool-cases (keep l)) [
  | inl k ↦ rw k (hl, retain-All P keep ls h)
  | inr k ↦ rw k (retain-All P keep ls h)
]

pub retain-Exclusive :
    (keep : MySqlLock → Bool) (ls : List MySqlLock) → Exclusive ls → Exclusive (retain keep ls)
retain-Exclusive keep ls h =
    retain-All (λ a. All (λ b. Free a b) (retain keep ls)) keep ls
      (All-map (λ a. All (λ b. Free a b) ls) (λ a. All (λ b. Free a b) (retain keep ls))
        (λ a k. retain-All (λ b. Free a b) keep ls k) ls h)
