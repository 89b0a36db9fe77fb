-- ===== src/Locks/Waits.antt =====
-- The wait graph of src/core/server/mysql_locks.rs: each waiting session and the one it waits for,
-- and the walk of `mysql_register_lock_wait` that looks for a deadlock.
pub mod Graph
pub mod Search
pub mod Acyclic
use uni5db.Base.{
  ℕ, zero, suc, ◌+◌, Bool, true, false, List, [], ◌∷◌, Option, none, some, ◌==◌, if◌then◌else◌, any,
}

-- `active_mysql_lock_waits`, a map from the waiter to the owner.
abbrev pub Waits : Type 0
Waits = List (ℕ × ℕ)

unfoldable pub wait_of : ℕ → Waits → Option ℕ
wait_of waiter [] = none
wait_of waiter ((w, owner) ∷ waits) = if w == waiter then some owner else wait_of waiter waits

unfoldable pub insert_wait : ℕ → ℕ → Waits → Waits
insert_wait waiter owner [] = (waiter, owner) ∷ []
insert_wait waiter owner ((w, o) ∷ waits) =
    if w == waiter then (w, owner) ∷ waits else (w, o) ∷ insert_wait waiter owner waits

unfoldable pub remove_wait : ℕ → Waits → Waits
remove_wait waiter [] = []
remove_wait waiter ((w, o) ∷ waits) =
    let rest = remove_wait waiter waits in if w == waiter then rest else (w, o) ∷ rest

abbrev pub contains : List ℕ → ℕ → Bool
contains seen session = any (λ s. s == session) seen

pub data WalkEnd : Type 0 where
  deadlock clear out_of_fuel : WalkEnd

-- The loop from `cursor`; `seen` are the sessions it came through.
unfoldable pub walk : ℕ → ℕ → List ℕ → ℕ → Waits → WalkEnd
walk zero waiter seen cursor waits = out_of_fuel
walk (suc fuel) waiter seen cursor waits = elim (wait_of cursor waits) [
  | none ↦ clear
  | some next ↦
      let rest = walk fuel waiter (cursor ∷ seen) next waits in
      if next == waiter then deadlock else if contains seen cursor then clear else rest
]

-- Every step but the last sees a new session that waits.
abbrev pub walk_fuel : Waits → ℕ
walk_fuel [] = 1
walk_fuel (w ∷ waits) = suc (walk_fuel waits)

-- The test after the loop: whether the owner waits for the waiter.
abbrev pub waits_back : ℕ → ℕ → Waits → Bool
waits_back waiter owner waits = elim (wait_of owner waits) [
  | none ↦ false
  | some next ↦ next == waiter
]

-- The result and the graph that is left.
unfoldable pub mysql_register_lock_wait : ℕ → ℕ → Waits → WalkEnd × Waits
mysql_register_lock_wait waiter owner waits =
    let inserted = insert_wait waiter owner waits in
    elim (walk (walk_fuel inserted) waiter [] owner inserted) [
      | deadlock ↦ (deadlock, remove_wait waiter inserted)
      | out_of_fuel ↦ (out_of_fuel, inserted)
      | clear ↦
          if waits_back waiter owner inserted
          then (deadlock, remove_wait waiter inserted)
          else (clear, inserted)
    ]
