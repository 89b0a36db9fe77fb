-- ===== src/Locks/Waits/Search.antt =====
-- The walk of `mysql_register_lock_wait` in src/core/server/mysql_locks.rs ends, and finds a deadlock
-- exactly when the owner waits for the waiter.
use uni5db.Base.{
  ℕ, zero, suc, ◌≤◌, ◌<◌, ◌≡◌, ◌≢◌, refl, true, false, List, [], ◌∷◌, some, arith, ◌==◌,
  if◌then◌else◌, ◌⊎◌, inl, inr, Bool-cases, Option-cases, ==_refl,
}
use uni5db.Locks.Waits.{
  Waits, WalkEnd, deadlock, clear, out_of_fuel, wait_of, insert_wait, remove_wait, contains, walk,
  walk_fuel, mysql_register_lock_wait,
}
use uni5db.Locks.Waits.Graph.{Reaches, step, more, Reaches-first}

-- How many waits begin at sessions that were not seen.
abbrev unseen : List ℕ → Waits → ℕ
unseen seen [] = 0
unseen seen ((w, o) ∷ waits) =
    let rest = unseen seen waits in if contains seen w then rest else suc rest

unseen-le :
    (cursor : ℕ) (seen : List ℕ) (waits : Waits) → unseen (cursor ∷ seen) waits ≤ unseen seen waits
unseen-le cursor seen [] = omega arith
unseen-le cursor seen ((w, o) ∷ waits) = ground (arith, unseen-le cursor seen waits)

unseen-lt :
    (cursor next : ℕ) (seen : List ℕ) (waits : Waits)
    → wait_of cursor waits ≡ some next
    → contains seen cursor ≡ false
    → unseen (cursor ∷ seen) waits < unseen seen waits
unfolding wait_of
unseen-lt cursor next seen [] h new = cc
unseen-lt cursor next seen ((w, o) ∷ waits) h new =
    ground (arith, unseen-le cursor seen waits, unseen-lt cursor next seen waits)

unseen-walk_fuel : (waits : Waits) → unseen [] waits < walk_fuel waits
unseen-walk_fuel [] = omega arith
unseen-walk_fuel (w ∷ waits) = omega (arith, unseen-walk_fuel waits)

walk-ends :
    (fuel waiter : ℕ) (seen : List ℕ) (cursor : ℕ) (waits : Waits)
    → unseen seen waits < fuel
    → walk fuel waiter seen cursor waits ≢ out_of_fuel
unfolding walk
walk-ends zero waiter seen cursor waits h = absurd (omega arith)
walk-ends (suc fuel) waiter seen cursor waits h = elim (Option-cases (wait_of cursor waits)) [
  | inl e ↦ λ k. ground arith
  | inr (next, e) ↦ λ k.
      ground
        (arith, walk-ends fuel waiter (cursor ∷ seen) next waits, unseen-lt cursor next seen waits)
]

-- A walk that finds the waiter came along waits.
deadlock-Reaches :
    (fuel waiter : ℕ) (seen : List ℕ) (cursor : ℕ) (waits : Waits)
    → walk fuel waiter seen cursor waits ≡ deadlock
    → Reaches waits cursor waiter
unfolding walk
deadlock-Reaches zero waiter seen cursor waits h = cc
deadlock-Reaches (suc fuel) waiter seen cursor waits h =
    elim (Option-cases (wait_of cursor waits)) [
      | inl e ↦ absurd (ground arith)
      | inr (next, e) ↦ elim (Bool-cases (next == waiter)) [
        | inl eq ↦ step cursor waiter (ground arith)
        | inr ne ↦
            more cursor next waiter e
              (deadlock-Reaches fuel waiter (cursor ∷ seen) next waits (ground arith))
      ]
    ]

-- The sessions seen wait for sessions seen or for the cursor, and none for the waiter.
abbrev Seen : ℕ → List ℕ → ℕ → Waits → Type 0
Seen waiter seen cursor waits =
    (s : ℕ)
    → contains seen s ≡ true
    → (t : ℕ) × (wait_of s waits ≡ some t)
      × (t ≢ waiter)
      × ((contains seen t ≡ true) ⊎ (t ≡ cursor))

closed-safe :
    (waits : Waits) (waiter : ℕ) (seen : List ℕ) (cursor : ℕ)
    → Seen waiter seen cursor waits
    → contains seen cursor ≡ true
    → (a : ℕ) → contains seen a ≡ true
    → ¬ (Reaches waits a waiter)
closed-safe waits waiter seen cursor inv back a ha (step _ _ h) =
    let (t, e, ne, _) = inv a ha in ne (ground arith)
closed-safe waits waiter seen cursor inv back a ha (more _ b _ h r) =
    let (t, e, ne, at) = inv a ha in
    let same : t ≡ b = ground arith in
    closed-safe waits waiter seen cursor inv back b
      (elim at [ inl k ↦ rw same at k | inr k ↦ rw (← same, k) back ]) r

Seen-step :
    (waiter : ℕ) (seen : List ℕ) (cursor next : ℕ) (waits : Waits)
    → Seen waiter seen cursor waits
    → wait_of cursor waits ≡ some next
    → (next == waiter) ≡ false
    → Seen waiter (cursor ∷ seen) next waits
Seen-step waiter seen cursor next waits inv e ne s h = elim (Bool-cases (cursor == s)) [
  | inl eq ↦ (next, ground arith, (λ k. ground arith), inr refl)
  | inr new ↦
      let (t, et, nt, at) = inv s (ground arith) in
      (
        t,
        et,
        nt,
        elim at [ inl k ↦ inl (ground arith) | inr k ↦ inl (ground (arith, ==_refl cursor)) ],
      )
]

clear-unreachable :
    (fuel waiter : ℕ) (seen : List ℕ) (cursor : ℕ) (waits : Waits)
    → Seen waiter seen cursor waits
    → walk fuel waiter seen cursor waits ≡ clear
    → ¬ (Reaches waits cursor waiter)
unfolding walk
clear-unreachable zero waiter seen cursor waits inv h = cc
clear-unreachable (suc fuel) waiter seen cursor waits inv h =
    elim (Option-cases (wait_of cursor waits)) [
      | inl e ↦ λ r. let (b, e', _) = Reaches-first waits cursor waiter r in absurd (ground arith)
      | inr (next, e) ↦ elim (Bool-cases (next == waiter)) [
        | inl eq ↦ absurd (ground arith)
        | inr ne ↦ elim (Bool-cases (contains seen cursor)) [
          | inl back ↦ closed-safe waits waiter seen cursor inv back cursor back
          | inr new ↦ λ r.
              let (b, e', at) = Reaches-first waits cursor waiter r in
              let same : b ≡ next = ground arith in
              elim at [
                | inl k ↦ absurd (ground arith)
                | inr q ↦
                    clear-unreachable fuel waiter (cursor ∷ seen) next waits
                      (Seen-step waiter seen cursor next waits inv e ne) (ground arith)
                      (rw same at q)
              ]
        ]
      ]
    ]

walk-decides :
    (waiter owner : ℕ) (waits : Waits)
    → ((walk (walk_fuel waits) waiter [] owner waits ≡ deadlock) × Reaches waits owner waiter)
      ⊎ ((walk (walk_fuel waits) waiter [] owner waits ≡ clear) × ¬ (Reaches waits owner waiter))
walk-decides waiter owner waits = go (walk (walk_fuel waits) waiter [] owner waits) refl
  where
    go :
        (end : WalkEnd)
        → walk (walk_fuel waits) waiter [] owner waits ≡ end
        → ((walk (walk_fuel waits) waiter [] owner waits ≡ deadlock) × Reaches waits owner waiter)
          ⊎ ((walk (walk_fuel waits) waiter [] owner waits ≡ clear)
              × ¬ (Reaches waits owner waiter))
    go deadlock e = inl (e, deadlock-Reaches (walk_fuel waits) waiter [] owner waits e)
    go clear e = inr (e, clear-unreachable (walk_fuel waits) waiter [] owner waits (λ s h. cc) e)
    go out_of_fuel e =
        absurd (walk-ends (walk_fuel waits) waiter [] owner waits (unseen-walk_fuel waits) e)

-- Registering a wait fails with a deadlock, and takes the wait back, exactly when the owner then
-- waits for the waiter, directly or through others; otherwise it succeeds and the wait stays. It
-- always ends.
pub mysql_register_lock_wait-decides :
    (waiter owner : ℕ) (waits : Waits)
    → (Reaches (insert_wait waiter owner waits) owner waiter
        × (mysql_register_lock_wait waiter owner waits
            ≡ (deadlock, remove_wait waiter (insert_wait waiter owner waits))))
      ⊎ (¬ (Reaches (insert_wait waiter owner waits) owner waiter)
          × (mysql_register_lock_wait waiter owner waits ≡ (clear, insert_wait waiter owner waits)))
unfolding mysql_register_lock_wait
mysql_register_lock_wait-decides waiter owner waits =
    let inserted : Waits = insert_wait waiter owner waits in
    elim (walk-decides waiter owner inserted) [
      | inl (e, r) ↦ inl (r, ground arith)
      | inr (e, free) ↦ inr (
        free,
        elim (Option-cases (wait_of owner inserted)) [
          | inl none' ↦ ground arith
          | inr (next, some') ↦ elim (Bool-cases (next == waiter)) [
            | inr ne ↦ ground arith
            | inl eq ↦ absurd (free (step owner waiter (ground arith)))
          ]
        ],
      )
    ]
