-- ===== src/Locks/Waits/Acyclic.antt =====
-- The wait graph of src/core/server/mysql_locks.rs never has a cycle.
use uni5db.Base.{ℕ, ◌≡◌, ◌≢◌, sym, subst, true, false, some, arith, ◌==◌, ◌⊎◌, inl, inr, Bool-cases}
use uni5db.Locks.Waits.{Waits, wait_of, insert_wait, remove_wait, mysql_register_lock_wait}
use uni5db.Locks.Waits.Graph.{
  Reaches, step, more, Reaches-trans, NoCycle, Reaches-sub, wait_of-remove_wait,
  wait_of-insert_wait,
}
use uni5db.Locks.Waits.Search.{mysql_register_lock_wait-decides}

module _ (waiter owner : ℕ) (w : Waits) where
  -- A path in the graph with the new wait either is in the old graph or uses the new wait.
  Through : ℕ → ℕ → Type 0
  Through a c =
      ((a ≡ waiter) ⊎ Reaches (insert_wait waiter owner w) a waiter)
      × ((owner ≡ c) ⊎ Reaches (insert_wait waiter owner w) owner c)

  old_wait :
      (a b : ℕ)
      → (waiter == a) ≡ false
      → wait_of a (insert_wait waiter owner w) ≡ some b
      → wait_of a w ≡ some b
  old_wait a b ne h = ground (arith, wait_of-insert_wait a waiter owner w)

  new_wait :
      (a b : ℕ)
      → (waiter == a) ≡ true
      → wait_of a (insert_wait waiter owner w) ≡ some b
      → (a ≡ waiter) × (owner ≡ b)
  new_wait a b eq h = (ground arith, ground (arith, wait_of-insert_wait a waiter owner w))

  through : (a c : ℕ) → Reaches (insert_wait waiter owner w) a c → Reaches w a c ⊎ Through a c
  unfolding Through
  through a c (step _ _ h) = elim (Bool-cases (waiter == a)) [
    | inr ne ↦ inl (step a c (old_wait a c ne h))
    | inl eq ↦ let (at, to) = new_wait a c eq h in inr (inl at, inl to)
  ]
  through a c (more _ b _ h r) = elim (Bool-cases (waiter == a)) [
    | inl eq ↦
        let (at, to) = new_wait a b eq h in
        inr (inl at, inr (subst (λ x. Reaches (insert_wait waiter owner w) x c) (sym to) r))
    | inr ne ↦ elim (through b c r) [
      | inl q ↦ inl (more a b c (old_wait a b ne h) q)
      | inr (inl at, tail) ↦ inr (inr (step a waiter (ground arith)), tail)
      | inr (inr q, tail) ↦ inr (inr (more a b waiter h q), tail)
    ]
  ]

  Through-cycle :
      (a : ℕ)
      → owner ≢ waiter
      → ¬ (Reaches (insert_wait waiter owner w) owner waiter)
      → ¬ (Through a a)
  unfolding Through
  Through-cycle a apart free (inl at, inl to) = apart (ground arith)
  Through-cycle a apart free (inl at, inr q) =
      free (subst (λ x. Reaches (insert_wait waiter owner w) owner x) at q)
  Through-cycle a apart free (inr r, inl to) =
      free (subst (λ x. Reaches (insert_wait waiter owner w) x waiter) (sym to) r)
  Through-cycle a apart free (inr r, inr q) =
      free (Reaches-trans (insert_wait waiter owner w) owner a waiter q r)

  -- Registering a wait for another session keeps the wait graph without a cycle, whether it succeeds
  -- or fails.
  pub NoCycle-mysql_register_lock_wait :
      owner ≢ waiter → NoCycle w → NoCycle (mysql_register_lock_wait waiter owner w).1
  NoCycle-mysql_register_lock_wait apart h =
      let whole : ¬ (Reaches (insert_wait waiter owner w) owner waiter)
          → NoCycle (insert_wait waiter owner w) =
        λ free a r. elim (through a a r) [ inl q ↦ h a q | inr t ↦ Through-cycle a apart free t ] in
      elim (mysql_register_lock_wait-decides waiter owner w) [
        | inr (free, e) ↦ rw e (whole free)
        | inl (r, e) ↦ rw e (λ a q. h a (
            Reaches-sub (remove_wait waiter (insert_wait waiter owner w)) w
              (λ b c e'. ground (
                arith,
                wait_of-remove_wait b waiter (insert_wait waiter owner w),
                wait_of-insert_wait b waiter owner w,
              ))
              a a q))
      ]
