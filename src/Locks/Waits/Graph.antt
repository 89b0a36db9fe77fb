-- ===== src/Locks/Waits/Graph.antt =====
-- Who waits for whom, directly or through others, in the wait graph of
-- src/core/server/mysql_locks.rs.
use uni5db.Base.{ℕ, ◌≡◌, ◌⊎◌, inl, inr, refl, [], ◌∷◌, none, some, arith, ◌==◌, if◌then◌else◌}
use uni5db.Locks.Waits.{Waits, wait_of, insert_wait, remove_wait}

-- `a` waits for `b`, in one step or more.
pub data Reaches (w : Waits) : ℕ → ℕ → Type 0 where
  step : (a b : ℕ) → wait_of a w ≡ some b → Reaches w a b
  more : (a b c : ℕ) → wait_of a w ≡ some b → Reaches w b c → Reaches w a c

pub wait_of-insert_wait :
    (a waiter owner : ℕ) (w : Waits)
    → wait_of a (insert_wait waiter owner w) ≡ (if waiter == a then some owner else wait_of a w)
unfolding wait_of insert_wait
wait_of-insert_wait a waiter owner [] = refl
wait_of-insert_wait a waiter owner ((v, o) ∷ w) =
    ground (arith, wait_of-insert_wait a waiter owner w)

pub wait_of-remove_wait :
    (a waiter : ℕ) (w : Waits)
    → wait_of a (remove_wait waiter w) ≡ (if waiter == a then none else wait_of a w)
unfolding wait_of remove_wait
wait_of-remove_wait a waiter [] = ground arith
wait_of-remove_wait a waiter ((v, o) ∷ w) = ground (arith, wait_of-remove_wait a waiter w)

-- No session waits for itself.
abbrev pub NoCycle : Waits → Type 0
NoCycle w = (a : ℕ) → ¬ (Reaches w a a)

pub Reaches-trans : (w : Waits) (a b c : ℕ) → Reaches w a b → Reaches w b c → Reaches w a c
Reaches-trans w a b c (step _ _ h) r = more a b c h r
Reaches-trans w a b c (more _ d _ h q) r = more a d c h (Reaches-trans w d b c q r)

pub Reaches-first :
    (w : Waits) (a c : ℕ)
    → Reaches w a c
    → (b : ℕ) × (wait_of a w ≡ some b) × ((b ≡ c) ⊎ Reaches w b c)
Reaches-first w a c (step _ _ h) = (c, h, inl refl)
Reaches-first w a c (more _ b _ h r) = (b, h, inr r)

-- Fewer waits reach less.
pub Reaches-sub :
    (w v : Waits)
    → ((a b : ℕ) → wait_of a w ≡ some b → wait_of a v ≡ some b)
    → (a b : ℕ) → Reaches w a b
    → Reaches v a b
Reaches-sub w v sub a b (step _ _ h) = step a b (sub a b h)
Reaches-sub w v sub a b (more _ c _ h r) = more a c b (sub a c h) (Reaches-sub w v sub c b r)

-- Removing a wait brings no cycle.
pub NoCycle-remove_wait : (waiter : ℕ) (w : Waits) → NoCycle w → NoCycle (remove_wait waiter w)
NoCycle-remove_wait waiter w h a r = h a (
    Reaches-sub (remove_wait waiter w) w (λ b c e. ground (arith, wait_of-remove_wait b waiter w)) a
      a r)
