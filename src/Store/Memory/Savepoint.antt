-- ===== src/Store/Memory/Savepoint.antt =====
-- Savepoints of the transactions of src/mem_store.rs: a rollback restores the transaction, a release
-- keeps its writes.
use uni5db.Base.{
  suc, ◌≡◌, refl, ap, ◌∙◌, false, List, [], ◌∷◌, ◌++◌, none, some, arith, length, get_elem?, take,
  append_assoc, All, All-append,
}
use uni5db.Bytes.{Bytes, bytes_eq}
use uni5db.Bytes.Ascii.{to_ascii_lowercase}
use uni5db.Bytes.Order.{bytes_eq_refl}
use uni5db.Store.Memory.Transaction
use uni5db.Store.Memory.Transaction.{Transaction, Pending, Outcome, done, missing, rposition}
use uni5db.Store.Memory.Runs.{Op, apply, run}
use uni5db.Store.Memory.Refine.{run-snapshot}

-- Writes, and savepoints under names other than `name`, which are compared in lower case.
abbrev pub KeepsSavepoint : Bytes → Op → Type 0
KeepsSavepoint name (Op.savepoint other) =
    bytes_eq (to_ascii_lowercase other) (to_ascii_lowercase name) ≡ false
KeepsSavepoint name (Op.rollback_to_savepoint other) = ⊥
KeepsSavepoint name (Op.release_savepoint other) = ⊥
KeepsSavepoint name _ = Unit

-- Savepoints under other names.
abbrev Others : Bytes → List (Bytes × Pending) → Type 0
Others name more = All (λ s. bytes_eq s.0 name ≡ false) more

module _ (name : Bytes) where
  rposition-Others : (more : List (Bytes × Pending)) → Others name more → rposition name more ≡ none
  unfolding rposition
  rposition-Others [] h = refl
  rposition-Others ((n, p) ∷ more) (hn, h) = rw (rposition-Others more h, hn)

  -- The newest savepoint under the name.
  rposition-last :
      (base more : List (Bytes × Pending)) (p : Pending)
      → Others name more
      → rposition name (base ++ (name, p) ∷ more) ≡ some (length base)
  unfolding rposition
  rposition-last [] more p h = rw (rposition-Others more h, bytes_eq_refl name)
  rposition-last ((n, q) ∷ base) more p h = rw (rposition-last base more p h)

module _ {ℓ} {A : Type ℓ} where
  get_elem?_mid : (base more : List A) (x : A) → get_elem? (base ++ x ∷ more) (length base) ≡ some x
  get_elem?_mid [] more x = refl
  get_elem?_mid (y ∷ base) more x = get_elem?_mid base more x

  take_mid :
      (base more : List A) (x : A)
      → (take (length base) (base ++ x ∷ more) ≡ base)
        × (take (suc (length base)) (base ++ x ∷ more) ≡ base ++ x ∷ [])
  take_mid [] more x = (refl, ground arith)
  take_mid (y ∷ base) more x = let (h, k) = take_mid base more x in (ap (◌∷◌ y) h, ap (◌∷◌ y) k)

-- The savepoint is still there, with only others above it.
abbrev Stands : Bytes → List (Bytes × Pending) → Pending → Transaction → Type 0
Stands name base p t =
    (more : List (Bytes × Pending)) × Others (to_ascii_lowercase name) more
    × (t.savepoints ≡ base ++ (to_ascii_lowercase name, p) ∷ more)

module _ (name : Bytes) (base : List (Bytes × Pending)) (p : Pending) where
  apply-Stands :
      (op : Op) (t : Transaction)
      → KeepsSavepoint name op
      → Stands name base p t
      → Stands name base p (apply op t)
  unfolding apply Transaction.put Transaction.put_batch Transaction.delete Transaction.savepoint
  apply-Stands (Op.put k v) t h s = s
  apply-Stands (Op.put_batch es) t h s = s
  apply-Stands (Op.delete k) t h s = s
  apply-Stands (Op.rollback_to_savepoint other) t h s = absurd h
  apply-Stands (Op.release_savepoint other) t h s = absurd h
  apply-Stands (Op.savepoint other) t h (more, others, split) =
      let top : List (Bytes × Pending) = (to_ascii_lowercase other, t.pending) ∷ [] in
      (
        more ++ top,
        All-append _ more top others (h, tt),
        rw split (append_assoc base ((to_ascii_lowercase name, p) ∷ more) top),
      )

  run-Stands :
      (ops : List Op) (t : Transaction)
      → All (KeepsSavepoint name) ops
      → Stands name base p t
      → Stands name base p (run ops t)
  unfolding run
  run-Stands [] t h s = s
  run-Stands (op ∷ ops) t (hop, h) s = run-Stands ops (apply op t) h (apply-Stands op t hop s)

  rollback-Stands :
      (t : Transaction)
      → Stands name base p t
      → (Transaction.rollback_to_savepoint name t
          ≡ done (record {
            snapshot = t.snapshot;
            pending = p;
            savepoints = base ++ (to_ascii_lowercase name, p) ∷ [];
          }))
        × (Transaction.release_savepoint name t
            ≡ done (record { snapshot = t.snapshot; pending = t.pending; savepoints = base }))
  unfolding Transaction.rollback_to_savepoint Transaction.release_savepoint
  rollback-Stands t (more, others, split) =
      let (front, whole) = take_mid base more (to_ascii_lowercase name, p) in
      let found =
        ap (rposition (to_ascii_lowercase name)) split
        ∙ rposition-last (to_ascii_lowercase name) base more p others in
      let read =
        ap (λ s. get_elem? s (length base)) split
        ∙ get_elem?_mid base more (to_ascii_lowercase name, p) in
      let front' = ap (take (length base)) split ∙ front in
      let whole' = ap (take (suc (length base))) split ∙ whole in (ground arith, ground arith)

-- After a savepoint, any writes and any savepoints under other names, a rollback to it gives the
-- transaction as it stood right after the savepoint, and a release of it gives the transaction with
-- the writes kept and with the savepoints as they stood before. Names differ when their lower-case
-- forms do.
pub rollback_to_savepoint-run :
    (name : Bytes) (ops : List Op) (t : Transaction)
    → All (KeepsSavepoint name) ops
    → (Transaction.rollback_to_savepoint name (run ops (Transaction.savepoint name t))
        ≡ done (Transaction.savepoint name t))
      × (Transaction.release_savepoint name (run ops (Transaction.savepoint name t))
          ≡ done (record {
            snapshot = t.snapshot;
            pending = (run ops (Transaction.savepoint name t)).pending;
            savepoints = t.savepoints;
          }))
unfolding Transaction.savepoint
rollback_to_savepoint-run name ops t h =
    let here =
      run-Stands name t.savepoints t.pending ops (Transaction.savepoint name t) h ([], tt, refl) in
    let (back, kept) =
      rollback-Stands name t.savepoints t.pending (run ops (Transaction.savepoint name t)) here in
    let same = run-snapshot ops (Transaction.savepoint name t) in
    (
      back
          ∙ ap
              (λ s. done (record {
                snapshot = s;
                pending = t.pending;
                savepoints = t.savepoints ++ (to_ascii_lowercase name, t.pending) ∷ [];
              }))
              same,
      kept
          ∙ ap
              (λ s. done (record {
                snapshot = s;
                pending = (run ops (Transaction.savepoint name t)).pending;
                savepoints = t.savepoints;
              }))
              same,
    )
