-- ===== src/Store/Memory/Undo.antt =====
-- The writes of a transaction of src/mem_store.rs, and its rollbacks to savepoints and releases, do
-- what the specification of Store/Memory/Runs.antt says.
use uni5db.Base.{
  ℕ, suc, ◌+◌, ◌≡◌, refl, ap, ◌∙◌, true, false, List, [], ◌∷◌, ◌++◌, none, some, arith,
  if◌then◌else◌, length, get_elem?, take, take_append_length, Bool-cases, inl, inr, ◌⊎◌, take-suc,
  get_elem?_snoc, get_elem?_append,
}
use uni5db.Bytes.{Bytes, bytes_eq}
use uni5db.Bytes.Ascii.{to_ascii_lowercase}
use uni5db.Bytes.Order.{bytes_eq→eq}
use uni5db.Store.Maps.{insert, hash_insert, remove}
use uni5db.Store.Maps.Laws.{get-insert, get-hash_insert, get-remove}
use uni5db.Store.Maps.Sorted.{insert-IsSorted}
use uni5db.Store.Memory
use uni5db.Store.Memory.{KvStore}
use uni5db.Store.Memory.Transaction
use uni5db.Store.Memory.Transaction.{
  Transaction, Pending, insert_all, begin_transaction, rposition, snapshot_get, commit,
}
use uni5db.Store.Memory.Runs.{Op, Copies, newest, apply, perform, StandsFor, Aligned, Refines}

pub put_stands :
    (k v : Bytes) (inner store : KvStore) (pending : Pending)
    → StandsFor inner pending store
    → StandsFor inner (insert k (some v) pending) (hash_insert k v store)
put_stands k v inner store pending (sorted, same) = (
  insert-IsSorted k (some v) pending sorted,
  λ j. ground (arith, get-insert j k (some v) pending, get-hash_insert j k v store, same j),
)

pub delete_stands :
    (k : Bytes) (inner store : KvStore) (pending : Pending)
    → StandsFor inner pending store
    → StandsFor inner (insert k none pending) (remove k store)
delete_stands k inner store pending (sorted, same) = (
  insert-IsSorted k none pending sorted,
  λ j. ground (arith, get-insert j k none pending, get-remove j k store, same j),
)

pub put_batch_stands :
    (entries : List (Bytes × Bytes)) (inner store : KvStore) (pending : Pending)
    → StandsFor inner pending store
    → StandsFor inner (insert_all entries pending) (Memory.put_batch entries store)
unfolding insert_all Memory.put_batch
put_batch_stands [] inner store pending h = h
put_batch_stands ((k, v) ∷ entries) inner store pending h =
    put_batch_stands entries inner (hash_insert k v store) (insert k (some v) pending)
      (put_stands k v inner store pending h)

rposition-snoc :
    (name saved : Bytes) (pending : Pending) (before : List (Bytes × Pending))
    → rposition name (before ++ (saved, pending) ∷ [])
      ≡ (if bytes_eq saved name then some (length before) else rposition name before)
unfolding rposition
rposition-snoc name saved pending [] = ground arith
rposition-snoc name saved pending ((n, p) ∷ before) =
    ground (arith, rposition-snoc name saved pending before)

-- The newest savepoint under a name, in the transaction and in the specification.
abbrev Found : Bytes → KvStore → List (Bytes × Pending) → List (Bytes × KvStore) → Type 0
Found name inner savepoints saved =
    (pos : ℕ) × (pending : Pending) × (store : KvStore) × (older : List (Bytes × KvStore))
    × (rposition name savepoints ≡ some pos)
    × (get_elem? savepoints pos ≡ some (name, pending))
    × (newest name saved ≡ some (store, older))
    × StandsFor inner pending store
    × Aligned inner (take pos savepoints) older

module _ (name n : Bytes) (inner store : KvStore) (pending : Pending) where
  Found-here :
      (before : List (Bytes × Pending)) (older : List (Bytes × KvStore))
      → bytes_eq n name ≡ true
      → StandsFor inner pending store
      → Aligned inner before older
      → Found name inner (before ++ (n, pending) ∷ []) ((n, store) ∷ older)
  Found-here before older e stands aligned = (
    length before,
    pending,
    store,
    older,
    rposition-snoc name n pending before ∙ (rw e),
    get_elem?_snoc before (n, pending) ∙ ap (λ m. some (m, pending)) (bytes_eq→eq n name e),
    rw e,
    stands,
    rw (take_append_length before ((n, pending) ∷ [])) aligned,
  )

  Found-before :
      (before : List (Bytes × Pending)) (older : List (Bytes × KvStore))
      → bytes_eq n name ≡ false
      → Found name inner before older
      → Found name inner (before ++ (n, pending) ∷ []) ((n, store) ∷ older)
  Found-before before older e (pos, p, s, o, position, read, new, stands, aligned) =
      let (read', front) = get_elem?_append before ((n, pending) ∷ []) pos (name, p) read in
      (
        pos,
        p,
        s,
        o,
        rposition-snoc name n pending before ∙ (rw (e, position)),
        read',
        rw (e, new),
        stands,
        rw front aligned,
      )

find :
    (name : Bytes) (inner : KvStore) (savepoints : List (Bytes × Pending))
    (saved : List (Bytes × KvStore))
    → Aligned inner savepoints saved
    → ((rposition name savepoints ≡ none) × (newest name saved ≡ none))
      ⊎ Found name inner savepoints saved
find name inner savepoints [] h = inl (rw h (unfold rposition in refl), refl)
find name inner savepoints ((n, store) ∷ older) (before, pending, split, stands, aligned) =
    elim (Bool-cases (bytes_eq n name)) [
      | inl e ↦ inr (rw split (Found-here name n inner store pending before older e stands aligned))
      | inr e ↦ elim (find name inner before older aligned) [
        | inl (absent, none') ↦
            inl (rw split (rw (rposition-snoc name n pending before, e) absent), rw e none')
        | inr found ↦ inr (rw split (Found-before name n inner store pending before older e found))
      ]
    ]

-- The two operations in each of the cases.
module _ (name : Bytes) (t : Transaction) (c : Copies) where
  apply_missing :
      rposition (to_ascii_lowercase name) t.savepoints ≡ none
      → (apply (Op.rollback_to_savepoint name) t ≡ t) × (apply (Op.release_savepoint name) t ≡ t)
  unfolding apply Transaction.rollback_to_savepoint Transaction.release_savepoint
  apply_missing h = (ground arith, ground arith)

  perform_missing :
      newest (to_ascii_lowercase name) c.saved ≡ none
      → (perform (Op.rollback_to_savepoint name) c ≡ c)
        × (perform (Op.release_savepoint name) c ≡ c)
  perform_missing h = (rw (h, perform), rw (h, perform))

  apply_found :
      (pos : ℕ) (saved : Bytes × Pending)
      → rposition (to_ascii_lowercase name) t.savepoints ≡ some pos
      → get_elem? t.savepoints pos ≡ some saved
      → (apply (Op.rollback_to_savepoint name) t ≡ record {
        snapshot = t.snapshot;
        pending = saved.1;
        savepoints = take pos t.savepoints ++ saved ∷ [];
      })
        × (apply (Op.release_savepoint name) t ≡ record {
          snapshot = t.snapshot;
          pending = t.pending;
          savepoints = take pos t.savepoints;
        })
  unfolding apply Transaction.rollback_to_savepoint Transaction.release_savepoint
  apply_found pos saved h read =
      let next : pos + 1 ≡ suc pos = omega arith in
      (ground (arith, take-suc t.savepoints pos saved read), ground arith)

  perform_found :
      (store : KvStore) (older : List (Bytes × KvStore))
      → newest (to_ascii_lowercase name) c.saved ≡ some (store, older)
      → (perform (Op.rollback_to_savepoint name) c
          ≡ record { current = store; saved = (to_ascii_lowercase name, store) ∷ older })
        × (perform (Op.release_savepoint name) c ≡ record { current = c.current; saved = older })
  perform_found store older h = (rw (h, perform), ground arith)

  pub undo-Refines :
      (inner : KvStore)
      → Refines inner t c
      → Refines inner
          (apply (Op.rollback_to_savepoint name) t)
          (perform (Op.rollback_to_savepoint name) c)
        × Refines inner
            (apply (Op.release_savepoint name) t)
            (perform (Op.release_savepoint name) c)
  undo-Refines inner (stands, aligned) =
      elim (find (to_ascii_lowercase name) inner t.savepoints c.saved aligned) [
        | inl (absent, none') ↦
            let (a, a') = apply_missing absent in
            let (b, b') = perform_missing none' in
            (rw (a, b) (stands, aligned), rw (a', b') (stands, aligned))
        | inr (pos, p, s, o, position, read, new, st, al) ↦
            let (a, a') = apply_found pos (to_ascii_lowercase name, p) position read in
            let (b, b') = perform_found s o new in
            (rw (a, b) (st, (take pos t.savepoints, p, refl, st, al)), rw (a', b') (stands, al))
      ]
