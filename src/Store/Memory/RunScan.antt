-- ===== src/Store/Memory/RunScan.antt =====
-- The scans of a transaction of src/mem_store.rs after any sequence of its operations, and the
-- errors of its savepoints.
use uni5db.Base.{
  ℕ, suc, ◌+◌, ◌≡◌, refl, Bool, true, false, List, [], ◌∷◌, Option, none, some, arith, get_elem?,
  take, All, Bool-cases, ◌⊎◌, inl, inr,
}
use uni5db.Bytes.{Bytes, bytes_eq}
use uni5db.Bytes.Ascii.{to_ascii_lowercase}
use uni5db.Storage.Prefix.{in_range}
use uni5db.Store.Maps.{IsMap}
use uni5db.Store.Maps.Sorted.{hash_insert-IsMap, remove-IsMap}
use uni5db.Store.Memory
use uni5db.Store.Memory.{KvStore, scan_range}
use uni5db.Store.Memory.Transaction
use uni5db.Store.Memory.Transaction.{
  Transaction, Pending, Outcome, done, missing, begin_transaction, rposition, materialize_range,
  rollback_to_savepoint, release_savepoint,
}
use uni5db.Store.Memory.Scan.{scan_range-Scans, materialize_range-Scans, Scans-unique}
use uni5db.Store.Memory.Runs.{Op, Copies, newest, run, perform, perform_all}
use uni5db.Store.Memory.Refine.{copy_of, get-run, run-IsSorted}

-- Every copy of the specification is a map.
abbrev AllMaps : List (Bytes × KvStore) → Type 0
AllMaps [] = Unit
AllMaps ((name, store) ∷ older) = IsMap store × AllMaps older

abbrev AreMaps : Copies → Type 0
AreMaps c = IsMap c.current × AllMaps c.saved

put_batch-IsMap :
    (entries : List (Bytes × Bytes)) (m : KvStore) → IsMap m → IsMap (Memory.put_batch entries m)
unfolding Memory.put_batch
put_batch-IsMap [] m h = h
put_batch-IsMap ((k, v) ∷ entries) m h = put_batch-IsMap entries _ (hash_insert-IsMap k v m h)

newest-IsMap :
    (name : Bytes) (saved : List (Bytes × KvStore))
    → AllMaps saved
    → (newest name saved ≡ none)
      ⊎ ((store : KvStore) × (older : List (Bytes × KvStore)) × (newest name saved
            ≡ some (store, older))
          × IsMap store
          × AllMaps older)
newest-IsMap name [] h = inl refl
newest-IsMap name ((n, store) ∷ older) (hs, h) = elim (Bool-cases (bytes_eq n name)) [
  | inl e ↦ inr (store, older, rw e, hs, h)
  | inr e ↦ rw e (newest-IsMap name older h)
]

settle_maps :
    (name : Bytes) (c : Copies)
    → AreMaps c
    → AreMaps (perform (Op.rollback_to_savepoint name) c)
      × AreMaps (perform (Op.release_savepoint name) c)
settle_maps name c (h, hs) = elim (newest-IsMap (to_ascii_lowercase name) c.saved hs) [
  | inl e ↦ rw (perform, e) ((h, hs), (h, hs))
  | inr (store, older, e, hm, ho) ↦ rw (perform, e) ((hm, (hm, ho)), (h, ho))
]

perform-AreMaps : (op : Op) (c : Copies) → AreMaps c → AreMaps (perform op c)
unfolding Memory.put Memory.delete
perform-AreMaps (Op.put k v) c (h, hs) = (hash_insert-IsMap k v c.current h, hs)
perform-AreMaps (Op.put_batch es) c (h, hs) = (put_batch-IsMap es c.current h, hs)
perform-AreMaps (Op.delete k) c (h, hs) = (remove-IsMap k c.current h, hs)
perform-AreMaps (Op.savepoint name) c (h, hs) = (h, (h, hs))
perform-AreMaps (Op.rollback_to_savepoint name) c h = (settle_maps name c h).0
perform-AreMaps (Op.release_savepoint name) c h = (settle_maps name c h).1

perform_all-AreMaps : (ops : List Op) (c : Copies) → AreMaps c → AreMaps (perform_all ops c)
unfolding perform_all
perform_all-AreMaps [] c h = h
perform_all-AreMaps (op ∷ ops) c h = perform_all-AreMaps ops (perform op c) (perform-AreMaps op c h)

-- Every range scan of a transaction after any sequence of its operations, backwards or limited, is
-- the scan of the store that the specification has after the same operations; the shared store has no
-- key twice, and no write of the transaction holds the lock of its pending writes.
pub materialize_range-run :
    (start : Bytes) (end : Option Bytes) (limit : Option ℕ) (backwards : Bool) (ops : List Op)
    (begun inner : KvStore)
    → IsMap inner
    → materialize_range true start end limit backwards (run ops (begin_transaction begun)) inner
      ≡ scan_range start end limit backwards (perform_all ops (copy_of inner)).current
materialize_range-run start end limit backwards ops begun inner h =
    let t : Transaction = run ops (begin_transaction begun) in
    let store : KvStore = (perform_all ops (copy_of inner)).current in
    Scans-unique (λ k. Transaction.get k t inner) (λ k. Memory.get k store) (in_range start end)
      limit backwards _ _ (λ k. (get-run ops begun inner k).1)
      (materialize_range-Scans start end limit backwards t inner h (run-IsSorted ops begun))
      (scan_range-Scans start end limit backwards store
        (perform_all-AreMaps ops (copy_of inner) (h, tt)).0)

rposition-cases :
    (name : Bytes) (savepoints : List (Bytes × Pending))
    → ((rposition name savepoints ≡ none) × All (λ s. bytes_eq s.0 name ≡ false) savepoints)
      ⊎ ((pos : ℕ) × (saved : Bytes × Pending) × (rposition name savepoints ≡ some pos)
          × (get_elem? savepoints pos ≡ some saved))
unfolding rposition
rposition-cases name [] = inl (refl, tt)
rposition-cases name ((n, p) ∷ savepoints) = elim (rposition-cases name savepoints) [
  | inr (pos, saved, e, read) ↦ inr (suc pos, saved, rw e, read)
  | inl (e, h) ↦ elim (Bool-cases (bytes_eq n name)) [
    | inl eq ↦ inr (0, (n, p), rw (e, eq), refl)
    | inr ne ↦ inl (rw (e, ne), (ne, h))
  ]
]

-- A rollback to a savepoint and a release of it fail with the name in lower case when no savepoint
-- has that name, and otherwise both succeed.
pub rollback_to_savepoint-total :
    (name : Bytes) (t : Transaction)
    → (All (λ s. bytes_eq s.0 (to_ascii_lowercase name) ≡ false) t.savepoints
        × (rollback_to_savepoint name t ≡ missing (to_ascii_lowercase name))
        × (release_savepoint name t ≡ missing (to_ascii_lowercase name)))
      ⊎ ((back kept : Transaction) × (rollback_to_savepoint name t ≡ done back)
          × (release_savepoint name t ≡ done kept))
unfolding rollback_to_savepoint release_savepoint
rollback_to_savepoint-total name t = elim (rposition-cases (to_ascii_lowercase name) t.savepoints) [
  | inl (e, h) ↦ inl (h, ground arith, ground arith)
  | inr (pos, saved, e, read) ↦ inr (
    record { snapshot = t.snapshot; pending = saved.1; savepoints = take (pos + 1) t.savepoints },
    record { snapshot = t.snapshot; pending = t.pending; savepoints = take pos t.savepoints },
    ground arith,
    ground arith,
  )
]
