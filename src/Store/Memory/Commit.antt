-- ===== src/Store/Memory/Commit.antt =====
-- `commit` of src/mem_store.rs publishes what the transaction saw.
use uni5db.Base.{ℕ, ◌≡◌, refl, Bool, true, [], ◌∷◌, Option, none, some, arith}
use uni5db.Bytes.{Bytes}
use uni5db.Bytes.Order.{bytes_eq→eq}
use uni5db.Storage.Prefix.{in_range}
use uni5db.Store.Maps
use uni5db.Store.Maps.{hash_insert, remove, IsMap, IsSorted}
use uni5db.Store.Maps.Laws.{get-hash_insert, get-remove}
use uni5db.Store.Maps.Keys.{get-below}
use uni5db.Store.Maps.Sorted.{hash_insert-IsMap, remove-IsMap}
use uni5db.Store.Memory
use uni5db.Store.Memory.{KvStore, scan_range}
use uni5db.Store.Memory.Transaction
use uni5db.Store.Memory.Transaction.{
  Transaction, Pending, publish, commit, begin_transaction, materialize_range,
}
use uni5db.Store.Memory.Scan.{scan_range-Scans, materialize_range-Scans, Scans-unique}

get-publish :
    (j : Bytes) (pending : Pending) (inner : KvStore)
    → IsSorted pending
    → Maps.get j (publish pending inner)
      ≡ (elim (Maps.get j pending) [ some v ↦ v | none ↦ Maps.get j inner ])
unfolding publish Maps.get
get-publish j [] inner h = refl
get-publish j ((k, none) ∷ pending) inner (hk, h) =
    let absent = get-below k pending hk in
    ground (arith, get-publish j pending (remove k inner) h, get-remove j k inner, bytes_eq→eq k j)
get-publish j ((k, some v) ∷ pending) inner (hk, h) =
    let absent = get-below k pending hk in
    ground (
      arith,
      get-publish j pending (hash_insert k v inner) h,
      get-hash_insert j k v inner,
      bytes_eq→eq k j,
    )

publish-IsMap : (pending : Pending) (inner : KvStore) → IsMap inner → IsMap (publish pending inner)
unfolding publish
publish-IsMap [] inner h = h
publish-IsMap ((k, none) ∷ pending) inner h =
    publish-IsMap pending (remove k inner) (remove-IsMap k inner h)
publish-IsMap ((k, some v) ∷ pending) inner h =
    publish-IsMap pending (hash_insert k v inner) (hash_insert-IsMap k v inner h)

-- After a commit the store has for every key what the transaction read for it before, and no key
-- twice, if the store had no key twice and the pending writes were in the order of their keys.
pub get-commit :
    (k : Bytes) (t : Transaction) (inner : KvStore)
    → IsMap inner
    → IsSorted t.pending
    → (Memory.get k (commit t inner) ≡ Transaction.get k t inner) × IsMap (commit t inner)
unfolding commit Memory.get Transaction.get
get-commit k t inner h hp = (get-publish k t.pending inner hp, publish-IsMap t.pending inner h)

-- Every range scan of the store after a commit, backwards or limited, is the scan that the
-- transaction would have made before it, if the store had no key twice and the pending writes were in
-- the order of their keys.
pub scan_range-commit :
    (start : Bytes) (end : Option Bytes) (limit : Option ℕ) (backwards : Bool) (t : Transaction)
    (inner : KvStore)
    → IsMap inner
    → IsSorted t.pending
    → scan_range start end limit backwards (commit t inner)
      ≡ materialize_range true start end limit backwards t inner
scan_range-commit start end limit backwards t inner h hp =
    Scans-unique (λ k. Memory.get k (commit t inner)) (λ k. Transaction.get k t inner)
      (in_range start end) limit backwards _ _ (λ k. (get-commit k t inner h hp).0)
      (scan_range-Scans start end limit backwards (commit t inner) (get-commit [] t inner h hp).1)
      (materialize_range-Scans start end limit backwards t inner h hp)
