-- ===== src/Store/Memory/Refine.antt =====
-- A transaction of src/mem_store.rs does what the specification of Store/Memory/Runs.antt says.
use uni5db.Base.{◌≡◌, refl, ◌∙◌, List, [], ◌∷◌, arith}
use uni5db.Bytes.{Bytes}
use uni5db.Store.Maps
use uni5db.Store.Maps.{insert, hash_insert, remove, IsMap, IsSorted}
use uni5db.Store.Memory
use uni5db.Store.Memory.{KvStore}
use uni5db.Store.Memory.Transaction
use uni5db.Store.Memory.Transaction.{
  Transaction, Pending, insert_all, begin_transaction, rposition, snapshot_get, commit,
}
use uni5db.Store.Memory.Commit.{get-commit}
use uni5db.Store.Memory.Runs.{Op, Copies, apply, run, settle, perform, perform_all, Refines}
use uni5db.Store.Memory.Undo.{put_stands, delete_stands, put_batch_stands, undo-Refines}

apply-Refines :
    (op : Op) (inner : KvStore) (t : Transaction) (c : Copies)
    → Refines inner t c
    → Refines inner (apply op t) (perform op c)
unfolding apply Transaction.put Transaction.put_batch Transaction.delete Transaction.savepoint
    Memory.put Memory.delete
apply-Refines (Op.put k v) inner t c (h, al) = (put_stands k v inner c.current t.pending h, al)
apply-Refines (Op.put_batch es) inner t c (h, al) =
    (put_batch_stands es inner c.current t.pending h, al)
apply-Refines (Op.delete k) inner t c (h, al) = (delete_stands k inner c.current t.pending h, al)
apply-Refines (Op.savepoint name) inner t c (h, al) = (h, (t.savepoints, t.pending, refl, h, al))
apply-Refines (Op.rollback_to_savepoint name) inner t c h = (undo-Refines name t c inner h).0
apply-Refines (Op.release_savepoint name) inner t c h = (undo-Refines name t c inner h).1

run-Refines :
    (ops : List Op) (inner : KvStore) (t : Transaction) (c : Copies)
    → Refines inner t c
    → Refines inner (run ops t) (perform_all ops c)
unfolding run perform_all
run-Refines [] inner t c h = h
run-Refines (op ∷ ops) inner t c h =
    run-Refines ops inner (apply op t) (perform op c) (apply-Refines op inner t c h)

started :
    (snapshot inner : KvStore)
    → Refines inner (begin_transaction snapshot) (record { current = inner; saved = [] })
unfolding begin_transaction
started snapshot inner = ((tt, λ k. unfold Maps.get in refl), refl)

settle-snapshot :
    (name : Bytes) (t : Transaction)
    → ((settle (Transaction.rollback_to_savepoint name t) t).snapshot ≡ t.snapshot)
      × ((settle (Transaction.release_savepoint name t) t).snapshot ≡ t.snapshot)
unfolding Transaction.rollback_to_savepoint Transaction.release_savepoint
settle-snapshot name t = (ground arith, ground arith)

pub run-snapshot : (ops : List Op) (t : Transaction) → (run ops t).snapshot ≡ t.snapshot
unfolding run apply Transaction.put Transaction.put_batch Transaction.delete Transaction.savepoint
run-snapshot [] t = refl
run-snapshot (Op.rollback_to_savepoint name ∷ ops) t =
    run-snapshot ops _ ∙ (settle-snapshot name t).0
run-snapshot (Op.release_savepoint name ∷ ops) t = run-snapshot ops _ ∙ (settle-snapshot name t).1
run-snapshot (op ∷ ops) t = run-snapshot ops (apply op t)

abbrev pub copy_of : KvStore → Copies
copy_of inner = record { current = inner; saved = [] }

ran :
    (ops : List Op) (begun inner : KvStore)
    → Refines inner (run ops (begin_transaction begun)) (perform_all ops (copy_of inner))
ran ops begun inner =
    run-Refines ops inner (begin_transaction begun) (copy_of inner) (started begun inner)

-- The pending writes stay in the order of their keys.
pub run-IsSorted :
    (ops : List Op) (begun : KvStore) → IsSorted (run ops (begin_transaction begun)).pending
run-IsSorted ops begun = (ran ops begun begun).0.0

-- However the writes, savepoints, rollbacks to savepoints and releases of a transaction follow each
-- other, a key reads in the end as in the specification, which keeps a whole copy of the store for
-- each savepoint: `snapshot_get` as if the operations had been done on the store that the transaction
-- began on, and `get` as if they had been done on the store that it reads.
pub get-run :
    (ops : List Op) (begun inner : KvStore) (k : Bytes)
    → (snapshot_get k (run ops (begin_transaction begun))
        ≡ Memory.get k (perform_all ops (copy_of begun)).current)
      × (Transaction.get k (run ops (begin_transaction begun)) inner
          ≡ Memory.get k (perform_all ops (copy_of inner)).current)
unfolding Memory.get snapshot_get Transaction.get begin_transaction
get-run ops begun inner k = (
  rw (run-snapshot ops (begin_transaction begun)) ((ran ops begun begun).0.1 k),
  (ran ops begun inner).0.1 k,
)

-- A commit makes the store read as if the operations of the transaction had been done on the store
-- at the time of the commit, which has no key twice, in their order, and what others wrote to it in
-- between stands under them.
pub commit-run :
    (ops : List Op) (begun inner : KvStore) (k : Bytes)
    → IsMap inner
    → Memory.get k (commit (run ops (begin_transaction begun)) inner)
      ≡ Memory.get k (perform_all ops (copy_of inner)).current
commit-run ops begun inner k h =
    (get-commit k (run ops (begin_transaction begun)) inner h (ran ops begun inner).0.0).0
    ∙ (get-run ops begun inner k).1
