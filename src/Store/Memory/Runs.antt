-- ===== src/Store/Memory/Runs.antt =====
-- Sequences of the operations of a transaction of src/mem_store.rs, against a specification that
-- keeps a whole copy of the store for each savepoint.
use uni5db.Base.{◌≡◌, List, [], ◌∷◌, ◌++◌, Option, none, some, if◌then◌else◌}
use uni5db.Bytes.{Bytes, bytes_eq}
use uni5db.Bytes.Ascii.{to_ascii_lowercase}
use uni5db.Store.Maps
use uni5db.Store.Maps.{insert, hash_insert, remove, IsMap, IsSorted}
use uni5db.Store.Memory
use uni5db.Store.Memory.{KvStore}
use uni5db.Store.Memory.Transaction
use uni5db.Store.Memory.Transaction.{
  Transaction, Pending, Outcome, done, missing, panicked, insert_all, begin_transaction, rposition,
}

pub data Op : Type 0 where
  put : Bytes → Bytes → Op
  put_batch : List (Bytes × Bytes) → Op
  delete : Bytes → Op
  savepoint : Bytes → Op
  rollback_to_savepoint : Bytes → Op
  release_savepoint : Bytes → Op

-- An operation that fails leaves the transaction as it was.
abbrev pub settle : Outcome → Transaction → Transaction
settle (done t) old = t
settle (missing name) old = old
settle panicked old = old

unfoldable pub apply : Op → Transaction → Transaction
apply (put key value) t = Transaction.put key value t
apply (put_batch entries) t = Transaction.put_batch entries t
apply (delete key) t = Transaction.delete key t
apply (savepoint name) t = Transaction.savepoint name t
apply (rollback_to_savepoint name) t = settle (Transaction.rollback_to_savepoint name t) t
apply (release_savepoint name) t = settle (Transaction.release_savepoint name t) t

unfoldable pub run : List Op → Transaction → Transaction
run [] t = t
run (op ∷ ops) t = run ops (apply op t)

-- The specification: the store as the transaction leaves it, and the copies of it that the
-- savepoints took, the last one first.
pub record Copies : Type 0 where
  pub current : KvStore
  pub saved : List (Bytes × KvStore)

-- The newest copy under a name, and the copies that are older than it.
abbrev pub newest : Bytes → List (Bytes × KvStore) → Option (KvStore × List (Bytes × KvStore))
newest name [] = none
newest name ((saved, store) ∷ older) =
    let rest = newest name older in if bytes_eq saved name then some (store, older) else rest

abbrev pub perform : Op → Copies → Copies
perform (put key value) c = record { current = Memory.put key value c.current; saved = c.saved }
perform (put_batch entries) c = record {
  current = Memory.put_batch entries c.current;
  saved = c.saved;
}
perform (delete key) c = record { current = Memory.delete key c.current; saved = c.saved }
perform (savepoint name) c = record {
  current = c.current;
  saved = (to_ascii_lowercase name, c.current) ∷ c.saved;
}
perform (rollback_to_savepoint name) c = elim (newest (to_ascii_lowercase name) c.saved) [
  | none ↦ c
  | some (store, older) ↦ record {
    current = store;
    saved = (to_ascii_lowercase name, store) ∷ older;
  }
]
perform (release_savepoint name) c = elim (newest (to_ascii_lowercase name) c.saved) [
  | none ↦ c
  | some (store, older) ↦ record { current = c.current; saved = older }
]

unfoldable pub perform_all : List Op → Copies → Copies
perform_all [] c = c
perform_all (op ∷ ops) c = perform_all ops (perform op c)

-- What a key has under pending writes over a store.
abbrev pub view : Pending → KvStore → Bytes → Option Bytes
view pending inner k = elim (Maps.get k pending) [ some v ↦ v | none ↦ Maps.get k inner ]

-- Pending writes over the store `inner` stand for a store.
abbrev pub StandsFor : KvStore → Pending → KvStore → Type 0
StandsFor inner pending store =
    IsSorted pending × ((k : Bytes) → view pending inner k ≡ Maps.get k store)

-- The savepoints, the oldest first, stand for the copies, the newest first.
abbrev pub Aligned : KvStore → List (Bytes × Pending) → List (Bytes × KvStore) → Type 0
Aligned inner savepoints [] = savepoints ≡ []
Aligned inner savepoints ((name, store) ∷ older) =
    (before : List (Bytes × Pending)) × (pending : Pending) × (savepoints
      ≡ before ++ (name, pending) ∷ [])
    × StandsFor inner pending store
    × Aligned inner before older

abbrev pub Refines : KvStore → Transaction → Copies → Type 0
Refines inner t c = StandsFor inner t.pending c.current × Aligned inner t.savepoints c.saved
