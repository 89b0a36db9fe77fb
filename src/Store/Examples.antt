-- ===== src/Store/Examples.antt =====
-- A small store and a transaction of src/mem_store.rs, and what the theorems say of them.
use uni5db.Base.{◌≡◌, ◌⊎◌, refl, true, false, List, [], ◌∷◌, none, some, arith, All}
use uni5db.Bytes.{Bytes, IsByte, bytes_eq, bytes_lt}
use uni5db.Bytes.Ascii.{to_ascii_lowercase}
use uni5db.Store.Maps.{IsMap, IsSorted}
use uni5db.Bytes.BigEndian.{to_be_bytes-IsByte}
use uni5db.Types.Value.{int32}
use uni5db.Storage.Key.{encode_key_value}
use uni5db.Storage.Keys.{row_key}
use uni5db.Store.Maps
use uni5db.Store.Tables.{table_rows, memory_store, table_rows-row_key}
use uni5db.Store.Memory
use uni5db.Store.Memory.{KvStore, scan_prefix, scan_range}
use uni5db.Store.Memory.Transaction
use uni5db.Store.Memory.Transaction.{
  Transaction, Outcome, done, missing, begin_transaction, commit, snapshot_get, materialize_range,
  materialize_prefix, materialize_snapshot_range, rollback_to_savepoint,
}
use uni5db.Store.Memory.Commit.{scan_range-commit}
use uni5db.Store.Memory.Runs.{Op, put, delete, savepoint, run, perform_all}
use uni5db.Store.Memory.Refine.{copy_of, get-run, commit-run}
use uni5db.Store.Memory.RunScan.{materialize_range-run, rollback_to_savepoint-total}
use uni5db.Store.Memory.Savepoint.{rollback_to_savepoint-run}

abbrev one : Bytes
one = 1 ∷ []

abbrev two : Bytes
two = 2 ∷ []

abbrev a : Bytes
a = b'a' ∷ []

abbrev b : Bytes
b = b'b' ∷ []

-- Keys 2 and 1, as a hash map may hold them.
abbrev store : KvStore
store = (two, b) ∷ (one, a) ∷ []

store-IsMap : IsMap store
unfolding bytes_eq
store-IsMap = ((refl, tt), (tt, tt))

-- It deleted key 1 and wrote key 2.
abbrev writer : Transaction
writer = record {
  snapshot = store;
  pending = (one, none) ∷ (two, some a) ∷ [];
  savepoints = (b, []) ∷ [];
}

writer-IsSorted : IsSorted writer.pending
unfolding bytes_lt
writer-IsSorted = ((refl, tt), (tt, tt))

abbrev script : List Op
script = put one b ∷ savepoint a ∷ delete two ∷ Op.rollback_to_savepoint a ∷ []

get-run_example :
    (snapshot_get two (run script (begin_transaction store))
      ≡ Memory.get two (perform_all script (copy_of store)).current)
    × (Transaction.get two (run script (begin_transaction store)) []
        ≡ Memory.get two (perform_all script (copy_of [])).current)
get-run_example = get-run script store [] two

commit-run_example :
    Memory.get one (commit (run script (begin_transaction store)) store)
    ≡ Memory.get one (perform_all script (copy_of store)).current
commit-run_example = commit-run script store store one store-IsMap

materialize_range-run_example :
    materialize_range true [] none (some 1) true (run script (begin_transaction store)) store
    ≡ scan_range [] none (some 1) true (perform_all script (copy_of store)).current
materialize_range-run_example =
    materialize_range-run [] none (some 1) true script store store store-IsMap

rollback_to_savepoint-total_example :
    (All (λ s. bytes_eq s.0 (to_ascii_lowercase b) ≡ false) writer.savepoints
      × (rollback_to_savepoint b writer ≡ missing (to_ascii_lowercase b))
      × (Transaction.release_savepoint b writer ≡ missing (to_ascii_lowercase b)))
    ⊎ ((back kept : Transaction) × (rollback_to_savepoint b writer ≡ done back)
        × (Transaction.release_savepoint b writer ≡ done kept))
rollback_to_savepoint-total_example = rollback_to_savepoint-total b writer

rollback_to_savepoint-run_example :
    (rollback_to_savepoint a (run (put one b ∷ savepoint b ∷ []) (Transaction.savepoint a writer))
      ≡ done (Transaction.savepoint a writer))
    × (Transaction.release_savepoint a
          (run (put one b ∷ savepoint b ∷ []) (Transaction.savepoint a writer))
        ≡ done (record {
          snapshot = store;
          pending = (run (put one b ∷ savepoint b ∷ []) (Transaction.savepoint a writer)).pending;
          savepoints = writer.savepoints;
        }))
unfolding to_ascii_lowercase bytes_eq
rollback_to_savepoint-run_example =
    rollback_to_savepoint-run a (put one b ∷ savepoint b ∷ []) writer (tt, (refl, tt))

scan_range-commit_example :
    scan_range one none none true (commit writer store)
    ≡ materialize_range true one none none true writer store
scan_range-commit_example =
    scan_range-commit one none none true writer store store-IsMap writer-IsSorted

-- A store with a row of table 3.
abbrev rows : KvStore
rows = (row_key 3 1 (int32 5), a) ∷ []

five-bytes : All IsByte (encode_key_value (int32 5))
unfolding encode_key_value
five-bytes = (omega arith, to_be_bytes-IsByte 4 _)

table_rows-row_key_example :
    IsSorted (table_rows memory_store rows 4 1)
    × (Maps.get (row_key 3 1 (int32 5)) (table_rows memory_store rows 4 1) ≡ none)
table_rows-row_key_example =
    table_rows-row_key memory_store rows 4 1 3 1 (int32 5) (tt, tt) (omega arith) (omega arith)
      (omega arith) (omega arith) five-bytes
