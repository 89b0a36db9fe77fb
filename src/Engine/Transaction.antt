-- ===== src/Engine/Transaction.antt =====
-- `KvEngineTransaction` of src/kv_engine_store/transaction.rs, over the engine. Its state is the pending
-- writes, kept and laid over rows as in src/mem_store.rs, with which it shares these functions here.
pub mod Scan
use uni5db.Base.{ℕ, Bool, true, false, List, [], ◌∷◌, Option, none, some, Result, ok, ◌>>=◌}
use uni5db.Bytes.{Bytes, starts_with}
use uni5db.Storage.Prefix.{in_range}
use uni5db.Store.Maps
use uni5db.Store.Maps.{Map, insert}
use uni5db.Store.Memory.Transaction.{Pending, insert_all, overlay, collect_range}
use uni5db.Engine.{Engine, RangeRecord, pair_of, query_of_range, query_of_prefix}
use uni5db.Engine.Read.{read_batches}

unfoldable pub begin_transaction : Pending
begin_transaction = []

unfoldable pub put : Bytes → Bytes → Pending → Pending
put key value pending = insert key (some value) pending

unfoldable pub put_batch : List (Bytes × Bytes) → Pending → Pending
put_batch entries pending = insert_all entries pending

unfoldable pub delete : Bytes → Pending → Pending
delete key pending = insert key none pending

unfoldable pub has_pending_key : Bytes → Pending → Bool
has_pending_key key pending = elim (Maps.get key pending) [ some _ ↦ true | none ↦ false ]

unfoldable pub rollback : Pending → Pending
rollback pending = []

abbrev pub inserted : Option (Bytes × Bytes) → Map Bytes → Map Bytes
inserted none rows = rows
inserted (some (key, value)) rows = insert key value rows

-- `rows.insert(...)` of the pair that a record has.
abbrev pub insert_pair : RangeRecord → Map Bytes → Map Bytes
insert_pair found rows = inserted (pair_of found) rows

module _ {S : Type 0} (engine : Engine S) where
  unfoldable pub get : Bytes → Pending → S → Result (Option Bytes)
  get key pending table = elim (Maps.get key pending) [
    | some value ↦ ok value
    | none ↦ engine.get key table
  ]

  unfoldable pub scan_prefix : Bytes → Pending → S → Result (List (Bytes × Bytes))
  scan_prefix prefix pending table = do
    cursor ← engine.range_query (query_of_prefix engine.default_query prefix) table
    rows ← read_batches insert_pair none cursor []
    ok (overlay (λ key. starts_with key prefix) pending rows)

  unfoldable pub scan_range :
      Bytes → Option Bytes → Option ℕ → Bool → Pending → S → Result (List (Bytes × Bytes))
  scan_range start end limit backwards pending table = do
    cursor ←
        engine.range_query (query_of_range engine.default_query start end limit backwards) table
    rows ← read_batches insert_pair limit cursor []
    ok (collect_range (overlay (in_range start end) pending rows) limit backwards)

  -- What is pending behind it, and the table or the error of the write.
  unfoldable pub commit : Pending → S → Pending × Result S
  commit [] table = ([], ok table)
  commit (entry ∷ pending) table = ([], engine.write (entry ∷ pending) table)
