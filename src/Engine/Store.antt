-- ===== src/Engine/Store.antt =====
-- `KvEngineStore` of src/kv_engine_store/store.rs, over the engine.
pub mod Scan
use uni5db.Base.{
  ℕ, ◌+◌, ◌-◌, ◌^◌, min, max, Bool, false, List, [], ◌∷◌, Option, none, some, map, length,
  if◌then◌else◌, Result, ok, err, user_error, ◌>>=◌,
}
use uni5db.Bytes.{Bytes}
use uni5db.Engine.{
  Engine, KeyOrder, RangeProjection, SchemalessRangeQuery, RangeBatch, entry_of, pair_of, order_of,
  query_of_range, query_of_prefix,
}
use uni5db.Engine.Read.{read_batches, push}
use uni5db.Store.Aggregate.Scan.{KvScanProjection}

abbrev pub projection_of : KvScanProjection → RangeProjection
projection_of KvScanProjection.key_only = RangeProjection.key_only
projection_of KvScanProjection.key_value = RangeProjection.key_value

-- `limit.unwrap_or(65_536)`
abbrev pub batch_limit : Option ℕ → ℕ
batch_limit none = 65536
batch_limit (some limit) = limit

abbrev pub query_projected :
    SchemalessRangeQuery
    → Bytes
    → Option Bytes
    → Option ℕ
    → Bool
    → KvScanProjection
    → SchemalessRangeQuery
query_projected default start end limit backwards projection = record {
  range_start = some start;
  range_end = end;
  scan_prefix = default.scan_prefix;
  order = order_of backwards;
  projection = projection_of projection;
  max_records_per_batch = some (max (batch_limit limit) 1);
}

-- The loop of `count_range`; the count stops at the largest `u64`.
unfoldable pub count_batches : List (Result RangeBatch) → ℕ → Result ℕ
count_batches [] count = err (user_error "XX000" "the cursor is at its end")
count_batches (next ∷ cursor) count = do
  batch ← next
  let counted = min (count + length batch.records) (2 ^ 64 - 1)
  let rest = count_batches cursor counted
  if batch.exhausted then ok counted else rest

module _ {S : Type 0} (engine : Engine S) where
  unfoldable pub put : Bytes → Bytes → S → Result S
  put key value table = engine.put key value table

  unfoldable pub put_batch : List (Bytes × Bytes) → S → Result S
  put_batch entries table = engine.write (map (λ entry. (entry.0, some entry.1)) entries) table

  unfoldable pub delete : Bytes → S → Result S
  delete key table = engine.delete key table

  unfoldable pub get : Bytes → S → Result (Option Bytes)
  get key table = engine.get key table

  unfoldable pub multi_get : List Bytes → S → Result (List (Option Bytes))
  multi_get keys table = engine.multi_get keys table

  unfoldable pub scan_prefix : Bytes → S → Result (List (Bytes × Bytes))
  scan_prefix prefix table = do
    cursor ← engine.range_query (query_of_prefix engine.default_query prefix) table
    read_batches (push pair_of) none cursor []

  unfoldable pub scan_range :
      Bytes → Option Bytes → Option ℕ → Bool → S → Result (List (Bytes × Bytes))
  scan_range start end limit backwards table = do
    cursor ←
        engine.range_query (query_of_range engine.default_query start end limit backwards) table
    read_batches (push pair_of) limit cursor []

  unfoldable pub scan_range_projected :
      Bytes
      → Option Bytes
      → Option ℕ
      → Bool
      → KvScanProjection
      → S
      → Result (List (Bytes × Option Bytes))
  scan_range_projected start end limit backwards projection table = do
    cursor ←
        engine.range_query
          (query_projected engine.default_query start end limit backwards projection) table
    read_batches (push entry_of) limit cursor []

  unfoldable pub count_range : Bytes → Option Bytes → S → Result ℕ
  count_range start end table = do
    cursor ←
        engine.range_query
          (query_projected engine.default_query start end none false KvScanProjection.key_only)
          table
    count_batches cursor 0
