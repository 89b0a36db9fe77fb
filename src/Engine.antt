-- ===== src/Engine.antt =====
-- The storage engine that src/kv_engine_store calls, as a parameter: the tables of the external
-- library `kv_engine`, with the queries and batches that its cursors take and give.
pub mod Read
pub mod Store
pub mod Transaction
mod Examples
use uni5db.Base.{
  ℕ, max, ◌≡◌, Bool, true, false, ◌&&◌, List, [], ◌∷◌, ◌++◌, Option, none, some, map, reverse,
  Result, ok,
}
use uni5db.Bytes.{Bytes, starts_with}
use uni5db.Storage.Prefix.{in_range}
use uni5db.Store.Maps
use uni5db.Store.Maps.{filter, sort_by_key}
use uni5db.Store.Memory.{KvStore}

pub data KeyOrder : Type 0 where
  asc desc : KeyOrder

pub data RangeProjection : Type 0 where
  key_only key_value : RangeProjection

-- The bounds, of which the upper one is not in the range, and the size of a batch.
pub record SchemalessRangeQuery : Type 0 where
  pub range_start : Option Bytes
  pub range_end : Option Bytes
  pub scan_prefix : Option Bytes
  pub order : KeyOrder
  pub projection : RangeProjection
  pub max_records_per_batch : Option ℕ

pub record RangeRecord : Type 0 where
  pub key : Option Bytes
  pub value : Option Bytes

pub record RangeBatch : Type 0 where
  pub records : List RangeRecord
  pub exhausted : Bool

-- A query gives what its cursor's `next_batch` gives one after the other. `write` is a
-- `SchemalessWriteBatch` built from puts and deletions and written at once.
pub record Engine (S : Type 0) : Type 0 where
  pub default_query : SchemalessRangeQuery
  pub range_query : SchemalessRangeQuery → S → Result (List (Result RangeBatch))
  pub get : Bytes → S → Result (Option Bytes)
  pub multi_get : List Bytes → S → Result (List (Option Bytes))
  pub put : Bytes → Bytes → S → Result S
  pub delete : Bytes → S → Result S
  pub write : List (Bytes × Option Bytes) → S → Result S

-- `SchemalessRangeQuery::default()` asks for all keys with their values, in their order.
pub record IsPlain (q : SchemalessRangeQuery) : Type 0 where
  pub from_all : q.range_start ≡ none
  pub to_all : q.range_end ≡ none
  pub no_prefix : q.scan_prefix ≡ none
  pub in_order : q.order ≡ KeyOrder.asc
  pub with_values : q.projection ≡ RangeProjection.key_value

-- The last batch, and no other, is marked as exhausted.
abbrev pub Ends : List RangeBatch → Type 0
Ends [] = ⊥
Ends (batch ∷ []) = batch.exhausted ≡ true
Ends (batch ∷ next ∷ batches) = (batch.exhausted ≡ false) × Ends (next ∷ batches)

-- The rows of records, of those that have one.
abbrev pub joined : {A : Type 0} → Option A → List A → List A
joined none rows = rows
joined (some row) rows = row ∷ rows

abbrev pub rows_in : {A : Type 0} → (RangeRecord → Option A) → List RangeRecord → List A
rows_in row_of [] = []
rows_in row_of (found ∷ records) = joined (row_of found) (rows_in row_of records)

abbrev pub rows_of : {A : Type 0} → (RangeRecord → Option A) → List RangeBatch → List A
rows_of row_of [] = []
rows_of row_of (batch ∷ batches) = rows_in row_of batch.records ++ rows_of row_of batches

abbrev pub within_bounds : Option Bytes → Option Bytes → Bytes → Bool
within_bounds none none k = true
within_bounds none (some end) k = in_range [] (some end) k
within_bounds (some start) end k = in_range start end k

abbrev pub with_prefix : Option Bytes → Bool → Bytes → Bool
with_prefix none inside k = inside
with_prefix (some p) inside k = inside && starts_with k p

abbrev pub in_query : SchemalessRangeQuery → Bytes → Bool
in_query q k = with_prefix q.scan_prefix (within_bounds q.range_start q.range_end k) k

abbrev pub ordered : {A : Type 0} → KeyOrder → List A → List A
ordered KeyOrder.asc rows = rows
ordered KeyOrder.desc rows = reverse rows

abbrev pub projected : RangeProjection → Bytes × Bytes → Bytes × Option Bytes
projected RangeProjection.key_only row = (row.0, none)
projected RangeProjection.key_value row = (row.0, some row.1)

-- `record.key` with `record.value`.
abbrev pub entry_of : RangeRecord → Option (Bytes × Option Bytes)
entry_of found = elim found.key [ none ↦ none | some key ↦ some (key, found.value) ]

-- The engine holds the entries of a store, and answers the query by those of its range, in its order
-- and with what it asks of them.
pub record Answers {S : Type 0} (engine : Engine S) (table : S) (inner : KvStore)
    (q : SchemalessRangeQuery) : Type 0 where
  pub batches : List RangeBatch
  pub answered : engine.range_query q table ≡ ok (map ok batches)
  pub ends : Ends batches
  pub delivered :
      rows_of entry_of batches
      ≡ map (projected q.projection) (ordered q.order (sort_by_key (filter (in_query q) inner)))

-- `if let (Some(key), Some(value)) = (record.key, record.value)`
abbrev pub pair_of : RangeRecord → Option (Bytes × Bytes)
pair_of found = elim found.key [
  | none ↦ none
  | some key ↦ elim found.value [ none ↦ none | some value ↦ some (key, value) ]
]

-- The query of the keys from `start` on and below `end`, with a budget for the limit.
abbrev pub order_of : Bool → KeyOrder
order_of true = KeyOrder.desc
order_of false = KeyOrder.asc

abbrev pub budget : Option ℕ → Option ℕ → Option ℕ
budget none unchanged = unchanged
budget (some limit) unchanged = some (max limit 1)

abbrev pub query_of_range :
    SchemalessRangeQuery → Bytes → Option Bytes → Option ℕ → Bool → SchemalessRangeQuery
query_of_range default start end limit backwards = record {
  range_start = some start;
  range_end = end;
  scan_prefix = default.scan_prefix;
  order = order_of backwards;
  projection = default.projection;
  max_records_per_batch = budget limit default.max_records_per_batch;
}

abbrev pub query_of_prefix : SchemalessRangeQuery → Bytes → SchemalessRangeQuery
query_of_prefix default prefix = record {
  range_start = default.range_start;
  range_end = default.range_end;
  scan_prefix = some prefix;
  order = default.order;
  projection = default.projection;
  max_records_per_batch = default.max_records_per_batch;
}
