-- ===== src/Engine/Examples.antt =====
-- An engine over a map, the scans of src/kv_engine_store over it, and what the theorems say of them.
use uni5db.Base.{
  ◌≡◌, refl, ap, ◌∙◌, true, false, List, [], ◌∷◌, Option, none, some, map, append-nil, ok,
}
use uni5db.Bytes
use uni5db.Bytes.{Bytes}
use uni5db.Storage.Prefix
use uni5db.Store.Maps
use uni5db.Store.Maps.{IsMap, filter, sort_by_key}
use uni5db.Store.Memory
use uni5db.Store.Memory.{KvStore}
use uni5db.Store.Memory.Transaction
use uni5db.Store.Memory.Transaction.{Transaction, Pending, materialize_range}
use uni5db.Engine.{
  Engine, KeyOrder, RangeProjection, SchemalessRangeQuery, RangeRecord, RangeBatch, IsPlain,
  Answers, rows_in, entry_of, ordered, projected, in_query,
}
use uni5db.Engine.Read
use uni5db.Engine.Store
use uni5db.Engine.Store.Scan.{scan_range-scan_range}
use uni5db.Engine.Transaction as EngineTransaction
use uni5db.Engine.Transaction.Scan.{scan_range-materialize_range, scan_range-limited}

abbrev record_of : Bytes × Option Bytes → RangeRecord
record_of entry = record { key = some entry.0; value = entry.1 }

abbrev entries : SchemalessRangeQuery → KvStore → List (Bytes × Option Bytes)
entries q inner =
    map (projected q.projection) (ordered q.order (sort_by_key (filter (in_query q) inner)))

abbrev batch_of : SchemalessRangeQuery → KvStore → RangeBatch
batch_of q inner = record { records = map record_of (entries q inner); exhausted = true }

abbrev plain_query : SchemalessRangeQuery
plain_query = record {
  range_start = none;
  range_end = none;
  scan_prefix = none;
  order = KeyOrder.asc;
  projection = RangeProjection.key_value;
  max_records_per_batch = none;
}

-- An engine that answers every query in one batch, and only reads.
abbrev map_engine : Engine KvStore
map_engine = record {
  default_query = plain_query;
  range_query = λ q inner. ok (ok (batch_of q inner) ∷ []);
  get = λ key inner. ok (Maps.get key inner);
  multi_get = λ keys inner. ok (map (λ key. Maps.get key inner) keys);
  put = λ key value inner. ok inner;
  delete = λ key inner. ok inner;
  write = λ entries inner. ok inner;
}

IsPlain-query-IsPlain : IsPlain map_engine.default_query
IsPlain-query-IsPlain = record {
  from_all = refl;
  to_all = refl;
  no_prefix = refl;
  in_order = refl;
  with_values = refl;
}

rows_in-record_of : (xs : List (Bytes × Option Bytes)) → rows_in entry_of (map record_of xs) ≡ xs
rows_in-record_of [] = refl
rows_in-record_of (x ∷ xs) = ap (◌∷◌ x) (rows_in-record_of xs)

map_engine-Answers : (inner : KvStore) (q : SchemalessRangeQuery) → Answers map_engine inner inner q
map_engine-Answers inner q = record {
  batches = batch_of q inner ∷ [];
  answered = refl;
  ends = refl;
  delivered = append-nil _ ∙ rows_in-record_of (entries q inner);
}

-- The keys 1 and 2, and a transaction that deleted 1 or wrote 3.
abbrev two_keys : KvStore
two_keys = (2 ∷ [], 20 ∷ []) ∷ (1 ∷ [], 10 ∷ []) ∷ []

two_keys-IsMap : IsMap two_keys
unfolding Bytes.bytes_eq
two_keys-IsMap = ((refl, tt), (tt, tt))

abbrev with_three : Transaction
with_three = record {
  snapshot = two_keys;
  pending = (3 ∷ [], some (30 ∷ [])) ∷ [];
  savepoints = [];
}

-- With a limit of 0 the engine's store gives a row, and the in-memory store none.
zero_engine :
    Store.scan_range map_engine [] none (some 0) false two_keys ≡ ok ((1 ∷ [], 10 ∷ []) ∷ [])
unfolding Store.scan_range Read.read_batches Read.read_records sort_by_key filter Prefix.in_range
    Bytes.bytes_lt
zero_engine = refl

zero_memory : Memory.scan_range [] none (some 0) false two_keys ≡ []
unfolding Memory.scan_range
zero_memory = refl

-- With a limit of 1, a transaction that deleted the first key sees nothing of the second.
deleted_first :
    EngineTransaction.scan_range map_engine [] none (some 1) false ((1 ∷ [], none) ∷ []) two_keys
    ≡ ok []
unfolding EngineTransaction.scan_range Read.read_batches Transaction.collect_range
    Transaction.overlay Prefix.in_range Bytes.bytes_lt Maps.remove Read.read_records sort_by_key
    filter Maps.insert Bytes.bytes_eq
deleted_first = refl

deleted_first_memory :
    materialize_range true [] none
      (some 1)
      false
      (record { snapshot = two_keys; pending = (1 ∷ [], none) ∷ []; savepoints = [] })
      two_keys
    ≡ (2 ∷ [], 20 ∷ []) ∷ []
unfolding materialize_range Transaction.collect_range Transaction.overlay_pending
    Transaction.overlay Prefix.in_range Bytes.bytes_lt Maps.remove Maps.collect filter Maps.insert
    Bytes.bytes_eq
deleted_first_memory = refl

scan_range-scan_range_example :
    Store.scan_range map_engine (1 ∷ []) none (some 1) true two_keys
    ≡ ok (Memory.scan_range (1 ∷ []) none (some 1) true two_keys)
scan_range-scan_range_example =
    scan_range-scan_range map_engine two_keys two_keys IsPlain-query-IsPlain (1 ∷ []) none (some 1)
      true (map_engine-Answers two_keys _) refl

scan_range-materialize_range_example :
    EngineTransaction.scan_range map_engine (1 ∷ []) none none true with_three.pending two_keys
    ≡ ok (materialize_range true (1 ∷ []) none none true with_three two_keys)
scan_range-materialize_range_example =
    scan_range-materialize_range map_engine two_keys two_keys IsPlain-query-IsPlain two_keys-IsMap
      (1 ∷ []) none true with_three (map_engine-Answers two_keys _)

scan_range-limited_example :
    EngineTransaction.scan_range map_engine (1 ∷ []) none (some 2) false with_three.pending two_keys
    ≡ ok (materialize_range true (1 ∷ []) none (some 2) false with_three two_keys)
scan_range-limited_example =
    scan_range-limited map_engine two_keys two_keys IsPlain-query-IsPlain two_keys-IsMap (1 ∷ [])
      none 2 with_three (map_engine-Answers two_keys _) ((λ h e. cc), tt)
