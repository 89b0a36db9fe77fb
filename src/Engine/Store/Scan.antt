-- ===== src/Engine/Store/Scan.antt =====
-- The scans of src/kv_engine_store/store.rs give what those of src/mem_store.rs give.
use uni5db.Base.{
  ℕ, zero, suc, ◌≡◌, refl, ap, sym, ◌∙◌, Bool, true, false, List, [], ◌∷◌, ◌++◌, Option, none, some,
  map, if◌then◌else◌, reverse, ok, ◌>>=◌,
}
use uni5db.Bytes.{Bytes}
use uni5db.Store.Maps.{filter, sort_by_key}
use uni5db.Store.Memory
use uni5db.Store.Memory.{KvStore, limited}
use uni5db.Store.Aggregate.Scan
use uni5db.Store.Aggregate.Scan.{KvScanProjection, project}
use uni5db.Engine.{
  Engine, RangeProjection, SchemalessRangeQuery, RangeRecord, RangeBatch, IsPlain, Answers, joined,
  rows_in, rows_of, entry_of, pair_of, order_of, ordered, projected, in_query, query_of_range,
  query_of_prefix,
}
use uni5db.Engine.Read.{full, read_batches-push}
use uni5db.Engine.Store
use uni5db.Engine.Store.{projection_of, query_projected}

-- The entries that have a value.
abbrev with_value : Bytes × Option Bytes → Option (Bytes × Bytes)
with_value (key, none) = none
with_value (key, some value) = some (key, value)

valued : List (Bytes × Option Bytes) → List (Bytes × Bytes)
valued [] = []
valued (entry ∷ entries) = joined (with_value entry) (valued entries)

valued_append : (xs ys : List (Bytes × Option Bytes)) → valued (xs ++ ys) ≡ valued xs ++ valued ys
unfolding valued
valued_append [] ys = refl
valued_append ((key, none) ∷ xs) ys = valued_append xs ys
valued_append ((key, some value) ∷ xs) ys = ap (◌∷◌ (key, value)) (valued_append xs ys)

valued-map :
    (rows : List (Bytes × Bytes)) → valued (map (projected RangeProjection.key_value) rows) ≡ rows
unfolding valued
valued-map [] = refl
valued-map (row ∷ rows) = ap (◌∷◌ row) (valued-map rows)

valued-joined :
    (key value : Option Bytes) (rows : List (Bytes × Option Bytes))
    → valued (joined (entry_of (record { key = key; value = value })) rows)
      ≡ joined (pair_of (record { key = key; value = value })) (valued rows)
unfolding valued
valued-joined none value rows = refl
valued-joined (some key) none rows = refl
valued-joined (some key) (some value) rows = refl

valued-rows_in :
    (records : List RangeRecord) → valued (rows_in entry_of records) ≡ rows_in pair_of records
unfolding valued
valued-rows_in [] = refl
valued-rows_in (found ∷ records) =
    valued-joined found.key found.value (rows_in entry_of records)
    ∙ ap (joined (pair_of found)) (valued-rows_in records)

valued-rows_of :
    (batches : List RangeBatch) → valued (rows_of entry_of batches) ≡ rows_of pair_of batches
unfolding valued
valued-rows_of [] = refl
valued-rows_of (batch ∷ batches) =
    rw
      (
        valued_append (rows_in entry_of batch.records) (rows_of entry_of batches),
        valued-rows_in batch.records,
        valued-rows_of batches,
      )
      refl

map-limited :
    {A B : Type 0} (f : A → B) (limit : Option ℕ) (xs : List A)
    → limited limit (map f xs) ≡ map f (limited limit xs)
map-limited f none xs = refl
map-limited f (some zero) xs = refl
map-limited f (some (suc n)) [] = refl
map-limited f (some (suc n)) (x ∷ xs) = ap (◌∷◌ (f x)) (map-limited f (some n) xs)

-- The order asked for is that of `scan_range` with its flag.
ordered-order_of :
    {A : Type 0} (backwards : Bool) (rows : List A)
    → ordered (order_of backwards) rows ≡ (if backwards then reverse rows else rows)
ordered-order_of true rows = refl
ordered-order_of false rows = refl

projected-projection_of :
    (projection : KvScanProjection) (rows : List (Bytes × Bytes))
    → map (projected (projection_of projection)) rows ≡ map (project projection) rows
projected-projection_of KvScanProjection.key_only rows = refl
projected-projection_of KvScanProjection.key_value rows = refl

module _ {S : Type 0} (engine : Engine S) (table : S) (inner : KvStore) where
  -- The pairs that the batches hold, where the query asks for values.
  pub Answers-pairs :
      (q : SchemalessRangeQuery) (answers : Answers engine table inner q)
      → q.projection ≡ RangeProjection.key_value
      → rows_of pair_of answers.batches ≡ ordered q.order (sort_by_key (filter (in_query q) inner))
  Answers-pairs q answers h =
      sym (valued-rows_of answers.batches)
      ∙ ap valued (answers.delivered ∙ (rw h refl))
      ∙ valued-map _

  module _ (plain : IsPlain engine.default_query) where
    -- Over an engine that answers the query by the entries of a store, a scan of a range gives what the
    -- in-memory store gives, in the order or against it, for every limit but 0.
    pub scan_range-scan_range :
        (start : Bytes) (end : Option Bytes) (limit : Option ℕ) (backwards : Bool)
        → Answers engine table inner (query_of_range engine.default_query start end limit backwards)
        → full limit 0 ≡ false
        → Store.scan_range engine start end limit backwards table
          ≡ ok (Memory.scan_range start end limit backwards inner)
    unfolding Store.scan_range Memory.scan_range
    scan_range-scan_range start end limit backwards answers h =
        let found =
          Answers-pairs (query_of_range engine.default_query start end limit backwards) answers
            plain.with_values in
        rw
          (
            answers.answered,
            ◌>>=◌,
            read_batches-push pair_of limit answers.batches [] answers.ends h,
            found,
            plain.no_prefix,
            ordered-order_of,
          )
          refl

    -- Likewise a scan of the keys with a prefix.
    pub scan_prefix-scan_prefix :
        (prefix : Bytes)
        → Answers engine table inner (query_of_prefix engine.default_query prefix)
        → Store.scan_prefix engine prefix table ≡ ok (Memory.scan_prefix prefix inner)
    unfolding Store.scan_prefix Memory.scan_prefix
    scan_prefix-scan_prefix prefix answers =
        let found =
          Answers-pairs (query_of_prefix engine.default_query prefix) answers plain.with_values in
        rw
          (
            answers.answered,
            ◌>>=◌,
            read_batches-push pair_of none answers.batches [] answers.ends refl,
            found,
            plain.in_order,
            plain.from_all,
            plain.to_all,
          )
          refl

    -- Likewise a scan that may leave out the values.
    pub scan_range_projected-scan :
        (start : Bytes) (end : Option Bytes) (limit : Option ℕ) (backwards : Bool)
        (projection : KvScanProjection)
        → Answers engine table inner
            (query_projected engine.default_query start end limit backwards projection)
        → full limit 0 ≡ false
        → Store.scan_range_projected engine start end limit backwards projection table
          ≡ ok (Scan.scan_range_projected start end limit backwards projection inner)
    unfolding Store.scan_range_projected Scan.scan_range_projected Memory.scan_range
    scan_range_projected-scan start end limit backwards projection answers h =
        rw
          (
            answers.answered,
            ◌>>=◌,
            read_batches-push entry_of limit answers.batches [] answers.ends h,
            answers.delivered,
            plain.no_prefix,
            map-limited,
            projected-projection_of,
            ordered-order_of,
          )
          refl
