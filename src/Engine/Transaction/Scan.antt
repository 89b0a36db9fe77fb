-- ===== src/Engine/Transaction/Scan.antt =====
-- The scans of src/kv_engine_store/transaction.rs give what those of `MemoryTransaction` of
-- src/mem_store.rs give.
use uni5db.Base.{
  ℕ, zero, suc, ◌≡◌, ◌≢◌, refl, ap, sym, ◌∙◌, Bool, true, false, List, [], ◌∷◌, ◌++◌, Option, none,
  some, map, take, append-nil, arith, ok, ◌>>=◌, Bool-cases, inl, inr, All,
}
use uni5db.Bytes.{Bytes}
use uni5db.Storage.Prefix.{in_range}
use uni5db.Store.Maps
use uni5db.Store.Maps.{Map, insert, remove, filter, sort_by_key, collect, IsMap, IsSorted}
use uni5db.Store.Maps.Sorted.{
  filter-IsMap, collect-IsSorted, get-collect, sort_by_key-IsSorted, get-sort_by_key,
}
use uni5db.Store.Maps.Ext.{IsSorted-ext}
use uni5db.Store.Maps.Ends.{
  insert-last, IsSorted-before, collect_id, collect-reverse, take-take, take-insert,
}
use uni5db.Store.Memory.{KvStore}
use uni5db.Store.Memory.Transaction
use uni5db.Store.Memory.Transaction.{
  Transaction, Pending, overlay, materialize_range, materialize_prefix,
}
use uni5db.Engine.{
  Engine, KeyOrder, RangeRecord, RangeBatch, IsPlain, Answers, Ends, joined, rows_in, rows_of,
  pair_of, order_of, ordered, query_of_range,
}
use uni5db.Engine.Read.{
  pushed, read_records, read_batches, read_batches-total, read_batches-rows_of,
}
use uni5db.Engine.Store.Scan.{Answers-pairs}
use uni5db.Engine.Transaction as EngineTransaction
use uni5db.Engine.Transaction.{inserted, insert_pair}

collect-joined :
    (pair : Option (Bytes × Bytes)) (rows m : Map Bytes)
    → collect rows (joined pair m) ≡ collect (inserted pair rows) m
unfolding collect
collect-joined none rows m = refl
collect-joined (some pair) rows m = refl

collect_append : (rows m n : Map Bytes) → collect rows (m ++ n) ≡ collect (collect rows m) n
unfolding collect
collect_append rows [] n = refl
collect_append rows ((k, v) ∷ m) n = collect_append (insert k v rows) m n

read_records-collect :
    (records : List RangeRecord) (rows : Map Bytes)
    → read_records insert_pair none records rows ≡ collect rows (rows_in pair_of records)
unfolding read_records
read_records-collect [] rows = unfold collect in refl
read_records-collect (found ∷ records) rows =
    read_records-collect records (insert_pair found rows)
    ∙ sym (collect-joined (pair_of found) rows (rows_in pair_of records))

-- Without a limit, all pairs are inserted.
read_batches-collect :
    (batches : List RangeBatch) (rows : Map Bytes)
    → Ends batches
    → read_batches insert_pair none (map ok batches) rows
      ≡ ok (collect rows (rows_of pair_of batches))
unfolding read_batches
read_batches-collect [] rows e = absurd e
read_batches-collect (batch ∷ []) rows e =
    rw (e, read_records-collect batch.records rows, append-nil) refl
read_batches-collect (batch ∷ next ∷ batches) rows (go_on, e) =
    rw
      (
        go_on,
        read_records-collect batch.records rows,
        collect_append rows (rows_in pair_of batch.records) (rows_of pair_of (next ∷ batches)),
      )
      (read_batches-collect (next ∷ batches) (collect rows (rows_in pair_of batch.records)) e)

-- Pairs in the order of their keys are inserted at the end.
insert_pair-pushed :
    (pair : Option (Bytes × Bytes)) (rows tail : Map Bytes)
    → IsSorted (rows ++ joined pair tail)
    → inserted pair rows ≡ pushed pair rows
insert_pair-pushed none rows tail h = refl
insert_pair-pushed (some (k, v)) rows tail h =
    insert-last k v rows (IsSorted-before rows k v tail h)

collect-ordered : (order : KeyOrder) (m : Map Bytes) → IsSorted m → collect [] (ordered order m) ≡ m
collect-ordered KeyOrder.asc m h = collect_id m h
collect-ordered KeyOrder.desc m h = collect-reverse m h

found-or_none :
    (found : Option Bytes)
    → elim found as (λ _. Option Bytes) [ none ↦ none | some v ↦ some v ] ≡ found
found-or_none none = refl
found-or_none (some v) = refl

collect-sort_by_key : (m : Map Bytes) → IsMap m → collect [] m ≡ sort_by_key m
unfolding Maps.get
collect-sort_by_key m h =
    IsSorted-ext (collect [] m) (sort_by_key m) (collect-IsSorted [] m tt)
      (sort_by_key-IsSorted m h)
      (λ k. get-collect k [] m h ∙ found-or_none (Maps.get k m) ∙ sym (get-sort_by_key k m))

-- Inside the range, the pending writes are puts.
abbrev pub ArePuts : (Bytes → Bool) → Pending → Type 0
ArePuts within pending = All (λ e. within e.0 ≡ true → e.1 ≢ none) pending

-- Rows that begin alike begin alike with puts laid over them.
take-overlay :
    (n : ℕ) (within : Bytes → Bool) (pending : Pending) (rows others : Map Bytes)
    → ArePuts within pending
    → take n rows ≡ take n others
    → take n (overlay within pending rows) ≡ take n (overlay within pending others)
unfolding overlay
take-overlay n within [] rows others h same = same
take-overlay n within ((k, none) ∷ pending) rows others (hk, h) same =
    elim (Bool-cases (within k)) [
      | inl e ↦ absurd (hk e refl)
      | inr e ↦ rw e (take-overlay n within pending rows others h same)
    ]
take-overlay n within ((k, some v) ∷ pending) rows others (hk, h) same =
    elim (Bool-cases (within k)) [
      | inl e ↦ rw e (
          take-overlay n within pending (insert k v rows) (insert k v others) h (
            sym (take-insert n k v rows)
            ∙ ap (λ m. take n (insert k v m)) same
            ∙ take-insert n k v others))
      | inr e ↦ rw e (take-overlay n within pending rows others h same)
    ]

module _ {S : Type 0} (engine : Engine S) (table : S) (inner : KvStore)
    (plain : IsPlain engine.default_query) (distinct : IsMap inner) where
  collected :
      (start : Bytes) (end : Option Bytes)
      → collect [] (filter (in_range start end) inner)
        ≡ sort_by_key (filter (in_range start end) inner)
  collected start end =
      collect-sort_by_key (filter (in_range start end) inner)
        (filter-IsMap (in_range start end) inner distinct)

  in_order :
      (start : Bytes) (end : Option Bytes)
      → IsSorted (sort_by_key (filter (in_range start end) inner))
  in_order start end =
      sort_by_key-IsSorted (filter (in_range start end) inner)
        (filter-IsMap (in_range start end) inner distinct)

  pairs :
      (start : Bytes) (end : Option Bytes) (limit : Option ℕ) (backwards : Bool)
      (answers : Answers engine table inner
        (query_of_range engine.default_query start end limit backwards))
      → rows_of pair_of answers.batches
        ≡ ordered (order_of backwards) (sort_by_key (filter (in_range start end) inner))
  pairs start end limit backwards answers =
      let found =
        Answers-pairs engine table inner
          (query_of_range engine.default_query start end limit backwards) answers
          plain.with_values in
      rw plain.no_prefix at found

  -- Over an engine that answers the query by the entries of a store without double keys, a scan of a range
  -- without a limit, in the order or against it, gives what that of an in-memory transaction with the
  -- same pending writes gives.
  pub scan_range-materialize_range :
      (start : Bytes) (end : Option Bytes) (backwards : Bool) (t : Transaction)
      → Answers engine table inner (query_of_range engine.default_query start end none backwards)
      → EngineTransaction.scan_range engine start end none backwards t.pending table
        ≡ ok (materialize_range true start end none backwards t inner)
  unfolding EngineTransaction.scan_range materialize_range Transaction.overlay_pending
  scan_range-materialize_range start end backwards t answers =
      rw
        (
          answers.answered,
          ◌>>=◌,
          read_batches-collect answers.batches [] answers.ends,
          pairs start end none backwards answers,
          collect-ordered (order_of backwards) _ (in_order start end),
          collected start end,
        )
        refl

  -- Likewise with a limit, in the order of the keys, where the pending writes in the range are puts.
  pub scan_range-limited :
      (start : Bytes) (end : Option Bytes) (limit : ℕ) (t : Transaction)
      → Answers engine table inner
          (query_of_range engine.default_query start end (some limit) false)
      → ArePuts (in_range start end) t.pending
      → EngineTransaction.scan_range engine start end (some limit) false t.pending table
        ≡ ok (materialize_range true start end (some limit) false t inner)
  unfolding EngineTransaction.scan_range materialize_range Transaction.overlay_pending
      Transaction.collect_range
  scan_range-limited start end zero t answers puts =
      let (found, run) =
        read_batches-total insert_pair (some zero) answers.batches [] answers.ends in
      rw (answers.answered, ◌>>=◌, run) refl
  scan_range-limited start end (suc n) t answers puts =
      let rows = pairs start end (some (suc n)) false answers in
      let read =
        read_batches-rows_of pair_of insert_pair IsSorted
          (λ found rows tail h. insert_pair-pushed (pair_of found) rows tail h) (some (suc n))
          answers.batches [] answers.ends (ground arith) (rw rows (in_order start end)) in
      rw (answers.answered, ◌>>=◌, read, rows, collected start end)
        (ap ok (take-overlay (suc n) (in_range start end) t.pending _ _ puts (take-take (suc n) _)))
