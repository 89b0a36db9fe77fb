-- ===== src/Store/Aggregate/Examples.antt =====
-- Aggregates of src/mem_store.rs over a table, and what the theorems say of them.
use uni5db.Base.{
  ◌≡◌, refl, true, false, All, [], ◌∷◌, none, some, ok, ◌⊎◌, inr, length, ◌%◌, ◌^◌, arith,
  get_elem?, ◌>>=◌,
}
use uni5db.Bytes
use uni5db.Types.Value.{ColumnValue}
use uni5db.Types.DataType.{DataType}
use uni5db.Types.Schema
use uni5db.Types.Text.{FloatText}
use uni5db.Store.Maps
use uni5db.Store.Maps.{IsSorted}
use uni5db.Store.Samples.{zeros, table, five, unknown}
use uni5db.Storage.Keys.{row_key}
use uni5db.Storage.Keys.Decode.{IsKeyOf, decode_pk_from_row_key-row_key}
use uni5db.Store.Predicate.{RowMap, KvCompareOp, KvPredicate, row_value}
use uni5db.Store.Aggregate.{
  KvAggregateOp, KvAggregateState, kv_aggregate_initial_state, kv_group_key,
}
use uni5db.Store.Aggregate.Scan
use uni5db.Store.Aggregate.Scan.{
  KvAggregateScan, KvScanProjection, Entry, Groups, collect_groups, initial_states,
}
use uni5db.Store.Aggregate.Groups.{rows_of, members, apply_rows, summary, collect_groups-members}
use uni5db.Store.Aggregate.Counts.{apply_to, counted, apply_rows-apply_to, apply_rows-counted}
use uni5db.Store.Aggregate.Extremes.{int_of, IsIntOrNull, Within, Occurs, apply_to-extreme}

abbrev no_text : FloatText
no_text = record { f32_text = λ n. []; f64_text = λ n. [] }

-- `SELECT COUNT(i), MAX(i) FROM t WHERE i > 2`
abbrev plan : KvAggregateScan
plan = record {
  schema = table;
  range_start = [];
  range_end = none;
  scan_prefix = none;
  filters = KvPredicate.column_compare 0 KvCompareOp.gt (ColumnValue.int32 2) ∷ [];
  group_indices = [];
  aggregates = KvAggregateOp.count_column 0 ∷ KvAggregateOp.max_column 0 ∷ [];
  required_indices = 0 ∷ [];
  projection = KvScanProjection.key_only;
}

-- The rows of 5 and of -2.
abbrev below : RowMap
below = (b'i' ∷ [], ColumnValue.int32 4294967294) ∷ []

abbrev five_entry : Entry
five_entry = (row_key 3 1 (ColumnValue.int32 5), none)

five-IsKeyOf : IsKeyOf DataType.int32 (ColumnValue.int32 5)
five-IsKeyOf = record { valid = omega arith; fits = tt; keyed = tt; typed = inr refl }

five_read : rows_of zeros no_text plan true (five_entry ∷ []) ≡ ok (five ∷ [])
unfolding rows_of Scan.row_of_entry Schema.pk_data_type Schema.primary_key_type
five_read =
    rw (decode_pk_from_row_key-row_key DataType.int32 (ColumnValue.int32 5) five-IsKeyOf 3 1, ◌>>=◌)
      refl

-- A null value and the text 'Null' have the same group key.
null_key :
    kv_group_key no_text (ColumnValue.null ∷ [])
    ≡ kv_group_key no_text (ColumnValue.text (b'N' ∷ b'u' ∷ b'l' ∷ b'l' ∷ []) ∷ [])
unfolding kv_group_key uni5db.Types.Text.to_text
null_key = refl

counted-five : counted zeros table (KvAggregateOp.count_column 0) (five ∷ unknown ∷ []) ≡ five ∷ []
unfolding counted row_value Maps.get uni5db.Bytes.bytes_eq
counted-five = refl

collect_groups-members_example :
    (groups : Groups) × (collect_groups zeros no_text plan true (five_entry ∷ []) [] ≡ ok groups)
    × IsSorted groups
    × (Maps.get [] groups ≡ summary zeros no_text plan (members zeros no_text plan [] (five ∷ [])))
collect_groups-members_example =
    collect_groups-members zeros no_text plan true (five_entry ∷ []) (five ∷ []) [] five_read

apply_rows-apply_to_example :
    get_elem?
      (apply_rows zeros no_text plan (five ∷ unknown ∷ []) (initial_states zeros no_text plan))
      1
    ≡ some (
        apply_to zeros table
          (KvAggregateOp.max_column 0)
          (five ∷ unknown ∷ [])
          (kv_aggregate_initial_state (KvAggregateOp.max_column 0)))
apply_rows-apply_to_example =
    apply_rows-apply_to zeros no_text plan (five ∷ unknown ∷ []) 1 (KvAggregateOp.max_column 0) refl

apply_rows-counted_example :
    get_elem?
      (apply_rows zeros no_text plan (five ∷ unknown ∷ []) (initial_states zeros no_text plan))
      0
    ≡ some (
        KvAggregateState.count (
          length (counted zeros table (KvAggregateOp.count_column 0) (five ∷ unknown ∷ []))
          % 2 ^ 64))
apply_rows-counted_example =
    apply_rows-counted zeros no_text plan (five ∷ unknown ∷ []) 0 (KvAggregateOp.count_column 0)
      refl tt

every_int : All (λ row. IsIntOrNull (row_value table row 0)) (five ∷ unknown ∷ below ∷ [])
unfolding row_value Maps.get Bytes.bytes_eq
every_int = (tt, (tt, (tt, tt)))

apply_to-extreme_example :
    (kept : ColumnValue) × (apply_to zeros table
        (KvAggregateOp.min_column 0)
        (five ∷ unknown ∷ below ∷ [])
        (kv_aggregate_initial_state (KvAggregateOp.min_column 0))
      ≡ KvAggregateState.value kept)
    × All
        (λ row. Within false (int_of (row_value table row 0)) (int_of kept))
        (five ∷ unknown ∷ below ∷ [])
    × ((kept ≡ ColumnValue.null) ⊎ Occurs table 0 kept (five ∷ unknown ∷ below ∷ []))
apply_to-extreme_example =
    apply_to-extreme zeros table 0 false (five ∷ unknown ∷ below ∷ []) every_int
