-- ===== src/Store/Aggregate.antt =====
-- The aggregates that src/mem_store.rs computes beside a scan. A count is an `i64` that wraps around,
-- as its bit pattern; a sum of floats its bit pattern.
pub mod Scan
pub mod Groups
pub mod Counts
pub mod Extremes
mod Examples
use uni5db.Base.{
  ℕ, zero, suc, ◌+◌, ◌^◌, ◌%◌, Bool, true, false, ◌||◌, List, [], ◌∷◌, ◌++◌, Option, none, some,
  map, ◌==◌, if◌then◌else◌,
}
use uni5db.Base.Int.{ℤ, ◌+ℤ◌, signed, bits}
use uni5db.Bytes.{Bytes}
use uni5db.Types.Value.{ColumnValue, is_null}
use uni5db.Types.Schema.{TableSchema}
use uni5db.Types.Floats.{FloatOps}
use uni5db.Types.Compare.{partial_cmp}
use uni5db.Types.Text.{FloatText, to_text, join}
use uni5db.Store.Predicate.{RowMap, row_value, is_gt, is_lt}

pub data KvAggregateOp : Type 0 where
  count_star : KvAggregateOp
  count_column max_column min_column sum_column avg_column : ℕ → KvAggregateOp

pub data KvAggregateState : Type 0 where
  count : ℕ → KvAggregateState
  value : ColumnValue → KvAggregateState
  avg : (sum count : ℕ) → KvAggregateState

unfoldable pub kv_aggregate_initial_state : KvAggregateOp → KvAggregateState
kv_aggregate_initial_state KvAggregateOp.count_star = KvAggregateState.count 0
kv_aggregate_initial_state (KvAggregateOp.count_column _) = KvAggregateState.count 0
kv_aggregate_initial_state (KvAggregateOp.max_column _) = KvAggregateState.value ColumnValue.null
kv_aggregate_initial_state (KvAggregateOp.min_column _) = KvAggregateState.value ColumnValue.null
kv_aggregate_initial_state (KvAggregateOp.sum_column _) = KvAggregateState.value ColumnValue.null
kv_aggregate_initial_state (KvAggregateOp.avg_column _) = KvAggregateState.avg 0 0

-- `+` of `i64` on bit patterns of the given widths.
abbrev pub add_int : ℕ → ℕ → ℕ → ℕ → ColumnValue
add_int w left v right = ColumnValue.int64 (bits 64 (signed w left +ℤ signed v right))

-- `*count += 1`
abbrev pub increment : ℕ → ℕ
increment n = (n + 1) % 2 ^ 64

module _ (ops : FloatOps) where
  open ops use {add, div, f64_of_f32, f64_of_int}

  unfoldable pub sum_values : ColumnValue → ColumnValue → Option ColumnValue
  sum_values ColumnValue.null right = some right
  sum_values (ColumnValue.int32 left) (ColumnValue.int32 right) = some (add_int 32 left 32 right)
  sum_values (ColumnValue.int32 left) (ColumnValue.int64 right) = some (add_int 32 left 64 right)
  sum_values (ColumnValue.int64 left) (ColumnValue.int32 right) = some (add_int 64 left 32 right)
  sum_values (ColumnValue.int64 left) (ColumnValue.int64 right) = some (add_int 64 left 64 right)
  sum_values (ColumnValue.float32 left) (ColumnValue.float32 right) =
      some (ColumnValue.float64 (add (f64_of_f32 left) (f64_of_f32 right)))
  sum_values (ColumnValue.float32 left) (ColumnValue.float64 right) =
      some (ColumnValue.float64 (add (f64_of_f32 left) right))
  sum_values (ColumnValue.float64 left) (ColumnValue.float32 right) =
      some (ColumnValue.float64 (add left (f64_of_f32 right)))
  sum_values (ColumnValue.float64 left) (ColumnValue.float64 right) =
      some (ColumnValue.float64 (add left right))
  sum_values _ _ = none

  unfoldable pub numeric_as_f64 : ColumnValue → Option ℕ
  numeric_as_f64 (ColumnValue.int32 v) = some (f64_of_int (signed 32 v))
  numeric_as_f64 (ColumnValue.int64 v) = some (f64_of_int (signed 64 v))
  numeric_as_f64 (ColumnValue.float32 v) = some (f64_of_f32 v)
  numeric_as_f64 (ColumnValue.float64 v) = some v
  numeric_as_f64 _ = none

  -- One round of the loop of `kv_apply_aggregate`, with the column's value in the row.
  abbrev pub max_step : ColumnValue → ColumnValue → ColumnValue
  max_step found state =
      if is_null found
      then state
      else if is_null state || is_gt (partial_cmp ops found state)
      then found
      else state

  abbrev pub min_step : ColumnValue → ColumnValue → ColumnValue
  min_step found state =
      if is_null found
      then state
      else if is_null state || is_lt (partial_cmp ops found state)
      then found
      else state

  abbrev pub sum_step : ColumnValue → ColumnValue → ColumnValue
  sum_step found state =
      if is_null found
      then state
      else elim (sum_values state found) [ none ↦ state | some sum ↦ sum ]

  abbrev pub avg_step : Option ℕ → ℕ → ℕ → KvAggregateState
  avg_step none sum n = KvAggregateState.avg sum n
  avg_step (some number) sum n = KvAggregateState.avg (add sum number) (increment n)

  unfoldable pub apply_one :
      TableSchema → RowMap → KvAggregateOp → KvAggregateState → KvAggregateState
  apply_one schema row KvAggregateOp.count_star (KvAggregateState.count n) =
      KvAggregateState.count (increment n)
  apply_one schema row (KvAggregateOp.count_column idx) (KvAggregateState.count n) =
      KvAggregateState.count (if is_null (row_value schema row idx) then n else increment n)
  apply_one schema row (KvAggregateOp.max_column idx) (KvAggregateState.value state) =
      KvAggregateState.value (max_step (row_value schema row idx) state)
  apply_one schema row (KvAggregateOp.min_column idx) (KvAggregateState.value state) =
      KvAggregateState.value (min_step (row_value schema row idx) state)
  apply_one schema row (KvAggregateOp.sum_column idx) (KvAggregateState.value state) =
      KvAggregateState.value (sum_step (row_value schema row idx) state)
  apply_one schema row (KvAggregateOp.avg_column idx) (KvAggregateState.avg sum n) =
      avg_step (numeric_as_f64 (row_value schema row idx)) sum n
  apply_one schema row _ state = state

  -- The states of a group are as many as the aggregates.
  unfoldable pub kv_apply_aggregate :
      TableSchema → RowMap → List KvAggregateState → List KvAggregateOp → List KvAggregateState
  kv_apply_aggregate schema row (state ∷ states) (aggregate ∷ aggregates) =
      apply_one schema row aggregate state ∷ kv_apply_aggregate schema row states aggregates
  kv_apply_aggregate schema row states _ = states

  unfoldable pub kv_finish_aggregate_state : KvAggregateState → ColumnValue
  kv_finish_aggregate_state (KvAggregateState.count n) = ColumnValue.int64 n
  kv_finish_aggregate_state (KvAggregateState.value state) = state
  kv_finish_aggregate_state (KvAggregateState.avg sum n) =
      if n == 0 then ColumnValue.null else ColumnValue.float64 (div sum (f64_of_int (signed 64 n)))

unfoldable pub kv_group_values : TableSchema → RowMap → List ℕ → List ColumnValue
kv_group_values schema row group_indices = map (λ idx. row_value schema row idx) group_indices

-- `to_text`, and `{value:?}` of the one value without a text.
abbrev pub key_text : Option Bytes → Bytes
key_text none = b'N' ∷ b'u' ∷ b'l' ∷ b'l' ∷ []
key_text (some found) = found

unfoldable pub kv_group_key : FloatText → List ColumnValue → Bytes
kv_group_key floats values = join (0x1f ∷ []) (map (λ v. key_text (to_text floats v)) values)
