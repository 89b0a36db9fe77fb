-- ===== src/Store/Predicate.antt =====
-- The predicates that src/mem_store.rs evaluates beside a scan: `KvCompareOp`, `KvPredicate`,
-- `kv_predicate_matches` and `kv_row_matches`.
pub mod Logic
mod Examples
use Prim.Native.Nat.{Ordering}
use uni5db.Base.{
  ℕ, Bool, true, false, ◌&&◌, ◌||◌, not, List, [], ◌∷◌, Option, none, some, get_elem?,
  if◌then◌else◌,
}
use uni5db.Bytes.{Bytes}
use uni5db.Types.Value.{ColumnValue, is_null}
use uni5db.Types.Schema.{TableSchema}
use uni5db.Types.Floats.{FloatOps}
use uni5db.Types.Compare.{partial_cmp, value_eq}
use uni5db.Store.Maps
use uni5db.Store.Maps.{Map}

abbrev pub RowMap : Type 0
RowMap = Map ColumnValue

pub data KvCompareOp : Type 0 where
  eq not_eq gt gt_eq lt lt_eq : KvCompareOp

mutual
  pub data KvPredicate : Type 0 where
    column_compare : ℕ → KvCompareOp → ColumnValue → KvPredicate
    all_of : KvPredicates → KvPredicate
    any_of : KvPredicates → KvPredicate
    negation : KvPredicate → KvPredicate
    is_null_at : ℕ → KvPredicate
    is_not_null_at : ℕ → KvPredicate
    between : ℕ → ColumnValue → ColumnValue → Bool → KvPredicate

  pub data KvPredicates : Type 0 where
    nil : KvPredicates
    cons : KvPredicate → KvPredicates → KvPredicates

-- `is_some_and(|ord| ord.is_gt())` and the like.
abbrev pub is_gt : Option Ordering → Bool
is_gt (some Ordering.gt) = true
is_gt _ = false

abbrev pub is_lt : Option Ordering → Bool
is_lt (some Ordering.lt) = true
is_lt _ = false

abbrev pub is_not_lt : Option Ordering → Bool
is_not_lt none = false
is_not_lt (some Ordering.lt) = false
is_not_lt _ = true

abbrev pub is_not_gt : Option Ordering → Bool
is_not_gt none = false
is_not_gt (some Ordering.gt) = false
is_not_gt _ = true

-- `row_value`
unfoldable pub row_value : TableSchema → RowMap → ℕ → ColumnValue
row_value schema row column_idx = elim (get_elem? schema.columns column_idx) [
  | none ↦ ColumnValue.null
  | some column ↦ elim (Maps.get column.name row) [ none ↦ ColumnValue.null | some value ↦ value ]
]

module _ (ops : FloatOps) where
  abbrev pub compare_nonnull : ColumnValue → KvCompareOp → ColumnValue → Bool
  compare_nonnull left KvCompareOp.eq right = value_eq left right
  compare_nonnull left KvCompareOp.not_eq right = not (value_eq left right)
  compare_nonnull left KvCompareOp.gt right = is_gt (partial_cmp ops left right)
  compare_nonnull left KvCompareOp.gt_eq right = is_not_lt (partial_cmp ops left right)
  compare_nonnull left KvCompareOp.lt right = is_lt (partial_cmp ops left right)
  compare_nonnull left KvCompareOp.lt_eq right = is_not_gt (partial_cmp ops left right)

  unfoldable pub compare_values : ColumnValue → KvCompareOp → ColumnValue → Bool
  compare_values left op right =
      if is_null left || is_null right then false else compare_nonnull left op right

  module _ (schema : TableSchema) (row : RowMap) where
    unfoldable mutual
      pub kv_predicate_matches : KvPredicate → Bool
      kv_predicate_matches (KvPredicate.column_compare column_idx op value) =
          compare_values (row_value schema row column_idx) op value
      kv_predicate_matches (KvPredicate.all_of predicates) = all_match predicates
      kv_predicate_matches (KvPredicate.any_of predicates) = any_match predicates
      kv_predicate_matches (KvPredicate.negation predicate) = not (kv_predicate_matches predicate)
      kv_predicate_matches (KvPredicate.is_null_at column_idx) =
          is_null (row_value schema row column_idx)
      kv_predicate_matches (KvPredicate.is_not_null_at column_idx) =
          not (is_null (row_value schema row column_idx))
      kv_predicate_matches (KvPredicate.between column_idx low high negated) =
          let value = row_value schema row column_idx in
          let inside =
            compare_values value KvCompareOp.gt_eq low
            && compare_values value KvCompareOp.lt_eq high in
          if negated then not inside else inside

      pub all_match : KvPredicates → Bool
      all_match KvPredicates.nil = true
      all_match (KvPredicates.cons predicate predicates) =
          kv_predicate_matches predicate && all_match predicates

      pub any_match : KvPredicates → Bool
      any_match KvPredicates.nil = false
      any_match (KvPredicates.cons predicate predicates) =
          kv_predicate_matches predicate || any_match predicates

    unfoldable pub kv_row_matches : List KvPredicate → Bool
    kv_row_matches [] = true
    kv_row_matches (predicate ∷ filters) = kv_predicate_matches predicate && kv_row_matches filters
