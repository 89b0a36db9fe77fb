-- ===== src/Store/Predicate/Examples.antt =====
-- Predicates of src/mem_store.rs on a row, and what the theorems say of them.
use uni5db.Base.{◌≡◌, refl, true, false, [], ◌∷◌, some}
use uni5db.Base.Int
use uni5db.Types.Value.{ColumnValue}
use uni5db.Store.Samples.{zeros, table, five}
use uni5db.Types.Compare
use uni5db.Store.Maps
use uni5db.Bytes
use uni5db.Store.Predicate
use uni5db.Store.Predicate.{
  KvCompareOp, KvPredicate, KvPredicates, row_value, kv_predicate_matches, kv_row_matches,
}
use uni5db.Store.Predicate.Logic.{sql_value}

-- `i > 2`, `NOT (i > 2)`, `i BETWEEN 2 AND 4` and `i > 2 AND i IS NOT NULL`
abbrev above_two : KvPredicate
above_two = KvPredicate.column_compare 0 KvCompareOp.gt (ColumnValue.int32 2)

abbrev not_above_two : KvPredicate
not_above_two = KvPredicate.negation above_two

abbrev not_between : KvPredicate
not_between = KvPredicate.between 0 (ColumnValue.int32 2) (ColumnValue.int32 4) true

abbrev known_above_two : KvPredicate
known_above_two = KvPredicate.all_of (
    KvPredicates.cons above_two (KvPredicates.cons (KvPredicate.is_not_null_at 0) KvPredicates.nil))

five_matches :
    kv_row_matches zeros table five (above_two ∷ not_between ∷ known_above_two ∷ []) ≡ true
unfolding kv_row_matches kv_predicate_matches Predicate.compare_values row_value Maps.get
    Bytes.bytes_eq Compare.partial_cmp Int.signed
five_matches = refl

five_above_two : sql_value zeros table five not_above_two ≡ some false
unfolding sql_value row_value Maps.get Bytes.bytes_eq Compare.partial_cmp Int.signed
five_above_two = refl
