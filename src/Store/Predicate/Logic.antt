-- ===== src/Store/Predicate/Logic.antt =====
-- The predicates of src/mem_store.rs against the three-valued logic of SQL, in which a comparison with
-- null is unknown.
use uni5db.Base.{
  ◌≡◌, refl, Bool, true, false, ◌&&◌, ◌||◌, not, Option, none, some, if◌then◌else◌, arith,
  Bool-cases, inl, inr,
}
use uni5db.Types.Value.{ColumnValue, is_null}
use uni5db.Types.Schema.{TableSchema}
use uni5db.Types.Floats.{FloatOps}
use uni5db.Store.Predicate.{
  RowMap, KvCompareOp, KvPredicate, KvPredicates, row_value, compare_nonnull, compare_values,
  kv_predicate_matches, all_match, any_match,
}

-- `none` is unknown.
abbrev pub and3 : Option Bool → Option Bool → Option Bool
and3 (some false) _ = some false
and3 _ (some false) = some false
and3 (some true) b = b
and3 none _ = none

abbrev pub or3 : Option Bool → Option Bool → Option Bool
or3 (some true) _ = some true
or3 _ (some true) = some true
or3 (some false) b = b
or3 none _ = none

abbrev pub not3 : Option Bool → Option Bool
not3 none = none
not3 (some b) = some (not b)

abbrev pub is_true : Option Bool → Bool
is_true (some true) = true
is_true _ = false

-- No negation stands in the predicate.
abbrev mutual
  pub IsPositive : KvPredicate → Type 0
  IsPositive (KvPredicate.column_compare _ _ _) = Unit
  IsPositive (KvPredicate.all_of predicates) = ArePositive predicates
  IsPositive (KvPredicate.any_of predicates) = ArePositive predicates
  IsPositive (KvPredicate.negation _) = ⊥
  IsPositive (KvPredicate.is_null_at _) = Unit
  IsPositive (KvPredicate.is_not_null_at _) = Unit
  IsPositive (KvPredicate.between _ _ _ negated) = negated ≡ false

  pub ArePositive : KvPredicates → Type 0
  ArePositive KvPredicates.nil = Unit
  ArePositive (KvPredicates.cons predicate predicates) =
      IsPositive predicate × ArePositive predicates

module _ (ops : FloatOps) where
  abbrev pub compare3 : ColumnValue → KvCompareOp → ColumnValue → Option Bool
  compare3 left op right =
      if is_null left || is_null right then none else some (compare_nonnull ops left op right)

  module _ (schema : TableSchema) (row : RowMap) where
    unfoldable mutual
      pub sql_value : KvPredicate → Option Bool
      sql_value (KvPredicate.column_compare column_idx op value) =
          compare3 (row_value schema row column_idx) op value
      sql_value (KvPredicate.all_of predicates) = all3 predicates
      sql_value (KvPredicate.any_of predicates) = any3 predicates
      sql_value (KvPredicate.negation predicate) = not3 (sql_value predicate)
      sql_value (KvPredicate.is_null_at column_idx) =
          some (is_null (row_value schema row column_idx))
      sql_value (KvPredicate.is_not_null_at column_idx) =
          some (not (is_null (row_value schema row column_idx)))
      sql_value (KvPredicate.between column_idx low high negated) =
          let value = row_value schema row column_idx in
          let inside =
            and3 (compare3 value KvCompareOp.gt_eq low) (compare3 value KvCompareOp.lt_eq high) in
          if negated then not3 inside else inside

      pub all3 : KvPredicates → Option Bool
      all3 KvPredicates.nil = some true
      all3 (KvPredicates.cons predicate predicates) = and3 (sql_value predicate) (all3 predicates)

      pub any3 : KvPredicates → Option Bool
      any3 KvPredicates.nil = some false
      any3 (KvPredicates.cons predicate predicates) = or3 (sql_value predicate) (any3 predicates)

-- What a known truth value says of a test, and an unknown one in a predicate without negations.
abbrev Known : Option Bool → Bool → Type 0
Known none b = Unit
Known (some truth) b = b ≡ truth

abbrev False : Option Bool → Bool → Type 0
False none b = b ≡ false
False (some truth) b = b ≡ truth

Known-and3 : (a b : Option Bool) (c d : Bool) → Known a c → Known b d → Known (and3 a b) (c && d)
Known-and3 a b c d h k = ground arith

Known-or3 : (a b : Option Bool) (c d : Bool) → Known a c → Known b d → Known (or3 a b) (c || d)
Known-or3 a b c d h k = ground arith

Known-not3 : (a : Option Bool) (c : Bool) → Known a c → Known (not3 a) (not c)
Known-not3 a c h = ground arith

False-and3 : (a b : Option Bool) (c d : Bool) → False a c → False b d → False (and3 a b) (c && d)
False-and3 a b c d h k = ground arith

False-or3 : (a b : Option Bool) (c d : Bool) → False a c → False b d → False (or3 a b) (c || d)
False-or3 a b c d h k = ground arith

False-Known : (a : Option Bool) (c : Bool) → False a c → Known a c
False-Known none c h = tt
False-Known (some truth) c h = h

module _ (ops : FloatOps) where
  False-compare3 :
      (left : ColumnValue) (op : KvCompareOp) (right : ColumnValue)
      → False (compare3 ops left op right) (compare_values ops left op right)
  unfolding compare_values
  False-compare3 left op right = elim (Bool-cases (is_null left || is_null right)) [
    | inl e ↦ rw e refl
    | inr e ↦ rw e refl
  ]

  False-between :
      (value low high : ColumnValue)
      → False
          (and3
            (compare3 ops value KvCompareOp.gt_eq low)
            (compare3 ops value KvCompareOp.lt_eq high))
          (compare_values ops value KvCompareOp.gt_eq low
            && compare_values ops value KvCompareOp.lt_eq high)
  False-between value low high =
      False-and3 _ _ _ _ (False-compare3 value KvCompareOp.gt_eq low)
        (False-compare3 value KvCompareOp.lt_eq high)

  module _ (schema : TableSchema) (row : RowMap) where
    mutual
      unfolding kv_predicate_matches all_match any_match sql_value all3 any3

      predicate-Known :
          (p : KvPredicate)
          → Known (sql_value ops schema row p) (kv_predicate_matches ops schema row p)
      predicate-Known (KvPredicate.column_compare i op value) =
          False-Known _ _ (False-compare3 (row_value schema row i) op value)
      predicate-Known (KvPredicate.all_of ps) = all-Known ps
      predicate-Known (KvPredicate.any_of ps) = any-Known ps
      predicate-Known (KvPredicate.negation p) = Known-not3 _ _ (predicate-Known p)
      predicate-Known (KvPredicate.is_null_at i) = refl
      predicate-Known (KvPredicate.is_not_null_at i) = refl
      predicate-Known (KvPredicate.between i low high true) =
          Known-not3 _ _ (False-Known _ _ (False-between (row_value schema row i) low high))
      predicate-Known (KvPredicate.between i low high false) =
          False-Known _ _ (False-between (row_value schema row i) low high)

      all-Known : (ps : KvPredicates) → Known (all3 ops schema row ps) (all_match ops schema row ps)
      all-Known KvPredicates.nil = refl
      all-Known (KvPredicates.cons p ps) = Known-and3 _ _ _ _ (predicate-Known p) (all-Known ps)

      any-Known : (ps : KvPredicates) → Known (any3 ops schema row ps) (any_match ops schema row ps)
      any-Known KvPredicates.nil = refl
      any-Known (KvPredicates.cons p ps) = Known-or3 _ _ _ _ (predicate-Known p) (any-Known ps)

    mutual
      unfolding kv_predicate_matches all_match any_match sql_value all3 any3

      predicate-False :
          (p : KvPredicate)
          → IsPositive p
          → False (sql_value ops schema row p) (kv_predicate_matches ops schema row p)
      predicate-False (KvPredicate.column_compare i op value) h =
          False-compare3 (row_value schema row i) op value
      predicate-False (KvPredicate.all_of ps) h = all-False ps h
      predicate-False (KvPredicate.any_of ps) h = any-False ps h
      predicate-False (KvPredicate.negation p) h = absurd h
      predicate-False (KvPredicate.is_null_at i) h = refl
      predicate-False (KvPredicate.is_not_null_at i) h = refl
      predicate-False (KvPredicate.between i low high true) h = absurd (cc)
      predicate-False (KvPredicate.between i low high false) h =
          False-between (row_value schema row i) low high

      all-False :
          (ps : KvPredicates)
          → ArePositive ps
          → False (all3 ops schema row ps) (all_match ops schema row ps)
      all-False KvPredicates.nil h = refl
      all-False (KvPredicates.cons p ps) (hp, h) =
          False-and3 _ _ _ _ (predicate-False p hp) (all-False ps h)

      any-False :
          (ps : KvPredicates)
          → ArePositive ps
          → False (any3 ops schema row ps) (any_match ops schema row ps)
      any-False KvPredicates.nil h = refl
      any-False (KvPredicates.cons p ps) (hp, h) =
          False-or3 _ _ _ _ (predicate-False p hp) (any-False ps h)
