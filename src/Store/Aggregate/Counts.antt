-- ===== src/Store/Aggregate/Counts.antt =====
-- The states that src/mem_store.rs keeps for a group, one by one, and what it counts.
use uni5db.Base.{
  ℕ, zero, suc, ◌+◌, ◌%◌, ◌^◌, ◌≡◌, refl, ap, ◌∙◌, List, [], ◌∷◌, some, map, if◌then◌else◌, arith,
  length, get_elem?, Bool-cases, inl, inr,
}
use uni5db.Types.Value.{is_null}
use uni5db.Types.Schema.{TableSchema}
use uni5db.Types.Floats.{FloatOps}
use uni5db.Types.Text.{FloatText}
use uni5db.Store.Predicate.{RowMap, row_value}
use uni5db.Store.Aggregate.{
  KvAggregateOp, KvAggregateState, kv_aggregate_initial_state, apply_one, kv_apply_aggregate,
  increment,
}
use uni5db.Store.Aggregate.Scan.{KvAggregateScan, initial_states}
use uni5db.Store.Aggregate.Groups.{apply_rows}

-- The state of one aggregate after the rows.
unfoldable pub apply_to :
    FloatOps → TableSchema → KvAggregateOp → List RowMap → KvAggregateState → KvAggregateState
apply_to ops schema aggregate [] state = state
apply_to ops schema aggregate (row ∷ rows) state =
    apply_to ops schema aggregate rows (apply_one ops schema row aggregate state)

abbrev pub IsCount : KvAggregateOp → Type 0
IsCount KvAggregateOp.count_star = Unit
IsCount (KvAggregateOp.count_column _) = Unit
IsCount _ = ⊥

module _ (ops : FloatOps) (schema : TableSchema) where
  get_elem?-kv_apply_aggregate :
      (row : RowMap) (states : List KvAggregateState) (aggregates : List KvAggregateOp) (idx : ℕ)
      (state : KvAggregateState) (aggregate : KvAggregateOp)
      → get_elem? states idx ≡ some state
      → get_elem? aggregates idx ≡ some aggregate
      → get_elem? (kv_apply_aggregate ops schema row states aggregates) idx
        ≡ some (apply_one ops schema row aggregate state)
  unfolding kv_apply_aggregate
  get_elem?-kv_apply_aggregate row [] aggregates idx state aggregate hs ha = cc
  get_elem?-kv_apply_aggregate row (s ∷ states) [] idx state aggregate hs ha = cc
  get_elem?-kv_apply_aggregate row (s ∷ states) (a ∷ aggregates) zero state aggregate hs ha = cc
  get_elem?-kv_apply_aggregate row (s ∷ states) (a ∷ aggregates) (suc idx) state aggregate hs ha =
      get_elem?-kv_apply_aggregate row states aggregates idx state aggregate hs ha

  -- A row is counted unless the counted column is null in it.
  unfoldable pub counted : KvAggregateOp → List RowMap → List RowMap
  counted aggregate [] = []
  counted KvAggregateOp.count_star (row ∷ rows) = row ∷ counted KvAggregateOp.count_star rows
  counted (KvAggregateOp.count_column idx) (row ∷ rows) =
      let rest = counted (KvAggregateOp.count_column idx) rows in
      if is_null (row_value schema row idx) then rest else row ∷ rest
  counted _ (row ∷ rows) = []

  apply_to-count :
      (aggregate : KvAggregateOp) (rows : List RowMap) (n : ℕ)
      → IsCount aggregate
      → n % 2 ^ 64 ≡ n
      → apply_to ops schema aggregate rows (KvAggregateState.count n)
        ≡ KvAggregateState.count ((n + length (counted aggregate rows)) % 2 ^ 64)
  unfolding apply_to apply_one counted
  apply_to-count KvAggregateOp.count_star [] n h small = ap KvAggregateState.count (omega arith)
  apply_to-count (KvAggregateOp.count_column idx) [] n h small =
      ap KvAggregateState.count (omega arith)
  apply_to-count KvAggregateOp.count_star (row ∷ rows) n h small =
      apply_to-count KvAggregateOp.count_star rows (increment n) tt (omega arith)
      ∙ ap KvAggregateState.count (omega arith)
  apply_to-count (KvAggregateOp.count_column idx) (row ∷ rows) n h small =
      elim (Bool-cases (is_null (row_value schema row idx))) [
        | inl e ↦ rw e (apply_to-count (KvAggregateOp.count_column idx) rows n tt small)
        | inr e ↦ rw e (
            apply_to-count (KvAggregateOp.count_column idx) rows (increment n) tt (omega arith)
            ∙ ap KvAggregateState.count (omega arith))
      ]
  apply_to-count _ rows n h small = absurd h

module _ (ops : FloatOps) (floats : FloatText) (plan : KvAggregateScan) where
  get_elem?-apply_rows :
      (rows : List RowMap) (states : List KvAggregateState) (idx : ℕ) (state : KvAggregateState)
      (aggregate : KvAggregateOp)
      → get_elem? states idx ≡ some state
      → get_elem? plan.aggregates idx ≡ some aggregate
      → get_elem? (apply_rows ops floats plan rows states) idx
        ≡ some (apply_to ops plan.schema aggregate rows state)
  unfolding apply_rows apply_to
  get_elem?-apply_rows [] states idx state aggregate hs ha = hs
  get_elem?-apply_rows (row ∷ rows) states idx state aggregate hs ha =
      get_elem?-apply_rows rows (kv_apply_aggregate ops plan.schema row states plan.aggregates) idx
        (apply_one ops plan.schema row aggregate state) aggregate
        (get_elem?-kv_apply_aggregate ops plan.schema row states plan.aggregates idx state aggregate
          hs ha)
        ha

  get_elem?-initial_states :
      (aggregates : List KvAggregateOp) (idx : ℕ) (aggregate : KvAggregateOp)
      → get_elem? aggregates idx ≡ some aggregate
      → get_elem? (map kv_aggregate_initial_state aggregates) idx
        ≡ some (kv_aggregate_initial_state aggregate)
  get_elem?-initial_states [] idx aggregate h = cc
  get_elem?-initial_states (a ∷ aggregates) zero aggregate h =
      let same : a ≡ aggregate = ground arith in ap (λ x. some (kv_aggregate_initial_state x)) same
  get_elem?-initial_states (a ∷ aggregates) (suc idx) aggregate h =
      get_elem?-initial_states aggregates idx aggregate h

  -- The state at a place is that of the aggregate at the place, whatever the others are.
  pub apply_rows-apply_to :
      (rows : List RowMap) (idx : ℕ) (aggregate : KvAggregateOp)
      → get_elem? plan.aggregates idx ≡ some aggregate
      → get_elem? (apply_rows ops floats plan rows (initial_states ops floats plan)) idx
        ≡ some (apply_to ops plan.schema aggregate rows (kv_aggregate_initial_state aggregate))
  apply_rows-apply_to rows idx aggregate h =
      get_elem?-apply_rows rows (initial_states ops floats plan) idx
        (kv_aggregate_initial_state aggregate) aggregate
        (get_elem?-initial_states plan.aggregates idx aggregate h) h

  -- A count has the number of the group's rows, without those in which its column is null, up to a
  -- multiple of 2 ^ 64.
  pub apply_rows-counted :
      (rows : List RowMap) (idx : ℕ) (aggregate : KvAggregateOp)
      → get_elem? plan.aggregates idx ≡ some aggregate
      → IsCount aggregate
      → get_elem? (apply_rows ops floats plan rows (initial_states ops floats plan)) idx
        ≡ some (KvAggregateState.count (length (counted ops plan.schema aggregate rows) % 2 ^ 64))
  unfolding kv_aggregate_initial_state
  apply_rows-counted rows idx KvAggregateOp.count_star h c =
      apply_rows-apply_to rows idx KvAggregateOp.count_star h
      ∙ ap some (
          apply_to-count ops plan.schema KvAggregateOp.count_star rows 0 tt refl
          ∙ ap KvAggregateState.count (omega arith))
  apply_rows-counted rows idx (KvAggregateOp.count_column i) h c =
      apply_rows-apply_to rows idx (KvAggregateOp.count_column i) h
      ∙ ap some (
          apply_to-count ops plan.schema (KvAggregateOp.count_column i) rows 0 tt refl
          ∙ ap KvAggregateState.count (omega arith))
  apply_rows-counted rows idx _ h c = absurd c
