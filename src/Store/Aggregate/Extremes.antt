-- ===== src/Store/Aggregate/Extremes.antt =====
-- The largest and the smallest value of a column of integers, as src/mem_store.rs finds them.
use Prim.Native.Nat.{Ordering}
use uni5db.Base.{
  ℕ, ◌≡◌, ◌≢◌, refl, sym, subst, ◌∙◌, ◌⊎◌, inl, inr, Bool, true, false, List, [], ◌∷◌, Option, none,
  some, arith, All, Bool-cases,
}
use uni5db.Base.Int.{ℤ, cmp_ℤ, signed}
use uni5db.Types.Value.{ColumnValue, is_null}
use uni5db.Types.Schema.{TableSchema}
use uni5db.Types.Floats.{FloatOps}
use uni5db.Types.Compare.{partial_cmp}
use uni5db.Store.Predicate.{RowMap, row_value, is_gt, is_lt}
use uni5db.Store.Aggregate.{
  KvAggregateOp, KvAggregateState, kv_aggregate_initial_state, apply_one, max_step, min_step,
}
use uni5db.Store.Aggregate.Counts.{apply_to}

-- The integer that a value is.
abbrev pub int_of : ColumnValue → Option ℤ
int_of (ColumnValue.int16 v) = some (signed 16 v)
int_of (ColumnValue.int32 v) = some (signed 32 v)
int_of (ColumnValue.int64 v) = some (signed 64 v)
int_of _ = none

abbrev pub IsIntOrNull : ColumnValue → Type 0
IsIntOrNull ColumnValue.null = Unit
IsIntOrNull (ColumnValue.int16 _) = Unit
IsIntOrNull (ColumnValue.int32 _) = Unit
IsIntOrNull (ColumnValue.int64 _) = Unit
IsIntOrNull _ = ⊥

-- No integer is beyond the other, downwards or upwards; null is beyond nothing.
abbrev pub Within : Bool → Option ℤ → Option ℤ → Type 0
Within upwards none _ = Unit
Within upwards (some x) none = ⊥
Within true (some x) (some y) = cmp_ℤ x y ≢ Ordering.gt
Within false (some x) (some y) = cmp_ℤ y x ≢ Ordering.gt

abbrev step : FloatOps → Bool → ColumnValue → ColumnValue → ColumnValue
step ops true found state = max_step ops found state
step ops false found state = min_step ops found state

Int-cases :
    (v : ColumnValue)
    → IsIntOrNull v
    → (v ≡ ColumnValue.null) ⊎ ((x : ℤ) × (int_of v ≡ some x) × (is_null v ≡ false))
Int-cases ColumnValue.null h = inl refl
Int-cases (ColumnValue.int16 v) h = inr (signed 16 v, refl, refl)
Int-cases (ColumnValue.int32 v) h = inr (signed 32 v, refl, refl)
Int-cases (ColumnValue.int64 v) h = inr (signed 64 v, refl, refl)
Int-cases _ h = absurd h

cmp_ℤ_self : (x : ℤ) → cmp_ℤ x x ≢ Ordering.gt
cmp_ℤ_self x h = absurd (ground arith)

Within-refl : (upwards : Bool) (x : Option ℤ) → Within upwards x x
Within-refl upwards none = tt
Within-refl true (some x) = cmp_ℤ_self x
Within-refl false (some x) = cmp_ℤ_self x

Within-trans :
    (upwards : Bool) (x y z : Option ℤ)
    → Within upwards x y
    → Within upwards y z
    → Within upwards x z
Within-trans upwards none y z h k = tt
Within-trans upwards (some x) none z h k = absurd h
Within-trans upwards (some x) (some y) none h k = absurd k
Within-trans true (some x) (some y) (some z) h k = λ e. absurd (ground arith)
Within-trans false (some x) (some y) (some z) h k = λ e. absurd (ground arith)

module _ (ops : FloatOps) where
  partial_cmp-int_of :
      (a b : ColumnValue) (x y : ℤ)
      → int_of a ≡ some x
      → int_of b ≡ some y
      → partial_cmp ops a b ≡ some (cmp_ℤ x y)
  unfolding partial_cmp
  partial_cmp-int_of (ColumnValue.int16 a) (ColumnValue.int16 b) x y ha hb = ground arith
  partial_cmp-int_of (ColumnValue.int16 a) (ColumnValue.int32 b) x y ha hb = ground arith
  partial_cmp-int_of (ColumnValue.int16 a) (ColumnValue.int64 b) x y ha hb = ground arith
  partial_cmp-int_of (ColumnValue.int32 a) (ColumnValue.int16 b) x y ha hb = ground arith
  partial_cmp-int_of (ColumnValue.int32 a) (ColumnValue.int32 b) x y ha hb = ground arith
  partial_cmp-int_of (ColumnValue.int32 a) (ColumnValue.int64 b) x y ha hb = ground arith
  partial_cmp-int_of (ColumnValue.int64 a) (ColumnValue.int16 b) x y ha hb = ground arith
  partial_cmp-int_of (ColumnValue.int64 a) (ColumnValue.int32 b) x y ha hb = ground arith
  partial_cmp-int_of (ColumnValue.int64 a) (ColumnValue.int64 b) x y ha hb = ground arith
  partial_cmp-int_of _ _ x y ha hb = cc

  -- What a round keeps bounds both values, and is one of them.
  abbrev Picks : Bool → ColumnValue → ColumnValue → ColumnValue → Type 0
  Picks upwards found state kept =
      Within upwards (int_of found) (int_of kept)
      × Within upwards (int_of state) (int_of kept)
      × ((kept ≡ state) ⊎ (kept ≡ found))

  step-Picks :
      (upwards : Bool) (found state : ColumnValue)
      → IsIntOrNull found
      → IsIntOrNull state
      → Picks upwards found state (step ops upwards found state)
  step-Picks true found state hf hs = elim (Int-cases found hf) [
    | inl e ↦ rw e (tt, Within-refl true (int_of state), inl refl)
    | inr (x, ix, nx) ↦ elim (Int-cases state hs) [
      | inl e ↦ rw (nx, e) (Within-refl true (int_of found), tt, inr refl)
      | inr (y, iy, ny) ↦
          rw (nx, ny, partial_cmp-int_of found state x y ix iy)
            (elim (Bool-cases (is_gt (some (cmp_ℤ x y)))) [
              | inl beyond ↦
                  rw (beyond, ix, iy) (cmp_ℤ_self x, λ h. absurd (ground arith), inr refl)
              | inr within ↦
                  rw (within, ix, iy) (λ h. absurd (ground arith), cmp_ℤ_self y, inl refl)
            ])
    ]
  ]
  step-Picks false found state hf hs = elim (Int-cases found hf) [
    | inl e ↦ rw e (tt, Within-refl false (int_of state), inl refl)
    | inr (x, ix, nx) ↦ elim (Int-cases state hs) [
      | inl e ↦ rw (nx, e) (Within-refl false (int_of found), tt, inr refl)
      | inr (y, iy, ny) ↦
          rw (nx, ny, partial_cmp-int_of found state x y ix iy)
            (elim (Bool-cases (is_lt (some (cmp_ℤ x y)))) [
              | inl beyond ↦
                  rw (beyond, ix, iy) (cmp_ℤ_self x, λ h. absurd (ground arith), inr refl)
              | inr within ↦
                  rw (within, ix, iy) (λ h. absurd (ground arith), cmp_ℤ_self y, inl refl)
            ])
    ]
  ]

-- The aggregate for each direction.
abbrev pub extreme : Bool → ℕ → KvAggregateOp
extreme true idx = KvAggregateOp.max_column idx
extreme false idx = KvAggregateOp.min_column idx

-- The value is null, or a row's.
abbrev pub Occurs : TableSchema → ℕ → ColumnValue → List RowMap → Type 0
Occurs schema idx v [] = ⊥
Occurs schema idx v (row ∷ rows) = (v ≡ row_value schema row idx) ⊎ Occurs schema idx v rows

module _ (ops : FloatOps) (schema : TableSchema) (idx : ℕ) where
  -- The value that the rows leave behind a value.
  run : Bool → List RowMap → ColumnValue → ColumnValue
  run upwards [] state = state
  run upwards (row ∷ rows) state =
      run upwards rows (step ops upwards (row_value schema row idx) state)

  apply_to-run :
      (upwards : Bool) (rows : List RowMap) (state : ColumnValue)
      → apply_to ops schema (extreme upwards idx) rows (KvAggregateState.value state)
        ≡ KvAggregateState.value (run upwards rows state)
  unfolding apply_to apply_one run
  apply_to-run true [] state = refl
  apply_to-run false [] state = refl
  apply_to-run true (row ∷ rows) state =
      apply_to-run true rows (max_step ops (row_value schema row idx) state)
  apply_to-run false (row ∷ rows) state =
      apply_to-run false rows (min_step ops (row_value schema row idx) state)

  IsIntOrNull-kept :
      (upwards : Bool) (found state : ColumnValue)
      → IsIntOrNull found
      → IsIntOrNull state
      → IsIntOrNull (step ops upwards found state)
  IsIntOrNull-kept upwards found state hf hs = elim (step-Picks ops upwards found state hf hs).2 [
    | inl e ↦ subst IsIntOrNull (sym e) hs
    | inr e ↦ subst IsIntOrNull (sym e) hf
  ]

  run-bounds :
      (upwards : Bool) (rows : List RowMap) (state : ColumnValue)
      → All (λ row. IsIntOrNull (row_value schema row idx)) rows
      → IsIntOrNull state
      → Within upwards (int_of state) (int_of (run upwards rows state))
        × All
            (λ row.
              Within upwards (int_of (row_value schema row idx)) (int_of (run upwards rows state)))
            rows
        × ((run upwards rows state ≡ state) ⊎ Occurs schema idx (run upwards rows state) rows)
  unfolding run
  run-bounds upwards [] state h hs = (Within-refl upwards (int_of state), tt, inl refl)
  run-bounds upwards (row ∷ rows) state (hr, h) hs =
      let found = row_value schema row idx in
      let kept = step ops upwards found state in
      let (above_found, above_state, which) = step-Picks ops upwards found state hr hs in
      let (above, all, from) =
        run-bounds upwards rows kept h (IsIntOrNull-kept upwards found state hr hs) in
      (
        Within-trans upwards _ (int_of kept) _ above_state above,
        (Within-trans upwards _ (int_of kept) _ above_found above, all),
        elim from [
          | inr later ↦ inr (inr later)
          | inl e ↦ elim which [ inl w ↦ inl (e ∙ w) | inr w ↦ inr (inl (e ∙ w)) ]
        ],
      )

  -- The maximum of a column of integers and nulls is at least every integer in it, and null or one of
  -- the column's values, and null only if there is no integer; and likewise the minimum.
  pub apply_to-extreme :
      (upwards : Bool) (rows : List RowMap)
      → All (λ row. IsIntOrNull (row_value schema row idx)) rows
      → (kept : ColumnValue) × (apply_to ops schema
            (extreme upwards idx)
            rows
            (kv_aggregate_initial_state (extreme upwards idx))
          ≡ KvAggregateState.value kept)
        × All (λ row. Within upwards (int_of (row_value schema row idx)) (int_of kept)) rows
        × ((kept ≡ ColumnValue.null) ⊎ Occurs schema idx kept rows)
  unfolding kv_aggregate_initial_state
  apply_to-extreme true rows h =
      let (_, all, from) = run-bounds true rows ColumnValue.null h tt in
      (run true rows ColumnValue.null, apply_to-run true rows ColumnValue.null, all, from)
  apply_to-extreme false rows h =
      let (_, all, from) = run-bounds false rows ColumnValue.null h tt in
      (run false rows ColumnValue.null, apply_to-run false rows ColumnValue.null, all, from)
