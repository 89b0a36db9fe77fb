-- ===== src/Store/Aggregate/Groups.antt =====
-- What `aggregate_scan` of src/mem_store.rs keeps for a group is what its rows give, one after the other.
use uni5db.Base.{
  ◌≡◌, refl, ◌∙◌, Bool, ◌&&◌, List, [], ◌∷◌, Option, none, some, if◌then◌else◌, Bool-cases, inl,
  inr, Result, ok, ◌>>=◌, >>=-eq-ok,
}
use uni5db.Bytes.{Bytes, bytes_eq}
use uni5db.Bytes.Order.{bytes_eq→eq}
use uni5db.Types.Value.{ColumnValue}
use uni5db.Types.Floats.{FloatOps}
use uni5db.Types.Text.{FloatText}
use uni5db.Store.Maps
use uni5db.Store.Maps.{IsSorted}
use uni5db.Store.Maps.Laws.{get-insert}
use uni5db.Store.Maps.Sorted.{insert-IsSorted}
use uni5db.Store.Predicate.{RowMap}
use uni5db.Store.Aggregate.{KvAggregateState}
use uni5db.Store.Aggregate.Scan.{
  KvAggregateScan, Entry, Groups, row_of_entry, add_row, add_found, collect_groups, initial_states,
  group_values, group_key, apply_row, matches, grown,
}

-- The rows of the entries that have one.
abbrev with_row : Option RowMap → List RowMap → List RowMap
with_row none rows = rows
with_row (some row) rows = row ∷ rows

module _ (ops : FloatOps) (floats : FloatText) (plan : KvAggregateScan) where
  unfoldable pub rows_of : Bool → List Entry → Result (List RowMap)
  rows_of keys_only [] = ok []
  rows_of keys_only (entry ∷ entries) = do
    found ← row_of_entry plan.schema keys_only entry
    rows ← rows_of keys_only entries
    ok (with_row found rows)

  -- The rows that match and whose group has the key.
  unfoldable pub members : Bytes → List RowMap → List RowMap
  members k [] = []
  members k (row ∷ rows) =
      let rest = members k rows in
      if matches ops floats plan row && bytes_eq (group_key ops floats plan row) k
      then row ∷ rest
      else rest

  unfoldable pub apply_rows : List RowMap → List KvAggregateState → List KvAggregateState
  apply_rows [] states = states
  apply_rows (row ∷ rows) states = apply_rows rows (apply_row ops floats plan row states)

  -- The values of the first row, and the states after all rows.
  abbrev pub summary : List RowMap → Option (List ColumnValue × List KvAggregateState)
  summary [] = none
  summary (row ∷ rows) =
      some
        (group_values ops floats plan row, apply_rows (row ∷ rows) (initial_states ops floats plan))

  -- What a group with these values and states becomes.
  abbrev continued :
      Option (List ColumnValue × List KvAggregateState)
      → List RowMap
      → Option (List ColumnValue × List KvAggregateState)
  continued none rows = summary rows
  continued (some (values, states)) rows = some (values, apply_rows rows states)

  unfoldable add_rows : List RowMap → Groups → Groups
  add_rows [] groups = groups
  add_rows (row ∷ rows) groups = add_rows rows (add_row ops floats plan row groups)

  continued_nil :
      (group : Option (List ColumnValue × List KvAggregateState)) → group ≡ continued group []
  unfolding apply_rows
  continued_nil none = refl
  continued_nil (some group) = refl

  continued_cons :
      (row : RowMap) (rows : List RowMap)
      (group : Option (List ColumnValue × List KvAggregateState))
      → continued (some (grown ops floats plan row group)) rows ≡ continued group (row ∷ rows)
  unfolding apply_rows
  continued_cons row rows none = refl
  continued_cons row rows (some group) = refl

  get-add_row :
      (k : Bytes) (row : RowMap) (groups : Groups)
      → Maps.get k (add_row ops floats plan row groups) ≡ (
          if matches ops floats plan row && bytes_eq (group_key ops floats plan row) k
          then some (grown ops floats plan row (Maps.get k groups))
          else Maps.get k groups)
  unfolding add_row
  get-add_row k row groups = elim (Bool-cases (matches ops floats plan row)) [
    | inr e ↦ rw e refl
    | inl e ↦
        rw
          (
            e,
            get-insert k (group_key ops floats plan row)
                (grown ops floats plan row (Maps.get (group_key ops floats plan row) groups))
                groups,
          )
          (elim (Bool-cases (bytes_eq (group_key ops floats plan row) k)) [
            | inr n ↦ rw n refl
            | inl y ↦ rw (bytes_eq→eq (group_key ops floats plan row) k y) refl
          ])
  ]

  get-add_rows :
      (k : Bytes) (rows : List RowMap) (groups : Groups)
      → Maps.get k (add_rows rows groups) ≡ continued (Maps.get k groups) (members k rows)
  unfolding add_rows members
  get-add_rows k [] groups = continued_nil (Maps.get k groups)
  get-add_rows k (row ∷ rows) groups =
      rw (get-add_rows k rows (add_row ops floats plan row groups), get-add_row k row groups)
        (elim (Bool-cases
          (matches ops floats plan row && bytes_eq (group_key ops floats plan row) k)) [
            | inl e ↦ rw e (continued_cons row (members k rows) (Maps.get k groups))
            | inr e ↦ rw e refl
          ])

  add_row-IsSorted :
      (row : RowMap) (groups : Groups)
      → IsSorted groups
      → IsSorted (add_row ops floats plan row groups)
  unfolding add_row
  add_row-IsSorted row groups h = elim (Bool-cases (matches ops floats plan row)) [
    | inl e ↦ rw e (insert-IsSorted (group_key ops floats plan row) _ groups h)
    | inr e ↦ rw e h
  ]

  add_rows-IsSorted :
      (rows : List RowMap) (groups : Groups) → IsSorted groups → IsSorted (add_rows rows groups)
  unfolding add_rows
  add_rows-IsSorted [] groups h = h
  add_rows-IsSorted (row ∷ rows) groups h =
      add_rows-IsSorted rows (add_row ops floats plan row groups) (add_row-IsSorted row groups h)

  add_rows-with_row :
      (found : Option RowMap) (rows : List RowMap) (groups : Groups)
      → add_rows (with_row found rows) groups
        ≡ add_rows rows (add_found ops floats plan found groups)
  unfolding add_rows
  add_rows-with_row none rows groups = refl
  add_rows-with_row (some row) rows groups = refl

  collect_groups-add_rows :
      (keys_only : Bool) (entries : List Entry) (rows : List RowMap) (groups : Groups)
      → rows_of keys_only entries ≡ ok rows
      → collect_groups ops floats plan keys_only entries groups ≡ ok (add_rows rows groups)
  unfolding collect_groups rows_of
  collect_groups-add_rows keys_only [] rows groups h =
      let same : [] ≡ rows = (cc) in rw (← same) (unfold add_rows in refl)
  collect_groups-add_rows keys_only (entry ∷ entries) rows groups h =
      let (found, read, h) = >>=-eq-ok (row_of_entry plan.schema keys_only entry) _ h in
      let (later, run, h) = >>=-eq-ok (rows_of keys_only entries) _ h in
      let same : with_row found later ≡ rows = (cc) in
      rw (read, ← same, add_rows-with_row found later groups)
        (collect_groups-add_rows keys_only entries later (add_found ops floats plan found groups)
          run)

  -- Where every entry of a scan is decoded, the scan gathers its groups in the order of their keys: a
  -- key has the values of the first row of its group that the filters keep, and the states that all
  -- such rows give in the order of the scan, and a key without such a row has no group.
  pub collect_groups-members :
      (keys_only : Bool) (entries : List Entry) (rows : List RowMap) (k : Bytes)
      → rows_of keys_only entries ≡ ok rows
      → (groups : Groups) × (collect_groups ops floats plan keys_only entries [] ≡ ok groups)
        × IsSorted groups
        × (Maps.get k groups ≡ summary (members k rows))
  collect_groups-members keys_only entries rows k h = (
    add_rows rows [],
    collect_groups-add_rows keys_only entries rows [] h,
    add_rows-IsSorted rows [] tt,
    get-add_rows k rows [] ∙ (unfold Maps.get in refl),
  )
