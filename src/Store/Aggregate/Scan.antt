-- ===== src/Store/Aggregate/Scan.antt =====
-- `aggregate_scan` of src/mem_store.rs, over the rows that the scan of its range gives. The text that
-- an error becomes is not kept apart from the error.
use uni5db.Base.{
  ℕ, Bool, true, false, ◌&&◌, List, [], ◌∷◌, ◌++◌, Option, none, some, map, if◌then◌else◌,
  get_elem?, length, Result, ok, ◌>>=◌,
}
use uni5db.Bytes.{Bytes, bytes_eq}
use uni5db.Types.Value.{ColumnValue}
use uni5db.Types.Schema.{TableSchema, pk_data_type}
use uni5db.Types.Floats.{FloatOps}
use uni5db.Types.Text.{FloatText}
use uni5db.Store.Maps
use uni5db.Store.Maps.{Map}
use uni5db.Store.Memory.{KvStore, scan_range}
use uni5db.Storage.Keys.{decode_pk_from_row_key}
use uni5db.Storage.RowRecord.{decode_row_record}
use uni5db.Store.Predicate.{RowMap, KvPredicate, kv_row_matches}
use uni5db.Store.Aggregate.{
  KvAggregateOp, KvAggregateState, kv_aggregate_initial_state, kv_apply_aggregate,
  kv_finish_aggregate_state, kv_group_values, kv_group_key,
}

pub data KvScanProjection : Type 0 where
  key_only key_value : KvScanProjection

pub record KvAggregateScan : Type 0 where
  pub schema : TableSchema
  pub range_start : Bytes
  pub range_end : Option Bytes
  pub scan_prefix : Option Bytes
  pub filters : List KvPredicate
  pub group_indices : List ℕ
  pub aggregates : List KvAggregateOp
  pub required_indices : List ℕ
  pub projection : KvScanProjection

abbrev pub Entry : Type 0
Entry = Bytes × Option Bytes

abbrev pub project : KvScanProjection → Bytes × Bytes → Entry
project KvScanProjection.key_only entry = (entry.0, none)
project KvScanProjection.key_value entry = (entry.0, some entry.1)

unfoldable pub scan_range_projected :
    Bytes → Option Bytes → Option ℕ → Bool → KvScanProjection → KvStore → List Entry
scan_range_projected start end limit backwards projection inner =
    map (project projection) (scan_range start end limit backwards inner)

-- The loop of `visit_range`: a visitor has a state and says whether it goes on.
module _ {ℓ} {S : Type ℓ} (visitor : Bytes → Option Bytes → S → Result (Bool × S)) where
  unfoldable pub visit : List Entry → S → Result S
  visit [] state = ok state
  visit ((key, value) ∷ entries) state = do
    (go_on, next) ← visitor key value state
    let rest = visit entries next
    if go_on then rest else ok next

  unfoldable pub visit_range :
      Bytes → Option Bytes → Bool → KvScanProjection → KvStore → S → Result S
  visit_range start end backwards projection inner state =
      visit (scan_range_projected start end none backwards projection inner) state

unfoldable pub count_range : Bytes → Option Bytes → KvStore → ℕ
count_range start end inner =
    length (scan_range_projected start end none false KvScanProjection.key_only inner)

-- Whether the primary key is all that the plan needs.
unfoldable pub pk_only : TableSchema → List ℕ → Bool
pk_only schema [] = true
pk_only schema (idx ∷ required) =
    (elim (get_elem? schema.columns idx) [
      | none ↦ false
      | some column ↦ bytes_eq column.name schema.primary_key
    ])
    && pk_only schema required

-- The groups by their keys, each with its values and states.
abbrev pub Groups : Type 0
Groups = Map (List ColumnValue × List KvAggregateState)

abbrev pub value_row : TableSchema → Option Bytes → Result (Option RowMap)
value_row schema none = ok none
value_row schema (some value) = do row ← decode_row_record schema value; ok (some row)

-- The row of an entry; an entry that is to have a value and has none is passed over.
unfoldable pub row_of_entry : TableSchema → Bool → Entry → Result (Option RowMap)
row_of_entry schema keys_only entry =
    if keys_only
    then (do
      pk_value ←
          decode_pk_from_row_key entry.0 schema.table_id schema.table_epoch (pk_data_type schema)
      ok (some ((schema.primary_key, pk_value) ∷ [])))
    else value_row schema entry.1

module _ (ops : FloatOps) (floats : FloatText) (plan : KvAggregateScan) where
  abbrev pub initial_states : List KvAggregateState
  initial_states = map kv_aggregate_initial_state plan.aggregates

  abbrev pub group_values : RowMap → List ColumnValue
  group_values row = kv_group_values plan.schema row plan.group_indices

  abbrev pub group_key : RowMap → Bytes
  group_key row = kv_group_key floats (group_values row)

  abbrev pub apply_row : RowMap → List KvAggregateState → List KvAggregateState
  apply_row row states = kv_apply_aggregate ops plan.schema row states plan.aggregates

  abbrev pub matches : RowMap → Bool
  matches row = kv_row_matches ops plan.schema row plan.filters

  -- The entry of the row's group with the row added.
  abbrev pub grown :
      RowMap
      → Option (List ColumnValue × List KvAggregateState)
      → List ColumnValue × List KvAggregateState
  grown row none = (group_values row, apply_row row initial_states)
  grown row (some (values, states)) = (values, apply_row row states)

  unfoldable pub add_row : RowMap → Groups → Groups
  add_row row groups =
      if matches row
      then Maps.insert (group_key row) (grown row (Maps.get (group_key row) groups)) groups
      else groups

  abbrev pub add_found : Option RowMap → Groups → Groups
  add_found none groups = groups
  add_found (some row) groups = add_row row groups

  -- The loop over the entries.
  unfoldable pub collect_groups : Bool → List Entry → Groups → Result Groups
  collect_groups keys_only [] groups = ok groups
  collect_groups keys_only (entry ∷ entries) groups = do
    found ← row_of_entry plan.schema keys_only entry
    collect_groups keys_only entries (add_found found groups)

  abbrev pub with_empty_group : List ℕ → Groups → Groups
  with_empty_group [] [] = Maps.insert [] ([], initial_states) []
  with_empty_group _ groups = groups

  abbrev pub finished : Bytes × (List ColumnValue × List KvAggregateState) → List ColumnValue
  finished (key, (values, states)) = values ++ map (kv_finish_aggregate_state ops) states

  unfoldable pub aggregate_scan : KvStore → Result (List (List ColumnValue))
  aggregate_scan inner = do
    groups ←
        collect_groups (pk_only plan.schema plan.required_indices)
          (scan_range_projected plan.range_start plan.range_end none false plan.projection inner) []
    ok (map finished (with_empty_group plan.group_indices groups))
