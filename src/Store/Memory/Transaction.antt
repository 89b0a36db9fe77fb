-- ===== src/Store/Memory/Transaction.antt =====
-- `MemoryTransaction` of src/mem_store.rs. The store that the transaction shares is an argument of
-- the operations that read or write it. `readable` says whether `overlay_pending` gets the lock of
-- `pending` by `try_read`; it does unless a write of the same transaction holds it.
use uni5db.Base.{
  ℕ, suc, Bool, true, false, List, [], ◌∷◌, ◌++◌, Option, none, some, if◌then◌else◌, get_elem?,
  take, reverse, ◌+◌,
}
use uni5db.Bytes.{Bytes, bytes_eq, starts_with}
use uni5db.Bytes.Ascii.{to_ascii_lowercase}
use uni5db.Storage.Prefix.{in_range}
use uni5db.Store.Maps
use uni5db.Store.Maps.{Map, insert, remove, hash_insert, filter, collect}
use uni5db.Store.Memory.{KvStore, limited}

-- The new value of each written key, `none` for a deleted one.
abbrev pub Pending : Type 0
Pending = Map (Option Bytes)

pub record Transaction : Type 0 where
  pub snapshot : KvStore
  pub pending : Pending
  pub savepoints : List (Bytes × Pending)

-- The result of an operation on savepoints: `missing name` is the error "savepoint '{name}' does not
-- exist", `panicked` an index out of bounds.
pub data Outcome : Type 0 where
  done : Transaction → Outcome
  missing : Bytes → Outcome
  panicked : Outcome

unfoldable pub begin_transaction : KvStore → Transaction
begin_transaction inner = record { snapshot = inner; pending = []; savepoints = [] }

abbrev with_pending : Pending → Transaction → Transaction
with_pending pending t = record {
  snapshot = t.snapshot;
  pending = pending;
  savepoints = t.savepoints;
}

unfoldable pub put : Bytes → Bytes → Transaction → Transaction
put key value t = with_pending (insert key (some value) t.pending) t

-- The loop of `put_batch` over the entries.
unfoldable pub insert_all : List (Bytes × Bytes) → Pending → Pending
insert_all [] pending = pending
insert_all ((key, value) ∷ entries) pending = insert_all entries (insert key (some value) pending)

unfoldable pub put_batch : List (Bytes × Bytes) → Transaction → Transaction
put_batch entries t = with_pending (insert_all entries t.pending) t

unfoldable pub delete : Bytes → Transaction → Transaction
delete key t = with_pending (insert key none t.pending) t

unfoldable pub get : Bytes → Transaction → KvStore → Option Bytes
get key t inner = elim (Maps.get key t.pending) [ some value ↦ value | none ↦ Maps.get key inner ]

unfoldable pub snapshot_get : Bytes → Transaction → Option Bytes
snapshot_get key t = elim (Maps.get key t.pending) [
  | some value ↦ value
  | none ↦ Maps.get key t.snapshot
]

unfoldable pub has_pending_key : Bytes → Transaction → Bool
has_pending_key key t = elim (Maps.get key t.pending) [ some value ↦ true | none ↦ false ]

-- The loop of `overlay_pending` over the pending entries.
unfoldable pub overlay : (Bytes → Bool) → Pending → Map Bytes → Map Bytes
overlay within [] rows = rows
overlay within ((key, value) ∷ pending) rows = overlay within pending (
    if within key then elim value [ some v ↦ insert key v rows | none ↦ remove key rows ] else rows)

unfoldable pub overlay_pending : Bool → (Bytes → Bool) → Transaction → Map Bytes → Map Bytes
overlay_pending readable within t rows = if readable then overlay within t.pending rows else rows

unfoldable pub collect_range : Map Bytes → Option ℕ → Bool → List (Bytes × Bytes)
collect_range rows limit backwards = limited limit (if backwards then reverse rows else rows)

module _ (readable : Bool) where
  unfoldable pub materialize_prefix : Bytes → Transaction → KvStore → List (Bytes × Bytes)
  materialize_prefix prefix t inner =
      overlay_pending readable (λ key. starts_with key prefix) t
        (collect [] (filter (λ key. starts_with key prefix) inner))

  unfoldable pub materialize_snapshot_prefix : Bytes → Transaction → List (Bytes × Bytes)
  materialize_snapshot_prefix prefix t =
      overlay_pending readable (λ key. starts_with key prefix) t
        (collect [] (filter (λ key. starts_with key prefix) t.snapshot))

  unfoldable pub materialize_range :
      Bytes → Option Bytes → Option ℕ → Bool → Transaction → KvStore → List (Bytes × Bytes)
  materialize_range start end limit backwards t inner =
      collect_range
        (overlay_pending readable (in_range start end) t
          (collect [] (filter (in_range start end) inner)))
        limit backwards

  unfoldable pub materialize_snapshot_range :
      Bytes → Option Bytes → Option ℕ → Bool → Transaction → List (Bytes × Bytes)
  materialize_snapshot_range start end limit backwards t =
      collect_range
        (overlay_pending readable (in_range start end) t
          (collect [] (filter (in_range start end) t.snapshot)))
        limit backwards

-- The loop of `commit` over the pending entries.
unfoldable pub publish : Pending → KvStore → KvStore
publish [] inner = inner
publish ((key, value) ∷ pending) inner =
    publish pending (elim value [ some v ↦ hash_insert key v inner | none ↦ remove key inner ])

unfoldable pub commit : Transaction → KvStore → KvStore
commit t inner = publish t.pending inner

unfoldable pub rollback : Transaction → Transaction
rollback t = t

unfoldable pub savepoint : Bytes → Transaction → Transaction
savepoint name t = record {
  snapshot = t.snapshot;
  pending = t.pending;
  savepoints = t.savepoints ++ (to_ascii_lowercase name, t.pending) ∷ [];
}

-- `iter().rposition(|(saved, _)| saved == &name)`
unfoldable pub rposition : Bytes → List (Bytes × Pending) → Option ℕ
rposition name [] = none
rposition name ((saved, pending) ∷ savepoints) = elim (rposition name savepoints) [
  | some pos ↦ some (suc pos)
  | none ↦ if bytes_eq saved name then some 0 else none
]

unfoldable pub rollback_to_savepoint : Bytes → Transaction → Outcome
rollback_to_savepoint name t = elim (rposition (to_ascii_lowercase name) t.savepoints) [
  | none ↦ missing (to_ascii_lowercase name)
  | some pos ↦ elim (get_elem? t.savepoints pos) [
    | none ↦ panicked
    | some saved ↦ done (record {
      snapshot = t.snapshot;
      pending = saved.1;
      savepoints = take (pos + 1) t.savepoints;
    })
  ]
]

unfoldable pub release_savepoint : Bytes → Transaction → Outcome
release_savepoint name t = elim (rposition (to_ascii_lowercase name) t.savepoints) [
  | none ↦ missing (to_ascii_lowercase name)
  | some pos ↦
      done
        (record { snapshot = t.snapshot; pending = t.pending; savepoints = take pos t.savepoints })
]
