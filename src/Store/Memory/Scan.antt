-- ===== src/Store/Memory/Scan.antt =====
-- Scans of src/mem_store.rs agree with point reads: those of the store, and those of a transaction,
-- which sees its own writes over the shared store or over its snapshot.
use uni5db.Base.{
  ℕ, ◌≡◌, refl, ap, sym, ◌∙◌, Bool, true, false, List, [], ◌∷◌, Option, none, some, arith,
  if◌then◌else◌, All, reverse, Bool-cases, inl, inr,
}
use uni5db.Bytes.{Bytes, IsByte, starts_with}
use uni5db.Bytes.Order.{bytes_eq→eq}
use uni5db.Storage.Prefix.{next_prefix, in_range, in_range-next_prefix}
use uni5db.Store.Maps
use uni5db.Store.Maps.{Map, insert, remove, filter, collect, sort_by_key, IsMap, IsSorted}
use uni5db.Store.Maps.Laws.{get-filter, get-insert, get-remove}
use uni5db.Store.Maps.Keys.{get-below}
use uni5db.Store.Maps.Sorted.{
  filter-IsMap, insert-IsSorted, remove-IsSorted, collect-IsSorted, get-collect,
  sort_by_key-IsSorted, get-sort_by_key,
}
use uni5db.Store.Maps.Ext.{IsSorted-ext}
use uni5db.Store.Memory
use uni5db.Store.Memory.{KvStore, limited, scan_prefix, scan_range}
use uni5db.Store.Memory.Transaction
use uni5db.Store.Memory.Transaction.{
  Transaction, Pending, overlay, overlay_pending, collect_range, materialize_prefix,
  materialize_snapshot_prefix, materialize_range, materialize_snapshot_range, snapshot_get,
}

-- What a scan promises: the rows in the order of the keys, one for each key of the range that a
-- point read finds.
abbrev pub IsScan : (Bytes → Option Bytes) → (Bytes → Bool) → Map Bytes → Type 0
IsScan read within rows =
    IsSorted rows × ((k : Bytes) → Maps.get k rows ≡ (if within k then read k else none))

-- A scan that may run backwards and stop early.
abbrev pub Scans :
    (Bytes → Option Bytes) → (Bytes → Bool) → Option ℕ → Bool → List (Bytes × Bytes) → Type 0
Scans read within limit backwards found =
    (rows : Map Bytes) × IsScan read within rows
    × (found ≡ limited limit (if backwards then reverse rows else rows))

-- The promise determines the rows.
pub Scans-unique :
    (read other : Bytes → Option Bytes) (within : Bytes → Bool) (limit : Option ℕ)
    (backwards : Bool) (found found' : List (Bytes × Bytes))
    → ((k : Bytes) → read k ≡ other k)
    → Scans read within limit backwards found
    → Scans other within limit backwards found'
    → found ≡ found'
Scans-unique read other within limit backwards found found' same (rows, (sorted, look), eq)
      (rows', (sorted', look'), eq') =
    let rows_same =
      IsSorted-ext rows rows' sorted sorted'
        (λ k. look k ∙ ap (λ r. if within k then r else none) (same k) ∙ sym (look' k)) in
    rw (eq, eq', rows_same)

sorted-IsScan :
    (within : Bytes → Bool) (inner : KvStore)
    → IsMap inner
    → IsScan (λ k. Memory.get k inner) within (sort_by_key (filter within inner))
unfolding Memory.get
sorted-IsScan within inner h = (
  sort_by_key-IsSorted (filter within inner) (filter-IsMap within inner h),
  λ k. get-sort_by_key k (filter within inner) ∙ get-filter within k inner,
)

-- A range scan of a store without double keys gives the first rows, in the order or against it, of
-- those in the range that `get` finds.
pub scan_range-Scans :
    (start : Bytes) (end : Option Bytes) (limit : Option ℕ) (backwards : Bool) (inner : KvStore)
    → IsMap inner
    → Scans
        (λ k. Memory.get k inner)
        (in_range start end)
        limit
        backwards
        (scan_range start end limit backwards inner)
unfolding scan_range
scan_range-Scans start end limit backwards inner h =
    (_, sorted-IsScan (in_range start end) inner h, refl)

filter-prefix :
    (p : Bytes) (m : Map Bytes)
    → All (λ e. All IsByte e.0) m
    → filter (λ k. starts_with k p) m ≡ filter (in_range p (next_prefix p)) m
unfolding filter
filter-prefix p [] h = refl
filter-prefix p ((k, v) ∷ m) (hk, h) = rw (in_range-next_prefix p k hk, filter-prefix p m h)

-- On a store whose keys are bytes, a scan of a prefix is the scan of the range from the prefix to its
-- `next_prefix`.
pub scan_prefix-scan_range :
    (p : Bytes) (inner : KvStore)
    → All (λ e. All IsByte e.0) inner
    → scan_prefix p inner ≡ scan_range p (next_prefix p) none false inner
unfolding scan_prefix scan_range
scan_prefix-scan_range p inner h = ap sort_by_key (filter-prefix p inner h)

overlay-IsSorted :
    (within : Bytes → Bool) (pending : Pending) (rows : Map Bytes)
    → IsSorted rows
    → IsSorted (overlay within pending rows)
unfolding overlay
overlay-IsSorted within [] rows h = h
overlay-IsSorted within ((k, none) ∷ pending) rows h = elim (Bool-cases (within k)) [
  | inl e ↦ rw e (overlay-IsSorted within pending (remove k rows) (remove-IsSorted k rows h))
  | inr e ↦ rw e (overlay-IsSorted within pending rows h)
]
overlay-IsSorted within ((k, some v) ∷ pending) rows h = elim (Bool-cases (within k)) [
  | inl e ↦ rw e (overlay-IsSorted within pending (insert k v rows) (insert-IsSorted k v rows h))
  | inr e ↦ rw e (overlay-IsSorted within pending rows h)
]

get-overlay :
    (within : Bytes → Bool) (j : Bytes) (pending : Pending) (rows : Map Bytes)
    → IsSorted pending
    → Maps.get j (overlay within pending rows) ≡ (
        if within j
        then (elim (Maps.get j pending) [ some v ↦ v | none ↦ Maps.get j rows ])
        else Maps.get j rows)
unfolding overlay Maps.get
get-overlay within j [] rows h = ground arith
get-overlay within j ((k, none) ∷ pending) rows (hk, h) =
    let absent = get-below k pending hk in
    ground (
      arith,
      get-overlay within j pending rows h,
      get-overlay within j pending (remove k rows) h,
      get-remove j k rows,
      bytes_eq→eq k j,
    )
get-overlay within j ((k, some v) ∷ pending) rows (hk, h) =
    let absent = get-below k pending hk in
    ground (
      arith,
      get-overlay within j pending rows h,
      get-overlay within j pending (insert k v rows) h,
      get-insert j k v rows,
      bytes_eq→eq k j,
    )

overlaid-IsScan :
    (within : Bytes → Bool) (pending : Pending) (inner : KvStore)
    → IsMap inner
    → IsSorted pending
    → IsScan
        (λ k. elim (Maps.get k pending) [ some v ↦ v | none ↦ Maps.get k inner ])
        within
        (overlay within pending (collect [] (filter within inner)))
unfolding Maps.get
overlaid-IsScan within pending inner h hp = (
  overlay-IsSorted within pending _ (collect-IsSorted [] (filter within inner) tt),
  λ k.
      let first = get-collect k [] (filter within inner) (filter-IsMap within inner h) in
      ground (
        arith,
        get-overlay within k pending (collect [] (filter within inner)) hp,
        get-filter within k inner,
      ),
)

-- A range scan of a transaction, when no write of the transaction holds the lock of its pending
-- writes, gives the first rows, in the order or against it, of those in the range that the
-- transaction's own `get` finds: its writes, and the shared store for the other keys. The store has
-- no key twice and the pending writes are in the order of their keys.
pub materialize_range-Scans :
    (start : Bytes) (end : Option Bytes) (limit : Option ℕ) (backwards : Bool) (t : Transaction)
    (inner : KvStore)
    → IsMap inner
    → IsSorted t.pending
    → Scans
        (λ k. Transaction.get k t inner)
        (in_range start end)
        limit
        backwards
        (materialize_range true start end limit backwards t inner)
unfolding materialize_range overlay_pending collect_range Transaction.get
materialize_range-Scans start end limit backwards t inner h hp =
    (_, overlaid-IsScan (in_range start end) t.pending inner h hp, refl)

-- A range scan over the snapshot of a transaction, when no write of the transaction holds the lock of
-- its pending writes, gives the first rows, in the order or against it, of those in the range that
-- `snapshot_get` finds. The snapshot has no key twice and the pending writes are in the order of
-- their keys.
pub materialize_snapshot_range-Scans :
    (start : Bytes) (end : Option Bytes) (limit : Option ℕ) (backwards : Bool) (t : Transaction)
    → IsMap t.snapshot
    → IsSorted t.pending
    → Scans
        (λ k. snapshot_get k t)
        (in_range start end)
        limit
        backwards
        (materialize_snapshot_range true start end limit backwards t)
unfolding materialize_snapshot_range overlay_pending collect_range snapshot_get
materialize_snapshot_range-Scans start end limit backwards t h hp =
    (_, overlaid-IsScan (in_range start end) t.pending t.snapshot h hp, refl)

overlay-prefix :
    (p : Bytes) (pending : Pending) (rows : Map Bytes)
    → All (λ e. All IsByte e.0) pending
    → overlay (λ k. starts_with k p) pending rows
      ≡ overlay (in_range p (next_prefix p)) pending rows
unfolding overlay
overlay-prefix p [] rows h = refl
overlay-prefix p ((k, v) ∷ pending) rows (hk, h) =
    rw (in_range-next_prefix p k hk) (overlay-prefix p pending _ h)

-- A prefix scan of a transaction is its scan of the range from the prefix to the `next_prefix`,
-- whether or not the pending writes can be read, when all keys are bytes.
pub materialize_prefix-materialize_range :
    (readable : Bool) (p : Bytes) (t : Transaction) (inner : KvStore)
    → All (λ e. All IsByte e.0) t.pending
    → All (λ e. All IsByte e.0) inner
    → materialize_prefix readable p t inner
      ≡ materialize_range readable p (next_prefix p) none false t inner
unfolding materialize_prefix materialize_range overlay_pending collect_range
materialize_prefix-materialize_range false p t inner hp h =
    ap (collect []) (filter-prefix p inner h)
materialize_prefix-materialize_range true p t inner hp h =
    ap (λ m. overlay (λ k. starts_with k p) t.pending (collect [] m)) (filter-prefix p inner h)
    ∙ overlay-prefix p t.pending (collect [] (filter (in_range p (next_prefix p)) inner)) hp
