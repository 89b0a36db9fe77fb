-- ===== src/Store/Tables.antt =====
-- Scans of a table: the ranges of src/storage_layout/keys.rs over any store that keeps the contract of
-- the traits `KvStore` and `KvTransaction` of src/mem_store.rs.
use uni5db.Base.{
  ℕ, ◌^◌, ◌<◌, ◌≡◌, ap, ◌∙◌, Bool, true, false, ◌&&◌, List, ◌++◌, Option, none, ◌==◌, if◌then◌else◌,
  All, All-append, arith,
}
use uni5db.Bytes.{Bytes, IsByte, starts_with}
use uni5db.Bytes.BigEndian.{to_be_bytes, to_be_bytes-IsByte}
use uni5db.Types.Value.{ColumnValue}
use uni5db.Storage.Prefix.{in_range}
use uni5db.Storage.Key.{encode_key_value}
use uni5db.Storage.Keys.{row_prefix, row_key, row_range}
use uni5db.Storage.Keys.Scan.{row_range-starts_with, starts_with-row_key}
use uni5db.Store.Maps
use uni5db.Store.Maps.{Map, IsMap, IsSorted}
use uni5db.Store.Memory
use uni5db.Store.Memory.{KvStore}
use uni5db.Store.Memory.Transaction
use uni5db.Store.Memory.Transaction.{
  Transaction, materialize_range, snapshot_get, materialize_snapshot_range,
}
use uni5db.Store.Memory.Scan.{
  Scans, scan_range-Scans, materialize_range-Scans, materialize_snapshot_range-Scans,
}

-- What the clients of a store rely on: point reads, range scans, and that they agree in the states
-- that the store can be in.
pub record OrderedStore (S : Type 0) : Type 1 where
  pub IsStore : S → Type 0
  pub get : Bytes → S → Option Bytes
  pub scan_range : Bytes → Option Bytes → Option ℕ → Bool → S → List (Bytes × Bytes)
  pub scan-get :
      (start : Bytes) (end : Option Bytes) (limit : Option ℕ) (backwards : Bool) (s : S)
      → IsStore s
      → Scans
          (λ k. get k s)
          (in_range start end)
          limit
          backwards
          (scan_range start end limit backwards s)

-- The store in memory, and a transaction over it that reads the shared store or its snapshot.
abbrev pub memory_store : OrderedStore KvStore
memory_store = record {
  IsStore = IsMap;
  get = Memory.get;
  scan_range = Memory.scan_range;
  scan-get = λ start end limit backwards s h. scan_range-Scans start end limit backwards s h;
}

abbrev pub shared_reads : OrderedStore (Transaction × KvStore)
shared_reads = record {
  IsStore = λ s. IsMap s.1 × IsSorted s.0.pending;
  get = λ k s. Transaction.get k s.0 s.1;
  scan_range =
      λ start end limit backwards s. materialize_range true start end limit backwards s.0 s.1;
  scan-get = λ start end limit backwards s h.
      materialize_range-Scans start end limit backwards s.0 s.1 h.0 h.1;
}

abbrev pub snapshot_reads : OrderedStore Transaction
snapshot_reads = record {
  IsStore = λ t. IsMap t.snapshot × IsSorted t.pending;
  get = snapshot_get;
  scan_range =
      λ start end limit backwards t. materialize_snapshot_range true start end limit backwards t;
  scan-get = λ start end limit backwards t h.
      materialize_snapshot_range-Scans start end limit backwards t h.0 h.1;
}

module _ {S : Type 0} (store : OrderedStore S) (s : S) (t e : ℕ) where
  -- The rows of a table.
  abbrev pub table_rows : Map Bytes
  table_rows = let r = row_range t e none in store.scan_range r.start r.end none r.reverse s

  -- A scan of a table finds under every key of bytes that starts with the row prefix of the table what
  -- a point read finds, and nothing under other keys.
  rows_by_prefix :
      (k : Bytes)
      → store.IsStore s
      → All IsByte k
      → Maps.get k table_rows ≡ (if starts_with k (row_prefix t e) then store.get k s else none)
  unfolding row_range
  rows_by_prefix k h bytes =
      let r = row_range t e none in
      let (rows, (sorted, look), eq) = store.scan-get r.start r.end none false s h in
      ap (Maps.get k) eq
      ∙ look k
      ∙ ap (λ b. if b then store.get k s else none) (row_range-starts_with t e none k bytes)

  rows-IsSorted : store.IsStore s → IsSorted table_rows
  unfolding row_range
  rows-IsSorted h =
      let r = row_range t e none in
      let (rows, (sorted, _), eq) = store.scan-get r.start r.end none false s h in rw eq sorted

  key-IsByte :
      (t' e' : ℕ) (pk : ColumnValue)
      → All IsByte (encode_key_value pk)
      → All IsByte (row_key t' e' pk)
  unfolding row_key row_prefix
  key-IsByte t' e' pk h = (
    omega arith,
    (
      omega arith,
      All-append IsByte (to_be_bytes 4 t' ++ to_be_bytes 8 e') (encode_key_value pk)
          (All-append IsByte (to_be_bytes 4 t') (to_be_bytes 8 e') (to_be_bytes-IsByte 4 t')
            (to_be_bytes-IsByte 8 e'))
          h,
    ),
  )

  -- On any store that keeps the contract, a scan of a table gives its rows in key order: it finds under
  -- a row key what a point read finds if the key is one of that table and epoch, and nothing
  -- otherwise. The table ids fit 32 bits, the epochs 64, and the key of the primary key is of bytes.
  pub table_rows-row_key :
      (t' e' : ℕ) (pk : ColumnValue)
      → store.IsStore s
      → t < 2 ^ 32
      → e < 2 ^ 64
      → t' < 2 ^ 32
      → e' < 2 ^ 64
      → All IsByte (encode_key_value pk)
      → IsSorted table_rows
        × (Maps.get (row_key t' e' pk) table_rows
            ≡ (if t' == t && e' == e then store.get (row_key t' e' pk) s else none))
  table_rows-row_key t' e' pk h ht he ht' he' bytes = (
    rows-IsSorted h,
    rows_by_prefix (row_key t' e' pk) h (key-IsByte t' e' pk bytes)
        ∙ ap (λ b. if b then store.get (row_key t' e' pk) s else none)
            (starts_with-row_key t e t' e' pk ht he ht' he'),
  )
