-- ===== src/Store/Memory.antt =====
-- `MemoryKvStore` of src/mem_store.rs: the key-value store over a hash map, whose state is the map
-- behind the lock. Every operation holds the lock from its first access to its last.
pub mod Transaction
pub mod Scan
pub mod Commit
pub mod Runs
pub mod Undo
pub mod Refine
pub mod RunScan
pub mod Savepoint
use uni5db.Base.{ℕ, Bool, List, [], ◌∷◌, Option, none, some, if◌then◌else◌, map, reverse, take}
use uni5db.Bytes.{Bytes, starts_with}
use uni5db.Storage.Prefix.{in_range}
use uni5db.Store.Maps
use uni5db.Store.Maps.{Map, hash_insert, filter, sort_by_key}

abbrev pub KvStore : Type 0
KvStore = Map Bytes

unfoldable pub new : KvStore
new = []

unfoldable pub put : Bytes → Bytes → KvStore → KvStore
put key value inner = hash_insert key value inner

unfoldable pub put_batch : List (Bytes × Bytes) → KvStore → KvStore
put_batch [] inner = inner
put_batch ((key, value) ∷ entries) inner = put_batch entries (hash_insert key value inner)

unfoldable pub get : Bytes → KvStore → Option Bytes
get key inner = Maps.get key inner

unfoldable pub multi_get : List Bytes → KvStore → List (Option Bytes)
multi_get keys inner = map (λ key. Maps.get key inner) keys

unfoldable pub delete : Bytes → KvStore → KvStore
delete key inner = Maps.remove key inner

unfoldable pub scan_prefix : Bytes → KvStore → List (Bytes × Bytes)
scan_prefix prefix inner = sort_by_key (filter (λ key. starts_with key prefix) inner)

-- `truncate` and `take` with a limit that may be missing.
abbrev pub limited {ℓ} : {A : Type ℓ} → Option ℕ → List A → List A
limited none rows = rows
limited (some limit) rows = take limit rows

unfoldable pub scan_range : Bytes → Option Bytes → Option ℕ → Bool → KvStore → List (Bytes × Bytes)
scan_range start end limit backwards inner =
    let rows = sort_by_key (filter (in_range start end) inner) in
    limited limit (if backwards then reverse rows else rows)
