-- ===== src/Store/Maps.antt =====
-- The maps of the standard library that src/mem_store.rs uses, keyed by byte strings: a `HashMap` as
-- its entries in some order, a `BTreeMap` as its entries in the order of the keys.
pub mod Laws
pub mod Keys
pub mod Sorted
pub mod Ext
pub mod Ends
use uni5db.Base.{◌≡◌, Bool, true, false, List, [], ◌∷◌, Option, none, some, if◌then◌else◌, All}
use uni5db.Bytes.{Bytes, bytes_eq, bytes_lt}

abbrev pub Map {ℓ} : Type ℓ → Type ℓ
Map V = List (Bytes × V)

module _ {ℓ} {V : Type ℓ} where
  unfoldable pub get : Bytes → Map V → Option V
  get k [] = none
  get k ((j, v) ∷ m) = if bytes_eq j k then some v else get k m

  unfoldable pub remove : Bytes → Map V → Map V
  remove k [] = []
  remove k ((j, v) ∷ m) = let rest = remove k m in if bytes_eq j k then rest else (j, v) ∷ rest

  -- `HashMap::insert`
  unfoldable pub hash_insert : Bytes → V → Map V → Map V
  hash_insert k v [] = (k, v) ∷ []
  hash_insert k v ((j, w) ∷ m) = if bytes_eq j k then (j, v) ∷ m else (j, w) ∷ hash_insert k v m

  -- `BTreeMap::insert`
  unfoldable pub insert : Bytes → V → Map V → Map V
  insert k v [] = (k, v) ∷ []
  insert k v ((j, w) ∷ m) =
      if bytes_eq j k
      then (j, v) ∷ m
      else if bytes_lt k j
      then (k, v) ∷ (j, w) ∷ m
      else (j, w) ∷ insert k v m

  -- `iter().filter(...)` by the keys.
  unfoldable pub filter : (Bytes → Bool) → Map V → Map V
  filter p [] = []
  filter p ((j, v) ∷ m) = let rest = filter p m in if p j then (j, v) ∷ rest else rest

  -- `collect::<BTreeMap<_, _>>()`
  unfoldable pub collect : Map V → Map V → Map V
  collect rows [] = rows
  collect rows ((j, v) ∷ m) = collect (insert j v rows) m

  -- `sort_by(|left, right| left.0.cmp(&right.0))`, a stable sort.
  pub sort_insert : Bytes → V → Map V → Map V
  sort_insert k v [] = (k, v) ∷ []
  sort_insert k v ((j, w) ∷ m) =
      if bytes_lt j k then (j, w) ∷ sort_insert k v m else (k, v) ∷ (j, w) ∷ m

  unfoldable pub sort_by_key : Map V → Map V
  unfolding sort_insert
  sort_by_key [] = []
  sort_by_key ((j, v) ∷ m) = sort_insert j v (sort_by_key m)

  -- No key twice, as in every map.
  abbrev pub IsMap : Map V → Type 0
  IsMap [] = Unit
  IsMap ((k, v) ∷ m) = All (λ e. bytes_eq k e.0 ≡ false) m × IsMap m

  -- The keys increase, as in a `BTreeMap`.
  abbrev pub IsSorted : Map V → Type 0
  IsSorted [] = Unit
  IsSorted ((k, v) ∷ m) = All (λ e. bytes_lt k e.0 ≡ true) m × IsSorted m
