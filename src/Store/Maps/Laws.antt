-- ===== src/Store/Maps/Laws.antt =====
-- What a lookup sees after each operation on a map.
use uni5db.Base.{◌≡◌, refl, Bool, true, [], ◌∷◌, none, some, arith, if◌then◌else◌}
use uni5db.Bytes.{Bytes, bytes_eq}
use uni5db.Bytes.Order.{bytes_eq→eq, bytes_eq_sym}
use uni5db.Store.Maps.{Map, get, remove, hash_insert, insert, filter}

-- Equality of keys is an equivalence, in the form that case splits use.
pub same_key : (a b c : Bytes) → bytes_eq a b ≡ true → bytes_eq a c ≡ bytes_eq b c
same_key a b c h = let e = bytes_eq→eq a b h in ground arith

module _ {ℓ} {V : Type ℓ} where
  pub get-remove :
      (j k : Bytes) (m : Map V) → get j (remove k m) ≡ (if bytes_eq k j then none else get j m)
  unfolding get remove
  get-remove j k [] = ground arith
  get-remove j k ((i, v) ∷ m) = ground (
    arith,
    get-remove j k m,
    same_key i k j,
    same_key k j i,
    bytes_eq_sym k j,
    bytes_eq_sym k i,
    bytes_eq_sym i j,
    same_key k i j,
  )

  pub get-hash_insert :
      (j k : Bytes) (v : V) (m : Map V)
      → get j (hash_insert k v m) ≡ (if bytes_eq k j then some v else get j m)
  unfolding get hash_insert
  get-hash_insert j k v [] = refl
  get-hash_insert j k v ((i, w) ∷ m) = ground (
    arith,
    get-hash_insert j k v m,
    same_key i k j,
    same_key k j i,
    bytes_eq_sym k j,
    bytes_eq_sym k i,
    bytes_eq_sym i j,
    same_key k i j,
  )

  pub get-insert :
      (j k : Bytes) (v : V) (m : Map V)
      → get j (insert k v m) ≡ (if bytes_eq k j then some v else get j m)
  unfolding get insert
  get-insert j k v [] = refl
  get-insert j k v ((i, w) ∷ m) = ground (
    arith,
    get-insert j k v m,
    same_key i k j,
    same_key k j i,
    bytes_eq_sym k j,
    bytes_eq_sym k i,
    bytes_eq_sym i j,
    same_key k i j,
  )

  pub get-filter :
      (p : Bytes → Bool) (j : Bytes) (m : Map V)
      → get j (filter p m) ≡ (if p j then get j m else none)
  unfolding get filter
  get-filter p j [] = ground arith
  get-filter p j ((i, v) ∷ m) = ground (arith, get-filter p j m, bytes_eq→eq i j)
