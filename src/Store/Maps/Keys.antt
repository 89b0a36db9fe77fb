-- ===== src/Store/Maps/Keys.antt =====
-- What every key of a map has, and what the operations of src/mem_store.rs keep of it.
use uni5db.Base.{
  ◌≡◌, refl, Bool, true, false, [], ◌∷◌, none, arith, All-map, All, Bool-cases, inl, inr,
}
use uni5db.Bytes.{Bytes, bytes_eq, bytes_lt}
use uni5db.Bytes.Order.{bytes_eq_sym, bytes_lt_trans, bytes_lt_eq}
use uni5db.Store.Maps.{Map, get, remove, hash_insert, insert, filter, sort_insert, sort_by_key}

-- Every key of the map has the property.
abbrev pub Keys {ℓ} : {V : Type ℓ} → (Bytes → Bool) → Bool → Map V → Type 0
Keys q b m = All (λ e. q e.0 ≡ b) m

module _ {ℓ} {V : Type ℓ} where
  -- The operations have no keys but those of the map and the inserted one.
  pub remove-Keys :
      (q : Bytes → Bool) (b : Bool) (k : Bytes) (m : Map V) → Keys q b m → Keys q b (remove k m)
  unfolding remove
  remove-Keys q b k [] h = h
  remove-Keys q b k ((j, v) ∷ m) (hj, h) = elim (Bool-cases (bytes_eq j k)) [
    | inl e ↦ rw e (remove-Keys q b k m h)
    | inr e ↦ rw e (hj, remove-Keys q b k m h)
  ]

  pub filter-Keys :
      (q : Bytes → Bool) (b : Bool) (p : Bytes → Bool) (m : Map V)
      → Keys q b m
      → Keys q b (filter p m)
  unfolding filter
  filter-Keys q b p [] h = h
  filter-Keys q b p ((j, v) ∷ m) (hj, h) = elim (Bool-cases (p j)) [
    | inl e ↦ rw e (hj, filter-Keys q b p m h)
    | inr e ↦ rw e (filter-Keys q b p m h)
  ]

  pub hash_insert-Keys :
      (q : Bytes → Bool) (b : Bool) (k : Bytes) (v : V) (m : Map V)
      → q k ≡ b
      → Keys q b m
      → Keys q b (hash_insert k v m)
  unfolding hash_insert
  hash_insert-Keys q b k v [] hk h = (hk, h)
  hash_insert-Keys q b k v ((j, w) ∷ m) hk (hj, h) = elim (Bool-cases (bytes_eq j k)) [
    | inl e ↦ rw e (hj, h)
    | inr e ↦ rw e (hj, hash_insert-Keys q b k v m hk h)
  ]

  pub insert-Keys :
      (q : Bytes → Bool) (b : Bool) (k : Bytes) (v : V) (m : Map V)
      → q k ≡ b
      → Keys q b m
      → Keys q b (insert k v m)
  unfolding insert
  insert-Keys q b k v [] hk h = (hk, h)
  insert-Keys q b k v ((j, w) ∷ m) hk (hj, h) = elim (Bool-cases (bytes_eq j k)) [
    | inl e ↦ rw e (hj, h)
    | inr e ↦ elim (Bool-cases (bytes_lt k j)) [
      | inl l ↦ rw (e, l) (hk, (hj, h))
      | inr l ↦ rw (e, l) (hj, insert-Keys q b k v m hk h)
    ]
  ]

  pub sort_insert-Keys :
      (q : Bytes → Bool) (b : Bool) (k : Bytes) (v : V) (m : Map V)
      → q k ≡ b
      → Keys q b m
      → Keys q b (sort_insert k v m)
  unfolding sort_insert
  sort_insert-Keys q b k v [] hk h = (hk, h)
  sort_insert-Keys q b k v ((j, w) ∷ m) hk (hj, h) = elim (Bool-cases (bytes_lt j k)) [
    | inl e ↦ rw e (hj, sort_insert-Keys q b k v m hk h)
    | inr e ↦ rw e (hk, (hj, h))
  ]

  pub sort_by_key-Keys :
      (q : Bytes → Bool) (b : Bool) (m : Map V) → Keys q b m → Keys q b (sort_by_key m)
  unfolding sort_by_key
  sort_by_key-Keys q b [] h = h
  sort_by_key-Keys q b ((j, v) ∷ m) (hj, h) =
      sort_insert-Keys q b j v (sort_by_key m) hj (sort_by_key-Keys q b m h)

  -- What is above a key is above the smaller keys.
  pub Keys-above :
      (k j : Bytes) (m : Map V)
      → bytes_lt k j ≡ true
      → Keys (λ i. bytes_lt j i) true m
      → Keys (λ i. bytes_lt k i) true m
  Keys-above k j m l h =
      All-map (λ e. bytes_lt j e.0 ≡ true) (λ e. bytes_lt k e.0 ≡ true)
        (λ e. bytes_lt_trans k j e.0 l) m h

  -- A key below all keys of the map is not in it.
  pub get-below : (k : Bytes) (m : Map V) → Keys (λ j. bytes_lt k j) true m → get k m ≡ none
  unfolding get
  get-below k [] h = refl
  get-below k ((j, v) ∷ m) (hj, h) =
      ground (arith, get-below k m h, bytes_lt_eq k j, bytes_eq_sym k j)

  pub get-absent : (k : Bytes) (m : Map V) → Keys (λ j. bytes_eq k j) false m → get k m ≡ none
  unfolding get
  get-absent k [] h = refl
  get-absent k ((j, v) ∷ m) (hj, h) = ground (arith, get-absent k m h, bytes_eq_sym k j)
