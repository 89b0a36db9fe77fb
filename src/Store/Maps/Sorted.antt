-- ===== src/Store/Maps/Sorted.antt =====
-- The operations of the maps of src/mem_store.rs keep the keys distinct, and those of a `BTreeMap` in
-- order.
use uni5db.Base.{
  ◌≡◌, refl, Bool, true, false, [], ◌∷◌, none, some, arith, if◌then◌else◌, Bool-cases, inl, inr,
}
use uni5db.Bytes.{Bytes, bytes_eq, bytes_lt}
use uni5db.Bytes.Order.{bytes_eq→eq, bytes_eq_sym, bytes_lt_total, bytes_lt_eq}
use uni5db.Store.Maps.{
  Map, get, remove, hash_insert, insert, filter, collect, sort_insert, sort_by_key, IsMap, IsSorted,
}
use uni5db.Store.Maps.Laws.{get-insert, same_key}
use uni5db.Store.Maps.Keys.{
  Keys, remove-Keys, filter-Keys, hash_insert-Keys, insert-Keys, sort_insert-Keys, sort_by_key-Keys,
  Keys-above, get-absent,
}

module _ {ℓ} {V : Type ℓ} where
  pub remove-IsSorted : (k : Bytes) (m : Map V) → IsSorted m → IsSorted (remove k m)
  unfolding remove
  remove-IsSorted k [] h = h
  remove-IsSorted k ((j, v) ∷ m) (hj, h) = elim (Bool-cases (bytes_eq j k)) [
    | inl e ↦ rw e (remove-IsSorted k m h)
    | inr e ↦ rw e (remove-Keys (λ i. bytes_lt j i) true k m hj, remove-IsSorted k m h)
  ]

  pub filter-IsSorted : (p : Bytes → Bool) (m : Map V) → IsSorted m → IsSorted (filter p m)
  unfolding filter
  filter-IsSorted p [] h = h
  filter-IsSorted p ((j, v) ∷ m) (hj, h) = elim (Bool-cases (p j)) [
    | inl e ↦ rw e (filter-Keys (λ i. bytes_lt j i) true p m hj, filter-IsSorted p m h)
    | inr e ↦ rw e (filter-IsSorted p m h)
  ]

  pub insert-IsSorted : (k : Bytes) (v : V) (m : Map V) → IsSorted m → IsSorted (insert k v m)
  unfolding insert
  insert-IsSorted k v [] h = (tt, h)
  insert-IsSorted k v ((j, w) ∷ m) (hj, h) = elim (Bool-cases (bytes_eq j k)) [
    | inl e ↦ rw e (hj, h)
    | inr e ↦ elim (Bool-cases (bytes_lt k j)) [
      | inl l ↦ rw (e, l) ((l, Keys-above k j m l hj), (hj, h))
      | inr l ↦
          let over : bytes_lt j k ≡ true = ground (arith, bytes_lt_total k j, bytes_eq_sym k j) in
          rw (e, l) (insert-Keys (λ i. bytes_lt j i) true k v m over hj, insert-IsSorted k v m h)
    ]
  ]

  pub remove-IsMap : (k : Bytes) (m : Map V) → IsMap m → IsMap (remove k m)
  unfolding remove
  remove-IsMap k [] h = h
  remove-IsMap k ((j, v) ∷ m) (hj, h) = elim (Bool-cases (bytes_eq j k)) [
    | inl e ↦ rw e (remove-IsMap k m h)
    | inr e ↦ rw e (remove-Keys (λ i. bytes_eq j i) false k m hj, remove-IsMap k m h)
  ]

  pub filter-IsMap : (p : Bytes → Bool) (m : Map V) → IsMap m → IsMap (filter p m)
  unfolding filter
  filter-IsMap p [] h = h
  filter-IsMap p ((j, v) ∷ m) (hj, h) = elim (Bool-cases (p j)) [
    | inl e ↦ rw e (filter-Keys (λ i. bytes_eq j i) false p m hj, filter-IsMap p m h)
    | inr e ↦ rw e (filter-IsMap p m h)
  ]

  pub hash_insert-IsMap : (k : Bytes) (v : V) (m : Map V) → IsMap m → IsMap (hash_insert k v m)
  unfolding hash_insert
  hash_insert-IsMap k v [] h = (tt, h)
  hash_insert-IsMap k v ((j, w) ∷ m) (hj, h) = elim (Bool-cases (bytes_eq j k)) [
    | inl e ↦ rw e (hj, h)
    | inr e ↦
        rw e (hash_insert-Keys (λ i. bytes_eq j i) false k v m e hj, hash_insert-IsMap k v m h)
  ]

  -- The sort keeps the lookups, and puts distinct keys in order.
  get-sort_insert :
      (j k : Bytes) (v : V) (m : Map V)
      → get j (sort_insert k v m) ≡ (if bytes_eq k j then some v else get j m)
  unfolding get sort_insert
  get-sort_insert j k v [] = refl
  get-sort_insert j k v ((i, w) ∷ m) =
      ground (arith, get-sort_insert j k v m, same_key i j k, bytes_eq_sym j k, bytes_lt_eq i k)

  pub get-sort_by_key : (j : Bytes) (m : Map V) → get j (sort_by_key m) ≡ get j m
  unfolding sort_by_key get
  get-sort_by_key j [] = refl
  get-sort_by_key j ((i, v) ∷ m) = rw (get-sort_insert j i v (sort_by_key m), get-sort_by_key j m)

  sort_insert-IsSorted :
      (k : Bytes) (v : V) (m : Map V)
      → Keys (λ j. bytes_eq k j) false m
      → IsSorted m
      → IsSorted (sort_insert k v m)
  unfolding sort_insert
  sort_insert-IsSorted k v [] new h = (tt, h)
  sort_insert-IsSorted k v ((j, w) ∷ m) (nj, new) (hj, h) = elim (Bool-cases (bytes_lt j k)) [
    | inl l ↦
        rw l
          (sort_insert-Keys (λ i. bytes_lt j i) true k v m l hj, sort_insert-IsSorted k v m new h)
    | inr l ↦
        let under : bytes_lt k j ≡ true = ground (arith, bytes_lt_total j k, bytes_eq_sym k j) in
        rw l ((under, Keys-above k j m under hj), (hj, h))
  ]

  pub sort_by_key-IsSorted : (m : Map V) → IsMap m → IsSorted (sort_by_key m)
  unfolding sort_by_key
  sort_by_key-IsSorted [] h = h
  sort_by_key-IsSorted ((j, v) ∷ m) (hj, h) =
      sort_insert-IsSorted j v (sort_by_key m) (sort_by_key-Keys (λ i. bytes_eq j i) false m hj)
        (sort_by_key-IsSorted m h)

  pub collect-IsSorted : (rows m : Map V) → IsSorted rows → IsSorted (collect rows m)
  unfolding collect
  collect-IsSorted rows [] h = h
  collect-IsSorted rows ((j, v) ∷ m) h =
      collect-IsSorted (insert j v rows) m (insert-IsSorted j v rows h)

  pub get-collect :
      (j : Bytes) (rows m : Map V)
      → IsMap m
      → get j (collect rows m) ≡ (elim (get j m) [ none ↦ get j rows | some v ↦ some v ])
  unfolding get collect
  get-collect j rows [] h = refl
  get-collect j rows ((i, v) ∷ m) (hi, h) = ground (
    arith,
    get-collect j (insert i v rows) m h,
    get-insert j i v rows,
    get-absent i m hi,
    bytes_eq→eq i j,
  )
