-- ===== src/Store/Maps/Ext.antt =====
-- Two sorted maps of src/mem_store.rs with the same lookups are equal.
use uni5db.Base.{◌≡◌, refl, sym, ◌∙◌, true, false, [], ◌∷◌, arith, Bool-cases, inl, inr}
use uni5db.Bytes.{Bytes, bytes_eq, bytes_lt}
use uni5db.Bytes.Order.{bytes_eq→eq, bytes_eq_refl, bytes_eq_sym, bytes_lt_total, bytes_lt_eq}
use uni5db.Store.Maps.{Map, get, IsSorted}
use uni5db.Store.Maps.Keys.{Keys, Keys-above, get-below}

module _ {ℓ} {V : Type ℓ} where
  -- The first keys of maps with the same lookups are not apart.
  first_key :
      (i j : Bytes) (v w : V) (m n : Map V)
      → Keys (λ k. bytes_lt j k) true n
      → get i ((i, v) ∷ m) ≡ get i ((j, w) ∷ n)
      → bytes_lt i j ≡ false
  unfolding get
  first_key i j v w m n hj same = elim (Bool-cases (bytes_lt i j)) [
    | inr l ↦ l
    | inl l ↦
        let out = get-below i n (Keys-above i j n l hj) in
        absurd (ground (arith, bytes_eq_refl i, bytes_lt_eq i j, bytes_eq_sym i j))
  ]

  rest_same :
      (i j k : Bytes) (v w : V) (m n : Map V)
      → Keys (λ k. bytes_lt i k) true m
      → Keys (λ k. bytes_lt j k) true n
      → i ≡ j
      → get k ((i, v) ∷ m) ≡ get k ((j, w) ∷ n)
      → get k m ≡ get k n
  unfolding get
  rest_same i j k v w m n hm hn eq same = elim (Bool-cases (bytes_eq i k)) [
    | inr e ↦ ground arith
    | inl e ↦
        let at : k ≡ i = sym (bytes_eq→eq i k e) in
        rw at (get-below i m hm ∙ sym (rw (← eq) at (get-below j n hn)))
  ]

  -- Sorted maps are determined by their lookups.
  pub IsSorted-ext :
      (m n : Map V) → IsSorted m → IsSorted n → ((k : Bytes) → get k m ≡ get k n) → m ≡ n
  unfolding get
  IsSorted-ext [] [] hm hn same = refl
  IsSorted-ext [] ((j, v) ∷ n) hm hn same = ground (arith, same j, bytes_eq_refl j)
  IsSorted-ext ((i, v) ∷ m) [] hm hn same = ground (arith, same i, bytes_eq_refl i)
  IsSorted-ext ((i, v) ∷ m) ((j, w) ∷ n) (hi, hm) (hj, hn) same =
      let le = first_key i j v w m n hj (same i) in
      let ge = first_key j i w v n m hi (sym (same j)) in
      let eq : i ≡ j = bytes_eq→eq i j (ground (arith, bytes_lt_total i j)) in
      let value : v ≡ w = ground (arith, same i, bytes_eq_refl i) in
      let tail : m ≡ n = IsSorted-ext m n hm hn (λ k. rest_same i j k v w m n hi hj eq (same k)) in
      rw (eq, value, tail)
