-- ===== src/Store/Maps/Ends.antt =====
-- Maps of src/mem_store.rs that grow at their ends, and their first entries.
use uni5db.Base.{
  ℕ, zero, suc, ◌≡◌, refl, ap, sym, ◌∙◌, true, false, [], ◌∷◌, ◌++◌, reverse, append-nil,
  append_assoc, take, arith, Bool-cases, inl, inr,
}
use uni5db.Bytes.{Bytes, bytes_eq, bytes_lt}
use uni5db.Bytes.Order.{bytes_lt_eq, bytes_lt_total, bytes_eq_sym}
use uni5db.Store.Maps.{Map, insert, collect, IsSorted}
use uni5db.Store.Maps.Keys.{Keys}
use mathlib.Core.List.{reverse_aux}

module _ {ℓ} {V : Type ℓ} where
  -- A key above all goes to the end, one below all to the front.
  pub insert-last :
      (k : Bytes) (v : V) (m : Map V)
      → Keys (λ j. bytes_lt j k) true m
      → insert k v m ≡ m ++ (k, v) ∷ []
  unfolding insert
  insert-last k v [] h = refl
  insert-last k v ((j, w) ∷ m) (hj, h) =
      let apart : bytes_eq j k ≡ false = ground (arith, bytes_lt_eq j k) in
      let above : bytes_lt k j ≡ false = ground (arith, bytes_lt_total j k) in
      rw (apart, above, insert-last k v m h) refl

  insert-first :
      (k : Bytes) (v : V) (m : Map V) → Keys (λ j. bytes_lt k j) true m → insert k v m ≡ (k, v) ∷ m
  unfolding insert
  insert-first k v [] h = refl
  insert-first k v ((j, w) ∷ m) (hj, h) =
      let apart : bytes_eq j k ≡ false = ground (arith, bytes_lt_eq k j, bytes_eq_sym j k) in
      rw (apart, hj) refl

  Keys-middle :
      (j : Bytes) (m : Map V) (e : Bytes × V) (n : Map V)
      → Keys (λ i. bytes_lt j i) true (m ++ e ∷ n)
      → bytes_lt j e.0 ≡ true
  Keys-middle j [] e n (h, _) = h
  Keys-middle j (_ ∷ m) e n (_, h) = Keys-middle j m e n h

  pub IsSorted-before :
      (m : Map V) (k : Bytes) (v : V) (n : Map V)
      → IsSorted (m ++ (k, v) ∷ n)
      → Keys (λ j. bytes_lt j k) true m
  IsSorted-before [] k v n h = tt
  IsSorted-before ((j, w) ∷ m) k v n (hj, h) =
      (Keys-middle j m (k, v) n hj, IsSorted-before m k v n h)

  -- Entries in the order of their keys are gathered as they are, and likewise in the other order.
  collect-append : (rows m : Map V) → IsSorted (rows ++ m) → collect rows m ≡ rows ++ m
  unfolding collect
  collect-append rows [] h = sym (append-nil rows)
  collect-append rows ((k, v) ∷ m) h = rw (insert-last k v rows (IsSorted-before rows k v m h)) (
      collect-append (rows ++ (k, v) ∷ []) m (rw append_assoc h)
      ∙ append_assoc rows ((k, v) ∷ []) m)

  collect-reverse_aux :
      (rows m n : Map V)
      → IsSorted (m ++ rows)
      → collect rows (reverse_aux m n) ≡ collect (m ++ rows) n
  unfolding collect
  collect-reverse_aux rows [] n h = refl
  collect-reverse_aux rows ((k, v) ∷ m) n (hk, h) =
      collect-reverse_aux rows m ((k, v) ∷ n) h ∙ (rw (insert-first k v (m ++ rows) hk) refl)

  pub collect_id : (m : Map V) → IsSorted m → collect [] m ≡ m
  collect_id m h = collect-append [] m h

  pub collect-reverse : (m : Map V) → IsSorted m → collect [] (reverse m) ≡ m
  collect-reverse m h =
      let whole = append-nil m in
      collect-reverse_aux [] m [] (rw whole h) ∙ (unfold collect in whole)

  take-take-suc : (n : ℕ) (m : Map V) → take n (take (suc n) m) ≡ take n m
  take-take-suc zero m = refl
  take-take-suc (suc n) [] = refl
  take-take-suc (suc n) (e ∷ m) = ap (◌∷◌ e) (take-take-suc n m)

  pub take-take : (n : ℕ) (m : Map V) → take n (take n m) ≡ take n m
  take-take zero m = refl
  take-take (suc n) [] = refl
  take-take (suc n) (e ∷ m) = ap (◌∷◌ e) (take-take n m)

  take_cons : (n : ℕ) (e : Bytes × V) (m : Map V) → take n (e ∷ take n m) ≡ take n (e ∷ m)
  take_cons zero e m = refl
  take_cons (suc n) e m = ap (◌∷◌ e) (take-take-suc n m)

  -- The first entries after an insertion depend on the first entries before it only.
  pub take-insert :
      (n : ℕ) (k : Bytes) (v : V) (m : Map V)
      → take n (insert k v (take n m)) ≡ take n (insert k v m)
  unfolding insert
  take-insert zero k v m = refl
  take-insert (suc n) k v [] = refl
  take-insert (suc n) k v ((j, w) ∷ m) = elim (Bool-cases (bytes_eq j k)) [
    | inl e ↦ rw e (ap (◌∷◌ (j, v)) (take-take n m))
    | inr e ↦ elim (Bool-cases (bytes_lt k j)) [
      | inl l ↦ rw (e, l) (ap (◌∷◌ (k, v)) (take_cons n (j, w) m))
      | inr l ↦ rw (e, l) (ap (◌∷◌ (j, w)) (take-insert n k v m))
    ]
  ]
