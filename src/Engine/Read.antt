-- ===== src/Engine/Read.antt =====
-- The loop by which src/kv_engine_store reads a cursor, and what it reads.
use uni5db.Base.{
  ℕ, zero, suc, ◌≡◌, refl, ap, sym, Bool, true, false, ◌||◌, List, [], ◌∷◌, ◌++◌, Option, none,
  some, map, if◌then◌else◌, leb, length, take_append, length-append, append-nil, append_assoc,
  arith, Bool-cases, inl, inr, Result, ok, err, user_error, ◌>>=◌,
}
use uni5db.Store.Memory.{limited}
use uni5db.Engine.{RangeRecord, RangeBatch, Ends, joined, rows_in, rows_of}

-- `limit.is_some_and(|limit| rows.len() >= limit)`
abbrev pub full : Option ℕ → ℕ → Bool
full none n = false
full (some limit) n = leb limit n

-- `add` adds a record's row, if it has one, to the rows.
module _ {A : Type 0} (add : RangeRecord → List A → List A) (limit : Option ℕ) where
  unfoldable pub read_records : List RangeRecord → List A → List A
  read_records [] rows = rows
  read_records (found ∷ records) rows =
      let grown = add found rows in
      let rest = read_records records grown in if full limit (length grown) then grown else rest

  unfoldable pub read_batches : List (Result RangeBatch) → List A → Result (List A)
  read_batches [] rows = err (user_error "XX000" "the cursor is at its end")
  read_batches (next ∷ cursor) rows = do
    batch ← next
    let grown = read_records batch.records rows
    let rest = read_batches cursor grown
    if batch.exhausted || full limit (length grown) then ok grown else rest

  -- Where the cursor comes to its end, so does the loop.
  pub read_batches-total :
      (batches : List RangeBatch) (rows : List A)
      → Ends batches
      → (found : List A) × (read_batches (map ok batches) rows ≡ ok found)
  unfolding read_batches
  read_batches-total [] rows h = absurd h
  read_batches-total (batch ∷ []) rows h = (read_records batch.records rows, rw h refl)
  read_batches-total (batch ∷ next ∷ batches) rows (go_on, h) =
      elim (Bool-cases (full limit (length (read_records batch.records rows)))) [
        | inl e ↦ (read_records batch.records rows, rw (go_on, e) refl)
        | inr e ↦
            let (found, run) =
              read_batches-total (next ∷ batches) (read_records batch.records rows) h in
            (found, rw (go_on, e) run)
      ]

-- `rows.push(...)` of the row that a record has.
abbrev pub pushed : {A : Type 0} → Option A → List A → List A
pushed none rows = rows
pushed (some row) rows = rows ++ row ∷ []

abbrev pub push : {A : Type 0} → (RangeRecord → Option A) → RangeRecord → List A → List A
push row_of found rows = pushed (row_of found) rows

module _ {A : Type 0} where
  limited-full :
      (limit : Option ℕ) (xs ys : List A)
      → full limit (length (limited limit xs)) ≡ true
      → limited limit (xs ++ ys) ≡ limited limit xs
  limited-full none xs ys h = cc
  limited-full (some zero) xs ys h = refl
  limited-full (some (suc n)) [] ys h = absurd (ground arith)
  limited-full (some (suc n)) (x ∷ xs) ys h =
      ap (◌∷◌ x) (limited-full (some n) xs ys (ground arith))

  limited_open :
      (limit : Option ℕ) (xs : List A)
      → full limit (length (limited limit xs)) ≡ false
      → limited limit xs ≡ xs
  limited_open none xs h = refl
  limited_open (some zero) xs h = absurd (ground arith)
  limited_open (some (suc n)) [] h = refl
  limited_open (some (suc n)) (x ∷ xs) h = ap (◌∷◌ x) (limited_open (some n) xs (ground arith))

  -- Rows that a limit leaves as they are.
  limited_short :
      (limit : Option ℕ) (xs : List A) → full limit (length xs) ≡ false → limited limit xs ≡ xs
  limited_short none xs h = refl
  limited_short (some zero) xs h = absurd (ground arith)
  limited_short (some (suc n)) [] h = refl
  limited_short (some (suc n)) (x ∷ xs) h = ap (◌∷◌ x) (limited_short (some n) xs (ground arith))

  -- The row that reaches the limit is the last one.
  limited_reached :
      (limit : Option ℕ) (xs : List A) (x : A) (ys : List A)
      → full limit (length xs) ≡ false
      → full limit (length (xs ++ x ∷ [])) ≡ true
      → limited limit (xs ++ x ∷ ys) ≡ xs ++ x ∷ []
  limited_reached none xs x ys h k = cc
  limited_reached (some limit) xs x ys h k =
      let wide = length-append xs (x ∷ []) in
      let at : length (xs ++ x ∷ []) ≡ limit = ground (arith, wide) in
      rw append_assoc at (take_append limit (xs ++ x ∷ []) ys at)

-- An `add` that adds a record's row at the end, while the rows fit together.
module _ {A : Type 0} (row_of : RangeRecord → Option A) (add : RangeRecord → List A → List A)
    (Fits : List A → Type 0)
    (adds : (found : RangeRecord) (rows tail : List A)
      → Fits (rows ++ joined (row_of found) tail)
      → add found rows ≡ pushed (row_of found) rows)
    (limit : Option ℕ) where
  -- One round of the loop over records, whose rows after it are as they are to be.
  read_records-round :
      (row : Option A) (records : List RangeRecord) (rows tail : List A)
      → full limit (length rows) ≡ false
      → Fits (rows ++ joined row tail)
      → ((grown : List A)
          → full limit (length grown) ≡ false
          → Fits (grown ++ tail)
          → read_records add limit records grown ≡ limited limit (grown ++ rows_in row_of records))
      → (if full limit (length (pushed row rows))
          then pushed row rows
          else read_records add limit records (pushed row rows))
        ≡ limited limit (rows ++ joined row (rows_in row_of records))
  read_records-round none records rows tail h fits rest = rw h (rest rows h fits)
  read_records-round (some x) records rows tail h fits rest =
      elim (Bool-cases (full limit (length (rows ++ x ∷ [])))) [
        | inl k ↦ rw (k, limited_reached limit rows x (rows_in row_of records) h k) refl
        | inr k ↦ rw (k, rest (rows ++ x ∷ []) k (rw append_assoc fits), append_assoc) refl
      ]

  joined_append : (row : Option A) (xs ys : List A) → joined row xs ++ ys ≡ joined row (xs ++ ys)
  joined_append none xs ys = refl
  joined_append (some x) xs ys = refl

  pub read_records-rows_in :
      (records : List RangeRecord) (rows tail : List A)
      → full limit (length rows) ≡ false
      → Fits (rows ++ (rows_in row_of records ++ tail))
      → read_records add limit records rows ≡ limited limit (rows ++ rows_in row_of records)
  unfolding read_records
  read_records-rows_in [] rows tail h fits = rw append-nil (sym (limited_short limit rows h))
  read_records-rows_in (found ∷ records) rows tail h fits =
      let rest = rows_in row_of records ++ tail in
      let fits = rw joined_append at fits in
      rw (adds found rows rest fits) (
        read_records-round (row_of found) records rows rest h fits
          (λ grown k g. read_records-rows_in records grown tail k g))

  pub read_batches-rows_of :
      (batches : List RangeBatch) (rows : List A)
      → Ends batches
      → full limit (length rows) ≡ false
      → Fits (rows ++ rows_of row_of batches)
      → read_batches add limit (map ok batches) rows
        ≡ ok (limited limit (rows ++ rows_of row_of batches))
  unfolding read_batches
  read_batches-rows_of [] rows e h fits = absurd e
  read_batches-rows_of (batch ∷ []) rows e h fits =
      rw (e, read_records-rows_in batch.records rows [] h fits, append-nil) refl
  read_batches-rows_of (batch ∷ next ∷ batches) rows (go_on, e) h fits =
      let here = rows ++ rows_in row_of batch.records in
      let there = rows_of row_of (next ∷ batches) in
      let read = read_records-rows_in batch.records rows there h fits in
      elim (Bool-cases (full limit (length (limited limit here)))) [
        | inl k ↦ rw (go_on, read, k, ← append_assoc, limited-full limit here there k) refl
        | inr k ↦
            let whole = limited_open limit here k in
            rw (go_on, read, k, ← append_assoc, whole)
              (read_batches-rows_of (next ∷ batches) here e (rw whole at k)
                (rw (← append_assoc) at fits))
      ]

module _ {A : Type 0} (row_of : RangeRecord → Option A) (limit : Option ℕ) where
  pub read_batches-push :
      (batches : List RangeBatch) (rows : List A)
      → Ends batches
      → full limit (length rows) ≡ false
      → read_batches (push row_of) limit (map ok batches) rows
        ≡ ok (limited limit (rows ++ rows_of row_of batches))
  read_batches-push batches rows e h =
      read_batches-rows_of row_of (push row_of) (λ _. Unit) (λ _ _ _ _. refl) limit batches rows e h
        tt
