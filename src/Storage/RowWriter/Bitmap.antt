-- ===== src/Storage/RowWriter/Bitmap.antt =====
-- The bitmap of the null columns as src/storage_layout/row_codec.rs marks and fast_row_decode.rs tests
-- it.
use uni5db.Base.{
  ℕ, zero, suc, ◌+◌, ◌/◌, ◌%◌, ◌^◌, ◌<◌, ◌≡◌, refl, ap, ◌∙◌, bit_and, bit_or, Bool, true, false,
  not, ◌&&◌, ◌||◌, List, [], ◌∷◌, Option, none, some, arith, ◌==◌, if◌then◌else◌, get_elem?,
  Bool-cases, inl, inr,
}
use uni5db.Base.Bits.{bit_and-bit_or, bit_and-bit, bit_zero}
use uni5db.Bytes.{Bytes}
use uni5db.Types.Value.{ColumnValue, is_null}
use uni5db.Types.Schema.{ColumnSchema}
use uni5db.Store.Maps.{Map}
use uni5db.Storage.RowWriter.{zeros, or_at, value_in, mark_null}
use uni5db.Storage.RowWriter.Regions.{nulls}

abbrev pub tested : ℕ → Option ℕ → Option Bool
tested mask none = none
tested mask (some byte) = some (not (bit_and byte mask == 0))

abbrev pub ored : ℕ → Option ℕ → Option ℕ
ored mask none = none
ored mask (some byte) = some (bit_or byte mask)

-- The bit of a column in a bitmap that is long enough.
abbrev pub bit_at : Bytes → ℕ → Option Bool
bit_at bitmap idx = tested (2 ^ (idx % 8)) (get_elem? bitmap (idx / 8))

get_elem?-or_at :
    (idx mask : ℕ) (bytes : Bytes) (k : ℕ)
    → get_elem? (or_at idx mask bytes) k
      ≡ (if idx == k then ored mask (get_elem? bytes k) else get_elem? bytes k)
unfolding or_at
get_elem?-or_at idx mask [] k = ground arith
get_elem?-or_at zero mask (b ∷ bytes) zero = refl
get_elem?-or_at zero mask (b ∷ bytes) (suc k) = ground arith
get_elem?-or_at (suc idx) mask (b ∷ bytes) zero = ground arith
get_elem?-or_at (suc idx) mask (b ∷ bytes) (suc k) =
    ground (arith, get_elem?-or_at idx mask bytes k)

tested-ored :
    (j k : ℕ) (byte : Option ℕ) (b : Bool)
    → tested (2 ^ k) byte ≡ some b
    → tested (2 ^ k) (ored (2 ^ j) byte) ≡ some (j == k || b)
tested-ored j k none b h = cc
tested-ored j k (some byte) b h = rw (bit_and-bit_or byte j k) (ground arith)

mark_null-bit_at :
    (v : ColumnValue) (idx j : ℕ) (bitmap : Bytes) (b : Bool)
    → bit_at bitmap j ≡ some b
    → bit_at (mark_null v idx bitmap) j ≡ some ((is_null v && (idx == j)) || b)
mark_null-bit_at v idx j bitmap b h = elim (Bool-cases (is_null v)) [
  | inr e ↦ rw e h
  | inl e ↦
      rw (e, get_elem?-or_at)
        (elim (Bool-cases (idx / 8 == j / 8)) [
          | inr apart ↦ let differ : (idx == j) ≡ false = ground arith in rw (apart, differ) h
          | inl near ↦
              rw (near, tested-ored (idx % 8) (j % 8) (get_elem? bitmap (j / 8)) b h)
                (let same : (idx % 8 == j % 8) ≡ (idx == j) = ground arith in
                  ap (λ x. some (x || b)) same)
        ])
]

only : (b : Bool) → (b && true || false) ≡ b
only true = refl
only false = refl

module _ (row : Map ColumnValue) where
  nulls-bit_before :
      (idx j : ℕ) (columns : List ColumnSchema) (bitmap : Bytes) (b : Bool)
      → j < idx
      → bit_at bitmap j ≡ some b
      → bit_at (nulls row idx columns bitmap) j ≡ some b
  unfolding nulls
  nulls-bit_before idx j [] bitmap b lt h = h
  nulls-bit_before idx j (column ∷ columns) bitmap b lt h =
      nulls-bit_before (idx + 1) j columns _ b (omega arith)
        (mark_null-bit_at (value_in row column) idx j bitmap b h ∙ ground arith)

  -- A column's bit says whether its value is null, where it was not set before.
  pub nulls-bit_at :
      (idx i : ℕ) (columns : List ColumnSchema) (bitmap : Bytes) (column : ColumnSchema)
      → get_elem? columns i ≡ some column
      → bit_at bitmap (idx + i) ≡ some false
      → bit_at (nulls row idx columns bitmap) (idx + i) ≡ some (is_null (value_in row column))
  unfolding nulls
  nulls-bit_at idx i [] bitmap column at h = cc
  nulls-bit_at idx zero (c ∷ columns) bitmap column at h =
      let same : c ≡ column = ground arith in
      nulls-bit_before (idx + 1) (idx + 0) columns _ _ (omega arith)
        (mark_null-bit_at (value_in row c) idx (idx + 0) bitmap false h)
      ∙ (let here : (idx == idx + 0) ≡ true = ground arith in
          rw (here, ← same) (ap some (only (is_null (value_in row c)))))
  nulls-bit_at idx (suc i) (c ∷ columns) bitmap column at h =
      let place : idx + suc i ≡ idx + 1 + i = omega arith in
      let kept : bit_at (mark_null (value_in row c) idx bitmap) (idx + suc i) ≡ some false =
        mark_null-bit_at (value_in row c) idx (idx + suc i) bitmap false h ∙ ground arith in
      rw place (
        nulls-bit_at (idx + 1) i columns (mark_null (value_in row c) idx bitmap) column at
          (rw place at kept))

get_elem?-zeros : (n k : ℕ) → k < n → get_elem? (zeros n) k ≡ some 0
get_elem?-zeros zero k h = absurd (omega arith)
get_elem?-zeros (suc n) zero h = refl
get_elem?-zeros (suc n) (suc k) h = get_elem?-zeros n k (omega arith)

pub zeros-bit_at : (n j : ℕ) → j / 8 < n → bit_at (zeros n) j ≡ some false
zeros-bit_at n j h =
    rw (get_elem?-zeros n (j / 8) h) (ground (arith, bit_and-bit (j % 8) 0, bit_zero (j % 8)))
