-- ===== src/Storage/Fixed/Places.antt =====
-- The places of the columns in a row of src/storage_layout: the fixed fields do not overlap, and the
-- other columns are numbered in order.
use uni5db.Base.{
  ℕ, zero, suc, ◌+◌, ◌≤◌, ◌<◌, ◌≡◌, List, [], ◌∷◌, Option, none, some, arith, get_elem?,
  Option-cases, inl, inr,
}
use uni5db.Types.Schema.{ColumnSchema}
use uni5db.Storage.Fixed.{
  fixed_width, offsets_from, fixed_offsets_for_columns, positions_from,
  variable_positions_for_columns,
}

offsets_from-le :
    (offset : ℕ) (columns : List ColumnSchema) (j b : ℕ)
    → get_elem? (offsets_from offset columns) j ≡ some (some b)
    → offset ≤ b
unfolding offsets_from
offsets_from-le offset [] j b h = cc
offsets_from-le offset (c ∷ columns) zero b h = ground arith
offsets_from-le offset (c ∷ columns) (suc j) b h = elim (Option-cases (fixed_width c.data_type)) [
  | inl e ↦ offsets_from-le offset columns j b (ground arith)
  | inr (w, e) ↦ omega (arith, offsets_from-le (offset + w) columns j b (ground arith))
]

offsets_from-apart :
    (offset : ℕ) (columns : List ColumnSchema) (i j : ℕ) (column : ColumnSchema) (width a b : ℕ)
    → i < j
    → get_elem? columns i ≡ some column
    → fixed_width column.data_type ≡ some width
    → get_elem? (offsets_from offset columns) i ≡ some (some a)
    → get_elem? (offsets_from offset columns) j ≡ some (some b)
    → a + width ≤ b
unfolding offsets_from
offsets_from-apart offset [] i j column width a b lt c w ha hb = cc
offsets_from-apart offset (c ∷ columns) i zero column width a b lt hc w ha hb = absurd (omega arith)
offsets_from-apart offset (c ∷ columns) zero (suc j) column width a b lt hc w ha hb =
    elim (Option-cases (fixed_width c.data_type)) [
      | inl e ↦ absurd (ground arith)
      | inr (v, e) ↦
          let first : a ≡ offset = ground arith in
          let same : v ≡ width = ground arith in
          omega (arith, offsets_from-le (offset + v) columns j b (ground arith))
    ]
offsets_from-apart offset (c ∷ columns) (suc i) (suc j) column width a b lt hc w ha hb =
    elim (Option-cases (fixed_width c.data_type)) [
      | inl e ↦
          offsets_from-apart offset columns i j column width a b (omega arith) hc w (ground arith)
            (ground arith)
      | inr (v, e) ↦
          offsets_from-apart (offset + v) columns i j column width a b (omega arith) hc w
            (ground arith) (ground arith)
    ]

-- In a row the field of a fixed-width column ends where the field of any later fixed-width column
-- begins, or before.
pub fixed_offsets-apart :
    (columns : List ColumnSchema) (i j : ℕ) (column : ColumnSchema) (width a b : ℕ)
    → i < j
    → get_elem? columns i ≡ some column
    → fixed_width column.data_type ≡ some width
    → get_elem? (fixed_offsets_for_columns columns) i ≡ some (some a)
    → get_elem? (fixed_offsets_for_columns columns) j ≡ some (some b)
    → a + width ≤ b
unfolding fixed_offsets_for_columns
fixed_offsets-apart columns i j column width a b lt hc w ha hb =
    offsets_from-apart 0 columns i j column width a b lt hc w ha hb

-- Whether the column at an index has a place among the fixed-width fields or the others.
abbrev pub Placed : Option (Option ℕ) → Option (Option ℕ) → Type 0
Placed (some (some a)) (some none) = Unit
Placed (some none) (some (some p)) = Unit
Placed none none = Unit
Placed _ _ = ⊥

-- One round of each loop.
module _ (offset position : ℕ) (c : ColumnSchema) (columns : List ColumnSchema) where
  pub round_none :
      fixed_width c.data_type ≡ none
      → (offsets_from offset (c ∷ columns) ≡ none ∷ offsets_from offset columns)
        × (positions_from position (c ∷ columns)
            ≡ some position ∷ positions_from (position + 1) columns)
  unfolding offsets_from positions_from
  round_none e = (ground arith, ground arith)

  pub round_some :
      (w : ℕ)
      → fixed_width c.data_type ≡ some w
      → (offsets_from offset (c ∷ columns) ≡ some offset ∷ offsets_from (offset + w) columns)
        × (positions_from position (c ∷ columns) ≡ none ∷ positions_from position columns)
  unfolding offsets_from positions_from
  round_some w e = (ground arith, ground arith)

places_nil :
    (offset position i : ℕ)
    → Placed (get_elem? (offsets_from offset []) i) (get_elem? (positions_from position []) i)
unfolding offsets_from positions_from
places_nil offset position i = tt

places_from :
    (offset position : ℕ) (columns : List ColumnSchema) (i : ℕ)
    → Placed
        (get_elem? (offsets_from offset columns) i)
        (get_elem? (positions_from position columns) i)
places_from offset position [] i = places_nil offset position i
places_from offset position (c ∷ columns) zero = elim (Option-cases (fixed_width c.data_type)) [
  | inl e ↦ let (o, p) = round_none offset position c columns e in rw (o, p) tt
  | inr (w, e) ↦ let (o, p) = round_some offset position c columns w e in rw (o, p) tt
]
places_from offset position (c ∷ columns) (suc i) = elim (Option-cases (fixed_width c.data_type)) [
  | inl e ↦
      let (o, p) = round_none offset position c columns e in
      rw (o, p) (places_from offset (position + 1) columns i)
  | inr (w, e) ↦
      let (o, p) = round_some offset position c columns w e in
      rw (o, p) (places_from (offset + w) position columns i)
]

-- Every column has exactly one place: an offset among the fixed-width fields, or a position among the
-- others.
pub fixed_offsets-variable_positions :
    (columns : List ColumnSchema) (i : ℕ)
    → Placed
        (get_elem? (fixed_offsets_for_columns columns) i)
        (get_elem? (variable_positions_for_columns columns) i)
unfolding fixed_offsets_for_columns variable_positions_for_columns
fixed_offsets-variable_positions columns i = places_from 0 0 columns i
