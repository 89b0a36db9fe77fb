-- ===== src/Storage/FixedRow/Regions.antt =====
-- The regions of a row in the fixed row format of src/storage_layout/fast_row_decode.rs.
use uni5db.Base.{
  ℕ, zero, suc, ◌+◌, ◌*◌, ◌/◌, ◌≤◌, ◌<◌, ◌≡◌, refl, ◌∙◌, subst, List, [], ◌∷◌, Option, none, some,
  arith, ltb, ◌==◌, length, get_elem?, take, Option-cases, Bool-cases, inl, inr, false, ok,
  >>=-eq-ok,
}
use uni5db.Bytes.{Bytes}
use uni5db.Types.Schema.{ColumnSchema, TableSchema}
use uni5db.Storage.Cursor
use uni5db.Storage.Cursor.{Cursor, u8}
use uni5db.Storage.Fixed.{
  fixed_width, offsets_from, positions_from, fixed_offsets_for_columns,
  variable_positions_for_columns,
}
use uni5db.Storage.Fixed.Places.{round_none, round_some}
use uni5db.Storage.RawRows.{row_header}
use uni5db.Storage.FixedRow.{
  FixedRowLayout, fixed_region_len, count_some, layout_of, checked_layout, fixed_row_layout,
  fixed_row_version,
}

-- A column's place lies in its region: the field of `width` bytes at its offset ends before the
-- directory, or the entry of 8 bytes at its position ends before the payload. It has just one of them.
abbrev pub Within :
    (fixed directory payload : ℕ) → Option ℕ → Option (Option ℕ) → Option (Option ℕ) → Type 0
Within fixed directory payload (some width) (some (some offset)) (some none) =
    fixed + offset + width ≤ directory
Within fixed directory payload none (some none) (some (some position)) =
    directory + position * 8 + 8 ≤ payload
Within _ _ _ _ _ _ = ⊥

module _ (c : ColumnSchema) (columns : List ColumnSchema) where
  pub region_none :
      fixed_width c.data_type ≡ none → fixed_region_len (c ∷ columns) ≡ fixed_region_len columns
  unfolding fixed_region_len
  region_none e = ground arith

  pub region_some :
      (w : ℕ)
      → fixed_width c.data_type ≡ some w
      → fixed_region_len (c ∷ columns) ≡ w + fixed_region_len columns
  unfolding fixed_region_len
  region_some w e = ground arith

module _ (fixed directory payload : ℕ) where
  Within-from :
      (offset position : ℕ) (columns : List ColumnSchema) (i : ℕ) (column : ColumnSchema)
      → get_elem? columns i ≡ some column
      → fixed + offset + fixed_region_len columns ≤ directory
      → directory + (position + count_some (positions_from position columns)) * 8 ≤ payload
      → Within fixed directory payload
          (fixed_width column.data_type)
          (get_elem? (offsets_from offset columns) i)
          (get_elem? (positions_from position columns) i)
  unfolding count_some
  Within-from offset position [] i column at hf hp = cc
  Within-from offset position (c ∷ columns) zero column at hf hp =
      elim (Option-cases (fixed_width c.data_type)) [
        | inl e ↦
            let (o, p) = round_none offset position c columns e in
            let same : fixed_width column.data_type ≡ none = ground arith in
            let enough = rw p at hp in rw (same, o, p) (omega arith)
        | inr (w, e) ↦
            let (o, p) = round_some offset position c columns w e in
            let same : fixed_width column.data_type ≡ some w = ground arith in
            let enough = rw (region_some c columns w e) at hf in rw (same, o, p) (omega arith)
      ]
  Within-from offset position (c ∷ columns) (suc i) column at hf hp =
      elim (Option-cases (fixed_width c.data_type)) [
        | inl e ↦
            let (o, p) = round_none offset position c columns e in
            rw (o, p)
              (Within-from offset (position + 1) columns i column at
                (rw (region_none c columns e) at hf) (let enough = rw p at hp in omega arith))
        | inr (w, e) ↦
            let (o, p) = round_some offset position c columns w e in
            rw (o, p)
              (Within-from (offset + w) position columns i column at
                (let enough = rw (region_some c columns w e) at hf in omega arith) (rw p at hp))
      ]

get_elem?-take :
    (columns : List ColumnSchema) (n i : ℕ)
    → i < n
    → get_elem? (take n columns) i ≡ get_elem? columns i
get_elem?-take columns zero i lt = absurd (omega arith)
get_elem?-take [] (suc n) i lt = refl
get_elem?-take (c ∷ columns) (suc n) zero lt = refl
get_elem?-take (c ∷ columns) (suc n) (suc i) lt = get_elem?-take columns n i (omega arith)

-- The regions of a layout, as far as they concern the column at an index.
abbrev pub Regions : FixedRowLayout → Bytes → ColumnSchema → ℕ → Type 0
Regions layout bytes column i =
    (layout.null_bitmap_start + i / 8 < layout.fixed_region_start)
    × Within layout.fixed_region_start layout.variable_directory_start layout.variable_payload_start
        (fixed_width column.data_type) (get_elem? layout.fixed_offsets i)
        (get_elem? layout.variable_positions i)
    × (layout.variable_payload_start ≤ length bytes)

layout_of-Regions :
    (schema : TableSchema) (bytes : Bytes) (count start i : ℕ) (column : ColumnSchema)
    → i < count
    → get_elem? schema.columns i ≡ some column
    → ltb (length bytes) (layout_of (take count schema.columns) count start).variable_payload_start
      ≡ false
    → Regions (layout_of (take count schema.columns) count start) bytes column i
unfolding fixed_offsets_for_columns variable_positions_for_columns
layout_of-Regions schema bytes count start i column lt at enough = (
  omega arith,
  Within-from _ _ _ 0 0 (take count schema.columns) i column
      (get_elem?-take schema.columns count i lt ∙ at) (omega arith) (omega arith),
  ground arith,
)

checked_layout-Regions :
    (schema : TableSchema) (bytes : Bytes) (count start : ℕ) (layout : FixedRowLayout) (i : ℕ)
    (column : ColumnSchema)
    → checked_layout schema bytes count start ≡ ok layout
    → i < layout.stored_column_count
    → get_elem? schema.columns i ≡ some column
    → Regions layout bytes column i
unfolding checked_layout
checked_layout-Regions schema bytes count start layout i column found lt at =
    elim (Bool-cases (ltb (length schema.columns) count)) [
      | inl e ↦ absurd (ground arith)
      | inr e ↦
          elim (Bool-cases (
            ltb (length bytes)
              (layout_of (take count schema.columns) count start).variable_payload_start)) [
                | inl short ↦ absurd (ground arith)
                | inr enough ↦
                    let same : layout_of (take count schema.columns) count start ≡ layout =
                      (let passed = rw (e, enough) at found in cc) in
                    subst (λ l. Regions l bytes column i) same
                      (layout_of-Regions schema bytes count start i column (rw (← same) at lt) at
                        enough)
              ]
    ]

-- When the layout of a row is read, then for every column that the row has, its byte of the bitmap
-- stands before the fixed fields, its fixed field ends before the directory, or its entry of 8 bytes
-- stands in the directory before the values, which begin within the row's bytes.
pub fixed_row_layout-Regions :
    (schema : TableSchema) (bytes : Bytes) (layout : FixedRowLayout) (i : ℕ) (column : ColumnSchema)
    → fixed_row_layout schema bytes ≡ ok layout
    → i < layout.stored_column_count
    → get_elem? schema.columns i ≡ some column
    → Regions layout bytes column i
unfolding fixed_row_layout
fixed_row_layout-Regions schema bytes layout i column found lt at =
    let (v, read, found) = >>=-eq-ok (u8 (Cursor.new bytes)) _ found in
    elim (Bool-cases (v.0 == fixed_row_version)) [
      | inr e ↦ absurd (let refused = rw e at found in cc)
      | inl e ↦
          let (h, header, found) = >>=-eq-ok (row_header v.1) _ (rw e at found) in
          checked_layout-Regions schema bytes h.0.3 h.1.pos layout i column found lt at
    ]
