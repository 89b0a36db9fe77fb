-- ===== src/Storage/RowWriter/Fields.antt =====
-- Where the fields, the entries and the values of a written row stand, in
-- src/storage_layout/row_codec.rs.
use uni5db.Base.{
  ℕ, zero, suc, ◌+◌, ◌*◌, ◌-◌, ◌%◌, ◌^◌, ◌≤◌, ◌≡◌, refl, ap, ◌∙◌, subst, List, [], ◌∷◌, ◌++◌,
  append_assoc, none, some, arith, length, length-append, get_elem?, Option-cases, inl, inr,
}
use uni5db.Bytes.{Bytes}
use uni5db.Bytes.BigEndian.{to_be_bytes, length-to_be_bytes}
use uni5db.Types.Value.{ColumnValue}
use uni5db.Types.Schema.{ColumnSchema}
use uni5db.Store.Maps.{Map}
use uni5db.Storage.Cursor.{slice}
use uni5db.Storage.Cursor.At.{slice_at}
use uni5db.Storage.Fixed.{fixed_width, offsets_from, positions_from}
use uni5db.Storage.Fixed.Places.{round_none, round_some}
use uni5db.Storage.RowWriter.{value_in, fixed_field, variable_bytes, directory_entry}
use uni5db.Storage.RowWriter.Regions.{
  fields, entries, payload, length-fixed_field, length-directory_entry,
}

-- A part of known length at a known place.
slice_of :
    (pre x rest : Bytes) (start len : ℕ)
    → length pre ≡ start
    → length x ≡ len
    → slice (pre ++ (x ++ rest)) start (start + len) ≡ x
slice_of pre x rest start len hs hl = rw (← hs, ← hl) (slice_at pre x rest)

module _ (row : Map ColumnValue) where
  -- The column has the offset `a` among the fields, and its field stands there.
  abbrev pub FieldAt : ℕ → ℕ → Bytes → List ColumnSchema → ℕ → ColumnSchema → ℕ → Type 0
  FieldAt base offset bytes columns i column width =
      (a : ℕ) × (get_elem? (offsets_from offset columns) i ≡ some (some a))
      × (slice bytes (base + a) (base + a + width) ≡ fixed_field width (value_in row column))

  pub fields-FieldAt :
      (base offset : ℕ) (pre post : Bytes) (columns : List ColumnSchema) (i : ℕ)
      (column : ColumnSchema) (width : ℕ)
      → length pre ≡ base + offset
      → get_elem? columns i ≡ some column
      → fixed_width column.data_type ≡ some width
      → FieldAt base offset (pre ++ (fields row columns ++ post)) columns i column width
  unfolding fields
  fields-FieldAt base offset pre post [] i column width h at w = cc
  fields-FieldAt base offset pre post (c ∷ columns) zero column width h at w =
      let same : c ≡ column = ground arith in
      let wide : fixed_width c.data_type ≡ some width = rw same w in
      let (o, _) = round_some offset 0 c columns width wide in
      (
        offset,
        rw o refl,
        rw (wide, append_assoc (fixed_field width (value_in row c)))
            (slice_of pre (fixed_field width (value_in row c)) (fields row columns ++ post)
                (base + offset) width h (length-fixed_field width (value_in row c))
              ∙ ap (λ d. fixed_field width (value_in row d)) same),
      )
  fields-FieldAt base offset pre post (c ∷ columns) (suc i) column width h at w =
      elim (Option-cases (fixed_width c.data_type)) [
        | inl e ↦
            let (o, _) = round_none offset 0 c columns e in
            rw (o, e) (fields-FieldAt base offset pre post columns i column width h at w)
        | inr (v, e) ↦
            let (o, _) = round_some offset 0 c columns v e in
            let first = fixed_field v (value_in row c) in
            let moved : length (pre ++ first) ≡ base + (offset + v) =
              omega (arith, length-append pre first, length-fixed_field v (value_in row c)) in
            rw (o, e, append_assoc first, ← append_assoc pre)
              (fields-FieldAt base (offset + v) (pre ++ first) post columns i column width moved at
                w)
      ]

  -- The column has the position `p` in the directory, whose entry holds the offset and the length of
  -- its value, and the value stands there among the values.
  pub record ValueAt (directory values : ℕ) (entry_bytes value_bytes : Bytes) (position : ℕ)
      (columns : List ColumnSchema) (i : ℕ) (column : ColumnSchema) (enough : ℕ) : Type 0 where
    pub p : ℕ
    pub offset : ℕ
    pub unfixed : (from : ℕ) → get_elem? (offsets_from from columns) i ≡ some none
    pub placed : get_elem? (positions_from position columns) i ≡ some (some p)
    pub offset_there :
        slice entry_bytes (directory + p * 8) (directory + p * 8 + 4)
        ≡ to_be_bytes 4 (offset % 2 ^ 32)
    pub length_there :
        slice entry_bytes (directory + p * 8 + 4) (directory + p * 8 + 8)
        ≡ to_be_bytes 4
            ((offset + length (variable_bytes (value_in row column))) % 2 ^ 32 - offset % 2 ^ 32)
    pub value_there :
        slice value_bytes
          (values + offset)
          (values + offset + length (variable_bytes (value_in row column)))
        ≡ variable_bytes (value_in row column)
    pub within : offset + length (variable_bytes (value_in row column)) ≤ enough

  entry_halves :
      (offset : ℕ) (v : ColumnValue) (pre post : Bytes) (start : ℕ)
      → length pre ≡ start
      → (slice (pre ++ (directory_entry offset v ++ post)) start (start + 4)
          ≡ to_be_bytes 4 (offset % 2 ^ 32))
        × (slice (pre ++ (directory_entry offset v ++ post)) (start + 4) (start + 8)
            ≡ to_be_bytes 4 ((offset + length (variable_bytes v)) % 2 ^ 32 - offset % 2 ^ 32))
  entry_halves offset v pre post start h =
      let first = to_be_bytes 4 (offset % 2 ^ 32) in
      let second =
        to_be_bytes 4 ((offset + length (variable_bytes v)) % 2 ^ 32 - offset % 2 ^ 32) in
      let wide = length-to_be_bytes 4 (offset % 2 ^ 32) in
      let wide' =
        length-to_be_bytes 4 ((offset + length (variable_bytes v)) % 2 ^ 32 - offset % 2 ^ 32) in
      let moved : length (pre ++ first) ≡ start + 4 = omega (arith, length-append pre first) in
      let end : start + 4 + 4 ≡ start + 8 = omega arith in
      (
        rw (append_assoc first second post) (slice_of pre first (second ++ post) start 4 h wide),
        rw (append_assoc first second post, ← append_assoc pre first, ← end)
            (slice_of (pre ++ first) second post (start + 4) 4 moved wide'),
      )

  pub entries-ValueAt :
      (directory values offset position : ℕ) (pre post prev rest : Bytes)
      (columns : List ColumnSchema) (i : ℕ) (column : ColumnSchema)
      → length pre ≡ directory + position * 8
      → length prev ≡ values + offset
      → get_elem? columns i ≡ some column
      → fixed_width column.data_type ≡ none
      → ValueAt directory values
          (pre ++ (entries row offset columns ++ post))
          (prev ++ (payload row columns ++ rest))
          position
          columns
          i
          column
          (offset + length (payload row columns))
  unfolding entries payload
  entries-ValueAt directory values offset position pre post prev rest [] i column hd hv at w = cc
  entries-ValueAt directory values offset position pre post prev rest (c ∷ columns) zero column hd
        hv at w =
      let same : c ≡ column = ground arith in
      let free : fixed_width c.data_type ≡ none = rw same w in
      let value = value_in row c in
      let bytes = variable_bytes value in
      let next = entries row (offset + length bytes) columns in
      let halves = entry_halves offset value pre (next ++ post) (directory + position * 8) hd in
      subst
        (λ d.
          ValueAt directory values (pre ++ (entries row offset (c ∷ columns) ++ post))
            (prev ++ (payload row (c ∷ columns) ++ rest)) position (c ∷ columns) 0 d
            (offset + length (payload row (c ∷ columns))))
        same
        (record {
          p = position;
          offset = offset;
          unfixed = λ from. rw (round_none from 0 c columns free).0 refl;
          placed = rw (round_none 0 position c columns free).1 refl;
          offset_there = rw (free, append_assoc (directory_entry offset value) next post) halves.0;
          length_there = rw (free, append_assoc (directory_entry offset value) next post) halves.1;
          value_there =
              rw (free, append_assoc bytes (payload row columns) rest)
                (slice_of prev bytes (payload row columns ++ rest) (values + offset) (length bytes)
                  hv refl);
          within = rw (free, length-append bytes (payload row columns)) (omega arith);
        })
  entries-ValueAt directory values offset position pre post prev rest (c ∷ columns) (suc i) column
        hd hv at w =
      elim (Option-cases (fixed_width c.data_type)) [
        | inr (v, e) ↦
            let there =
              entries-ValueAt directory values offset position pre post prev rest columns i column
                hd hv at w in
            record {
              p = there.p;
              offset = there.offset;
              unfixed = λ from. rw (round_some from 0 c columns v e).0 (there.unfixed (from + v));
              placed = rw (round_some 0 position c columns v e).1 there.placed;
              offset_there = rw e there.offset_there;
              length_there = rw e there.length_there;
              value_there = rw e there.value_there;
              within = rw e there.within;
            }
        | inl e ↦
            let bytes = variable_bytes (value_in row c) in
            let entry = directory_entry offset (value_in row c) in
            let moved : length (pre ++ entry) ≡ directory + (position + 1) * 8 =
              omega
                (arith, length-append pre entry, length-directory_entry offset (value_in row c)) in
            let on : length (prev ++ bytes) ≡ values + (offset + length bytes) =
              omega (arith, length-append prev bytes) in
            let there =
              entries-ValueAt directory values (offset + length bytes) (position + 1) (pre ++ entry)
                post (prev ++ bytes) rest columns i column moved on at w in
            let next = entries row (offset + length bytes) columns in
            record {
              p = there.p;
              offset = there.offset;
              unfixed = λ from. rw (round_none from 0 c columns e).0 (there.unfixed from);
              placed = rw (round_none 0 position c columns e).1 there.placed;
              offset_there =
                  rw (e, append_assoc entry next post, ← append_assoc pre entry) there.offset_there;
              length_there =
                  rw (e, append_assoc entry next post, ← append_assoc pre entry) there.length_there;
              value_there =
                  rw (e, append_assoc bytes (payload row columns) rest, ← append_assoc prev bytes)
                    there.value_there;
              within =
                  rw (e, length-append bytes (payload row columns)) (omega (arith, there.within));
            }
      ]
