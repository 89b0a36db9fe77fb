-- ===== src/Storage/RowWriter/Columns.antt =====
-- Each column of a row that src/storage_layout/row_codec.rs wrote is read back.
use uni5db.Base.{
  ℕ, zero, suc, ◌+◌, ◌*◌, ◌-◌, ◌/◌, ◌%◌, ◌^◌, ◌≤◌, ◌<◌, ◌≡◌, refl, ap, sym, subst, ◌∙◌, Bool, true,
  false, not, bit_and, List, [], ◌∷◌, ◌++◌, append_assoc, append-nil, Option, none, some, arith,
  ltb, leb, ◌==◌, ==_refl, length, length-append, get_elem?, ok,
}
use uni5db.Bytes.{Bytes}
use uni5db.Bytes.BigEndian.{to_be_bytes, from_be_bytes-to_be_bytes}
use uni5db.Types.Value.{ColumnValue, is_null, IsValid}
use uni5db.Types.Typing.{HasType}
use uni5db.Types.Schema.{ColumnSchema, TableSchema}
use uni5db.Store.Maps.{Map}
use uni5db.Storage.Cursor
use uni5db.Storage.Cursor.{slice, is_done}
use uni5db.Storage.Tuple.{encode_tuple_value}
use uni5db.Storage.Tuple.RoundTrip.{decode_tuple_value-encode_tuple_value}
use uni5db.Storage.Fixed.{
  fixed_width, encode_fixed_value, fixed_offsets_for_columns, variable_positions_for_columns,
}
use uni5db.Storage.Fixed.RoundTrip.{decode_fixed_value-encode_fixed_value}
use uni5db.Storage.Records.{MvccMeta}
use uni5db.Storage.RawRows.{checked_add}
use uni5db.Storage.FixedRow.{
  FixedRowLayout, layout_of, fixed_row_is_null, variable_value, place, stored_column,
}
use uni5db.Storage.FixedRow.Regions.{Within, fixed_row_layout-Regions}
use uni5db.Storage.RowWriter.{zeros, value_in, fixed_field, variable_bytes}
use uni5db.Storage.RowWriter.Regions.{length-zeros, length-fields, length-entries}
use uni5db.Storage.RowWriter.Fields.{fields-FieldAt, ValueAt, entries-ValueAt}
use uni5db.Storage.RowWriter.Bitmap.{tested, bit_at, nulls-bit_at, zeros-bit_at}
use uni5db.Storage.RowWriter.Layout.{
  FitsHeader, count, written, written_header, written_bitmap, written_fields, written_directory,
  written_payload, length-written, length-written_header, length-written_bitmap,
  fixed_row_layout-written,
}

get_elem?-length :
    (pre xs : Bytes) (k : ℕ) → get_elem? (pre ++ xs) (length pre + k) ≡ get_elem? xs k
get_elem?-length [] xs k = let none : 0 + k ≡ k = omega arith in rw none refl
get_elem?-length (x ∷ pre) xs k =
    let next : suc (length pre) + k ≡ suc (length pre + k) = omega arith in
    rw next (get_elem?-length pre xs k)

get_elem?-behind :
    (pre xs : Bytes) (k start : ℕ)
    → length pre ≡ start
    → get_elem? (pre ++ xs) (start + k) ≡ get_elem? xs k
get_elem?-behind pre xs k start h = rw (← h) (get_elem?-length pre xs k)

get_elem?-front :
    (xs ys : Bytes) (k b : ℕ) → get_elem? xs k ≡ some b → get_elem? (xs ++ ys) k ≡ some b
get_elem?-front [] ys k b h = cc
get_elem?-front (x ∷ xs) ys zero b h = h
get_elem?-front (x ∷ xs) ys (suc k) b h = get_elem?-front xs ys k b h

pub get_elem?-lt :
    {A : Type 0} (xs : List A) (i : ℕ) (x : A) → get_elem? xs i ≡ some x → i < length xs
get_elem?-lt [] i x h = cc
get_elem?-lt (y ∷ xs) zero x h = omega arith
get_elem?-lt (y ∷ xs) (suc i) x h = omega (arith, get_elem?-lt xs i x h)

pub is_null-eq : (v : ColumnValue) → is_null v ≡ true → v ≡ ColumnValue.null
is_null-eq ColumnValue.null h = refl
is_null-eq _ h = cc

-- A tested byte is there.
tested-some :
    (mask : ℕ) (byte : Option ℕ) (b : Bool)
    → tested mask byte ≡ some b
    → (n : ℕ) × (byte ≡ some n) × (not (bit_and n mask == 0) ≡ b)
tested-some mask none b h = cc
tested-some mask (some n) b h = (n, refl, ground arith)

Within-field :
    (fixed directory payload width a : ℕ) (position : Option (Option ℕ))
    → Within fixed directory payload (some width) (some (some a)) position
    → fixed + a + width ≤ directory
Within-field fixed directory payload width a (some none) h = h
Within-field fixed directory payload width a (some (some p)) h = absurd h
Within-field fixed directory payload width a none h = absurd h

fixed_field-present :
    (width : ℕ) (v : ColumnValue)
    → is_null v ≡ false
    → fixed_field width v ≡ encode_fixed_value (zeros width) v
unfolding fixed_field
fixed_field-present width v h = rw h refl

variable_bytes-present :
    (v : ColumnValue) → is_null v ≡ false → variable_bytes v ≡ encode_tuple_value v
unfolding variable_bytes
variable_bytes-present v h = rw h refl

-- A field with the bytes of a value, and an entry with those of the value's place and length.
module _ (bytes : Bytes) (layout : FixedRowLayout) (column : ColumnSchema) (i : ℕ)
    (v : ColumnValue) where
  stored_column-field :
      (width a : ℕ)
      → get_elem? layout.fixed_offsets i ≡ some (some a)
      → fixed_width column.data_type ≡ some width
      → slice bytes (layout.fixed_region_start + a) (layout.fixed_region_start + a + width)
        ≡ encode_fixed_value (zeros width) v
      → layout.fixed_region_start + a + width ≤ length bytes
      → HasType v column.data_type
      → IsValid v
      → stored_column bytes layout column i ≡ ok v
  stored_column-field width a offset w field enough typed valid =
      let reaches : ltb (length bytes) (layout.fixed_region_start + a + width) ≡ false =
        ground arith in
      let wide : fixed_width column.data_type ≡ some (length (zeros width)) =
        w ∙ ap some (sym (length-zeros width)) in
      rw (stored_column, place, offset, w, reaches, field)
        (decode_fixed_value-encode_fixed_value column.data_type (zeros width) v wide typed valid)

  stored_column-entry :
      (p offset : ℕ)
      → get_elem? layout.fixed_offsets i ≡ some none
      → get_elem? layout.variable_positions i ≡ some (some p)
      → slice bytes
          (layout.variable_directory_start + p * 8)
          (layout.variable_directory_start + p * 8 + 4)
        ≡ to_be_bytes 4 offset
      → slice bytes
          (layout.variable_directory_start + p * 8 + 4)
          (layout.variable_directory_start + p * 8 + 8)
        ≡ to_be_bytes 4 (length (encode_tuple_value v))
      → slice bytes
          (layout.variable_payload_start + offset)
          (layout.variable_payload_start + offset + length (encode_tuple_value v))
        ≡ encode_tuple_value v
      → layout.variable_directory_start + p * 8 + 8 ≤ layout.variable_payload_start
      → layout.variable_payload_start + offset + length (encode_tuple_value v) ≤ length bytes
      → length bytes < 2 ^ 32
      → IsValid v
      → stored_column bytes layout column i ≡ ok v
  unfolding Cursor.new is_done
  stored_column-entry p offset unfixed placed there long found entry enough small valid =
      let len = length (encode_tuple_value v) in
      let reaches : ltb (length bytes) (layout.variable_directory_start + p * 8 + 8) ≡ false =
        ground arith in
      let offset_read = from_be_bytes-to_be_bytes 4 offset (omega arith) in
      let length_read = from_be_bytes-to_be_bytes 4 len (omega arith) in
      let first : checked_add layout.variable_payload_start offset
          ≡ some (layout.variable_payload_start + offset) =
        ground arith in
      let second : checked_add (layout.variable_payload_start + offset) len
          ≡ some (layout.variable_payload_start + offset + len) =
        ground arith in
      let whole : ltb (length bytes) (layout.variable_payload_start + offset + len) ≡ false =
        ground arith in
      let read = rw append-nil at (decode_tuple_value-encode_tuple_value v [] [] valid) in
      rw
        (
          stored_column, place, unfixed, place, placed, reaches, there, offset_read, first, long,
          length_read, variable_value, second, whole, found, read,
        )
        (rw (==_refl (length (encode_tuple_value v))) refl)

module _ (schema : TableSchema) (row : Map ColumnValue) (mvcc : MvccMeta) where
  abbrev layout : FixedRowLayout
  layout = layout_of schema.columns (count schema row mvcc) 33

  module _ (i : ℕ) (column : ColumnSchema) (at : get_elem? schema.columns i ≡ some column) where
    abbrev value : ColumnValue
    value = value_in row column

    -- The bitmap tells whether the value is null.
    pub fixed_row_is_null-written :
        fixed_row_is_null (written schema row mvcc) layout i ≡ ok (is_null value)
    unfolding fixed_row_is_null
    fixed_row_is_null-written =
        let bitmap = written_bitmap schema row mvcc in
        let tail =
          written_fields schema row mvcc
          ++ (written_directory schema row mvcc ++ written_payload schema row mvcc) in
        let early : i < count schema row mvcc = get_elem?-lt schema.columns i column at in
        let unset = zeros-bit_at ((count schema row mvcc + 7) / 8) i (omega arith) in
        let place : 0 + i ≡ i = omega arith in
        let bit : bit_at bitmap i ≡ some (is_null value) =
          (rw place at (
            nulls-bit_at row 0 i schema.columns (zeros ((count schema row mvcc + 7) / 8)) column at
              (rw place unset))) in
        let (byte, there, says) =
          tested-some (2 ^ (i % 8)) (get_elem? bitmap (i / 8)) (is_null value) bit in
        let found =
          get_elem?-behind (written_header schema row mvcc) (bitmap ++ tail) (i / 8) 33
            (length-written_header schema row mvcc)
          ∙ get_elem?-front bitmap tail (i / 8) byte there in
        let stored : leb (count schema row mvcc) i ≡ false = ground arith in
        rw (stored, found, says) refl

    -- A fixed field is read back.
    pub fixed_column-written :
        (width : ℕ)
        → FitsHeader schema mvcc
        → fixed_width column.data_type ≡ some width
        → HasType value column.data_type
        → IsValid value
        → is_null value ≡ false
        → stored_column (written schema row mvcc) layout column i ≡ ok value
    unfolding fixed_offsets_for_columns
    fixed_column-written width fits w typed valid present =
        let tail = written_directory schema row mvcc ++ written_payload schema row mvcc in
        let head = written_header schema row mvcc ++ written_bitmap schema row mvcc in
        let start : length head ≡ 33 + (count schema row mvcc + 7) / 8 + 0 = omega (
          arith,
          length-append (written_header schema row mvcc) (written_bitmap schema row mvcc),
          length-written_header schema row mvcc,
          length-written_bitmap schema row mvcc,
        ) in
        let (a, offset, field) =
          fields-FieldAt row (33 + (count schema row mvcc + 7) / 8) 0 head tail schema.columns i
            column width start at w in
        let field = rw (append_assoc (written_header schema row mvcc)) at field in
        let early : i < count schema row mvcc = get_elem?-lt schema.columns i column at in
        let regions =
          fixed_row_layout-Regions schema (written schema row mvcc) layout i column
            (fixed_row_layout-written schema row mvcc fits) early at in
        let bound =
          Within-field layout.fixed_region_start layout.variable_directory_start
            layout.variable_payload_start width a (get_elem? layout.variable_positions i)
            (rw (w, offset) at regions.1) in
        stored_column-field (written schema row mvcc) layout column i value width a offset w
          (field ∙ fixed_field-present width value present) (omega (arith, bound, regions.2)) typed
          valid

    entry_there :
        fixed_width column.data_type ≡ none
        → ValueAt row layout.variable_directory_start layout.variable_payload_start
            (written schema row mvcc)
            (written schema row mvcc)
            0
            schema.columns
            i
            column
            (0 + length (written_payload schema row mvcc))
    unfolding variable_positions_for_columns
    entry_there w =
        let a = written_header schema row mvcc in
        let b = written_bitmap schema row mvcc in
        let c = written_fields schema row mvcc in
        let d = written_directory schema row mvcc in
        let p = written_payload schema row mvcc in
        let before : length (a ++ (b ++ c)) ≡ layout.variable_directory_start + 0 * 8 = omega (
          arith,
          length-append a (b ++ c),
          length-append b c,
          length-written_header schema row mvcc,
          length-written_bitmap schema row mvcc,
          length-fields row schema.columns,
        ) in
        let above : length (a ++ (b ++ (c ++ d))) ≡ layout.variable_payload_start + 0 = omega (
          arith,
          length-append a (b ++ (c ++ d)),
          length-append b (c ++ d),
          length-append c d,
          length-written_header schema row mvcc,
          length-written_bitmap schema row mvcc,
          length-fields row schema.columns,
          length-entries row 0 0 schema.columns,
        ) in
        let whole : (a ++ (b ++ c)) ++ (d ++ p) ≡ written schema row mvcc =
          append_assoc a (b ++ c) (d ++ p) ∙ ap (λ x. a ++ x) (append_assoc b c (d ++ p)) in
        let whole' : (a ++ (b ++ (c ++ d))) ++ (p ++ []) ≡ written schema row mvcc =
          append_assoc a (b ++ (c ++ d)) (p ++ [])
          ∙ ap (λ x. a ++ x)
              (append_assoc b (c ++ d) (p ++ [])
                ∙ ap (λ x. b ++ x)
                    (append_assoc c d (p ++ []) ∙ ap (λ x. c ++ (d ++ x)) (append-nil p))) in
        let there =
          entries-ValueAt row layout.variable_directory_start layout.variable_payload_start 0 0
            (a ++ (b ++ c)) p (a ++ (b ++ (c ++ d))) [] schema.columns i column before above at w in
        subst
          (λ x.
            ValueAt row layout.variable_directory_start layout.variable_payload_start x
              (written schema row mvcc) 0 schema.columns i column (0 + length p))
          whole
          (subst
            (λ y.
              ValueAt row layout.variable_directory_start layout.variable_payload_start
                ((a ++ (b ++ c)) ++ (d ++ p)) y 0 schema.columns i column (0 + length p))
            whole' there)

    -- A value of the payload is read back.
    pub variable_column-written :
        FitsHeader schema mvcc
        → length (written schema row mvcc) < 2 ^ 32
        → fixed_width column.data_type ≡ none
        → IsValid value
        → is_null value ≡ false
        → stored_column (written schema row mvcc) layout column i ≡ ok value
    unfolding fixed_offsets_for_columns variable_positions_for_columns
    variable_column-written fits small w valid present =
        let there = entry_there w in
        let bytes = variable_bytes-present value present in
        let early : i < count schema row mvcc = get_elem?-lt schema.columns i column at in
        let regions =
          fixed_row_layout-Regions schema (written schema row mvcc) layout i column
            (fixed_row_layout-written schema row mvcc fits) early at in
        let unfixed = there.unfixed 0 in
        let within = rw bytes at there.within in
        let wide = length-written schema row mvcc in
        let entry : layout.variable_directory_start + there.p * 8 + 8
            ≤ layout.variable_payload_start =
          (rw (w, unfixed, there.placed) at regions.1) in
        let offset_fits : there.offset % 2 ^ 32 ≡ there.offset = omega arith in
        let length_fits : (there.offset + length (encode_tuple_value value)) % 2 ^ 32 - there.offset
            ≡ length (encode_tuple_value value) =
          omega arith in
        stored_column-entry (written schema row mvcc) layout column i value there.p there.offset
          unfixed there.placed (rw offset_fits at there.offset_there)
          (rw (bytes, offset_fits, length_fits) at there.length_there)
          (rw bytes at there.value_there) entry (omega (arith, wide, within)) small valid
