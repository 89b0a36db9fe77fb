-- ===== src/Storage/Numeric/Slots.antt =====
-- The numbers that `decode_fixed_row_record_fast_numeric_with` of src/storage_layout/fast_row_decode.rs reads
-- from a row that row_codec.rs wrote.
use uni5db.Base.{
  ◌⊎◌, ℕ, ◌+◌, ◌/◌, ◌%◌, ◌^◌, ◌≡◌, refl, ap, Bool, false, not, bit_and, List, [], ◌∷◌, ◌++◌,
  append_assoc, map, Option, none, some, arith, ltb, leb, ◌==◌, length, length-append, get_elem?,
  All, Bool-cases, Option-cases, inl, inr, ok, ◌>>=◌,
}
use uni5db.Bytes.{Bytes}
use uni5db.Types.Floats.{FloatOps}
use uni5db.Types.Value.{ColumnValue, is_null, IsValid}
use uni5db.Types.Typing.{HasType}
use uni5db.Types.Schema.{ColumnSchema, TableSchema}
use uni5db.Store.Maps.{Map}
use uni5db.Storage.Fixed.{fixed_width, fixed_offsets_for_columns}
use uni5db.Storage.Records.{MvccMeta}
use uni5db.Storage.Cursor.{slice}
use uni5db.Storage.FixedRow.{
  FixedRowLayout, layout_of, fixed_row_is_null, fixed_column, stored_column, place,
}
use uni5db.Storage.Projected.Values.{set_elem-append}
use uni5db.Storage.RowWriter.{value_in, encode_row_record_with_mvcc}
use uni5db.Storage.RowWriter.Fields.{fields-FieldAt}
use uni5db.Storage.RowWriter.Layout.{FitsHeader, count, written, encode_row_record-parts}
use uni5db.Storage.RowWriter.Columns.{
  get_elem?-lt, is_null-eq, fixed_row_is_null-written, fixed_column-written,
}
use uni5db.Storage.Numeric
use uni5db.Storage.Numeric.{
  FastNumericValue, FastNumericDirectSlot, slot_of, slots_from, fixed_slot, slot_value,
  decode_fixed_numeric_value, decode_fixed_row_numeric_slot, decode_slots,
  decode_fixed_row_record_fast_numeric_with,
}
use uni5db.Storage.Numeric.Fields.{numeric_of, decode_fixed_numeric_value-decode_fixed_value}

module _ (ops : FloatOps) (schema : TableSchema) (row : Map ColumnValue) where
  -- The number in the row of the column at an index.
  abbrev pub column_number : ℕ → Option FastNumericValue
  column_number i = elim (get_elem? schema.columns i) [
    | none ↦ none
    | some column ↦ numeric_of ops (value_in row column)
  ]

  -- The column at an index has a field of fixed width, and its value is null or a valid number of its type.
  abbrev pub IsNumberAt : ℕ → Type 0
  IsNumberAt i =
      (column : ColumnSchema) × (width : ℕ) × (number : FastNumericValue) × (get_elem?
          schema.columns i
        ≡ some column)
      × (fixed_width column.data_type ≡ some width)
      × (numeric_of ops (value_in row column) ≡ some number)
      × ((value_in row column ≡ ColumnValue.null)
          ⊎ (IsValid (value_in row column) × HasType (value_in row column) column.data_type))

fixed_column-number :
    (ops : FloatOps) (bytes : Bytes) (layout : FixedRowLayout) (column : ColumnSchema)
    (width offset start : ℕ) (slot : FastNumericDirectSlot) (v : ColumnValue) (n : FastNumericValue)
    → numeric_of ops v ≡ some n
    → fixed_width column.data_type ≡ some width
    → slot.fixed_width ≡ some width
    → slot.data_type ≡ column.data_type
    → start ≡ layout.fixed_region_start + offset
    → fixed_column bytes layout column offset ≡ ok v
    → fixed_slot ops bytes slot start ≡ ok n
fixed_column-number ops bytes layout column width offset start slot v n number w sw same begins h =
    let begin = layout.fixed_region_start + offset in
    let h = rw w at h in
    elim (Bool-cases (ltb (length bytes) (begin + width))) [
      | inl e ↦ absurd (let failed = rw e at h in cc)
      | inr e ↦
          let h = rw e at h in
          rw (sw, same, begins, e)
            (decode_fixed_numeric_value-decode_fixed_value ops v n number column.data_type
              (slice bytes begin (begin + width)) h)
    ]

-- A row's null bit as a slot reads it.
null_bit-says :
    (bytes : Bytes) (layout : FixedRowLayout) (i : ℕ) (b : Bool)
    → leb layout.stored_column_count i ≡ false
    → fixed_row_is_null bytes layout i ≡ ok b
    → (byte : ℕ) × (get_elem? bytes (layout.null_bitmap_start + i / 8) ≡ some byte)
      × (not (bit_and byte (2 ^ (i % 8)) == 0) ≡ b)
unfolding fixed_row_is_null
null_bit-says bytes layout i b stored h =
    let h = rw stored at h in
    elim (Option-cases (get_elem? bytes (layout.null_bitmap_start + i / 8))) [
      | inl e ↦ absurd (let failed = rw e at h in cc)
      | inr (byte, e) ↦ (byte, e, (let says = rw e at h in cc))
    ]

module _ (ops : FloatOps) (schema : TableSchema) (row : Map ColumnValue) (mvcc : MvccMeta)
    (fits : FitsHeader schema mvcc) where
  abbrev layout : FixedRowLayout
  layout = layout_of schema.columns (count schema row mvcc) 33

  slot_value-written :
      (i output_idx width : ℕ) (column : ColumnSchema) (number : FastNumericValue)
      → get_elem? schema.columns i ≡ some column
      → fixed_width column.data_type ≡ some width
      → numeric_of ops (value_in row column) ≡ some number
      → (value_in row column ≡ ColumnValue.null)
        ⊎ (IsValid (value_in row column) × HasType (value_in row column) column.data_type)
      → slot_value ops (written schema row mvcc) (slot_of schema column i output_idx) ≡ ok number
  unfolding fixed_offsets_for_columns
  slot_value-written i output_idx width column number at w is_number holds =
      let bytes = written schema row mvcc in
      let v = value_in row column in
      let stored : leb (count schema row mvcc) i ≡ false =
        (let early = get_elem?-lt schema.columns i column at in ground arith) in
      let (byte, there, says) =
        null_bit-says bytes layout i (is_null v) stored
          (fixed_row_is_null-written schema row mvcc i column at) in
      let (a, offset, _) = fields-FieldAt row 0 0 [] [] schema.columns i column width refl at w in
      elim (Bool-cases (is_null v)) [
        | inl e ↦
            let is_number = rw (is_null-eq v e) at is_number in
            rw (slot_value, there, says, e)
              (let same : FastNumericValue.null ≡ number = cc in ap ok same)
        | inr e ↦ elim holds [
          | inl none_there ↦ absurd (let now = rw none_there at e in cc)
          | inr (valid, typed) ↦
              let read =
                fixed_column-written schema row mvcc i column at width fits w typed valid e in
              let read = rw (stored_column, place, offset) at read in
              rw (slot_value, there, says, e, slot_of, place, offset)
                (fixed_column-number ops bytes layout column width a (layout.fixed_region_start + a)
                  (slot_of schema column i output_idx) v number is_number w w refl refl read)
        ]
      ]

  decode_slots-written :
      (indices : List ℕ) (pre rest : List FastNumericValue)
      → All (IsNumberAt ops schema row) indices
      → length rest ≡ length indices
      → (numbers : List FastNumericValue) × (decode_slots ops
            (written schema row mvcc)
            (slots_from schema indices (length pre))
            (pre ++ rest)
          ≡ ok (pre ++ numbers))
        × (map some numbers ≡ map (column_number ops schema row) indices)
  unfolding decode_slots slots_from decode_fixed_row_numeric_slot
  decode_slots-written [] pre [] all same = ([], refl, refl)
  decode_slots-written [] pre (r ∷ rest) all same = absurd (omega arith)
  decode_slots-written (i ∷ indices) pre [] all same = absurd (omega arith)
  decode_slots-written (i ∷ indices) pre (r ∷ rest)
        ((column, width, number, at, w, is_number, holds), all) same =
      let read = slot_value-written i (length pre) width column number at w is_number holds in
      let (numbers, run, equal) =
        decode_slots-written indices (pre ++ number ∷ []) rest all (omega arith) in
      let next : length pre + 1 ≡ length (pre ++ number ∷ []) =
        omega (arith, length-append pre (number ∷ [])) in
      (
        number ∷ numbers,
        rw
            (
              at,
              slots_from,
              decode_slots,
              decode_fixed_row_numeric_slot,
              read,
              ◌>>=◌,
              set_elem-append pre r number rest,
              next,
              run,
            )
            (ap ok (append_assoc pre (number ∷ []) numbers)),
        rw (equal, column_number, at, is_number) refl,
      )

-- From a row that was written, the projector of some columns reads their numbers, in the order of the
-- indices and whatever the buffer of their length held. Each column has a field of fixed width, and its
-- value is null or a valid number of its type; the numbers of the row's header are in their ranges.
pub decode_fixed_row_record_fast_numeric_with-encode_row_record :
    (ops : FloatOps) (schema : TableSchema) (row : Map ColumnValue) (mvcc : MvccMeta)
    (indices : List ℕ) (buffer : List FastNumericValue)
    → FitsHeader schema mvcc
    → All (IsNumberAt ops schema row) indices
    → length buffer ≡ length indices
    → (numbers : List FastNumericValue) × (decode_fixed_row_record_fast_numeric_with ops
          (Numeric.new schema indices)
          (encode_row_record_with_mvcc schema row mvcc)
          buffer
        ≡ ok numbers)
      × (map some numbers ≡ map (column_number ops schema row) indices)
unfolding decode_fixed_row_record_fast_numeric_with Numeric.new
decode_fixed_row_record_fast_numeric_with-encode_row_record ops schema row mvcc indices buffer fits
      all same =
    let parts = encode_row_record-parts schema row mvcc in
    let (numbers, run, equal) =
      decode_slots-written ops schema row mvcc fits indices [] buffer all same in
    (numbers, rw parts run, equal)
