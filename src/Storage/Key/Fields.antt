-- ===== src/Storage/Key/Fields.antt =====
-- The fields of a key value of src/storage_layout/olap_stats.rs, read behind its tag.
use uni5db.Base.{
  ℕ, ◌+◌, ◌-◌, ◌<◌, ◌^◌, ◌≡◌, false, ◌∷◌, ◌++◌, arith, ltb, length, length-append, take_append, ok,
  ◌>>=◌,
}
use uni5db.Bytes.{Bytes}
use uni5db.Bytes.BigEndian.{to_be_bytes, from_be_bytes-to_be_bytes, length-to_be_bytes}
use uni5db.Types.Value.{
  ColumnValue, Values, int16, int32, int64, float32, float64, bytea, array, nil, cons, IsText,
  IsSegment,
}
use uni5db.Types.DataType.{DataType}
use uni5db.Storage.Cursor.{slice, push_bytes_segment}
use uni5db.Storage.Cursor.At.{read_bytes_segment-push}
use uni5db.Storage.Ordered.{
  flip_top, flip_top-lt, flip_top-flip_top, encode_ordered_f32, encode_ordered_f64,
  length-ordered_f32, length-ordered_f64, decode_ordered_f32-encode_ordered_f32,
  decode_ordered_f64-encode_ordered_f64,
}
use uni5db.Storage.Key.{
  encode_key_value, decode_int16_key, decode_int32_key, decode_int64_key, decode_float32_key,
  decode_float64_key, decode_text_key, decode_bytea_key,
}

-- The types that have an arm in `decode_key_value`: all but BIT and YEAR, also inside arrays.
abbrev pub IsKeyed : DataType → Type 0
IsKeyed (DataType.bit _) = ⊥
IsKeyed DataType.year = ⊥
IsKeyed (DataType.array t) = IsKeyed t
IsKeyed _ = Unit

-- The elements of an array key are segments, whose lengths fit 32 bits.
abbrev mutual
  pub KeyFits : ColumnValue → Type 0
  KeyFits (array vs) = AllKeyFit vs
  KeyFits _ = Unit

  pub AllKeyFit : Values → Type 0
  AllKeyFit nil = Unit
  AllKeyFit (cons v vs) = (length (encode_key_value v) < 2 ^ 32) × KeyFits v × AllKeyFit vs

-- A big-endian field behind the tag.
pub field_at :
    (n tag : ℕ) (x rest : Bytes)
    → length x ≡ n
    → (slice (tag ∷ (x ++ rest)) 1 (1 + n) ≡ x) × (ltb (length (tag ∷ (x ++ rest))) (1 + n) ≡ false)
field_at n tag x rest h = (
  rw (let e : 1 + n - 1 ≡ n = omega arith in e) (take_append n x rest h),
  ground (arith, length-append x rest),
)

module _ (tag v : ℕ) (rest : Bytes) where
  pub int16_key :
      v < 2 ^ 16
      → decode_int16_key (tag ∷ (to_be_bytes 2 (flip_top 15 v) ++ rest)) ≡ ok (int16 v, 3)
  unfolding decode_int16_key
  int16_key h =
      let (field, enough) =
        field_at 2 tag (to_be_bytes 2 (flip_top 15 v)) rest (length-to_be_bytes 2 _) in
      rw (
        enough,
        field,
        from_be_bytes-to_be_bytes 2 _ (flip_top-lt 15 v h),
        flip_top-flip_top 15 v h,
      )

  pub int32_key :
      v < 2 ^ 32
      → decode_int32_key (tag ∷ (to_be_bytes 4 (flip_top 31 v) ++ rest)) ≡ ok (int32 v, 5)
  unfolding decode_int32_key
  int32_key h =
      let (field, enough) =
        field_at 4 tag (to_be_bytes 4 (flip_top 31 v)) rest (length-to_be_bytes 4 _) in
      rw (
        enough,
        field,
        from_be_bytes-to_be_bytes 4 _ (flip_top-lt 31 v h),
        flip_top-flip_top 31 v h,
      )

  pub int64_key :
      v < 2 ^ 64
      → decode_int64_key (tag ∷ (to_be_bytes 8 (flip_top 63 v) ++ rest)) ≡ ok (int64 v, 9)
  unfolding decode_int64_key
  int64_key h =
      let (field, enough) =
        field_at 8 tag (to_be_bytes 8 (flip_top 63 v)) rest (length-to_be_bytes 8 _) in
      rw (
        enough,
        field,
        from_be_bytes-to_be_bytes 8 _ (flip_top-lt 63 v h),
        flip_top-flip_top 63 v h,
      )

  pub float32_key :
      v < 2 ^ 32 → decode_float32_key (tag ∷ (encode_ordered_f32 v ++ rest)) ≡ ok (float32 v, 5)
  unfolding decode_float32_key
  float32_key h =
      let (field, enough) = field_at 4 tag (encode_ordered_f32 v) rest (length-ordered_f32 v) in
      rw (enough, field, decode_ordered_f32-encode_ordered_f32 v h)

  pub float64_key :
      v < 2 ^ 64 → decode_float64_key (tag ∷ (encode_ordered_f64 v ++ rest)) ≡ ok (float64 v, 9)
  unfolding decode_float64_key
  float64_key h =
      let (field, enough) = field_at 8 tag (encode_ordered_f64 v) rest (length-ordered_f64 v) in
      rw (enough, field, decode_ordered_f64-encode_ordered_f64 v h)

module _ (tag : ℕ) (s rest : Bytes) where
  pub bytea_key :
      IsSegment s
      → decode_bytea_key (tag ∷ (push_bytes_segment s ++ rest)) ≡ ok (bytea s, 4 + length s + 1)
  unfolding decode_bytea_key
  bytea_key (fits, _) = rw (read_bytes_segment-push s rest fits)

  pub text_key :
      (make : Bytes → ColumnValue)
      → IsText s
      → decode_text_key make (tag ∷ (push_bytes_segment s ++ rest)) ≡ ok (make s, 4 + length s + 1)
  unfolding decode_text_key
  text_key make (fits, _, valid) = rw (read_bytes_segment-push s rest fits, ◌>>=◌, valid)
