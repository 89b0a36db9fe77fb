-- ===== src/Storage/Tuple/RoundTrip.antt =====
-- What `encode_tuple_value` wrote, `decode_tuple_value` reads back.
use uni5db.Base.{
  ℕ, zero, suc, ◌<◌, ◌≤◌, ◌^◌, ◌≡◌, refl, ap, ◌∙◌, true, false, not, [], ◌∷◌, ◌++◌, append_assoc,
  append-nil, arith, ◌==◌, length, length-append, Result, ok, ◌>>=◌,
}
use uni5db.Bytes.{Bytes}
use uni5db.Bytes.BigEndian.{to_be_bytes, length-to_be_bytes}
use uni5db.Types.Value.{
  ColumnValue, Values, null, int16, int32, int64, float32, float64, numeric, text, boolean, date,
  timestamp, timestamp_tz, uuid, bytea, json, jsonb, array, nil, cons, count, IsText, IsValid,
  AllValid, depth, depth_values,
}
use uni5db.Storage.Tag.{Tag, tag_byte, tag_of-tag_byte}
use uni5db.Storage.Cursor.{Cursor, u8, i16, i32, i64, f32, f64, bytes_segment, push_bytes_segment}
use uni5db.Storage.Cursor.At.{
  Reads, at, u8-at, u32-at, i16-at, i32-at, i64-at, f32-at, f64-at, bytes_segment-at,
}
use uni5db.Storage.Tuple.{
  encode_tuple_value, encode_tuple_values, decode_tuple_string, read_as, decode_tuple_values,
  decode_payload, decode_with_fuel, decode_tuple_value,
}

-- The tag byte leads to the arm of its tag.
decode_tagged :
    (f : ℕ) (t : Tag) (pre payload : Bytes)
    → decode_with_fuel (suc f) (at pre (tag_byte t ∷ payload))
      ≡ decode_payload (decode_with_fuel f) t (at (pre ++ tag_byte t ∷ []) payload)
unfolding decode_with_fuel
decode_tagged f t pre payload =
    rw (u8-at pre (tag_byte t) payload, tag_of-tag_byte t, ◌>>=◌, decode_with_fuel)

-- A tagged value is read if its payload is.
tagged :
    (f : ℕ) (t : Tag) (payload : Bytes) (v : ColumnValue)
    → Reads (decode_payload (decode_with_fuel f) t) payload v
    → Reads (decode_with_fuel (suc f)) (tag_byte t ∷ payload) v
tagged f t payload v reads pre rest =
    decode_tagged f t pre (payload ++ rest)
    ∙ reads (pre ++ tag_byte t ∷ []) rest
    ∙ ap (λ b. ok (v, at b rest)) (append_assoc pre (tag_byte t ∷ []) payload)

as_read :
    {A : Type 0} (make : A → ColumnValue) (read : Cursor → Result (A × Cursor)) (bytes : Bytes)
    (a : A)
    → Reads read bytes a
    → Reads (read_as make read) bytes (make a)
as_read make read bytes a h pre rest = rw (h pre rest)

string-Reads : (s : Bytes) → IsText s → Reads decode_tuple_string (push_bytes_segment s) s
unfolding decode_tuple_string
string-Reads s (fits, _, valid) pre rest =
    rw (bytes_segment-at pre s rest fits, decode_tuple_string, ◌>>=◌, valid)

text-Reads :
    (f : ℕ) (make : Bytes → ColumnValue) (t : Tag) (s : Bytes)
    → ((c : Cursor) → decode_payload (decode_with_fuel f) t c ≡ read_as make decode_tuple_string c)
    → IsText s
    → Reads (decode_with_fuel (suc f)) (tag_byte t ∷ push_bytes_segment s) (make s)
text-Reads f make t s arm h = tagged f t (push_bytes_segment s) (make s) λ pre rest.
    arm _ ∙ as_read make decode_tuple_string (push_bytes_segment s) s (string-Reads s h) pre rest

-- A length, and as many elements.
array-Reads :
    (f : ℕ) (vs : Values)
    → count vs < 2 ^ 32
    → Reads (decode_tuple_values (decode_with_fuel f) (count vs)) (encode_tuple_values vs) vs
    → Reads
        (decode_payload (decode_with_fuel f) Tag.array)
        (to_be_bytes 4 (count vs) ++ encode_tuple_values vs)
        (array vs)
unfolding decode_payload
array-Reads f vs fits reads pre rest =
    rw (append_assoc (to_be_bytes 4 (count vs)) (encode_tuple_values vs) rest) (
      rw (u32-at pre (count vs) (encode_tuple_values vs ++ rest) fits, ◌>>=◌)
        (rw (reads (pre ++ to_be_bytes 4 (count vs)) rest) (
          ap (λ b. ok (array vs, at b rest))
            (append_assoc pre (to_be_bytes 4 (count vs)) (encode_tuple_values vs)))))

cons-Reads :
    (decode : Cursor → Result (ColumnValue × Cursor)) (v : ColumnValue) (vs : Values)
    → Reads decode (encode_tuple_value v) v
    → Reads (decode_tuple_values decode (count vs)) (encode_tuple_values vs) vs
    → Reads
        (decode_tuple_values decode (suc (count vs)))
        (encode_tuple_value v ++ encode_tuple_values vs)
        (cons v vs)
unfolding decode_tuple_values
cons-Reads decode v vs first others pre rest =
    rw (append_assoc (encode_tuple_value v) (encode_tuple_values vs) rest) (
      rw (first pre (encode_tuple_values vs ++ rest), ◌>>=◌)
        (rw (others (pre ++ encode_tuple_value v) rest) (
          ap (λ b. ok (cons v vs, at b rest))
            (append_assoc pre (encode_tuple_value v) (encode_tuple_values vs)))))

mutual
  unfolding encode_tuple_value decode_payload decode_tuple_values

  value-Reads :
      (v : ColumnValue) (f : ℕ)
      → IsValid v
      → depth v ≤ f
      → Reads (decode_with_fuel (suc f)) (encode_tuple_value v) v
  value-Reads null f h d = tagged f Tag.null [] null (λ pre rest. rw append-nil)
  value-Reads (boolean true) f h d =
      tagged f Tag.boolean (1 ∷ []) (boolean true)
        (as_read (λ b. boolean (not (b == 0))) u8 (1 ∷ []) 1 (λ pre rest. u8-at pre 1 rest))
  value-Reads (boolean false) f h d =
      tagged f Tag.boolean (0 ∷ []) (boolean false)
        (as_read (λ b. boolean (not (b == 0))) u8 (0 ∷ []) 0 (λ pre rest. u8-at pre 0 rest))
  value-Reads (int16 v) f h d =
      tagged f Tag.int16 _ _
        (as_read int16 i16 (to_be_bytes 2 v) v (λ pre rest. i16-at pre v rest h))
  value-Reads (int32 v) f h d =
      tagged f Tag.int32 _ _
        (as_read int32 i32 (to_be_bytes 4 v) v (λ pre rest. i32-at pre v rest h))
  value-Reads (int64 v) f h d =
      tagged f Tag.int64 _ _
        (as_read int64 i64 (to_be_bytes 8 v) v (λ pre rest. i64-at pre v rest h))
  value-Reads (float32 v) f h d =
      tagged f Tag.float32 _ _
        (as_read float32 f32 (to_be_bytes 4 v) v (λ pre rest. f32-at pre v rest h))
  value-Reads (float64 v) f h d =
      tagged f Tag.float64 _ _
        (as_read float64 f64 (to_be_bytes 8 v) v (λ pre rest. f64-at pre v rest h))
  value-Reads (bytea s) f h d = tagged f Tag.bytea _ _ (
      as_read bytea bytes_segment (push_bytes_segment s) s
        (λ pre rest. bytes_segment-at pre s rest h.0))
  value-Reads (text s) f h d = text-Reads f text Tag.text s (λ c. refl) h
  value-Reads (numeric s) f h d = text-Reads f numeric Tag.numeric s (λ c. refl) h
  value-Reads (date s) f h d = text-Reads f date Tag.date s (λ c. refl) h
  value-Reads (timestamp s) f h d = text-Reads f timestamp Tag.timestamp s (λ c. refl) h
  value-Reads (timestamp_tz s) f h d = text-Reads f timestamp_tz Tag.timestamp_tz s (λ c. refl) h
  value-Reads (uuid s) f h d = text-Reads f uuid Tag.uuid s (λ c. refl) h
  value-Reads (json s) f h d = text-Reads f json Tag.json s (λ c. refl) h
  value-Reads (jsonb s) f h d = text-Reads f jsonb Tag.jsonb s (λ c. refl) h
  value-Reads (array vs) zero h d = absurd (omega arith)
  value-Reads (array vs) (suc g) (fits, valid) d =
      tagged (suc g) Tag.array _ _
        (array-Reads (suc g) vs fits (values_read vs g valid (omega arith)))

  values_read :
      (vs : Values) (f : ℕ)
      → AllValid vs
      → depth_values vs ≤ f
      → Reads
          (decode_tuple_values (decode_with_fuel (suc f)) (count vs))
          (encode_tuple_values vs)
          vs
  values_read nil f h d = λ pre rest. rw append-nil
  values_read (cons v vs) f (hv, hvs) d =
      cons-Reads (decode_with_fuel (suc f)) v vs (value-Reads v f hv (omega arith))
        (values_read vs f hvs (omega arith))

mutual
  unfolding encode_tuple_value push_bytes_segment

  depth-lt-length : (v : ColumnValue) → depth v < length (encode_tuple_value v)
  depth-lt-length (array vs) = omega (
    arith,
    depth_values-le-length vs,
    length-append (to_be_bytes 4 (count vs)) (encode_tuple_values vs),
    length-to_be_bytes 4 (count vs),
  )
  depth-lt-length _ = omega arith

  depth_values-le-length : (vs : Values) → depth_values vs ≤ length (encode_tuple_values vs)
  depth_values-le-length nil = omega arith
  depth_values-le-length (cons v vs) = omega (
    arith,
    depth-lt-length v,
    depth_values-le-length vs,
    length-append (encode_tuple_value v) (encode_tuple_values vs),
  )

-- A valid value that was encoded at some place of a buffer is decoded there, and the cursor stands
-- behind its bytes, whatever stands before and after them.
pub decode_tuple_value-encode_tuple_value :
    (v : ColumnValue) (pre rest : Bytes)
    → IsValid v
    → decode_tuple_value (at pre (encode_tuple_value v ++ rest))
      ≡ ok (v, at (pre ++ encode_tuple_value v) rest)
unfolding decode_tuple_value
decode_tuple_value-encode_tuple_value v pre rest h =
    value-Reads v _ h
      (omega (
        arith,
        depth-lt-length v,
        length-append pre (encode_tuple_value v ++ rest),
        length-append (encode_tuple_value v) rest,
      ))
      pre rest
