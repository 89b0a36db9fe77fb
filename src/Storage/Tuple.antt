-- ===== src/Storage/Tuple.antt =====
-- The self-describing value format of src/storage_layout/tuple_codec.rs: a tag byte and a payload.
pub mod RoundTrip
pub mod Fuel
pub mod Skip
use uni5db.Base.{
  ℕ, zero, suc, ◌+◌, ◌-◌, Bool, true, false, not, [], ◌∷◌, ◌++◌, Option, none, some, ◌==◌,
  if◌then◌else◌, length, Result, ok, err, out_of_fuel, user_error, ◌>>=◌,
}
use uni5db.Bytes.{Bytes}
use uni5db.Bytes.BigEndian.{to_be_bytes}
use uni5db.Bytes.Utf8.{is_utf8}
use uni5db.Types.Value.{
  ColumnValue, Values, null, int16, int32, int64, float32, float64, numeric, text, boolean, date,
  timestamp, timestamp_tz, uuid, bytea, json, jsonb, array, nil, cons, count,
}
use uni5db.Storage.Tag.{Tag, tag_of}
use uni5db.Storage.Cursor.{
  Cursor, u8, u32, i16, i32, i64, f32, f64, bytes_segment, push_bytes_segment, skip,
  skip_bytes_segment,
}

abbrev pub bool_byte : Bool → ℕ
bool_byte true = 1
bool_byte false = 0

unfoldable mutual
  pub encode_tuple_value : ColumnValue → Bytes
  encode_tuple_value null = 0 ∷ []
  encode_tuple_value (boolean b) = 1 ∷ bool_byte b ∷ []
  encode_tuple_value (int16 v) = 16 ∷ to_be_bytes 2 v
  encode_tuple_value (int32 v) = 2 ∷ to_be_bytes 4 v
  encode_tuple_value (int64 v) = 3 ∷ to_be_bytes 8 v
  encode_tuple_value (text s) = 4 ∷ push_bytes_segment s
  encode_tuple_value (float32 v) = 5 ∷ to_be_bytes 4 v
  encode_tuple_value (float64 v) = 6 ∷ to_be_bytes 8 v
  encode_tuple_value (bytea s) = 7 ∷ push_bytes_segment s
  encode_tuple_value (array vs) = 8 ∷ (to_be_bytes 4 (count vs) ++ encode_tuple_values vs)
  encode_tuple_value (numeric s) = 9 ∷ push_bytes_segment s
  encode_tuple_value (date s) = 10 ∷ push_bytes_segment s
  encode_tuple_value (timestamp s) = 11 ∷ push_bytes_segment s
  encode_tuple_value (timestamp_tz s) = 12 ∷ push_bytes_segment s
  encode_tuple_value (uuid s) = 13 ∷ push_bytes_segment s
  encode_tuple_value (json s) = 14 ∷ push_bytes_segment s
  encode_tuple_value (jsonb s) = 15 ∷ push_bytes_segment s

  pub encode_tuple_values : Values → Bytes
  encode_tuple_values nil = []
  encode_tuple_values (cons v vs) = encode_tuple_value v ++ encode_tuple_values vs

-- `String::from_utf8`; the message of the program ends in the position of the error.
abbrev pub from_utf8 : Bytes → Result Bytes
from_utf8 bytes =
    if is_utf8 bytes then ok bytes else err (user_error "XX000" "invalid UTF-8 in tuple")

unfoldable pub decode_tuple_string : Cursor → Result (Bytes × Cursor)
decode_tuple_string c = do (bytes, c) ← bytes_segment c; s ← from_utf8 bytes; ok (s, c)

abbrev pub read_as :
    {A : Type 0}
    → (A → ColumnValue)
    → (Cursor → Result (A × Cursor))
    → Cursor
    → Result (ColumnValue × Cursor)
read_as make read c = do (v, c) ← read c; ok (make v, c)

-- The loop over the `count` elements of an array.
unfoldable pub decode_tuple_values :
    (Cursor → Result (ColumnValue × Cursor)) → ℕ → Cursor → Result (Values × Cursor)
decode_tuple_values decode zero c = ok (nil, c)
decode_tuple_values decode (suc n) c = do
  (v, c) ← decode c
  (vs, c) ← decode_tuple_values decode n c
  ok (cons v vs, c)

unfoldable pub decode_payload :
    (Cursor → Result (ColumnValue × Cursor)) → Tag → Cursor → Result (ColumnValue × Cursor)
decode_payload decode Tag.null c = ok (null, c)
decode_payload decode Tag.boolean c = read_as (λ b. boolean (not (b == 0))) u8 c
decode_payload decode Tag.int16 c = read_as int16 i16 c
decode_payload decode Tag.int32 c = read_as int32 i32 c
decode_payload decode Tag.int64 c = read_as int64 i64 c
decode_payload decode Tag.text c = read_as text decode_tuple_string c
decode_payload decode Tag.float32 c = read_as float32 f32 c
decode_payload decode Tag.float64 c = read_as float64 f64 c
decode_payload decode Tag.bytea c = read_as bytea bytes_segment c
decode_payload decode Tag.array c = do
  (n, c) ← u32 c
  read_as array (decode_tuple_values decode n) c
decode_payload decode Tag.numeric c = read_as numeric decode_tuple_string c
decode_payload decode Tag.date c = read_as date decode_tuple_string c
decode_payload decode Tag.timestamp c = read_as timestamp decode_tuple_string c
decode_payload decode Tag.timestamp_tz c = read_as timestamp_tz decode_tuple_string c
decode_payload decode Tag.uuid c = read_as uuid decode_tuple_string c
decode_payload decode Tag.json c = read_as json decode_tuple_string c
decode_payload decode Tag.jsonb c = read_as jsonb decode_tuple_string c

abbrev pub unknown_tag : {A : Type 0} → Result A
unknown_tag = err (user_error "XX000" "unknown tuple value tag")

-- The fuel bounds how deep arrays are nested.
unfoldable pub decode_with_fuel : ℕ → Cursor → Result (ColumnValue × Cursor)
decode_with_fuel zero c = out_of_fuel
decode_with_fuel (suc f) c = do
  (b, c) ← u8 c
  elim (tag_of b) [ none ↦ unknown_tag | some tag ↦ decode_payload (decode_with_fuel f) tag c ]

-- A value takes a byte at least, so the bytes left bound the nesting.
abbrev pub fuel_for : Cursor → ℕ
fuel_for c = suc (length c.bytes - c.pos)

unfoldable pub decode_tuple_value : Cursor → Result (ColumnValue × Cursor)
decode_tuple_value c = decode_with_fuel (fuel_for c) c

unfoldable pub skip_tuple_values : (Cursor → Result Cursor) → ℕ → Cursor → Result Cursor
skip_tuple_values skip_one zero c = ok c
skip_tuple_values skip_one (suc n) c = do c ← skip_one c; skip_tuple_values skip_one n c

unfoldable pub skip_payload : (Cursor → Result Cursor) → Tag → Cursor → Result Cursor
skip_payload skip_one Tag.null c = ok c
skip_payload skip_one Tag.boolean c = skip 1 c
skip_payload skip_one Tag.int16 c = skip 2 c
skip_payload skip_one Tag.int32 c = skip 4 c
skip_payload skip_one Tag.int64 c = skip 8 c
skip_payload skip_one Tag.float32 c = skip 4 c
skip_payload skip_one Tag.float64 c = skip 8 c
skip_payload skip_one Tag.array c = do (n, c) ← u32 c; skip_tuple_values skip_one n c
skip_payload skip_one _ c = skip_bytes_segment c

unfoldable pub skip_with_fuel : ℕ → Cursor → Result Cursor
skip_with_fuel zero c = out_of_fuel
skip_with_fuel (suc f) c = do
  (b, c) ← u8 c
  elim (tag_of b) [ none ↦ unknown_tag | some tag ↦ skip_payload (skip_with_fuel f) tag c ]

unfoldable pub skip_tuple_value : Cursor → Result Cursor
skip_tuple_value c = skip_with_fuel (fuel_for c) c
