-- ===== src/Storage/Key.antt =====
-- `encode_key_value`, `decode_key_value` and `decode_mysql_int_key_value` of
-- src/storage_layout/olap_stats.rs: the typed key format.
pub mod Fields
pub mod Arms
pub mod Elements
pub mod RoundTrip
pub mod Order
pub mod Text
use uni5db.Base.{
  ℕ, zero, suc, ◌+◌, Bool, true, false, not, [], ◌∷◌, ◌++◌, Option, none, some, ltb, ◌==◌,
  if◌then◌else◌, length, get_elem?, drop, Result, ok, err, user_error, ◌>>=◌, bit_xor, take,
}
use uni5db.Bytes.{Bytes}
use uni5db.Bytes.BigEndian.{to_be_bytes, from_be_bytes}
use uni5db.Bytes.Utf8.{is_utf8}
use uni5db.Types.Value.{
  ColumnValue, Values, null, int16, int32, int64, float32, float64, numeric, text, boolean, date,
  timestamp, timestamp_tz, uuid, bytea, json, jsonb, array, nil, cons, count,
}
use uni5db.Types.DataType.{DataType, MySqlIntKind, tiny, small, medium, int, big}
use uni5db.Storage.Cursor.{slice, push_bytes_segment, read_bytes_segment}
use uni5db.Storage.Ordered.{
  flip_top, encode_ordered_f32, decode_ordered_f32, encode_ordered_f64, decode_ordered_f64,
}

unfoldable mutual
  pub encode_key_value : ColumnValue → Bytes
  encode_key_value null = 0 ∷ []
  encode_key_value (boolean false) = 1 ∷ 0 ∷ []
  encode_key_value (boolean true) = 1 ∷ 1 ∷ []
  encode_key_value (int16 v) = 16 ∷ to_be_bytes 2 (flip_top 15 v)
  encode_key_value (int32 v) = 2 ∷ to_be_bytes 4 (flip_top 31 v)
  encode_key_value (int64 v) = 3 ∷ to_be_bytes 8 (flip_top 63 v)
  encode_key_value (float32 v) = 5 ∷ encode_ordered_f32 v
  encode_key_value (float64 v) = 6 ∷ encode_ordered_f64 v
  encode_key_value (numeric s) = 4 ∷ push_bytes_segment s
  encode_key_value (text s) = 4 ∷ push_bytes_segment s
  encode_key_value (date s) = 4 ∷ push_bytes_segment s
  encode_key_value (timestamp s) = 4 ∷ push_bytes_segment s
  encode_key_value (timestamp_tz s) = 4 ∷ push_bytes_segment s
  encode_key_value (uuid s) = 4 ∷ push_bytes_segment s
  encode_key_value (json s) = 4 ∷ push_bytes_segment s
  encode_key_value (jsonb s) = 4 ∷ push_bytes_segment s
  encode_key_value (bytea s) = 7 ∷ push_bytes_segment s
  encode_key_value (array vs) = 8 ∷ (to_be_bytes 4 (count vs) ++ encode_key_values vs)

  pub encode_key_values : Values → Bytes
  encode_key_values nil = []
  encode_key_values (cons v vs) = push_bytes_segment (encode_key_value v) ++ encode_key_values vs

abbrev pub Decoded : Type 0
Decoded = Result (ColumnValue × ℕ)

-- The arms that name no other condition than the tag: an empty slice, and `(0, _)`.
unfoldable pub with_tag : Bytes → (ℕ → Decoded) → Decoded
with_tag [] arm = err (user_error "XX000" "empty typed key value")
with_tag (tag ∷ _) arm = if tag == 0 then ok (null, 1) else arm tag

abbrev pub mismatch : Decoded
mismatch = err (user_error "XX000" "typed key value does not match column type")

unfoldable pub decode_bool_key : Bytes → Decoded
decode_bool_key bytes = elim (get_elem? bytes 1) [
  | none ↦ err (user_error "XX000" "truncated BOOL key value")
  | some byte ↦ ok (boolean (not (byte == 0)), 2)
]

unfoldable pub decode_int16_key : Bytes → Decoded
decode_int16_key bytes =
    if ltb (length bytes) 3
    then err (user_error "XX000" "truncated INT2 key value")
    else ok (int16 (flip_top 15 (from_be_bytes (slice bytes 1 3))), 3)

unfoldable pub decode_int32_key : Bytes → Decoded
decode_int32_key bytes =
    if ltb (length bytes) 5
    then err (user_error "XX000" "truncated INT4 key value")
    else ok (int32 (flip_top 31 (from_be_bytes (slice bytes 1 5))), 5)

unfoldable pub decode_int64_key : Bytes → Decoded
decode_int64_key bytes =
    if ltb (length bytes) 9
    then err (user_error "XX000" "truncated INT8 key value")
    else ok (int64 (flip_top 63 (from_be_bytes (slice bytes 1 9))), 9)

unfoldable pub decode_float32_key : Bytes → Decoded
decode_float32_key bytes =
    if ltb (length bytes) 5
    then err (user_error "XX000" "truncated FLOAT4 key value")
    else ok (float32 (decode_ordered_f32 (slice bytes 1 5)), 5)

unfoldable pub decode_float64_key : Bytes → Decoded
decode_float64_key bytes =
    if ltb (length bytes) 9
    then err (user_error "XX000" "truncated FLOAT8 key value")
    else ok (float64 (decode_ordered_f64 (slice bytes 1 9)), 9)

-- `String::from_utf8`; the message of the program ends in the position of the error.
abbrev pub from_utf8 : Bytes → Result Bytes
from_utf8 bytes =
    if is_utf8 bytes then ok bytes else err (user_error "XX000" "invalid UTF-8 in v2 key")

unfoldable pub decode_text_key : (Bytes → ColumnValue) → Bytes → Decoded
decode_text_key make bytes = do
  (segment, consumed) ← read_bytes_segment (drop 1 bytes)
  s ← from_utf8 segment
  ok (make s, consumed + 1)

unfoldable pub decode_bytea_key : Bytes → Decoded
decode_bytea_key bytes = do
  (value, consumed) ← read_bytes_segment (drop 1 bytes)
  ok (bytea value, consumed + 1)

-- The loop over the elements of an array key, from `offset` on.
unfoldable pub decode_key_elements : (Bytes → Decoded) → ℕ → Bytes → ℕ → Result (Values × ℕ)
decode_key_elements decode zero bytes offset = ok (nil, offset)
decode_key_elements decode (suc n) bytes offset = do
  (encoded, consumed) ← read_bytes_segment (drop offset bytes)
  (value, value_consumed) ← decode encoded
  if value_consumed == length encoded
      then (do
        (vs, end) ← decode_key_elements decode n bytes (offset + consumed)
        ok (cons value vs, end))
      else err (user_error "XX000" "trailing bytes in ARRAY key element")

unfoldable pub decode_array_key : (Bytes → Decoded) → Bytes → Decoded
decode_array_key decode bytes =
    if ltb (length bytes) 5 then err (user_error "XX000" "truncated ARRAY key value") else do
      (vs, offset) ← decode_key_elements decode (from_be_bytes (slice bytes 1 5)) bytes 5
      ok (array vs, offset)

abbrev pub int_mismatch : Decoded
int_mismatch = err (user_error "XX000" "typed key value does not match MySQL integer type")

-- A guard passes the whole slice on to the decoder of the type that stores it.
unfoldable pub decode_mysql_int_key_value : ℕ → MySqlIntKind → Bool → Bytes → Decoded
decode_mysql_int_key_value tag tiny false bytes =
    if tag == 16 then decode_int16_key bytes else int_mismatch
decode_mysql_int_key_value tag small false bytes =
    if tag == 16 then decode_int16_key bytes else int_mismatch
decode_mysql_int_key_value tag tiny true bytes =
    if tag == 2 then decode_int32_key bytes else int_mismatch
decode_mysql_int_key_value tag small true bytes =
    if tag == 2 then decode_int32_key bytes else int_mismatch
decode_mysql_int_key_value tag medium u bytes =
    if tag == 2 then decode_int32_key bytes else int_mismatch
decode_mysql_int_key_value tag int false bytes =
    if tag == 2 then decode_int32_key bytes else int_mismatch
decode_mysql_int_key_value tag int true bytes =
    if tag == 3 then decode_int64_key bytes else int_mismatch
decode_mysql_int_key_value tag big false bytes =
    if tag == 3 then decode_int64_key bytes else int_mismatch
decode_mysql_int_key_value tag big true bytes =
    if tag == 4 then decode_text_key numeric bytes else int_mismatch

-- The arm that `match (tag, data_type)` takes for a tag that is not 0. `bit` and `year` have none.
unfoldable pub decode_scalar_key : DataType → Bytes → ℕ → Decoded
decode_scalar_key DataType.boolean bytes tag = if tag == 1 then decode_bool_key bytes else mismatch
decode_scalar_key DataType.int16 bytes tag = if tag == 16 then decode_int16_key bytes else mismatch
decode_scalar_key DataType.int32 bytes tag = if tag == 2 then decode_int32_key bytes else mismatch
decode_scalar_key DataType.int64 bytes tag = if tag == 3 then decode_int64_key bytes else mismatch
decode_scalar_key DataType.text bytes tag =
    if tag == 4 then decode_text_key text bytes else mismatch
decode_scalar_key (DataType.mysql_text _ _) bytes tag =
    if tag == 4 then decode_text_key text bytes else mismatch
decode_scalar_key (DataType.var_char _) bytes tag =
    if tag == 4 then decode_text_key text bytes else mismatch
decode_scalar_key (DataType.char _) bytes tag =
    if tag == 4 then decode_text_key text bytes else mismatch
decode_scalar_key DataType.time bytes tag =
    if tag == 4 then decode_text_key text bytes else mismatch
decode_scalar_key DataType.time_tz bytes tag =
    if tag == 4 then decode_text_key text bytes else mismatch
decode_scalar_key DataType.interval bytes tag =
    if tag == 4 then decode_text_key text bytes else mismatch
decode_scalar_key (DataType.mysql_time _) bytes tag =
    if tag == 4 then decode_text_key text bytes else mismatch
decode_scalar_key (DataType.domain _) bytes tag =
    if tag == 4 then decode_text_key text bytes else mismatch
decode_scalar_key (DataType.enum _) bytes tag =
    if tag == 4 then decode_text_key text bytes else mismatch
decode_scalar_key (DataType.set _) bytes tag =
    if tag == 4 then decode_text_key text bytes else mismatch
decode_scalar_key (DataType.geometry _) bytes tag =
    if tag == 4 then decode_text_key text bytes else mismatch
decode_scalar_key (DataType.numeric _ _) bytes tag =
    if tag == 4 then decode_text_key numeric bytes else mismatch
decode_scalar_key DataType.date bytes tag =
    if tag == 4 then decode_text_key date bytes else mismatch
decode_scalar_key DataType.timestamp bytes tag =
    if tag == 4 then decode_text_key timestamp bytes else mismatch
decode_scalar_key (DataType.mysql_date_time _) bytes tag =
    if tag == 4 then decode_text_key timestamp bytes else mismatch
decode_scalar_key (DataType.mysql_timestamp _) bytes tag =
    if tag == 4 then decode_text_key timestamp bytes else mismatch
decode_scalar_key DataType.timestamp_tz bytes tag =
    if tag == 4 then decode_text_key timestamp_tz bytes else mismatch
decode_scalar_key DataType.uuid bytes tag =
    if tag == 4 then decode_text_key uuid bytes else mismatch
decode_scalar_key DataType.json bytes tag =
    if tag == 4 then decode_text_key json bytes else mismatch
decode_scalar_key DataType.jsonb bytes tag =
    if tag == 4 then decode_text_key jsonb bytes else mismatch
decode_scalar_key DataType.float32 bytes tag =
    if tag == 5 then decode_float32_key bytes else mismatch
decode_scalar_key (DataType.mysql_float _) bytes tag =
    if tag == 5 then decode_float32_key bytes else mismatch
decode_scalar_key DataType.float64 bytes tag =
    if tag == 6 then decode_float64_key bytes else mismatch
decode_scalar_key (DataType.mysql_double _) bytes tag =
    if tag == 6 then decode_float64_key bytes else mismatch
decode_scalar_key DataType.bytea bytes tag = if tag == 7 then decode_bytea_key bytes else mismatch
decode_scalar_key (DataType.binary _) bytes tag =
    if tag == 7 then decode_bytea_key bytes else mismatch
decode_scalar_key (DataType.var_binary _) bytes tag =
    if tag == 7 then decode_bytea_key bytes else mismatch
decode_scalar_key (DataType.blob _ _) bytes tag =
    if tag == 7 then decode_bytea_key bytes else mismatch
decode_scalar_key (DataType.mysql_int k u) bytes tag = decode_mysql_int_key_value tag k u bytes
decode_scalar_key _ bytes tag = mismatch

unfoldable pub decode_key_value : DataType → Bytes → Decoded
decode_key_value (DataType.array inner) bytes =
    with_tag bytes
      λ tag. if tag == 8 then decode_array_key (decode_key_value inner) bytes else mismatch
decode_key_value t bytes = with_tag bytes (decode_scalar_key t bytes)
