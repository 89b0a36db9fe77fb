-- ===== src/Storage/Key/Arms.antt =====
-- The arm of `decode_key_value` that reads each kind of value.
use uni5db.Base.{ℕ, ◌≡◌, ◌≢◌, refl, subst, true, false, ◌∷◌, ◌++◌, length, ok}
use uni5db.Bytes.{Bytes}
use uni5db.Types.Value.{
  ColumnValue, null, numeric, text, date, timestamp, timestamp_tz, uuid, json, jsonb,
}
use uni5db.Types.DataType.{DataType, tiny, small, medium, int, big}
use uni5db.Types.Typing.{Kind, stored_kind}
use uni5db.Storage.Key.{
  encode_key_value, Decoded, with_tag, mismatch, decode_bool_key, decode_int16_key,
  decode_int32_key, decode_int64_key, decode_float32_key, decode_float64_key, decode_text_key,
  decode_bytea_key, decode_mysql_int_key_value, decode_scalar_key, decode_key_value,
}
use uni5db.Storage.Key.Fields.{IsKeyed}

-- The arm that each kind of value has, and its tag.
abbrev pub kind_tag : Kind → ℕ
kind_tag Kind.null = 0
kind_tag Kind.boolean = 1
kind_tag Kind.int16 = 16
kind_tag Kind.int32 = 2
kind_tag Kind.int64 = 3
kind_tag Kind.float32 = 5
kind_tag Kind.float64 = 6
kind_tag Kind.bytea = 7
kind_tag Kind.array = 8
kind_tag _ = 4

abbrev pub kind_arm : Kind → Bytes → Decoded
kind_arm Kind.boolean bytes = decode_bool_key bytes
kind_arm Kind.int16 bytes = decode_int16_key bytes
kind_arm Kind.int32 bytes = decode_int32_key bytes
kind_arm Kind.int64 bytes = decode_int64_key bytes
kind_arm Kind.float32 bytes = decode_float32_key bytes
kind_arm Kind.float64 bytes = decode_float64_key bytes
kind_arm Kind.bytea bytes = decode_bytea_key bytes
kind_arm Kind.text bytes = decode_text_key text bytes
kind_arm Kind.numeric bytes = decode_text_key numeric bytes
kind_arm Kind.date bytes = decode_text_key date bytes
kind_arm Kind.timestamp bytes = decode_text_key timestamp bytes
kind_arm Kind.timestamp_tz bytes = decode_text_key timestamp_tz bytes
kind_arm Kind.uuid bytes = decode_text_key uuid bytes
kind_arm Kind.json bytes = decode_text_key json bytes
kind_arm Kind.jsonb bytes = decode_text_key jsonb bytes
kind_arm _ bytes = mismatch

-- The two exceptions of `arm_taken`: no value of one kind stands for a type of these.
abbrev IsScalar : DataType → Type 0
IsScalar (DataType.bit _) = ⊥
IsScalar DataType.year = ⊥
IsScalar (DataType.array t) = ⊥
IsScalar _ = Unit

-- A column type takes the arm of the kind of its values.
arm_taken :
    (t : DataType) (bs : Bytes)
    → IsScalar t
    → decode_key_value t (kind_tag (stored_kind t) ∷ bs)
      ≡ kind_arm (stored_kind t) (kind_tag (stored_kind t) ∷ bs)
unfolding decode_key_value decode_scalar_key with_tag decode_mysql_int_key_value
arm_taken (DataType.bit _) bs h = absurd h
arm_taken DataType.year bs h = absurd h
arm_taken (DataType.array t) bs h = absurd h
arm_taken (DataType.mysql_int tiny false) bs h = refl
arm_taken (DataType.mysql_int tiny true) bs h = refl
arm_taken (DataType.mysql_int small false) bs h = refl
arm_taken (DataType.mysql_int small true) bs h = refl
arm_taken (DataType.mysql_int medium u) bs h = refl
arm_taken (DataType.mysql_int int false) bs h = refl
arm_taken (DataType.mysql_int int true) bs h = refl
arm_taken (DataType.mysql_int big false) bs h = refl
arm_taken (DataType.mysql_int big true) bs h = refl
arm_taken _ bs h = refl

IsKeyed-IsScalar : (t : DataType) → IsKeyed t → stored_kind t ≢ Kind.array → IsScalar t
IsKeyed-IsScalar (DataType.array t) k ne = absurd (ne refl)
IsKeyed-IsScalar _ k ne = k

-- So a value that is no array is decoded by the arm of its own kind.
pub scalar_reads :
    (t : DataType) (k : Kind) (bs : Bytes)
    → IsKeyed t
    → k ≢ Kind.array
    → stored_kind t ≡ k
    → decode_key_value t (kind_tag k ∷ bs) ≡ kind_arm k (kind_tag k ∷ bs)
scalar_reads t k bs keyed ne h =
    subst (λ j. decode_key_value t (kind_tag j ∷ bs) ≡ kind_arm j (kind_tag j ∷ bs)) h
      (arm_taken t bs (IsKeyed-IsScalar t keyed (λ e. ne (rw (← h) e))))

pub null_reads : (t : DataType) (rest : Bytes) → decode_key_value t (0 ∷ rest) ≡ ok (null, 1)
unfolding decode_key_value with_tag
null_reads (DataType.array t) rest = refl
null_reads _ rest = refl

pub null_key :
    (t : DataType) (rest : Bytes)
    → decode_key_value t (encode_key_value null ++ rest) ≡ ok (null, length (encode_key_value null))
unfolding encode_key_value
null_key t rest = null_reads t rest

-- `decode` reads `v` off what `encode_key_value v` spells.
abbrev pub ReadsKey : (Bytes → Decoded) → ColumnValue → Type 0
ReadsKey decode v =
    (rest : Bytes) → decode (encode_key_value v ++ rest) ≡ ok (v, length (encode_key_value v))
