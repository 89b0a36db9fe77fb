-- ===== src/Storage/Key/RoundTrip.antt =====
-- What `encode_key_value` wrote for a column's value, `decode_key_value` reads back by the column's
-- type.
use uni5db.Base.{
  ℕ, suc, ◌+◌, ◌≡◌, ◌≢◌, refl, ap, sym, ◌∙◌, true, false, ◌∷◌, ◌++◌, append_assoc, arith, ◌==◌,
  length, ok, inl, inr, ◌⊎◌, not,
}
use uni5db.Bytes.{Bytes}
use uni5db.Bytes.BigEndian.{to_be_bytes, length-to_be_bytes}
use uni5db.Types.Value.{
  ColumnValue, Values, null, int16, int32, int64, float32, float64, numeric, text, boolean, date,
  timestamp, timestamp_tz, uuid, bytea, json, jsonb, array, nil, cons, count, IsText, IsSegment,
  IsValid, AllValid,
}
use uni5db.Types.DataType.{DataType}
use uni5db.Types.Typing.{Kind, stored_kind, HasType, AllHaveType}
use uni5db.Storage.Cursor.{push_bytes_segment}
use uni5db.Storage.Cursor.At.{length-push_bytes_segment}
use uni5db.Storage.Ordered.{length-ordered_f32, length-ordered_f64}
use uni5db.Storage.Key.{
  encode_key_value, encode_key_values, Decoded, with_tag, decode_bool_key, decode_text_key,
  decode_key_elements, decode_array_key, decode_key_value,
}
use uni5db.Storage.Key.Fields.{
  IsKeyed, KeyFits, AllKeyFit, int16_key, int32_key, int64_key, float32_key, float64_key, bytea_key,
  text_key,
}
use uni5db.Storage.Key.Arms.{kind_tag, kind_arm, scalar_reads, null_reads, null_key, ReadsKey}
use uni5db.Storage.Key.Elements.{nil_reads, cons_reads, array_key}

scalar_ends :
    (decode : Bytes → Decoded) (tag : ℕ) (payload : Bytes) (v : ColumnValue) (n : ℕ)
    → ((rest : Bytes) → decode (tag ∷ (payload ++ rest)) ≡ ok (v, suc n))
    → length payload ≡ n
    → (rest : Bytes) → decode ((tag ∷ payload) ++ rest) ≡ ok (v, length (tag ∷ payload))
scalar_ends decode tag payload v n reads h rest = reads rest ∙ ap (λ k. ok (v, suc k)) (sym h)

segment_ends : (s : Bytes) → length (push_bytes_segment s) ≡ length s + 4
segment_ends s = omega (arith, length-push_bytes_segment s)

text_reads :
    (t : DataType) (k : Kind) (make : Bytes → ColumnValue) (s : Bytes)
    → IsKeyed t
    → stored_kind t ≡ k
    → k ≢ Kind.array
    → kind_tag k ≡ 4
    → ((bs : Bytes) → kind_arm k bs ≡ decode_text_key make bs)
    → IsText s
    → (rest : Bytes)
    → decode_key_value t ((4 ∷ push_bytes_segment s) ++ rest)
      ≡ ok (make s, length (4 ∷ push_bytes_segment s))
text_reads t k make s keyed h ne tag arm valid =
    scalar_ends (decode_key_value t) 4 (push_bytes_segment s) (make s) (length s + 4)
      (λ rest.
        (rw tag at (scalar_reads t k (push_bytes_segment s ++ rest) keyed ne h))
        ∙ arm _
        ∙ text_key 4 s rest make valid
        ∙ ap (λ n. ok (make s, n)) (omega arith))
      (segment_ends s)

bytea_reads :
    (t : DataType) (s : Bytes)
    → IsKeyed t
    → stored_kind t ≡ Kind.bytea
    → IsSegment s
    → (rest : Bytes)
    → decode_key_value t ((7 ∷ push_bytes_segment s) ++ rest)
      ≡ ok (bytea s, length (7 ∷ push_bytes_segment s))
bytea_reads t s keyed h valid =
    scalar_ends (decode_key_value t) 7 (push_bytes_segment s) (bytea s) (length s + 4)
      (λ rest.
        scalar_reads t Kind.bytea (push_bytes_segment s ++ rest) keyed (λ e. cc) h
        ∙ bytea_key 7 s rest valid
        ∙ ap (λ n. ok (bytea s, n)) (omega arith))
      (segment_ends s)

bool_key : (b : ℕ) (rest : Bytes) → decode_bool_key (1 ∷ b ∷ rest) ≡ ok (boolean (not (b == 0)), 2)
unfolding decode_bool_key
bool_key b rest = refl

array_arm :
    (t : DataType) (bs : Bytes)
    → decode_key_value (DataType.array t) (8 ∷ bs) ≡ decode_array_key (decode_key_value t) (8 ∷ bs)
unfolding decode_key_value with_tag
array_arm t bs = refl

mutual
  unfolding encode_key_value

  key_reads :
      (v : ColumnValue) (t : DataType)
      → IsValid v
      → KeyFits v
      → IsKeyed t
      → HasType v t
      → ReadsKey (decode_key_value t) v
  key_reads null t h f k ty = λ rest. null_reads t rest
  key_reads (boolean true) t h f k ty =
      λ rest. scalar_reads t Kind.boolean (1 ∷ rest) k (λ e. cc) ty ∙ bool_key 1 rest
  key_reads (boolean false) t h f k ty =
      λ rest. scalar_reads t Kind.boolean (0 ∷ rest) k (λ e. cc) ty ∙ bool_key 0 rest
  key_reads (int16 v) t h f k ty =
      scalar_ends (decode_key_value t) 16 _ (int16 v) 2
        (λ rest. scalar_reads t Kind.int16 _ k (λ e. cc) ty ∙ int16_key 16 v rest h)
        (length-to_be_bytes 2 _)
  key_reads (int32 v) t h f k ty =
      scalar_ends (decode_key_value t) 2 _ (int32 v) 4
        (λ rest. scalar_reads t Kind.int32 _ k (λ e. cc) ty ∙ int32_key 2 v rest h)
        (length-to_be_bytes 4 _)
  key_reads (int64 v) t h f k ty =
      scalar_ends (decode_key_value t) 3 _ (int64 v) 8
        (λ rest. scalar_reads t Kind.int64 _ k (λ e. cc) ty ∙ int64_key 3 v rest h)
        (length-to_be_bytes 8 _)
  key_reads (float32 v) t h f k ty =
      scalar_ends (decode_key_value t) 5 _ (float32 v) 4
        (λ rest. scalar_reads t Kind.float32 _ k (λ e. cc) ty ∙ float32_key 5 v rest h)
        (length-ordered_f32 v)
  key_reads (float64 v) t h f k ty =
      scalar_ends (decode_key_value t) 6 _ (float64 v) 8
        (λ rest. scalar_reads t Kind.float64 _ k (λ e. cc) ty ∙ float64_key 6 v rest h)
        (length-ordered_f64 v)
  key_reads (bytea s) t h f k ty = bytea_reads t s k ty h
  key_reads (numeric s) t h f k ty =
      text_reads t Kind.numeric numeric s k ty (λ e. cc) refl (λ bs. refl) h
  key_reads (text s) t h f k ty = text_reads t Kind.text text s k ty (λ e. cc) refl (λ bs. refl) h
  key_reads (date s) t h f k ty = text_reads t Kind.date date s k ty (λ e. cc) refl (λ bs. refl) h
  key_reads (timestamp s) t h f k ty =
      text_reads t Kind.timestamp timestamp s k ty (λ e. cc) refl (λ bs. refl) h
  key_reads (timestamp_tz s) t h f k ty =
      text_reads t Kind.timestamp_tz timestamp_tz s k ty (λ e. cc) refl (λ bs. refl) h
  key_reads (uuid s) t h f k ty = text_reads t Kind.uuid uuid s k ty (λ e. cc) refl (λ bs. refl) h
  key_reads (json s) t h f k ty = text_reads t Kind.json json s k ty (λ e. cc) refl (λ bs. refl) h
  key_reads (jsonb s) t h f k ty =
      text_reads t Kind.jsonb jsonb s k ty (λ e. cc) refl (λ bs. refl) h
  key_reads (array vs) (DataType.array t) (few, valid) f k ty = λ rest.
      rw (append_assoc (to_be_bytes 4 (count vs)) (encode_key_values vs) rest)
        (array_arm t _ ∙ array_key t vs rest few (λ pre. elements_read vs t valid f k ty pre rest))
  key_reads (array vs) _ h f k ty = absurd ty

  elements_read :
      (vs : Values) (t : DataType)
      → AllValid vs
      → AllKeyFit vs
      → IsKeyed t
      → AllHaveType vs t
      → (pre rest : Bytes)
      → decode_key_elements
          (decode_key_value t)
          (count vs)
          (pre ++ (encode_key_values vs ++ rest))
          (length pre)
        ≡ ok (vs, length (pre ++ encode_key_values vs))
  elements_read nil t h f k ty pre rest = nil_reads (decode_key_value t) pre rest
  elements_read (cons v vs) t (hv, hvs) (fits, fv, fvs) k (ty, tys) pre rest =
      cons_reads (decode_key_value t) v vs pre rest fits
        (elim ty [ inl e ↦ λ more. rw e (null_reads t more) | inr h ↦ key_reads v t hv fv k h ])
        (λ pre'. elements_read vs t hvs fvs k tys pre' rest)

-- The value of a column that was encoded as a key, `Null` or of the column's type, is decoded by the
-- type, with the number of bytes that it took, whatever bytes follow; the column is no BIT and no YEAR.
pub decode_key_value-encode_key_value :
    (v : ColumnValue) (t : DataType) (rest : Bytes)
    → IsValid v
    → KeyFits v
    → IsKeyed t
    → (v ≡ null) ⊎ HasType v t
    → decode_key_value t (encode_key_value v ++ rest) ≡ ok (v, length (encode_key_value v))
decode_key_value-encode_key_value v t rest h f k (inl e) = rw e (null_key t rest)
decode_key_value-encode_key_value v t rest h f k (inr ty) = key_reads v t h f k ty rest
