-- ===== src/Storage/Key/Elements.antt =====
-- The loop of `decode_key_value` over the elements of an array.
use uni5db.Base.{
  ℕ, suc, ◌+◌, ◌<◌, ◌^◌, ◌≡◌, ◌∙◌, subst, [], ◌∷◌, ◌++◌, append_assoc, append-nil, arith, ==_refl,
  length, length-append, drop_append_length, ok, ◌>>=◌,
}
use uni5db.Bytes.{Bytes}
use uni5db.Bytes.BigEndian.{to_be_bytes, from_be_bytes-to_be_bytes, length-to_be_bytes}
use uni5db.Types.Value.{ColumnValue, Values, array, nil, cons, count}
use uni5db.Types.DataType.{DataType}
use uni5db.Storage.Cursor.{push_bytes_segment}
use uni5db.Storage.Cursor.At.{read_bytes_segment-push, length-push_bytes_segment}
use uni5db.Storage.Key.{
  encode_key_value, encode_key_values, Decoded, decode_key_elements, decode_array_key,
  decode_key_value,
}
use uni5db.Storage.Key.Fields.{field_at}
use uni5db.Storage.Key.Arms.{ReadsKey}

-- One round of the loop over the elements.
element_reads :
    (decode : Bytes → Decoded) (v : ColumnValue) (n : ℕ) (pre more : Bytes)
    → length (encode_key_value v) < 2 ^ 32
    → ReadsKey decode v
    → decode_key_elements decode
        (suc n)
        (pre ++ (push_bytes_segment (encode_key_value v) ++ more))
        (length pre)
      ≡ (do
        (vs, end) ←
            decode_key_elements decode n
              ((pre ++ push_bytes_segment (encode_key_value v)) ++ more)
              (length (pre ++ push_bytes_segment (encode_key_value v)))
        ok (cons v vs, end))
unfolding decode_key_elements
element_reads decode v n pre more fits reads =
    let seg : Bytes = push_bytes_segment (encode_key_value v) in
    let whole = rw append-nil at (reads []) in
    let moved : length (pre ++ seg) ≡ length pre + (4 + length (encode_key_value v)) =
      omega (arith, length-append pre seg, length-push_bytes_segment (encode_key_value v)) in
    rw
      (
        drop_append_length pre (seg ++ more),
        read_bytes_segment-push (encode_key_value v) more fits,
        ◌>>=◌,
        decode_key_elements,
      )
      (rw (whole, ◌>>=◌, ==_refl (length (encode_key_value v)), moved, append_assoc pre seg more))

pub nil_reads :
    (decode : Bytes → Decoded) (pre rest : Bytes)
    → decode_key_elements decode 0 (pre ++ rest) (length pre) ≡ ok (nil, length (pre ++ []))
unfolding decode_key_elements
nil_reads decode pre rest = rw append-nil

pub cons_reads :
    (decode : Bytes → Decoded) (v : ColumnValue) (vs : Values) (pre rest : Bytes)
    → length (encode_key_value v) < 2 ^ 32
    → ReadsKey decode v
    → ((pre : Bytes)
        → decode_key_elements decode (count vs) (pre ++ (encode_key_values vs ++ rest)) (length pre)
          ≡ ok (vs, length (pre ++ encode_key_values vs)))
    → decode_key_elements decode
        (suc (count vs))
        (pre ++ ((push_bytes_segment (encode_key_value v) ++ encode_key_values vs) ++ rest))
        (length pre)
      ≡ ok (
        cons v vs,
        length (pre ++ (push_bytes_segment (encode_key_value v) ++ encode_key_values vs)),
      )
cons_reads decode v vs pre rest fits first others =
    let seg : Bytes = push_bytes_segment (encode_key_value v) in
    rw (append_assoc seg (encode_key_values vs) rest) (
      element_reads decode v (count vs) pre (encode_key_values vs ++ rest) fits first
      ∙ (rw (others (pre ++ seg), ◌>>=◌, append_assoc pre seg (encode_key_values vs))))

pub array_key :
    (t : DataType) (vs : Values) (rest : Bytes)
    → count vs < 2 ^ 32
    → ((pre : Bytes)
        → decode_key_elements
            (decode_key_value t)
            (count vs)
            (pre ++ (encode_key_values vs ++ rest))
            (length pre)
          ≡ ok (vs, length (pre ++ encode_key_values vs)))
    → decode_array_key
        (decode_key_value t)
        (8 ∷ (to_be_bytes 4 (count vs) ++ (encode_key_values vs ++ rest)))
      ≡ ok (array vs, length (8 ∷ (to_be_bytes 4 (count vs) ++ encode_key_values vs)))
unfolding decode_array_key
array_key t vs rest fits elements =
    let header : Bytes = to_be_bytes 4 (count vs) in
    let wide : length header ≡ 4 = length-to_be_bytes 4 (count vs) in
    let (field, enough) = field_at 4 8 header (encode_key_values vs ++ rest) wide in
    let loop =
      subst
        (λ n.
          decode_key_elements (decode_key_value t) (count vs)
            (8 ∷ (header ++ (encode_key_values vs ++ rest))) (suc n)
          ≡ ok (vs, length (8 ∷ (header ++ encode_key_values vs))))
        wide (elements (8 ∷ header)) in
    rw (enough, field, from_be_bytes-to_be_bytes 4 (count vs) fits) (rw (loop, ◌>>=◌))
