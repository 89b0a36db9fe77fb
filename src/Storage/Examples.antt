-- ===== src/Storage/Examples.antt =====
-- Concrete values, keys and ranges of src/storage_layout, and what the theorems say of them.
use uni5db.Base.{◌≡◌, ◌≢◌, refl, true, [], ◌∷◌, ◌++◌, arith, length, ok, out_of_fuel, inl, inr}
use uni5db.Bytes.{Bytes, bytes_lt}
use uni5db.Bytes.BigEndian.{to_be_bytes}
use uni5db.Bytes.Utf8.{is_utf8}
use uni5db.Types.Value.{ColumnValue, null, int32, text, array, nil, cons, IsValid, IsText}
use uni5db.Types.DataType.{DataType}
use uni5db.Storage.Cursor.{push_bytes_segment}
use uni5db.Storage.Cursor.At.{at}
use uni5db.Storage.Tuple.{encode_tuple_value, decode_tuple_value, skip_tuple_value}
use uni5db.Storage.Tuple.RoundTrip.{decode_tuple_value-encode_tuple_value}
use uni5db.Storage.Tuple.Fuel.{decode_tuple_value-ne-out_of_fuel}
use uni5db.Storage.Tuple.Skip.{skip_tuple_value-decode_tuple_value}
use uni5db.Storage.Key.{encode_key_value, decode_key_value}
use uni5db.Storage.Key.RoundTrip.{decode_key_value-encode_key_value}
use uni5db.Storage.Key.Text.{bytes_lt-encode_key_value-text}
use uni5db.Storage.Keys.{row_key, decode_pk_from_row_key}
use uni5db.Storage.Keys.Decode.{IsKeyOf, decode_pk_from_row_key-row_key}

abbrev word : Bytes
word = b'k' ∷ b'e' ∷ b'y' ∷ []

word-IsText : IsText word
unfolding is_utf8
word-IsText = (omega arith, (omega arith, (omega arith, (omega arith, tt))), refl)

-- `ARRAY['key', NULL]`
abbrev words : ColumnValue
words = array (cons (text word) (cons null nil))

words-IsValid : IsValid words
words-IsValid = (omega arith, (word-IsText, (tt, tt)))

decode_tuple_value-encode_tuple_value_example :
    decode_tuple_value (at (9 ∷ []) (encode_tuple_value words ++ 7 ∷ []))
    ≡ ok (words, at (9 ∷ encode_tuple_value words) (7 ∷ []))
decode_tuple_value-encode_tuple_value_example =
    decode_tuple_value-encode_tuple_value words (9 ∷ []) (7 ∷ []) words-IsValid

decode_tuple_value-ne-out_of_fuel_example : decode_tuple_value (at [] (7 ∷ 255 ∷ [])) ≢ out_of_fuel
decode_tuple_value-ne-out_of_fuel_example = decode_tuple_value-ne-out_of_fuel (at [] (7 ∷ 255 ∷ []))

skip_tuple_value-decode_tuple_value_example :
    skip_tuple_value (at [] (encode_tuple_value words ++ 7 ∷ []))
    ≡ ok (at (encode_tuple_value words) (7 ∷ []))
skip_tuple_value-decode_tuple_value_example =
    skip_tuple_value-decode_tuple_value (at [] (encode_tuple_value words ++ 7 ∷ [])) words
      (at (encode_tuple_value words) (7 ∷ []))
      (decode_tuple_value-encode_tuple_value words [] (7 ∷ []) words-IsValid)

decode_key_value-encode_key_value_example :
    decode_key_value (DataType.array DataType.text) (encode_key_value words ++ 5 ∷ [])
    ≡ ok (words, length (encode_key_value words))
unfolding encode_key_value push_bytes_segment to_be_bytes
decode_key_value-encode_key_value_example =
    decode_key_value-encode_key_value words (DataType.array DataType.text) (5 ∷ []) words-IsValid
      (omega arith, tt, (omega arith, tt, tt)) tt (inr (inr refl, (inl refl, tt)))

five-IsKeyOf : IsKeyOf DataType.int32 (int32 5)
five-IsKeyOf = record { valid = omega arith; fits = tt; keyed = tt; typed = inr refl }

decode_pk_from_row_key-row_key_example :
    decode_pk_from_row_key (row_key 3 1 (int32 5)) 3 1 DataType.int32 ≡ ok (int32 5)
decode_pk_from_row_key-row_key_example =
    decode_pk_from_row_key-row_key DataType.int32 (int32 5) five-IsKeyOf 3 1

-- The key of 'b' is below the key of 'aa'.
bytes_lt-encode_key_value-text_example :
    bytes_lt
      (encode_key_value (text (b'b' ∷ [])) ++ [])
      (encode_key_value (text (b'a' ∷ b'a' ∷ [])) ++ [])
    ≡ true
bytes_lt-encode_key_value-text_example =
    bytes_lt-encode_key_value-text (b'b' ∷ []) (b'a' ∷ b'a' ∷ []) [] [] (omega arith) (omega arith)
