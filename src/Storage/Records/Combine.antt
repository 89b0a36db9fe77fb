-- ===== src/Storage/Records/Combine.antt =====
-- Readers one behind the other read what is written one behind the other: the shape of every record
-- of src/storage_layout.
use uni5db.Base.{
  ℕ, ◌≡◌, List, [], ◌∷◌, ◌++◌, append_assoc, append-nil, Option, none, some, length, All, ==_refl,
  Result, ok, ◌>>=◌, String,
}
use uni5db.Bytes.{Bytes}
use uni5db.Types.Value.{ColumnValue, IsValid}
use uni5db.Storage.Cursor
use uni5db.Storage.Cursor.{Cursor, u8, is_done}
use uni5db.Storage.Cursor.At.{Reads, u8-at}
use uni5db.Storage.Tuple.{encode_tuple_value, decode_tuple_value}
use uni5db.Storage.Tuple.RoundTrip.{decode_tuple_value-encode_tuple_value}
use uni5db.Storage.Keys.{version_byte}
use uni5db.Storage.Records.{
  encode_all, decode_all, encode_bound, decode_bound, tagged_bound, expect_version, finish,
}

module _ {A B : Type 0} where
  pub Reads-then :
      (read : Cursor → Result (A × Cursor)) (next : A → Cursor → Result (B × Cursor))
      (xs ys : Bytes) (a : A) (b : B)
      → Reads read xs a
      → Reads (next a) ys b
      → Reads (λ c. read c >>= λ (a, c). next a c) (xs ++ ys) b
  Reads-then read next xs ys a b first second pre rest = rw (
    append_assoc xs ys rest,
    first pre (ys ++ rest),
    ◌>>=◌,
    second (pre ++ xs) rest,
    append_assoc pre xs ys,
  )

  pub Reads-map :
      (read : Cursor → Result (A × Cursor)) (f : A → B) (xs : Bytes) (a : A)
      → Reads read xs a
      → Reads (λ c. read c >>= λ (a, c). ok (f a, c)) xs (f a)
  Reads-map read f xs a first pre rest = rw (first pre rest, ◌>>=◌)

module _ {A : Type 0} (encode : A → Bytes) (decode : Cursor → Result (A × Cursor)) where
  pub Reads-decode_all :
      (as' : List A)
      → All (λ a. Reads decode (encode a) a) as'
      → Reads (decode_all decode (length as')) (encode_all encode as') as'
  unfolding decode_all encode_all
  Reads-decode_all [] h = λ pre rest. rw append-nil
  Reads-decode_all (a ∷ as') (ha, h) =
      Reads-then decode (λ a c. decode_all decode (length as') c >>= λ (rest, c). ok (a ∷ rest, c))
        (encode a) (encode_all encode as') a (a ∷ as') ha
        (Reads-map (decode_all decode (length as')) (λ rest. a ∷ rest) (encode_all encode as') as'
          (Reads-decode_all as' h))

-- A tag byte in front of what is read next.
pub Reads-u8 : (b : ℕ) → Reads u8 (b ∷ []) b
Reads-u8 b pre rest = u8-at pre b rest

-- A bound is none or a valid value.
abbrev pub ValidBound : Option ColumnValue → Type 0
ValidBound none = Unit
ValidBound (some v) = IsValid v

pub Reads-decode_bound :
    (message : String) (bound : Option ColumnValue)
    → ValidBound bound
    → Reads (decode_bound message) (encode_bound bound) bound
Reads-decode_bound message none h =
    Reads-then u8 (tagged_bound message) (0 ∷ []) [] 0 none (Reads-u8 0) (λ pre rest. rw append-nil)
Reads-decode_bound message (some v) h =
    Reads-then u8 (tagged_bound message) (1 ∷ []) (encode_tuple_value v) 1 (some v) (Reads-u8 1) (
      Reads-map decode_tuple_value (λ v. some v) (encode_tuple_value v) v
        (λ pre rest. decode_tuple_value-encode_tuple_value v pre rest h))

pub Reads-expect_version :
    (message : String) → Reads (expect_version message) (version_byte ∷ []) tt
Reads-expect_version message pre rest = rw (u8-at pre version_byte rest, ◌>>=◌)

-- A whole record is read to its end.
pub Reads-finish :
    {A : Type 0} (read : Cursor → Result (A × Cursor)) (message : String) (bytes : Bytes) (a : A)
    → Reads read bytes a
    → (read (Cursor.new bytes) >>= finish message) ≡ ok a
unfolding Cursor.new is_done
Reads-finish read message bytes a h =
    let whole = rw append-nil at (h [] []) in rw whole (rw (==_refl (length bytes)))
