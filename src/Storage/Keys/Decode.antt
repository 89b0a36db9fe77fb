-- ===== src/Storage/Keys/Decode.antt =====
-- The primary key that a row, version or index key was built from is read back.
use uni5db.Base.{
  ℕ, ◌+◌, ◌-◌, ◌<◌, ◌^◌, ◌≡◌, ◌∙◌, true, [], ◌++◌, append-nil, append_assoc, arith, ltb, ◌==◌,
  if◌then◌else◌, ==_refl, length, length-append, take, take_append, drop_append_length, Result, ok,
  ◌>>=◌, ◌⊎◌,
}
use uni5db.Bytes.{Bytes, bytes_lt}
use uni5db.Bytes.Order.{strip_prefix-append, bytes_lt_prefix}
use uni5db.Bytes.BigEndian.{
  to_be_bytes, from_be_bytes, from_be_bytes-to_be_bytes, length-to_be_bytes, bytes_lt-to_be_bytes,
}
use uni5db.Types.Value.{ColumnValue, null, IsValid}
use uni5db.Types.DataType.{DataType}
use uni5db.Types.Typing.{HasType}
use uni5db.Storage.Cursor.{slice}
use uni5db.Storage.Key.{encode_key_value, decode_key_value}
use uni5db.Storage.Key.Fields.{IsKeyed, KeyFits}
use uni5db.Storage.Key.RoundTrip.{decode_key_value-encode_key_value}
use uni5db.Storage.Keys.{
  row_prefix, row_key, row_version_prefix, row_version_key, decode_pk_from_row_version_key,
  decode_pk_from_row_key, index_prefix, index_entry_key, decode_pk_from_index_entry_key,
  desc_version_max, table_key,
}

-- A value that a column of the type holds and that its keys can spell.
pub record IsKeyOf (t : DataType) (v : ColumnValue) : Type 0 where
  pub valid : IsValid v
  pub fits : KeyFits v
  pub keyed : IsKeyed t
  pub typed : (v ≡ null) ⊎ HasType v t

-- The checks and the last field of a version key, behind the value.
version_tail :
    {A : Type 0} {a : A} (malformed : Result (A × ℕ)) (key : Bytes) (version : ℕ)
    → version < 2 ^ 64
    → (let suffix : Bytes = key ++ to_be_bytes 8 (desc_version_max - version) in
        if length suffix == length key + 8
        then ok (a, desc_version_max - from_be_bytes (slice suffix (length key) (length key + 8)))
        else malformed)
      ≡ ok (a, version)
version_tail malformed key version h =
    let tail : Bytes = to_be_bytes 8 (desc_version_max - version) in
    let wide : length tail ≡ 8 = length-to_be_bytes 8 (desc_version_max - version) in
    let at_end : length (key ++ tail) == length key + 8 ≡ true =
      ground (arith, length-append key tail, wide) in
    let width : length key + 8 - length key ≡ 8 = omega arith in
    let field : take 8 tail ≡ tail = (rw append-nil at (take_append 8 tail [] wide)) in
    let undo : desc_version_max - (desc_version_max - version) ≡ version = omega arith in
    rw (
      at_end,
      width,
      drop_append_length key tail,
      field,
      from_be_bytes-to_be_bytes 8 (desc_version_max - version) (omega arith),
      undo,
    )

module _ (t : DataType) (v : ColumnValue) (k : IsKeyOf t v) where
  reads :
      (rest : Bytes)
      → decode_key_value t (encode_key_value v ++ rest) ≡ ok (v, length (encode_key_value v))
  reads rest = decode_key_value-encode_key_value v t rest k.valid k.fits k.keyed k.typed

  reads_all : decode_key_value t (encode_key_value v) ≡ ok (v, length (encode_key_value v))
  reads_all = rw append-nil at (reads [])

  -- The primary key that a row key was built from is read back from it, if it is a value of the
  -- column's type that keys can spell.
  pub decode_pk_from_row_key-row_key :
      (table_id table_epoch : ℕ)
      → decode_pk_from_row_key (row_key table_id table_epoch v) table_id table_epoch t ≡ ok v
  unfolding decode_pk_from_row_key row_key
  decode_pk_from_row_key-row_key table_id table_epoch =
      rw (strip_prefix-append (row_prefix table_id table_epoch) (encode_key_value v), ◌>>=◌)
        (rw (reads_all, ◌>>=◌, ==_refl (length (encode_key_value v))))

  -- The primary key that an index entry was built from is read back from it, whatever the indexed
  -- value, if it is a value of the column's type that keys can spell.
  pub decode_pk_from_index_entry_key-index_entry_key :
      (index_id : ℕ) (index_value : ColumnValue)
      → decode_pk_from_index_entry_key
          (index_entry_key index_id index_value v)
          index_id
          index_value
          t
        ≡ ok v
  unfolding decode_pk_from_index_entry_key index_entry_key
  decode_pk_from_index_entry_key-index_entry_key index_id index_value =
      rw (strip_prefix-append (index_prefix index_id index_value) (encode_key_value v), ◌>>=◌)
        (rw (reads_all, ◌>>=◌, ==_refl (length (encode_key_value v))))

  -- The primary key and the 64-bit version that a version key was built from are read back from it,
  -- if the primary key is a value of the column's type that keys can spell.
  pub decode_pk_from_row_version_key-row_version_key :
      (table_id table_epoch version : ℕ)
      → version < 2 ^ 64
      → decode_pk_from_row_version_key
          (row_version_key table_id table_epoch v version)
          table_id
          table_epoch
          t
        ≡ ok (v, version)
  unfolding decode_pk_from_row_version_key row_version_key row_version_prefix
  decode_pk_from_row_version_key-row_version_key table_id table_epoch version h =
      let key : Bytes = encode_key_value v in
      let tail : Bytes = to_be_bytes 8 (desc_version_max - version) in
      let wide : length tail ≡ 8 = length-to_be_bytes 8 (desc_version_max - version) in
      rw (append_assoc (table_key b'v' table_id table_epoch) key tail) (
        rw (strip_prefix-append (table_key b'v' table_id table_epoch) (key ++ tail), ◌>>=◌)
          (rw (reads tail, ◌>>=◌) (version_tail _ key version h)))

-- The keys of two 64-bit versions of one row are in the order from the newer to the older.
pub bytes_lt-row_version_key :
    (table_id table_epoch : ℕ) (v : ColumnValue) (m n : ℕ)
    → m < 2 ^ 64
    → n < 2 ^ 64
    → bytes_lt (row_version_key table_id table_epoch v m) (row_version_key table_id table_epoch v n)
      ≡ ltb n m
unfolding row_version_key
bytes_lt-row_version_key table_id table_epoch v m n hm hn =
    bytes_lt_prefix (row_version_prefix table_id table_epoch v) _ _
    ∙ bytes_lt-to_be_bytes 8 (desc_version_max - m) (desc_version_max - n) (omega arith)
        (omega arith)
    ∙ ground arith
