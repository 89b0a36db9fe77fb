-- ===== src/Storage/Keys/Scan.antt =====
-- What the ranges of src/storage_layout/keys.rs hold.
use uni5db.Base.{
  ℕ, ◌<◌, ◌^◌, ◌≡◌, refl, sym, ◌∙◌, Bool, true, false, ◌&&◌, not, [], ◌∷◌, ◌++◌, Option, none, some,
  arith, ◌==◌, length, All,
}
use uni5db.Bytes.{Bytes, IsByte, bytes_eq, starts_with}
use uni5db.Bytes.BigEndian.{to_be_bytes, length-to_be_bytes, bytes_eq-to_be_bytes}
use uni5db.Types.Value.{ColumnValue, IsValid}
use uni5db.Storage.Prefix.{in_range, in_range-next_prefix}
use uni5db.Storage.Key.{encode_key_value}
use uni5db.Storage.Key.Order.{AreNumbers, number_lt}
use uni5db.Storage.Keys.{RangeScan, row_prefix, row_key, row_range, Bound}

abbrev pub holds : RangeScan → Bytes → Bool
holds r key = in_range r.start r.end key

-- Among keys of bytes, the range of a table's rows holds exactly those that start with the prefix of
-- its row keys.
pub row_range-starts_with :
    (table_id table_epoch : ℕ) (limit : Option ℕ) (key : Bytes)
    → All IsByte key
    → holds (row_range table_id table_epoch limit) key
      ≡ starts_with key (row_prefix table_id table_epoch)
unfolding row_range
row_range-starts_with table_id table_epoch limit key h =
    in_range-next_prefix (row_prefix table_id table_epoch) key h

starts_with-fields :
    (a b x y r : Bytes)
    → length a ≡ length x
    → length b ≡ length y
    → starts_with ((a ++ b) ++ r) (x ++ y) ≡ (bytes_eq a x && bytes_eq b y)
unfolding starts_with bytes_eq
starts_with-fields [] [] [] [] r p q = ground arith
starts_with-fields [] [] [] (y ∷ ys) r p q = absurd (omega arith)
starts_with-fields [] (b ∷ bs) [] [] r p q = absurd (omega arith)
starts_with-fields [] (b ∷ bs) [] (y ∷ ys) r p q =
    ground (arith, starts_with-fields [] bs [] ys r refl (omega arith))
starts_with-fields [] b (x ∷ xs) y r p q = absurd (omega arith)
starts_with-fields (a ∷ as') b [] y r p q = absurd (omega arith)
starts_with-fields (a ∷ as') b (x ∷ xs) y r p q =
    ground (arith, starts_with-fields as' b xs y r (omega arith) q)

-- A row key starts with the row prefix of a table exactly when it is a key of that table and epoch;
-- the table ids fit 32 bits and the epochs 64.
pub starts_with-row_key :
    (t e t' e' : ℕ) (pk : ColumnValue)
    → t < 2 ^ 32
    → e < 2 ^ 64
    → t' < 2 ^ 32
    → e' < 2 ^ 64
    → starts_with (row_key t' e' pk) (row_prefix t e) ≡ (t' == t && e' == e)
unfolding row_key row_prefix starts_with
starts_with-row_key t e t' e' pk ht he ht' he' = rw (
  starts_with-fields (to_be_bytes 4 t') (to_be_bytes 8 e') (to_be_bytes 4 t) (to_be_bytes 8 e)
      (encode_key_value pk) (length-to_be_bytes 4 t' ∙ sym (length-to_be_bytes 4 t))
      (length-to_be_bytes 8 e' ∙ sym (length-to_be_bytes 8 e)),
  bytes_eq-to_be_bytes 4 t' t ht' ht,
  bytes_eq-to_be_bytes 8 e' e he' he,
)

-- Whether a value lies above a lower or below an upper bound.
abbrev pub above : Bound → ColumnValue → Bool
above none v = true
above (some (low, true)) v = not (number_lt v low)
above (some (low, false)) v = number_lt low v

abbrev pub below : Bound → ColumnValue → Bool
below none v = true
below (some (high, true)) v = not (number_lt high v)
below (some (high, false)) v = number_lt v high

-- The bounds are numbers of the type of `v`.
abbrev pub Bounds : Bound → ColumnValue → Type 0
Bounds none v = Unit
Bounds (some (b, _)) v = IsValid b × AreNumbers b v × AreNumbers v b
