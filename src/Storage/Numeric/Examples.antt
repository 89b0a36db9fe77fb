-- ===== src/Storage/Numeric/Examples.antt =====
-- Two numbers of a row in the fixed row format of src/storage_layout, the second of them null.
use uni5db.Base.{◌≡◌, refl, false, true, List, [], ◌∷◌, map, none, some, inl, inr, arith, ok}
use uni5db.Base.Int
use uni5db.Bytes.{Bytes, bytes_eq}
use uni5db.Types.Value.{ColumnValue}
use uni5db.Types.DataType.{DataType}
use uni5db.Types.Schema.{ColumnSchema, TableSchema}
use uni5db.Store.Maps.{Map, get}
use uni5db.Types.Floats.{FloatOps}
use uni5db.Storage.Fixed
use uni5db.Storage.Records.{MvccMeta}
use uni5db.Storage.RowWriter.{encode_row_record_with_mvcc}
use uni5db.Storage.Numeric
use uni5db.Storage.Numeric.{FastNumericValue, widen, decode_fixed_row_record_fast_numeric_with}
use uni5db.Storage.Numeric.Slots.{
  column_number, decode_fixed_row_record_fast_numeric_with-encode_row_record,
}

abbrev zeros : FloatOps
zeros = record {
  f32_of_int = λ n. 0;
  f64_of_int = λ n. 0;
  f64_of_f32 = λ n. 0;
  add = λ a b. 0;
  div = λ a b. 0;
}

abbrev column : Bytes → DataType → ColumnSchema
column name t = record {
  column_id = 1;
  name = name;
  data_type = t;
  primary_key = false;
  nullable = true;
  default = none;
  on_update = none;
  character_set = none;
  collation = none;
}

abbrev price : ColumnSchema
price = column (112 ∷ []) DataType.int32

abbrev discount : ColumnSchema
discount = column (100 ∷ []) DataType.int16

abbrev items : TableSchema
items = record {
  table_name = 105 ∷ [];
  table_id = 4;
  schema_version = 1;
  table_epoch = 1;
  primary_key = 112 ∷ [];
  check_constraints = [];
  unique_constraints = [];
  foreign_keys = [];
  columns = price ∷ discount ∷ [];
}

-- A price of -2.
abbrev row : Map ColumnValue
row = (112 ∷ [], ColumnValue.int32 4294967294) ∷ []

abbrev mvcc : MvccMeta
mvcc = record { xmin = 5; xmax = 0 }

abbrev buffer : List FastNumericValue
buffer = FastNumericValue.i64 9 ∷ FastNumericValue.i64 9 ∷ []

decode_fixed_row_record_fast_numeric_with-encode_row_record_example :
    (numbers : List FastNumericValue) × (decode_fixed_row_record_fast_numeric_with zeros
        (Numeric.new items (1 ∷ 0 ∷ []))
        (encode_row_record_with_mvcc items row mvcc)
        buffer
      ≡ ok numbers)
    × (map some numbers ≡ map (column_number zeros items row) (1 ∷ 0 ∷ []))
unfolding bytes_eq Fixed.fixed_width get
decode_fixed_row_record_fast_numeric_with-encode_row_record_example =
    decode_fixed_row_record_fast_numeric_with-encode_row_record zeros items row mvcc (1 ∷ 0 ∷ [])
      buffer
      (record {
        version_fits = omega arith;
        epoch_fits = omega arith;
        xmin_fits = omega arith;
        xmax_fits = omega arith;
        count_fits = omega arith;
      })
      (
        (discount, 2, FastNumericValue.null, refl, refl, refl, inl refl),
        ((price, 4, widen 32 4294967294, refl, refl, refl, inr (omega arith, refl)), tt),
      )
      refl

-- The sign of the price is kept.
widen_test : widen 32 4294967294 ≡ FastNumericValue.i64 18446744073709551614
unfolding Int.signed Int.bits
widen_test = refl
