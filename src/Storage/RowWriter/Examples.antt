-- ===== src/Storage/RowWriter/Examples.antt =====
-- A row of a number, a text and a null text in the fixed row format of src/storage_layout.
use uni5db.Base.{
  ℕ, suc, ◌≡◌, refl, ap, ◌++◌, false, true, List, [], ◌∷◌, none, inl, inr, arith, ok, length,
  get_elem?, drop, some,
}
use uni5db.Bytes.{Bytes, bytes_eq}
use uni5db.Bytes.BigEndian.{to_be_bytes}
use uni5db.Bytes.Utf8.{is_utf8}
use uni5db.Types.Value.{ColumnValue, IsText}
use uni5db.Types.DataType.{DataType}
use uni5db.Types.Schema.{ColumnSchema, TableSchema}
use uni5db.Store.Maps.{Map, get}
use uni5db.Storage.Cursor
use uni5db.Storage.Fixed
use uni5db.Storage.Tuple
use uni5db.Storage.Records.{MvccMeta}
use uni5db.Storage.RowRecord.{decode_row_record}
use uni5db.Storage.FixedRow.Columns.{Unnamed}
use uni5db.Storage.RowWriter
use uni5db.Storage.RowWriter.{encode_row_record_with_mvcc, value_in}
use uni5db.Storage.RowWriter.RoundTrip.{decode_row_record-encode_row_record}

abbrev column : Bytes → DataType → ColumnSchema
column name t = record {
  column_id = 1;
  name = name;
  data_type = t;
  primary_key = false;
  nullable = true;
  default = none;
  on_update = none;
  character_set = none;
  collation = none;
}

abbrev columns : List ColumnSchema
columns =
    column (105 ∷ []) DataType.int64
    ∷ column (116 ∷ []) DataType.text
    ∷ column (110 ∷ []) DataType.text
    ∷ []

abbrev notes : TableSchema
notes = record {
  table_name = 110 ∷ [];
  table_id = 9;
  schema_version = 2;
  table_epoch = 1;
  primary_key = 105 ∷ [];
  check_constraints = [];
  unique_constraints = [];
  foreign_keys = [];
  columns = columns;
}

abbrev row : Map ColumnValue
row = (105 ∷ [], ColumnValue.int64 300) ∷ (116 ∷ [], ColumnValue.text (104 ∷ 105 ∷ [])) ∷ []

abbrev mvcc : MvccMeta
mvcc = record { xmin = 5; xmax = 0 }

-- The third bit of the bitmap marks the null text; the directory has an entry for each text.
abbrev bytes : Bytes
bytes =
    4
      ∷ (to_be_bytes 4 2
          ++ (to_be_bytes 8 1 ++ (to_be_bytes 8 5 ++ (to_be_bytes 8 0 ++ to_be_bytes 4 3))))
    ++ (4
        ∷ (to_be_bytes 8 300
            ++ (to_be_bytes 4 0
                ++ (to_be_bytes 4 7
                    ++ (to_be_bytes 4 7
                        ++ (to_be_bytes 4 0 ++ (4 ∷ (to_be_bytes 4 2 ++ (104 ∷ 105 ∷ [])))))))))

encode_row_record_with_mvcc_test : encode_row_record_with_mvcc notes row mvcc ≡ bytes
unfolding encode_row_record_with_mvcc to_be_bytes RowWriter.or_at RowWriter.fixed_field
    RowWriter.variable_bytes RowWriter.encode_columns Fixed.fixed_width Fixed.encode_fixed_value
    Tuple.encode_tuple_value bytes_eq get Cursor.push_bytes_segment
encode_row_record_with_mvcc_test = refl

length-row : length (encode_row_record_with_mvcc notes row mvcc) ≡ 65
unfolding to_be_bytes
length-row = ap length encode_row_record_with_mvcc_test

word-IsText : IsText (104 ∷ 105 ∷ [])
unfolding is_utf8
word-IsText = (omega arith, (omega arith, (omega arith, tt)), refl)

decode_row_record-encode_row_record_example :
    (read : Map ColumnValue) × (decode_row_record notes (encode_row_record_with_mvcc notes row mvcc)
      ≡ ok read)
    × ((i : ℕ) (column : ColumnSchema)
        → get_elem? columns i ≡ some column
        → Unnamed column.name (drop (suc i) columns)
        → get column.name read ≡ some (value_in row column))
unfolding bytes_eq Fixed.fixed_width get
decode_row_record-encode_row_record_example =
    decode_row_record-encode_row_record notes row mvcc
      (record {
        version_fits = omega arith;
        epoch_fits = omega arith;
        xmin_fits = omega arith;
        xmax_fits = omega arith;
        count_fits = omega arith;
      })
      (omega (arith, length-row))
      (inr (omega arith, inr refl), (inr (word-IsText, inl refl), (inl refl, tt)))
