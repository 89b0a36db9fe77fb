-- ===== src/Types/Typing.antt =====
-- Which values a column of a type holds, as the decoders of src/codec.rs and src/storage_layout
-- give them back: an independent description, used by the statements only.
use mathlib.Core.Bool.{Bool, true, false}
use mathlib.Core.Path.{◌≡◌}
use mathlib.Core.Logic.{◌⊎◌}
use uni5db.Types.Value.{ColumnValue, Values, nil, cons}
use uni5db.Types.DataType.{DataType, MySqlIntKind, tiny, small, medium, int, big}

pub data Kind : Type 0 where
  null int16 int32 int64 float32 float64 numeric text boolean date timestamp timestamp_tz : Kind
  uuid bytea json jsonb array : Kind

abbrev pub kind : ColumnValue → Kind
kind ColumnValue.null = null
kind (ColumnValue.int16 _) = int16
kind (ColumnValue.int32 _) = int32
kind (ColumnValue.int64 _) = int64
kind (ColumnValue.float32 _) = float32
kind (ColumnValue.float64 _) = float64
kind (ColumnValue.numeric _) = numeric
kind (ColumnValue.text _) = text
kind (ColumnValue.boolean _) = boolean
kind (ColumnValue.date _) = date
kind (ColumnValue.timestamp _) = timestamp
kind (ColumnValue.timestamp_tz _) = timestamp_tz
kind (ColumnValue.uuid _) = uuid
kind (ColumnValue.bytea _) = bytea
kind (ColumnValue.json _) = json
kind (ColumnValue.jsonb _) = jsonb
kind (ColumnValue.array _) = array

abbrev pub int_kind : MySqlIntKind → Bool → Kind
int_kind tiny false = int16
int_kind small false = int16
int_kind tiny true = int32
int_kind small true = int32
int_kind medium _ = int32
int_kind int false = int32
int_kind int true = int64
int_kind big false = int64
int_kind big true = numeric

abbrev pub stored_kind : DataType → Kind
stored_kind DataType.int16 = int16
stored_kind DataType.int32 = int32
stored_kind DataType.int64 = int64
stored_kind (DataType.mysql_int k u) = int_kind k u
stored_kind DataType.float32 = float32
stored_kind DataType.float64 = float64
stored_kind (DataType.mysql_float _) = float32
stored_kind (DataType.mysql_double _) = float64
stored_kind (DataType.numeric _ _) = numeric
stored_kind (DataType.binary _) = bytea
stored_kind (DataType.var_binary _) = bytea
stored_kind (DataType.blob _ _) = bytea
stored_kind DataType.boolean = boolean
stored_kind (DataType.bit _) = int64
stored_kind DataType.year = int32
stored_kind DataType.date = date
stored_kind DataType.timestamp = timestamp
stored_kind (DataType.mysql_date_time _) = timestamp
stored_kind (DataType.mysql_timestamp _) = timestamp
stored_kind DataType.timestamp_tz = timestamp_tz
stored_kind DataType.uuid = uuid
stored_kind DataType.bytea = bytea
stored_kind DataType.json = json
stored_kind DataType.jsonb = jsonb
stored_kind (DataType.array _) = array
stored_kind _ = text

-- A value of the type that is not `Null`; the elements of an array may be `Null`.
abbrev mutual
  pub HasType : ColumnValue → DataType → Type 0
  HasType (ColumnValue.array vs) (DataType.array t) = AllHaveType vs t
  HasType (ColumnValue.array vs) _ = ⊥
  HasType v t = stored_kind t ≡ kind v

  pub AllHaveType : Values → DataType → Type 0
  AllHaveType nil t = Unit
  AllHaveType (cons v vs) t = ((v ≡ ColumnValue.null) ⊎ HasType v t) × AllHaveType vs t
