-- ===== src/Types/DataType.antt =====
-- `DataType` and `MySqlIntKind` of src/types/data_type.rs.
use Prim.Native.Nat.{ℕ}
use mathlib.Core.Bool.{Bool}
use mathlib.Core.Option.{Option}
use mathlib.Core.List.{List}
use uni5db.Bytes.{Bytes}

pub data MySqlIntKind : Type 0 where
  tiny small medium int big : MySqlIntKind

pub data DataType : Type 0 where
  int16 int32 int64 : DataType
  mysql_int : MySqlIntKind → Bool → DataType
  float32 float64 : DataType
  mysql_float : Option ℕ → DataType
  mysql_double : Option ℕ → DataType
  numeric : Option ℕ → Option ℕ → DataType
  text : DataType
  mysql_text : Option ℕ → Bytes → DataType
  var_char : Option ℕ → DataType
  char : Option ℕ → DataType
  binary : Option ℕ → DataType
  var_binary : Option ℕ → DataType
  blob : Option ℕ → Bytes → DataType
  boolean : DataType
  bit : Option ℕ → DataType
  year date time : DataType
  mysql_time : Option ℕ → DataType
  time_tz interval timestamp : DataType
  mysql_date_time : Option ℕ → DataType
  mysql_timestamp : Option ℕ → DataType
  timestamp_tz uuid bytea json jsonb : DataType
  array : DataType → DataType
  domain : Bytes → DataType
  enum : List Bytes → DataType
  set : List Bytes → DataType
  geometry : Bytes → DataType
