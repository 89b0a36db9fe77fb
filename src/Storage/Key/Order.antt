-- ===== src/Storage/Key/Order.antt =====
-- Keys of numbers are ordered as the numbers are.
use uni5db.Base.{Bool, true, false, if◌then◌else◌}
use uni5db.Bytes.{Bytes}
use uni5db.Types.Value.{ColumnValue, int16, int32, int64, float32, float64}
use uni5db.Storage.Ordered.{signed_lt, float_lt}

-- Two numbers of one type.
abbrev pub AreNumbers : ColumnValue → ColumnValue → Type 0
AreNumbers (int16 a) (int16 b) = Unit
AreNumbers (int32 a) (int32 b) = Unit
AreNumbers (int64 a) (int64 b) = Unit
AreNumbers (float32 a) (float32 b) = Unit
AreNumbers (float64 a) (float64 b) = Unit
AreNumbers _ _ = ⊥

-- Which of them is the smaller: signed integers, and floats by sign and magnitude.
abbrev pub number_lt : ColumnValue → ColumnValue → Bool
number_lt (int16 a) (int16 b) = signed_lt 15 a b
number_lt (int32 a) (int32 b) = signed_lt 31 a b
number_lt (int64 a) (int64 b) = signed_lt 63 a b
number_lt (float32 a) (float32 b) = float_lt 31 a b
number_lt (float64 a) (float64 b) = float_lt 63 a b
number_lt _ _ = false

abbrev by_order : Bool → Bool → Bool → Bool
by_order less greater otherwise = if less then true else if greater then false else otherwise
