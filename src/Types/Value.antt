-- ===== src/Types/Value.antt =====
-- `ColumnValue` of src/types/column_value.rs. An integer or a float is its bit pattern, and a text
-- its bytes; an array's elements are a list of the same block.
use Prim.Native.Nat.{ℕ, suc, ◌<◌, ◌^◌, max}
use mathlib.Core.Path.{◌≡◌}
use mathlib.Core.Bool.{Bool, true, false}
use uni5db.Base.{length, All}
use uni5db.Bytes.{Bytes, IsByte}
use uni5db.Bytes.Utf8.{is_utf8}

mutual
  pub data ColumnValue : Type 0 where
    null : ColumnValue
    int16 : ℕ → ColumnValue
    int32 : ℕ → ColumnValue
    int64 : ℕ → ColumnValue
    float32 : ℕ → ColumnValue
    float64 : ℕ → ColumnValue
    numeric : Bytes → ColumnValue
    text : Bytes → ColumnValue
    boolean : Bool → ColumnValue
    date : Bytes → ColumnValue
    timestamp : Bytes → ColumnValue
    timestamp_tz : Bytes → ColumnValue
    uuid : Bytes → ColumnValue
    bytea : Bytes → ColumnValue
    json : Bytes → ColumnValue
    jsonb : Bytes → ColumnValue
    array : Values → ColumnValue

  pub data Values : Type 0 where
    nil : Values
    cons : ColumnValue → Values → Values

abbrev pub is_null : ColumnValue → Bool
is_null null = true
is_null _ = false

abbrev pub count : Values → ℕ
count nil = 0
count (cons v vs) = suc (count vs)

-- A `Vec<u8>` whose length fits the 32 bits that every format gives it.
abbrev pub IsSegment : Bytes → Type 0
IsSegment s = (length s < 2 ^ 32) × All IsByte s

-- A `String`.
abbrev pub IsText : Bytes → Type 0
IsText s = (length s < 2 ^ 32) × All IsByte s × (is_utf8 s ≡ true)

-- The numbers and lists stand for values that the program can hold.
abbrev mutual
  pub IsValid : ColumnValue → Type 0
  IsValid null = Unit
  IsValid (int16 v) = v < 2 ^ 16
  IsValid (int32 v) = v < 2 ^ 32
  IsValid (int64 v) = v < 2 ^ 64
  IsValid (float32 v) = v < 2 ^ 32
  IsValid (float64 v) = v < 2 ^ 64
  IsValid (numeric s) = IsText s
  IsValid (text s) = IsText s
  IsValid (boolean b) = Unit
  IsValid (date s) = IsText s
  IsValid (timestamp s) = IsText s
  IsValid (timestamp_tz s) = IsText s
  IsValid (uuid s) = IsText s
  IsValid (bytea s) = IsSegment s
  IsValid (json s) = IsText s
  IsValid (jsonb s) = IsText s
  IsValid (array vs) = (count vs < 2 ^ 32) × AllValid vs

  pub AllValid : Values → Type 0
  AllValid nil = Unit
  AllValid (cons v vs) = IsValid v × AllValid vs

-- How deep arrays are nested.
abbrev mutual
  pub depth : ColumnValue → ℕ
  depth (array vs) = suc (depth_values vs)
  depth _ = 0

  pub depth_values : Values → ℕ
  depth_values nil = 0
  depth_values (cons v vs) = max (depth v) (depth_values vs)
