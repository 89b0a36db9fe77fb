-- ===== src/Types/Text.antt =====
-- `ColumnValue::to_text` of src/types/column_value.rs. How a float is written is a parameter.
use uni5db.Base.{
  ℕ, zero, suc, ◌+◌, ◌/◌, ◌%◌, Bool, true, false, ◌||◌, List, [], ◌∷◌, ◌++◌, Option, none, some,
  ltb, ◌==◌, if◌then◌else◌,
}
use uni5db.Base.Int.{ℤ, pos, negsuc, signed}
use uni5db.Bytes.{Bytes}
use uni5db.Bytes.Trim.{spaces, strip_any}
use uni5db.Types.Value.{ColumnValue, Values, nil, cons}

-- `Display` of `f32` and of `f64`.
pub record FloatText : Type 0 where
  pub f32_text : ℕ → Bytes
  pub f64_text : ℕ → Bytes

-- The decimal digits of a number, the last one first; twenty are enough for 64 bits.
unfoldable pub digits_from : ℕ → ℕ → Bytes
digits_from zero n = []
digits_from (suc fuel) n =
    let rest = digits_from fuel (n / 10) in (b'0' + n % 10) ∷ (if n / 10 == 0 then [] else rest)

unfoldable pub append_reversed : Bytes → Bytes → Bytes
append_reversed [] out = out
append_reversed (d ∷ ds) out = append_reversed ds (d ∷ out)

unfoldable pub int_text : ℤ → Bytes
int_text (pos n) = append_reversed (digits_from 20 n) []
int_text (negsuc n) = b'-' ∷ append_reversed (digits_from 20 (suc n)) []

abbrev hex_digit : ℕ → ℕ
hex_digit n = if ltb n 10 then b'0' + n else 87 + n

unfoldable pub hex_encode : Bytes → Bytes
hex_encode [] = []
hex_encode (byte ∷ bytes) = hex_digit (byte / 16) ∷ hex_digit (byte % 16) ∷ hex_encode bytes

-- Whether a character makes `escape_array_text` put quotes.
abbrev is_special : ℕ → Bool
is_special c = c == b',' || c == b'{' || c == b'}' || c == 34 || c == 92

-- Whether a special character or white space begins at any place.
unfoldable pub needs_quotes : Bytes → Bool
needs_quotes [] = false
needs_quotes (c ∷ s) =
    is_special c
    || (elim (strip_any spaces (c ∷ s)) [ none ↦ false | some _ ↦ true ])
    || needs_quotes s

unfoldable pub escaped : Bytes → Bytes
escaped [] = []
escaped (c ∷ s) = if c == 92 || c == 34 then 92 ∷ c ∷ escaped s else c ∷ escaped s

abbrev is_empty : Bytes → Bool
is_empty [] = true
is_empty _ = false

unfoldable pub escape_array_text : Bytes → Bytes
escape_array_text value =
    if is_empty value || needs_quotes value then 34 ∷ (escaped value ++ 34 ∷ []) else value

-- `join`
unfoldable pub join : Bytes → List Bytes → Bytes
join sep [] = []
join sep (x ∷ []) = x
join sep (x ∷ xs) = x ++ (sep ++ join sep xs)

abbrev pub bool_text : Bool → Bytes
bool_text true = b't' ∷ b'r' ∷ b'u' ∷ b'e' ∷ []
bool_text false = b'f' ∷ b'a' ∷ b'l' ∷ b's' ∷ b'e' ∷ []

abbrev element_text : Option Bytes → Bytes
element_text none = b'N' ∷ b'U' ∷ b'L' ∷ b'L' ∷ []
element_text (some value) = escape_array_text value

module _ (floats : FloatText) where
  unfoldable mutual
    pub to_text : ColumnValue → Option Bytes
    to_text ColumnValue.null = none
    to_text (ColumnValue.int16 v) = some (int_text (signed 16 v))
    to_text (ColumnValue.int32 v) = some (int_text (signed 32 v))
    to_text (ColumnValue.int64 v) = some (int_text (signed 64 v))
    to_text (ColumnValue.float32 v) = some (floats.f32_text v)
    to_text (ColumnValue.float64 v) = some (floats.f64_text v)
    to_text (ColumnValue.numeric v) = some v
    to_text (ColumnValue.text v) = some v
    to_text (ColumnValue.boolean v) = some (bool_text v)
    to_text (ColumnValue.date v) = some v
    to_text (ColumnValue.timestamp v) = some v
    to_text (ColumnValue.timestamp_tz v) = some v
    to_text (ColumnValue.uuid v) = some v
    to_text (ColumnValue.bytea v) = some (92 ∷ b'x' ∷ hex_encode v)
    to_text (ColumnValue.json v) = some v
    to_text (ColumnValue.jsonb v) = some v
    to_text (ColumnValue.array vs) =
        some (b'{' ∷ (join (b',' ∷ []) (element_texts vs) ++ b'}' ∷ []))

    pub element_texts : Values → List Bytes
    element_texts nil = []
    element_texts (cons v vs) = element_text (to_text v) ∷ element_texts vs
