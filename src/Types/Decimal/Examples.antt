-- ===== src/Types/Decimal/Examples.antt =====
-- Decimals of src/types/column_value.rs, and what the theorems say of them.
use Prim.Native.Nat.{Ordering}
use uni5db.Base.{◌≡◌, ◌≢◌, ◌↔◌, refl, [], ◌∷◌, some}
use uni5db.Base.Int.{pos, negsuc, swap}
use uni5db.Base.Int
use uni5db.Bytes
use uni5db.Bytes.{Bytes}
use uni5db.Bytes.Trim
use uni5db.Types.Decimal
use uni5db.Types.Decimal.{NormalizedDecimal, parse, numeric_cmp}
use uni5db.Types.Decimal.Order.{numeric_cmp-swap}
use uni5db.Types.Decimal.Normal.{numeric_cmp-eq, numeric_cmp_trans}

-- " 1.50", "15e-1", "2" and "1e9223372036854775807"
abbrev padded : Bytes
padded = 32 ∷ b'1' ∷ b'.' ∷ b'5' ∷ b'0' ∷ []

abbrev scaled : Bytes
scaled = b'1' ∷ b'5' ∷ b'e' ∷ b'-' ∷ b'1' ∷ []

abbrev two : Bytes
two = b'2' ∷ []

abbrev huge : Bytes
huge =
    b'1' ∷ b'e' ∷ b'9' ∷ b'2' ∷ b'2' ∷ b'3' ∷ b'3' ∷ b'7' ∷ b'2' ∷ b'0' ∷ b'3' ∷ b'6' ∷ b'8' ∷ b'5'
    ∷ b'4' ∷ b'7' ∷ b'7' ∷ b'5' ∷ b'8' ∷ b'0' ∷ b'7' ∷ []

abbrev three_halves : NormalizedDecimal
three_halves = record { sign = pos 1; digits = b'1' ∷ b'5' ∷ []; scale = pos 1 }

abbrev two_decimal : NormalizedDecimal
two_decimal = record { sign = pos 1; digits = b'2' ∷ []; scale = pos 0 }

parse-padded : parse padded ≡ some three_halves
unfolding parse Trim.trim Trim.trim_end Trim.strip_all Trim.trim_start Trim.strip_any
    Bytes.strip_prefix Decimal.split_exponent Decimal.mantissa_digits Int.◌+ℤ◌ Int.◌-ℤ◌
    Decimal.drop_zeros Decimal.pop_zeros
parse-padded = refl

parse-scaled : parse scaled ≡ some three_halves
unfolding parse Trim.trim Trim.trim_end Trim.strip_all Trim.trim_start Trim.strip_any
    Bytes.strip_prefix Decimal.split_exponent Decimal.parse_i64 Decimal.parse_digits Int.negate
    Decimal.mantissa_digits Int.◌-ℤ◌ Decimal.drop_zeros Decimal.pop_zeros
parse-scaled = refl

parse-two : parse two ≡ some two_decimal
unfolding parse Trim.trim Trim.trim_end Trim.strip_all Trim.trim_start Trim.strip_any
    Bytes.strip_prefix Decimal.split_exponent Decimal.mantissa_digits Int.◌-ℤ◌ Decimal.drop_zeros
    Decimal.pop_zeros
parse-two = refl

padded_below_two : numeric_cmp padded two ≡ Ordering.lt
unfolding numeric_cmp parse Trim.trim Trim.trim_end Trim.strip_all Trim.trim_start Trim.strip_any
    Bytes.strip_prefix Decimal.split_exponent Decimal.parse_i64 Decimal.parse_digits Int.negate
    Decimal.mantissa_digits Int.◌+ℤ◌ Int.◌-ℤ◌ Decimal.drop_zeros Decimal.pop_zeros Decimal.cmp
    Decimal.cmp_abs Int.signed Int.bits Decimal.cmp_digits Decimal.cmp_bytes Bytes.bytes_lt
    Bytes.bytes_eq
padded_below_two = refl

scaled-padded : numeric_cmp scaled padded ≡ Ordering.eq
unfolding numeric_cmp parse Trim.trim Trim.trim_end Trim.strip_all Trim.trim_start Trim.strip_any
    Bytes.strip_prefix Decimal.split_exponent Decimal.parse_i64 Decimal.parse_digits Int.negate
    Decimal.mantissa_digits Int.◌+ℤ◌ Int.◌-ℤ◌ Decimal.drop_zeros Decimal.pop_zeros Decimal.cmp
    Decimal.cmp_abs Int.signed Int.bits Decimal.cmp_digits Decimal.cmp_bytes Bytes.bytes_lt
    Bytes.bytes_eq
scaled-padded = refl

-- The exponent of the leading digit wraps around, and the huge number is less than two.
huge_below_two : numeric_cmp huge two ≡ Ordering.lt
unfolding numeric_cmp parse Trim.trim Trim.trim_end Trim.strip_all Trim.trim_start Trim.strip_any
    Bytes.strip_prefix Decimal.split_exponent Decimal.parse_i64 Decimal.parse_digits Int.negate
    Decimal.mantissa_digits Int.◌+ℤ◌ Int.◌-ℤ◌ Decimal.drop_zeros Decimal.pop_zeros Decimal.cmp
    Decimal.cmp_abs Int.signed Int.bits Decimal.cmp_digits Decimal.cmp_bytes Bytes.bytes_lt
    Bytes.bytes_eq
huge_below_two = refl

numeric_cmp-swap_example : numeric_cmp two padded ≡ swap (numeric_cmp padded two)
numeric_cmp-swap_example = numeric_cmp-swap two padded

numeric_cmp-eq_example : (numeric_cmp padded scaled ≡ Ordering.eq) ↔ (three_halves ≡ three_halves)
numeric_cmp-eq_example =
    numeric_cmp-eq padded scaled three_halves three_halves parse-padded parse-scaled

numeric_cmp_trans_example : numeric_cmp scaled two ≢ Ordering.gt
numeric_cmp_trans_example =
    numeric_cmp_trans scaled padded two three_halves three_halves two_decimal parse-scaled
      parse-padded parse-two (rw (scaled-padded) (λ e. cc)) (rw (padded_below_two) (λ e. cc))
