-- ===== src/Types/Decimal.antt =====
-- `NormalizedDecimal` and `numeric_cmp` of src/types/column_value.rs. An `i64` is its integer, and
-- arithmetic without a check wraps around as in a release build.
pub mod Order
pub mod Normal
mod Examples
use Prim.Native.Nat.{compare, Ordering}
use uni5db.Base.{
  ℕ, zero, suc, ◌+◌, ◌-◌, ◌*◌, max, Bool, true, false, not, ◌&&◌, ◌||◌, List, [], ◌∷◌, ◌++◌, Option,
  none, some, reverse, ltb, leb, ◌==◌, if◌then◌else◌, length, get_elem?,
}
use uni5db.Base.Int.{ℤ, pos, negsuc, ◌-ℤ◌, ◌+ℤ◌, negate, cmp_ℤ, signed, bits, checked}
use uni5db.Base.Maybe.{◌>>=◌}
use uni5db.Bytes.{Bytes, bytes_lt, bytes_eq}
use uni5db.Bytes.Trim.{trim}

pub record NormalizedDecimal : Type 0 where
  pub sign : ℤ
  pub digits : Bytes
  pub scale : ℤ

abbrev pub is_digit : ℕ → Bool
is_digit byte = leb b'0' byte && leb byte b'9'

-- The number that digits stand for, behind a number read so far.
unfoldable pub parse_digits : ℕ → Bytes → Option ℕ
parse_digits n [] = some n
parse_digits n (d ∷ ds) =
    let rest = parse_digits (n * 10 + (d - b'0')) ds in if is_digit d then rest else none

abbrev pub parse_some : Bytes → Option ℕ
parse_some [] = none
parse_some ds = parse_digits 0 ds

-- `str::parse::<i64>`
unfoldable pub parse_i64 : Bytes → Option ℤ
parse_i64 [] = none
parse_i64 (c ∷ s) =
    if c == b'-'
    then (parse_some s >>= λ n. checked 64 (negate (pos n)))
    else if c == b'+'
    then (parse_some s >>= λ n. checked 64 (pos n))
    else parse_some (c ∷ s) >>= λ n. checked 64 (pos n)

-- The sign, and the text behind it.
abbrev pub signed_rest : Bytes → Option (ℤ × Bytes)
signed_rest [] = none
signed_rest (c ∷ s) =
    if c == b'-'
    then some (negsuc 0, s)
    else if c == b'+'
    then some (pos 1, s)
    else some (pos 1, c ∷ s)

-- What stands before and behind the first `e` or `E`.
unfoldable pub split_exponent : Bytes → Bytes × Option Bytes
split_exponent [] = ([], none)
split_exponent (c ∷ s) =
    let rest = split_exponent s in
    if c == b'e' || c == b'E' then ([], some s) else (c ∷ rest.0, rest.1)

abbrev pub exponent_of : Option Bytes → Option ℤ
exponent_of none = some (pos 0)
exponent_of (some s) = parse_i64 s

-- The loop over the mantissa: the digits and how many of them stand behind the dot, so far.
unfoldable pub mantissa_digits :
    Bytes → Bytes → ℤ → (saw_dot saw_digit : Bool) → Option (Bytes × ℤ × Bool)
mantissa_digits [] digits frac_len saw_dot saw_digit = some (digits, frac_len, saw_digit)
mantissa_digits (byte ∷ s) digits frac_len saw_dot saw_digit =
    let here = mantissa_digits s (digits ++ byte ∷ []) frac_len saw_dot true in
    let behind =
      (checked 64 (frac_len +ℤ pos 1) >>= λ n.
      mantissa_digits s (digits ++ byte ∷ []) n saw_dot true) in
    let dot = mantissa_digits s digits frac_len true saw_digit in
    if is_digit byte
    then (if saw_dot then behind else here)
    else if byte == b'.' && not saw_dot
    then dot
    else none

-- From the first digit on that is not zero.
unfoldable pub drop_zeros : Bytes → Bytes
drop_zeros [] = []
drop_zeros (d ∷ ds) = let rest = drop_zeros ds in if d == b'0' then rest else d ∷ ds

-- The loop that pops the zeros at the end, on the digits from the last to the first.
unfoldable pub pop_zeros : Bytes → ℤ → Option (Bytes × ℤ)
pop_zeros [] scale = some ([], scale)
pop_zeros (d ∷ ds) scale =
    let popped = (checked 64 (scale -ℤ pos 1) >>= λ next. pop_zeros ds next) in
    if d == b'0' then popped else some (d ∷ ds, scale)

abbrev pub zero_decimal : NormalizedDecimal
zero_decimal = record { sign = pos 1; digits = []; scale = pos 0 }

-- Behind the loop over the mantissa.
abbrev pub normalize : ℤ → Bytes → ℤ → Option NormalizedDecimal
normalize sign [] scale = some zero_decimal
normalize sign (d ∷ ds) scale = pop_zeros (reverse (d ∷ ds)) scale >>= λ popped.
    some (record { sign = sign; digits = reverse popped.0; scale = popped.1 })

unfoldable pub parse : Bytes → Option NormalizedDecimal
parse raw = do
  (sign, rest) ← signed_rest (trim raw)
  let (mantissa, behind) = split_exponent rest
  exponent ← exponent_of behind
  (digits, frac_len, saw_digit) ← mantissa_digits mantissa [] (pos 0) false false
  if saw_digit
      then (checked 64 (frac_len -ℤ exponent) >>= λ scale. normalize sign (drop_zeros digits) scale)
      else none

-- `digits.len() as i64 - scale`
abbrev pub leading_exponent : NormalizedDecimal → ℤ
leading_exponent a = signed 64 (bits 64 (pos (length a.digits) -ℤ a.scale))

abbrev pub digit : Bytes → ℕ → ℕ
digit digits idx = elim (get_elem? digits idx) [ none ↦ b'0' | some d ↦ d ]

-- The first ordering, and the second where the first is `Equal`.
abbrev pub or_else : Ordering → Ordering → Ordering
or_else Ordering.eq next = next
or_else first next = first

-- The loop over the digits from `idx` on, with `n` rounds to go.
unfoldable pub cmp_digits : Bytes → Bytes → ℕ → ℕ → Ordering
cmp_digits a b idx zero = Ordering.eq
cmp_digits a b idx (suc n) =
    or_else (compare (digit a idx) (digit b idx)) (cmp_digits a b (idx + 1) n)

unfoldable pub cmp_abs : NormalizedDecimal → NormalizedDecimal → Ordering
cmp_abs a b =
    or_else (cmp_ℤ (leading_exponent a) (leading_exponent b))
      (cmp_digits a.digits b.digits 0 (max (length a.digits) (length b.digits)))

abbrev pub is_empty : Bytes → Bool
is_empty [] = true
is_empty _ = false

-- The two numbers being different from zero.
abbrev pub cmp_nonzero : NormalizedDecimal → NormalizedDecimal → Ordering
cmp_nonzero a b = elim (cmp_ℤ a.sign b.sign) [
  | Ordering.lt ↦ Ordering.lt
  | Ordering.eq ↦
      if (elim (cmp_ℤ a.sign (pos 0)) [ Ordering.lt ↦ true | _ ↦ false ])
      then cmp_abs b a
      else cmp_abs a b
  | Ordering.gt ↦ Ordering.gt
]

unfoldable pub cmp : NormalizedDecimal → NormalizedDecimal → Ordering
cmp a b =
    if is_empty a.digits
    then (if is_empty b.digits then Ordering.eq else cmp_ℤ (pos 0) b.sign)
    else if is_empty b.digits
    then cmp_ℤ a.sign (pos 0)
    else cmp_nonzero a b

-- `a.partial_cmp(b)` of texts.
unfoldable pub cmp_bytes : Bytes → Bytes → Ordering
cmp_bytes a b =
    if bytes_lt a b then Ordering.lt else if bytes_eq a b then Ordering.eq else Ordering.gt

abbrev pub cmp_parsed : Option NormalizedDecimal → Option NormalizedDecimal → Ordering → Ordering
cmp_parsed (some a) (some b) texts = cmp a b
cmp_parsed _ _ texts = texts

unfoldable pub numeric_cmp : Bytes → Bytes → Ordering
numeric_cmp a b = cmp_parsed (parse a) (parse b) (cmp_bytes a b)
