-- ===== src/Types/Decimal/Order.antt =====
-- `numeric_cmp` of src/types/column_value.rs is an order: turned around it gives the opposite, and on
-- decimals it is transitive.
use Prim.Native.Nat.{compare, Ordering}
use uni5db.Base.{
  ◌⊎◌, Option, sym, ℕ, zero, suc, ◌+◌, max, ◌≤◌, ◌≡◌, refl, [], ◌∷◌, none, some, arith, length,
  get_elem?,
}
use uni5db.Base.Int.{ℤ, pos, negsuc, cmp_ℤ, swap, cmp_ℤ-swap}
use uni5db.Bytes.{Bytes}
use uni5db.Bytes.Order.{bytes_lt_total, bytes_eq_sym, bytes_lt_eq}
use uni5db.Types.Decimal.{
  NormalizedDecimal, digit, cmp_digits, or_else, leading_exponent, cmp_abs, cmp, cmp_bytes,
  cmp_parsed, parse, numeric_cmp,
}

cmp_digits-swap : (a b : Bytes) (idx n : ℕ) → cmp_digits a b idx n ≡ swap (cmp_digits b a idx n)
unfolding cmp_digits
cmp_digits-swap a b idx zero = refl
cmp_digits-swap a b idx (suc n) = ground (arith, cmp_digits-swap a b (idx + 1) n)

cmp_abs-swap : (a b : NormalizedDecimal) → cmp_abs a b ≡ swap (cmp_abs b a)
unfolding cmp_abs
cmp_abs-swap a b =
    let same : max (length a.digits) (length b.digits) ≡ max (length b.digits) (length a.digits) =
      omega arith in
    rw same (
      ground (
        arith,
        cmp_ℤ-swap (leading_exponent a) (leading_exponent b),
        cmp_digits-swap a.digits b.digits 0 (max (length b.digits) (length a.digits)),
      ))

pub cmp-swap : (a b : NormalizedDecimal) → cmp a b ≡ swap (cmp b a)
unfolding cmp
cmp-swap a b = ground (arith, cmp_abs-swap a b, cmp_abs-swap b a)

pub cmp_bytes-swap : (a b : Bytes) → cmp_bytes a b ≡ swap (cmp_bytes b a)
unfolding cmp_bytes
cmp_bytes-swap a b = ground (
  arith,
  bytes_lt_total a b,
  bytes_lt_total b a,
  bytes_eq_sym a b,
  bytes_lt_eq a b,
  bytes_lt_eq b a,
)

cmp_parsed-swap :
    (a b : Option NormalizedDecimal) (u v : Ordering)
    → u ≡ swap v
    → cmp_parsed a b u ≡ swap (cmp_parsed b a v)
cmp_parsed-swap none none u v h = h
cmp_parsed-swap none (some b) u v h = h
cmp_parsed-swap (some a) none u v h = h
cmp_parsed-swap (some a) (some b) u v h = cmp-swap a b

-- Two texts compared the other way around give the opposite ordering, decimals or not.
pub numeric_cmp-swap : (a b : Bytes) → numeric_cmp a b ≡ swap (numeric_cmp b a)
unfolding numeric_cmp
numeric_cmp-swap a b =
    cmp_parsed-swap (parse a) (parse b) (cmp_bytes a b) (cmp_bytes b a) (cmp_bytes-swap a b)

pub get_past : (a : Bytes) (idx : ℕ) → length a ≤ idx → get_elem? a idx ≡ none
get_past [] idx h = refl
get_past (d ∷ a) zero h = absurd (omega arith)
get_past (d ∷ a) (suc idx) h = get_past a idx (omega arith)

-- Behind the last digits of both nothing differs.
cmp_digits_past :
    (a b : Bytes) (idx n : ℕ) → length a ≤ idx → length b ≤ idx → cmp_digits a b idx n ≡ Ordering.eq
unfolding cmp_digits
cmp_digits_past a b idx zero ha hb = refl
cmp_digits_past a b idx (suc n) ha hb =
    ground (arith, get_past a idx, get_past b idx, cmp_digits_past a b (idx + 1) n)

-- All numbers of rounds that reach behind the last digits do the same.
cmp_digits_rounds :
    (a b : Bytes) (idx m n : ℕ)
    → length a ≤ idx + m
    → length b ≤ idx + m
    → length a ≤ idx + n
    → length b ≤ idx + n
    → cmp_digits a b idx m ≡ cmp_digits a b idx n
unfolding cmp_digits
cmp_digits_rounds a b idx zero n ham hbm han hbn =
    sym (cmp_digits_past a b idx n (omega arith) (omega arith))
cmp_digits_rounds a b idx (suc m) zero ham hbm han hbn =
    cmp_digits_past a b idx (suc m) (omega arith) (omega arith)
cmp_digits_rounds a b idx (suc m) (suc n) ham hbm han hbn = ground (
  arith,
  cmp_digits_rounds a b (idx + 1) m n (omega arith) (omega arith) (omega arith) (omega arith),
)

-- Transitive, the equal pairs included.
abbrev pub Chain : Ordering → Ordering → Ordering → Type 0
Chain Ordering.gt _ _ = Unit
Chain _ Ordering.gt _ = Unit
Chain Ordering.eq Ordering.eq o = o ≡ Ordering.eq
Chain _ _ o = o ≡ Ordering.lt

Chain-compare : (x y z : ℕ) → Chain (compare x y) (compare y z) (compare x z)
Chain-compare x y z = ground arith

Chain-cmp_ℤ : (x y z : ℤ) → Chain (cmp_ℤ x y) (cmp_ℤ y z) (cmp_ℤ x z)
Chain-cmp_ℤ x y z = ground arith

Chain-or_else :
    (o p q o' p' q' : Ordering)
    → Chain o p q
    → Chain o' p' q'
    → Chain (or_else o o') (or_else p p') (or_else q q')
Chain-or_else o p q o' p' q' h h' = ground arith

Chain-cmp_digits :
    (a b c : Bytes) (idx n : ℕ)
    → Chain (cmp_digits a b idx n) (cmp_digits b c idx n) (cmp_digits a c idx n)
unfolding cmp_digits
Chain-cmp_digits a b c idx zero = refl
Chain-cmp_digits a b c idx (suc n) =
    Chain-or_else _ _ _ _ _ _ (Chain-compare (digit a idx) (digit b idx) (digit c idx))
      (Chain-cmp_digits a b c (idx + 1) n)

Chain-cmp_abs : (a b c : NormalizedDecimal) → Chain (cmp_abs a b) (cmp_abs b c) (cmp_abs a c)
unfolding cmp_abs
Chain-cmp_abs a b c =
    let n = max (length a.digits) (max (length b.digits) (length c.digits)) in
    rw
      (
        cmp_digits_rounds a.digits b.digits 0 (max (length a.digits) (length b.digits)) n
            (omega arith) (omega arith) (omega arith) (omega arith),
        cmp_digits_rounds b.digits c.digits 0 (max (length b.digits) (length c.digits)) n
            (omega arith) (omega arith) (omega arith) (omega arith),
        cmp_digits_rounds a.digits c.digits 0 (max (length a.digits) (length c.digits)) n
            (omega arith) (omega arith) (omega arith) (omega arith),
      )
      (Chain-or_else _ _ _ _ _ _
        (Chain-cmp_ℤ (leading_exponent a) (leading_exponent b) (leading_exponent c))
        (Chain-cmp_digits a.digits b.digits c.digits 0 n))

-- A sign is 1 or -1.
abbrev pub IsSigned : NormalizedDecimal → Type 0
IsSigned a = (a.sign ≡ pos 1) ⊎ (a.sign ≡ negsuc 0)

pub Chain-cmp :
    (a b c : NormalizedDecimal)
    → IsSigned a
    → IsSigned b
    → IsSigned c
    → Chain (cmp a b) (cmp b c) (cmp a c)
unfolding cmp
Chain-cmp a b c ha hb hc =
    ground (arith, Chain-cmp_abs a b c, Chain-cmp_abs c b a, Chain-cmp_abs b c a)
