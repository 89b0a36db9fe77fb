-- ===== src/Types/Decimal/Normal.antt =====
-- Texts of src/types/column_value.rs that compare as equal decimals have the same normal form.
use Prim.Native.Nat.{Ordering}
use mathlib.Core.List.{reverse-append}
use uni5db.Base.{
  ℕ, zero, suc, ◌+◌, max, ◌<◌, ◌≤◌, ◌≡◌, ◌≢◌, refl, sym, ◌∙◌, subst, ◌↔◌, ◌⊎◌, inl, inr, true,
  false, [], ◌∷◌, ◌++◌, some, reverse, arith, length, ◌==◌, ltb, Bool-cases,
}
use uni5db.Base.Maybe.{>>=-eq-some}
use uni5db.Base.Int.{ℤ, pos, negsuc, cmp_ℤ-eq, ◌-ℤ◌, fits, checked, signed, bits}
use uni5db.Bytes.{Bytes}
use uni5db.Types.Decimal.{
  NormalizedDecimal, digit, cmp_digits, or_else, leading_exponent, cmp_abs, cmp, pop_zeros,
  drop_zeros, normalize, zero_decimal, signed_rest, parse, numeric_cmp, exponent_of, split_exponent,
  mantissa_digits, cmp_parsed, cmp_bytes,
}
use uni5db.Bytes.Trim.{trim}
use uni5db.Types.Decimal.Order.{IsSigned, get_past, cmp-swap, Chain-cmp}

abbrev LastNotZero : Bytes → Type 0
LastNotZero [] = Unit
LastNotZero (d ∷ []) = d ≢ b'0'
LastNotZero (d ∷ ds) = LastNotZero ds

last_digit : (d : ℕ) (ds : Bytes) → LastNotZero (d ∷ ds) → (i : ℕ) × (digit (d ∷ ds) i ≢ b'0')
last_digit d [] h = (0, h)
last_digit d (e ∷ ds) h = let (i, ne) = last_digit e ds h in (suc i, ne)

LastNotZero-tail : (d : ℕ) (ds : Bytes) → LastNotZero (d ∷ ds) → LastNotZero ds
LastNotZero-tail d [] h = tt
LastNotZero-tail d (e ∷ ds) h = h

digits_ext :
    (a b : Bytes) → LastNotZero a → LastNotZero b → ((i : ℕ) → digit a i ≡ digit b i) → a ≡ b
digits_ext [] [] ha hb same = refl
digits_ext [] (y ∷ b) ha hb same = let (i, ne) = last_digit y b hb in absurd (ne (sym (same i)))
digits_ext (x ∷ a) [] ha hb same = let (i, ne) = last_digit x a ha in absurd (ne (same i))
digits_ext (x ∷ a) (y ∷ b) ha hb same =
    let head : x ≡ y = same 0 in
    rw
      (head, digits_ext a b (LastNotZero-tail x a ha) (LastNotZero-tail y b hb) (λ i. same (suc i)))

digit_within :
    (a b : Bytes) (idx n i : ℕ)
    → cmp_digits a b idx n ≡ Ordering.eq
    → idx ≤ i
    → i < idx + n
    → digit a i ≡ digit b i
unfolding cmp_digits
digit_within a b idx zero i h lo hi = absurd (omega arith)
digit_within a b idx (suc n) i h lo hi = elim (Bool-cases (idx == i)) [
  | inl e ↦ let same : idx ≡ i = ground arith in rw (← same) (ground arith)
  | inr e ↦ digit_within a b (idx + 1) n i (ground arith) (ground arith) (omega arith)
]

digit_same :
    (a b : Bytes) (i : ℕ)
    → cmp_digits a b 0 (max (length a) (length b)) ≡ Ordering.eq
    → digit a i ≡ digit b i
digit_same a b i h = elim (Bool-cases (ltb i (max (length a) (length b)))) [
  | inl lt ↦ digit_within a b 0 (max (length a) (length b)) i h (omega arith) (ground arith)
  | inr ge ↦ ground (arith, get_past a i (ground arith), get_past b i (ground arith))
]

-- The bit patterns of all integers within 2 ^ 64 of each other differ.
wrap_injective :
    (n : ℕ) (s t : ℤ)
    → fits 64 s ≡ true
    → fits 64 t ≡ true
    → signed 64 (bits 64 (pos n -ℤ s)) ≡ signed 64 (bits 64 (pos n -ℤ t))
    → s ≡ t
unfolding signed bits ◌-ℤ◌
wrap_injective n (pos s) (pos t) hs ht h = ground arith
wrap_injective n (pos s) (negsuc t) hs ht h = ground arith
wrap_injective n (negsuc s) (pos t) hs ht h = ground arith
wrap_injective n (negsuc s) (negsuc t) hs ht h = ground arith

-- The sign is 1 or -1, no digit at the end is zero, the scale is an `i64`, and there is one zero.
pub record IsNormal (a : NormalizedDecimal) : Type 0 where
  pub signs : IsSigned a
  pub last : LastNotZero a.digits
  pub scales : fits 64 a.scale ≡ true
  pub zeros : (a.digits ≢ []) ⊎ (a ≡ zero_decimal)

or_else-eq : (o p : Ordering) → or_else o p ≡ Ordering.eq → (o ≡ Ordering.eq) × (p ≡ Ordering.eq)
or_else-eq o p h = ground arith

cmp_abs-eq :
    (a b : NormalizedDecimal)
    → IsNormal a
    → IsNormal b
    → a.sign ≡ b.sign
    → cmp_abs a b ≡ Ordering.eq
    → a ≡ b
unfolding cmp_abs
cmp_abs-eq a b ha hb signs h =
    let (exponents, below) = or_else-eq _ _ h in
    let digits : a.digits ≡ b.digits =
      digits_ext a.digits b.digits ha.last hb.last (λ i. digit_same a.digits b.digits i below) in
    let leading = cmp_ℤ-eq (leading_exponent a) (leading_exponent b) exponents in
    let scales : a.scale ≡ b.scale =
      wrap_injective (length b.digits) a.scale b.scale ha.scales hb.scales (rw digits at leading) in
    λ i. record { sign = signs i; digits = digits i; scale = scales i }

cmp-eq-eq : (a b : NormalizedDecimal) → IsNormal a → IsNormal b → cmp a b ≡ Ordering.eq → a ≡ b
unfolding cmp
cmp-eq-eq a b ha hb h =
    ground (arith, cmp_abs-eq a b ha hb, λ (e : b.sign ≡ a.sign). cmp_abs-eq b a hb ha e)

HeadNotZero : Bytes → Type 0
HeadNotZero [] = Unit
HeadNotZero (d ∷ ds) = d ≢ b'0'

drop_zeros-HeadNotZero : (ds : Bytes) → HeadNotZero (drop_zeros ds)
unfolding HeadNotZero drop_zeros
drop_zeros-HeadNotZero [] = tt
drop_zeros-HeadNotZero (d ∷ ds) = ground (arith, drop_zeros-HeadNotZero ds)

LastNotZero-snoc : (ds : Bytes) (d : ℕ) → d ≢ b'0' → LastNotZero (ds ++ d ∷ [])
LastNotZero-snoc [] d h = h
LastNotZero-snoc (e ∷ []) d h = h
LastNotZero-snoc (e ∷ f ∷ ds) d h = LastNotZero-snoc (f ∷ ds) d h

snoc-ne-nil : (ds : Bytes) (d : ℕ) → ds ++ d ∷ [] ≢ []
snoc-ne-nil [] d h = cc
snoc-ne-nil (e ∷ ds) d h = cc

-- Digits turned around that begin with one that is not zero.
reverse-Last :
    (d : ℕ) (ds : Bytes) → d ≢ b'0' → LastNotZero (reverse (d ∷ ds)) × (reverse (d ∷ ds) ≢ [])
reverse-Last d ds ne =
    rw (reverse-append (d ∷ []) ds) (LastNotZero-snoc (reverse ds) d ne, snoc-ne-nil (reverse ds) d)

Popped : Bytes × ℤ → Type 0
Popped popped = (fits 64 popped.1 ≡ true) × LastNotZero (reverse popped.0) × (reverse popped.0 ≢ [])

-- What is left of digits that begin with one that is not zero, seen from their end.
pop_zeros-Popped :
    (ds : Bytes) (d : ℕ) (scale : ℤ) (popped : Bytes × ℤ)
    → d ≢ b'0'
    → fits 64 scale ≡ true
    → pop_zeros (ds ++ d ∷ []) scale ≡ some popped
    → Popped popped
unfolding pop_zeros Popped
pop_zeros-Popped [] d scale popped ne fit h =
    let same : popped ≡ (d ∷ [], scale) = ground arith in
    rw same (fit, (reverse-Last d [] ne).0, (reverse-Last d [] ne).1)
pop_zeros-Popped (e ∷ ds) d scale popped ne fit h = elim (Bool-cases (e == b'0')) [
  | inl z ↦
      let (next, within, rest) = >>=-eq-some (checked 64 (scale -ℤ pos 1)) _ (rw z at h) in
      pop_zeros-Popped ds d next popped ne (ground arith) rest
  | inr n ↦
      let same : popped ≡ (e ∷ (ds ++ d ∷ []), scale) = (let kept = rw n at h in cc) in
      let front = reverse-Last e (ds ++ d ∷ []) (ground arith) in rw same (fit, front.0, front.1)
]

normalize-IsNormal :
    (sign : ℤ) (digits : Bytes) (scale : ℤ) (a : NormalizedDecimal)
    → (sign ≡ pos 1) ⊎ (sign ≡ negsuc 0)
    → HeadNotZero digits
    → fits 64 scale ≡ true
    → normalize sign digits scale ≡ some a
    → IsNormal a
unfolding HeadNotZero Popped
normalize-IsNormal sign [] scale a signs head fit h =
    let same : zero_decimal ≡ a = ground arith in
    subst IsNormal same (record { signs = inl refl; last = tt; scales = refl; zeros = inr refl })
normalize-IsNormal sign (d ∷ ds) scale a signs head fit h =
    let (popped, run, rest) = >>=-eq-some (pop_zeros (reverse (d ∷ ds)) scale) _ h in
    let (fit', last, full) =
      pop_zeros-Popped (reverse ds) d scale popped head fit
        (rw (reverse-append (d ∷ []) ds) at run) in
    let same : record { sign = sign; digits = reverse popped.0; scale = popped.1 } ≡ a = (cc) in
    subst IsNormal same (record { signs = signs; last = last; scales = fit'; zeros = inl full })

signed_rest-signs :
    (s : Bytes) (found : ℤ × Bytes)
    → signed_rest s ≡ some found
    → (found.0 ≡ pos 1) ⊎ (found.0 ≡ negsuc 0)
signed_rest-signs [] found h = cc
signed_rest-signs (c ∷ s) found h = ground arith

parse-IsNormal : (raw : Bytes) (a : NormalizedDecimal) → parse raw ≡ some a → IsNormal a
unfolding parse
parse-IsNormal raw a h =
    let (found, signs, h) = >>=-eq-some (signed_rest (trim raw)) _ h in
    let (exponent, _, h) = >>=-eq-some (exponent_of (split_exponent found.1).1) _ h in
    let (read, _, h) =
      >>=-eq-some (mantissa_digits (split_exponent found.1).0 [] (pos 0) false false) _ h in
    elim (Bool-cases read.2) [
      | inl saw ↦
          let (scale, within, h) = >>=-eq-some (checked 64 (read.1 -ℤ exponent)) _ (rw saw at h) in
          normalize-IsNormal found.0 (drop_zeros read.0) scale a
            (signed_rest-signs (trim raw) found signs) (drop_zeros-HeadNotZero read.0)
            (ground arith) h
      | inr none_seen ↦ absurd (let refused = rw none_seen at h in cc)
    ]

cmp_refl : (a : NormalizedDecimal) → cmp a a ≡ Ordering.eq
cmp_refl a = ground (arith, cmp-swap a a)

-- Texts that are decimals compare as equal exactly when they have the same sign, digits and scale
-- once the zeros at both ends are removed.
pub numeric_cmp-eq :
    (x y : Bytes) (a b : NormalizedDecimal)
    → parse x ≡ some a
    → parse y ≡ some b
    → (numeric_cmp x y ≡ Ordering.eq) ↔ (a ≡ b)
unfolding numeric_cmp
numeric_cmp-eq x y a b hx hy =
    let here : cmp_parsed (parse x) (parse y) (cmp_bytes x y) ≡ cmp a b = rw (hx, hy) in
    (
      λ h. cmp-eq-eq a b (parse-IsNormal x a hx) (parse-IsNormal y b hy) (sym here ∙ h),
      λ e. here ∙ (rw e (cmp_refl b)),
    )

-- Between texts that are decimals the order is transitive: what is at most equal to something at
-- most equal to a third is at most equal to the third.
pub numeric_cmp_trans :
    (x y z : Bytes) (a b c : NormalizedDecimal)
    → parse x ≡ some a
    → parse y ≡ some b
    → parse z ≡ some c
    → numeric_cmp x y ≢ Ordering.gt
    → numeric_cmp y z ≢ Ordering.gt
    → numeric_cmp x z ≢ Ordering.gt
unfolding numeric_cmp
numeric_cmp_trans x y z a b c hx hy hz xy yz =
    let chain =
      Chain-cmp a b c (parse-IsNormal x a hx).signs (parse-IsNormal y b hy).signs
        (parse-IsNormal z c hz).signs in
    ground arith
