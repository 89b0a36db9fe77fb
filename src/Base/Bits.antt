-- ===== src/Base/Bits.antt =====
-- Flipping and testing the top bit of a word, as arithmetic, at every width.
use Prim.Native.Nat.{
  ℕ, zero, suc, ◌+◌, ◌-◌, ◌*◌, ◌/◌, ◌%◌, ◌^◌, ◌≤◌, ◌<◌, min, max, bit_and, bit_or, bit_xor, digits,
  differ, bit_and-bitwise, bit_or-bitwise, bit_xor-bitwise,
}
use mathlib.Core.Path.{◌≡◌, refl}
use mathlib.Core.Bool.{not, ◌||◌}
use native.Mathlib.Nat.{pow-suc}
use native.Mathlib.Omega.{arith}
use uni5db.Base.Tests.{ltb, ◌==◌, if◌then◌else◌}

-- Any two amounts of fuel from the first operand on give the same digits.
digits_spare :
    (base : ℕ → ℕ) (op : ℕ → ℕ → ℕ) (f g a b : ℕ)
    → a ≤ f
    → a ≤ g
    → digits base op f a b ≡ digits base op g a b
digits_spare base op zero zero zero b hf hg = refl
digits_spare base op zero (suc g) zero b hf hg = refl
digits_spare base op (suc f) zero zero b hf hg = refl
digits_spare base op (suc f) (suc g) zero b hf hg = refl
digits_spare base op zero g (suc a) b hf hg = absurd (omega arith)
digits_spare base op (suc f) zero (suc a) b hf hg = absurd (omega arith)
digits_spare base op (suc f) (suc g) (suc a) b hf hg =
    omega (arith, digits_spare base op f g (suc a / 2) (b / 2) (omega arith) (omega arith))

bit_xor_half : (a b : ℕ) → bit_xor a b ≡ bit_xor (a / 2) (b / 2) * 2 + differ (a % 2) (b % 2)
bit_xor_half zero b = simp bit_xor-bitwise (omega arith)
bit_xor_half (suc a) b = simp bit_xor-bitwise (
    omega (
      arith,
      digits_spare (λ y. y) differ a (suc a / 2) (suc a / 2) (b / 2) (omega arith) (omega arith),
    ))

bit_and_half : (a b : ℕ) → bit_and a b ≡ bit_and (a / 2) (b / 2) * 2 + min (a % 2) (b % 2)
bit_and_half zero b = simp bit_and-bitwise (omega arith)
bit_and_half (suc a) b = simp bit_and-bitwise (
    omega (
      arith,
      digits_spare (λ y. 0) min a (suc a / 2) (suc a / 2) (b / 2) (omega arith) (omega arith),
    ))

differ_zero : (a : ℕ) → differ a 0 ≡ a
differ_zero zero = refl
differ_zero (suc a) = refl

-- `v ^ 2^k` flips the top of `k + 1` bits.
pub bit_xor_top :
    (k v : ℕ) → v < 2 ^ suc k → bit_xor v (2 ^ k) ≡ (if ltb v (2 ^ k) then v + 2 ^ k else v - 2 ^ k)
bit_xor_top zero zero h = refl
bit_xor_top zero (suc zero) h = refl
bit_xor_top zero (suc (suc v)) h = absurd (omega arith)
bit_xor_top (suc k) v h = ground (
  arith,
  pow-suc 2 k,
  bit_xor_half v (2 ^ suc k),
  differ_zero (v % 2),
  bit_xor_top k (v / 2) (omega arith),
)

-- `v & 2^k` is not zero exactly when the top of `k + 1` bits is set.
pub bit_and_top :
    (k v : ℕ) → v < 2 ^ suc k → bit_and v (2 ^ k) ≡ (if ltb v (2 ^ k) then 0 else 2 ^ k)
bit_and_top zero zero h = refl
bit_and_top zero (suc zero) h = refl
bit_and_top zero (suc (suc v)) h = absurd (omega arith)
bit_and_top (suc k) v h =
    ground (arith, pow-suc 2 k, bit_and_half v (2 ^ suc k), bit_and_top k (v / 2) (omega arith))

bit_or_half : (a b : ℕ) → bit_or a b ≡ bit_or (a / 2) (b / 2) * 2 + max (a % 2) (b % 2)
bit_or_half zero b = simp bit_or-bitwise (omega arith)
bit_or_half (suc a) b = simp bit_or-bitwise (
    omega (
      arith,
      digits_spare (λ y. y) max a (suc a / 2) (suc a / 2) (b / 2) (omega arith) (omega arith),
    ))

bit_and_zero : (a b : ℕ) → b ≤ a → bit_and b 0 ≡ 0
bit_and_zero zero b h = let none : b ≡ 0 = omega arith in rw none refl
bit_and_zero (suc a) b h = omega (arith, bit_and_half b 0, bit_and_zero a (b / 2) (omega arith))

-- The bit at a place.
abbrev pub bit : ℕ → ℕ → ℕ
bit n zero = n % 2
bit n (suc k) = bit (n / 2) k

bit_small : (n k : ℕ) → bit n k < 2
bit_small n zero = omega arith
bit_small n (suc k) = bit_small (n / 2) k

pub bit_and-bit : (k n : ℕ) → bit_and n (2 ^ k) ≡ bit n k * 2 ^ k
bit_and-bit zero n = omega (arith, bit_and_half n 1, bit_and_zero n (n / 2) (omega arith))
bit_and-bit (suc k) n =
    let half : 2 ^ suc k / 2 ≡ 2 ^ k = omega (arith, pow-suc 2 k) in
    let even : 2 ^ suc k % 2 ≡ 0 = omega (arith, pow-suc 2 k) in
    rw (bit_and_half n (2 ^ suc k), half, even, bit_and-bit k (n / 2), pow-suc 2 k) (grind arith)

bit_or-bit : (k n m : ℕ) → bit (bit_or n m) k ≡ max (bit n k) (bit m k)
bit_or-bit zero n m = omega (arith, bit_or_half n m)
bit_or-bit (suc k) n m =
    let half : bit_or n m / 2 ≡ bit_or (n / 2) (m / 2) = omega (arith, bit_or_half n m) in
    rw half (bit_or-bit k (n / 2) (m / 2))

pub bit_zero : (k : ℕ) → bit 0 k ≡ 0
bit_zero zero = refl
bit_zero (suc k) = bit_zero k

bit-pow : (j k : ℕ) → bit (2 ^ j) k ≡ (if j == k then 1 else 0)
bit-pow zero zero = refl
bit-pow zero (suc k) = ground (arith, bit_zero k)
bit-pow (suc j) zero = ground (arith, pow-suc 2 j)
bit-pow (suc j) (suc k) =
    let half : 2 ^ suc j / 2 ≡ 2 ^ j = omega (arith, pow-suc 2 j) in
    rw half (ground (arith, bit-pow j k))

pow_positive : (k : ℕ) → 0 < 2 ^ k
pow_positive zero = omega arith
pow_positive (suc k) = omega (arith, pow-suc 2 k, pow_positive k)

times_pow : (x k : ℕ) → (x * 2 ^ k == 0) ≡ (x == 0)
times_pow zero k = ground arith
times_pow (suc x) k =
    let above : suc x * 2 ^ k ≡ 2 ^ k + x * 2 ^ k = grind arith in ground (arith, pow_positive k)

-- Setting a bit and testing one, as `byte |= 1 << j` and `byte & 1 << k != 0`.
pub bit_and-bit_or :
    (n j k : ℕ)
    → not (bit_and (bit_or n (2 ^ j)) (2 ^ k) == 0) ≡ (j == k || not (bit_and n (2 ^ k) == 0))
bit_and-bit_or n j k =
    rw
      (
        bit_and-bit k (bit_or n (2 ^ j)),
        bit_and-bit k n,
        bit_or-bit k n (2 ^ j),
        bit-pow j k,
        times_pow,
        times_pow (bit n k) k,
      )
      (ground (arith, bit_small n k))
