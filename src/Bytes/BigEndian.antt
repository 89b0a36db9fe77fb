-- ===== src/Bytes/BigEndian.antt =====
-- `to_be_bytes` and `from_be_bytes` of Rust's unsigned integers. A signed integer and a float go by
-- their bit patterns.
use native.Mathlib.Nat.{pow-suc}
use uni5db.Base.{
  ℕ, zero, suc, ◌+◌, ◌*◌, ◌/◌, ◌%◌, ◌^◌, ◌<◌, ◌≡◌, refl, [], ◌∷◌, ◌++◌, arith, ltb, ◌==◌, length,
  length-append, All, All-append,
}
use uni5db.Bytes.{Bytes, IsByte, bytes_eq, bytes_lt}
use uni5db.Bytes.Order.{bytes_lt-append, bytes_eq-append}

-- `n` bytes of `v`, the highest first.
unfoldable pub to_be_bytes : ℕ → ℕ → Bytes
to_be_bytes zero v = []
to_be_bytes (suc n) v = to_be_bytes n (v / 256) ++ (v % 256 ∷ [])

be_from : ℕ → Bytes → ℕ
be_from acc [] = acc
be_from acc (b ∷ bs) = be_from (acc * 256 + b) bs

unfoldable pub from_be_bytes : Bytes → ℕ
unfolding be_from
from_be_bytes = be_from 0

be_from_snoc :
    (acc : ℕ) (bs : Bytes) (b : ℕ) → be_from acc (bs ++ b ∷ []) ≡ be_from acc bs * 256 + b
unfolding be_from
be_from_snoc acc [] b = refl
be_from_snoc acc (x ∷ bs) b = be_from_snoc (acc * 256 + x) bs b

pub from_be_bytes-to_be_bytes : (n v : ℕ) → v < 256 ^ n → from_be_bytes (to_be_bytes n v) ≡ v
unfolding from_be_bytes to_be_bytes
from_be_bytes-to_be_bytes zero v h = omega arith
from_be_bytes-to_be_bytes (suc n) v h = omega (
  arith,
  be_from_snoc 0 (to_be_bytes n (v / 256)) (v % 256),
  pow-suc 256 n,
  from_be_bytes-to_be_bytes n (v / 256) (omega (arith, pow-suc 256 n)),
)

pub length-to_be_bytes : (n v : ℕ) → length (to_be_bytes n v) ≡ n
unfolding to_be_bytes
length-to_be_bytes zero v = refl
length-to_be_bytes (suc n) v =
    omega (
      arith,
      length-append (to_be_bytes n (v / 256)) (v % 256 ∷ []),
      length-to_be_bytes n (v / 256),
    )

pub to_be_bytes-IsByte : (n v : ℕ) → All IsByte (to_be_bytes n v)
unfolding to_be_bytes
to_be_bytes-IsByte zero v = tt
to_be_bytes-IsByte (suc n) v =
    All-append IsByte (to_be_bytes n (v / 256)) (v % 256 ∷ []) (to_be_bytes-IsByte n (v / 256))
      (omega arith)

pub bytes_eq-to_be_bytes :
    (n v w : ℕ)
    → v < 256 ^ n
    → w < 256 ^ n
    → bytes_eq (to_be_bytes n v) (to_be_bytes n w) ≡ (v == w)
unfolding to_be_bytes bytes_eq
bytes_eq-to_be_bytes zero v w hv hw = ground arith
bytes_eq-to_be_bytes (suc n) v w hv hw = ground (
  arith,
  pow-suc 256 n,
  length-to_be_bytes n (v / 256),
  length-to_be_bytes n (w / 256),
  bytes_eq-append (to_be_bytes n (v / 256)) (to_be_bytes n (w / 256)) (v % 256 ∷ []) (w % 256 ∷ []),
  bytes_eq-to_be_bytes n (v / 256) (w / 256),
)

-- The bytes are ordered as the numbers are.
pub bytes_lt-to_be_bytes :
    (n v w : ℕ) → v < 256 ^ n → w < 256 ^ n → bytes_lt (to_be_bytes n v) (to_be_bytes n w) ≡ ltb v w
unfolding to_be_bytes bytes_lt
bytes_lt-to_be_bytes zero v w hv hw = ground arith
bytes_lt-to_be_bytes (suc n) v w hv hw = ground (
  arith,
  pow-suc 256 n,
  length-to_be_bytes n (v / 256),
  length-to_be_bytes n (w / 256),
  bytes_lt-append (to_be_bytes n (v / 256)) (to_be_bytes n (w / 256)) (v % 256 ∷ []) (w % 256 ∷ []),
  bytes_lt-to_be_bytes n (v / 256) (w / 256),
  bytes_eq-to_be_bytes n (v / 256) (w / 256),
)
