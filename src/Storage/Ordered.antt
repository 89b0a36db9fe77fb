-- ===== src/Storage/Ordered.antt =====
-- `encode_ordered_f32`, `decode_ordered_f32` and their 64-bit versions of
-- src/storage_layout/tuple_codec.rs (the same text stands in src/codec.rs), over the bit patterns of
-- the floats, and the sign flip of the integers.
use uni5db.Base.{
  ℕ, suc, ◌-◌, ◌^◌, ◌<◌, ◌≡◌, Bool, true, false, not, arith, ltb, ◌==◌, if◌then◌else◌, bit_and,
  bit_xor, length,
}
use native.Mathlib.Nat.{pow-suc, one-le-pow}
use uni5db.Base.Bits.{bit_xor_top, bit_and_top}
use uni5db.Bytes.{Bytes}
use uni5db.Bytes.BigEndian.{
  to_be_bytes, from_be_bytes, from_be_bytes-to_be_bytes, length-to_be_bytes,
}

-- A word of `k + 1` bits with its top bit flipped.
unfoldable pub flip_top : ℕ → ℕ → ℕ
flip_top k v = bit_xor v (2 ^ k)

-- `if bits & top == 0 { bits ^ top } else { !bits }`
unfoldable pub order_bits : ℕ → ℕ → ℕ
order_bits k bits = if bit_and bits (2 ^ k) == 0 then bit_xor bits (2 ^ k) else 2 ^ suc k - 1 - bits

-- `if ordered & top != 0 { ordered ^ top } else { !ordered }`
unfoldable pub unorder_bits : ℕ → ℕ → ℕ
unorder_bits k ordered =
    if not (bit_and ordered (2 ^ k) == 0) then bit_xor ordered (2 ^ k) else 2 ^ suc k - 1 - ordered

unfoldable pub encode_ordered_f32 : ℕ → Bytes
encode_ordered_f32 value = to_be_bytes 4 (order_bits 31 value)

unfoldable pub decode_ordered_f32 : Bytes → ℕ
decode_ordered_f32 bytes = unorder_bits 31 (from_be_bytes bytes)

unfoldable pub encode_ordered_f64 : ℕ → Bytes
encode_ordered_f64 value = to_be_bytes 8 (order_bits 63 value)

unfoldable pub decode_ordered_f64 : Bytes → ℕ
decode_ordered_f64 bytes = unorder_bits 63 (from_be_bytes bytes)

module _ (k v : ℕ) (h : v < 2 ^ suc k) where
  pub flip_top-lt : flip_top k v < 2 ^ suc k
  unfolding flip_top
  flip_top-lt = ground (arith, bit_xor_top k v h, pow-suc 2 k)

  pub order_bits-lt : order_bits k v < 2 ^ suc k
  unfolding order_bits
  order_bits-lt = ground (arith, bit_xor_top k v h, bit_and_top k v h, pow-suc 2 k, one-le-pow k 2)

pub flip_top-flip_top : (k v : ℕ) → v < 2 ^ suc k → flip_top k (flip_top k v) ≡ v
unfolding flip_top
flip_top-flip_top k v h =
    ground
      (arith, bit_xor_top k v h, bit_xor_top k (bit_xor v (2 ^ k)), flip_top-lt k v h, pow-suc 2 k)

pub unorder_bits-order_bits : (k v : ℕ) → v < 2 ^ suc k → unorder_bits k (order_bits k v) ≡ v
unfolding unorder_bits order_bits
unorder_bits-order_bits k v h = ground (
  arith,
  bit_xor_top k v h,
  bit_and_top k v h,
  bit_xor_top k (order_bits k v) (order_bits-lt k v h),
  bit_and_top k (order_bits k v) (order_bits-lt k v h),
  pow-suc 2 k,
  one-le-pow k 2,
)

-- The sign flip orders bit patterns as the signed integers that they stand for.
abbrev pub signed_lt : ℕ → ℕ → ℕ → Bool
signed_lt k a b =
    if ltb a (2 ^ k)
    then (if ltb b (2 ^ k) then ltb a b else false)
    else (if ltb b (2 ^ k) then true else ltb a b)

pub ltb-flip_top :
    (k a b : ℕ)
    → a < 2 ^ suc k
    → b < 2 ^ suc k
    → ltb (flip_top k a) (flip_top k b) ≡ signed_lt k a b
unfolding flip_top
ltb-flip_top k a b ha hb = ground (arith, bit_xor_top k a ha, bit_xor_top k b hb, pow-suc 2 k)

-- The order of IEEE floats by sign and magnitude, -0.0 below 0.0: of two negative ones the greater
-- magnitude is the smaller number.
abbrev pub float_lt : ℕ → ℕ → ℕ → Bool
float_lt k a b =
    if ltb a (2 ^ k)
    then (if ltb b (2 ^ k) then ltb a b else false)
    else (if ltb b (2 ^ k) then true else ltb b a)

-- The ordered forms of two floats, given by their bit patterns, compare as the floats do by sign and
-- magnitude, with -0 below +0.
pub ltb-order_bits :
    (k a b : ℕ)
    → a < 2 ^ suc k
    → b < 2 ^ suc k
    → ltb (order_bits k a) (order_bits k b) ≡ float_lt k a b
unfolding order_bits
ltb-order_bits k a b ha hb = ground (
  arith,
  bit_xor_top k a ha,
  bit_xor_top k b hb,
  bit_and_top k a ha,
  bit_and_top k b hb,
  pow-suc 2 k,
  one-le-pow k 2,
)

pub decode_ordered_f32-encode_ordered_f32 :
    (v : ℕ) → v < 2 ^ 32 → decode_ordered_f32 (encode_ordered_f32 v) ≡ v
unfolding decode_ordered_f32 encode_ordered_f32
decode_ordered_f32-encode_ordered_f32 v h =
    rw (from_be_bytes-to_be_bytes 4 (order_bits 31 v) (order_bits-lt 31 v h))
      (unorder_bits-order_bits 31 v h)

-- A 64-bit float is read back, bit for bit, from its ordered form.
pub decode_ordered_f64-encode_ordered_f64 :
    (v : ℕ) → v < 2 ^ 64 → decode_ordered_f64 (encode_ordered_f64 v) ≡ v
unfolding decode_ordered_f64 encode_ordered_f64
decode_ordered_f64-encode_ordered_f64 v h =
    rw (from_be_bytes-to_be_bytes 8 (order_bits 63 v) (order_bits-lt 63 v h))
      (unorder_bits-order_bits 63 v h)

pub length-ordered_f32 : (v : ℕ) → length (encode_ordered_f32 v) ≡ 4
unfolding encode_ordered_f32
length-ordered_f32 v = length-to_be_bytes 4 (order_bits 31 v)

pub length-ordered_f64 : (v : ℕ) → length (encode_ordered_f64 v) ≡ 8
unfolding encode_ordered_f64
length-ordered_f64 v = length-to_be_bytes 8 (order_bits 63 v)
