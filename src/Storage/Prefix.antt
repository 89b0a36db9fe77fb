-- ===== src/Storage/Prefix.antt =====
-- `next_prefix` of src/storage_layout/tuple_codec.rs, and the range of the keys with a prefix.
use uni5db.Base.{
  ℕ, zero, suc, ◌+◌, ◌<◌, ◌≤◌, ◌≡◌, refl, ap, ◌∙◌, Bool, true, ◌&&◌, not, [], ◌∷◌, ◌++◌, Option,
  none, some, arith, ◌==◌, if◌then◌else◌, length, get_elem?, take, take-suc, All,
}
use uni5db.Bytes.{Bytes, IsByte, bytes_lt, starts_with}

-- The loop over the indices below `idx`, from the last one down.
next_prefix_below : ℕ → Bytes → Option Bytes
next_prefix_below zero upper = none
next_prefix_below (suc idx) upper =
    let lower = next_prefix_below idx upper in
    elim (get_elem? upper idx) [
      | none ↦ none
      | some b ↦ if b == 255 then lower else some (take idx upper ++ (b + 1) ∷ [])
    ]

unfoldable pub next_prefix : Bytes → Option Bytes
unfolding next_prefix_below
next_prefix prefix = next_prefix_below (length prefix) prefix

-- The bounds of a range scan: from `start` on, below `end` if there is one.
unfoldable pub in_range : Bytes → Option Bytes → Bytes → Bool
in_range start end key =
    not (bytes_lt key start) && (elim end [ none ↦ true | some e ↦ bytes_lt key e ])

-- The successor of all slices with a prefix, from the front.
successor : Bytes → Option Bytes
successor [] = none
successor (b ∷ bs) = elim (successor bs) [
  | none ↦ if b == 255 then none else some ((b + 1) ∷ [])
  | some u ↦ some (b ∷ u)
]

successor_snoc :
    (xs : Bytes) (b : ℕ)
    → successor (xs ++ b ∷ []) ≡ (if b == 255 then successor xs else some (xs ++ (b + 1) ∷ []))
unfolding successor
successor_snoc [] b = ground arith
successor_snoc (x ∷ xs) b = ground (arith, successor_snoc xs b)

get_elem?-lt : (xs : Bytes) (i : ℕ) → i < length xs → (b : ℕ) × (get_elem? xs i ≡ some b)
get_elem?-lt [] i h = absurd (omega arith)
get_elem?-lt (x ∷ xs) zero h = (x, refl)
get_elem?-lt (x ∷ xs) (suc i) h = get_elem?-lt xs i (omega arith)

below-successor :
    (i : ℕ) (xs : Bytes) → i ≤ length xs → next_prefix_below i xs ≡ successor (take i xs)
unfolding next_prefix_below
below-successor zero xs h = unfold successor in refl
below-successor (suc i) xs h =
    let (b, e) = get_elem?-lt xs i (omega arith) in
    rw (take-suc xs i b e, successor_snoc (take i xs) b, ← below-successor i xs (omega arith))
      (rw (e, next_prefix_below))

take_all : (xs : Bytes) → take (length xs) xs ≡ xs
take_all [] = refl
take_all (x ∷ xs) = ap (◌∷◌ x) (take_all xs)

next_prefix-successor : (p : Bytes) → next_prefix p ≡ successor p
unfolding next_prefix
next_prefix-successor p = below-successor (length p) p (omega arith) ∙ ap successor (take_all p)

successor_range : (p k : Bytes) → All IsByte k → in_range p (successor p) k ≡ starts_with k p
unfolding successor in_range starts_with bytes_lt
successor_range [] k h = ground arith
successor_range (b ∷ bs) [] h = ground arith
successor_range (b ∷ bs) (x ∷ xs) h = ground (arith, successor_range bs xs)

-- Among keys of bytes, the range from a prefix to its `next_prefix` holds exactly those that start
-- with the prefix.
pub in_range-next_prefix :
    (p k : Bytes) → All IsByte k → in_range p (next_prefix p) k ≡ starts_with k p
in_range-next_prefix p k h = rw (next_prefix-successor p) (successor_range p k h)
