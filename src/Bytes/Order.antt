-- ===== src/Bytes/Order.antt =====
-- Laws of equality, order and prefixes of byte slices.
use uni5db.Base.{
  ◌≡◌, refl, ◌↔◌, true, false, ◌&&◌, ◌||◌, not, [], ◌∷◌, ◌++◌, some, arith, if◌then◌else◌, length,
}
use uni5db.Bytes.{Bytes, bytes_eq, bytes_lt, starts_with, strip_prefix}

pub bytes_eq_refl : (a : Bytes) → bytes_eq a a ≡ true
unfolding bytes_eq
bytes_eq_refl [] = refl
bytes_eq_refl (x ∷ xs) = ground (arith, bytes_eq_refl xs)

pub bytes_eq→eq : (a b : Bytes) → bytes_eq a b ≡ true → a ≡ b
unfolding bytes_eq
bytes_eq→eq [] [] h = refl
bytes_eq→eq [] (y ∷ ys) h = cc
bytes_eq→eq (x ∷ xs) [] h = cc
bytes_eq→eq (x ∷ xs) (y ∷ ys) h = ground (arith, bytes_eq→eq xs ys)

pub bytes_eq_sym : (a b : Bytes) → bytes_eq a b ≡ bytes_eq b a
unfolding bytes_eq
bytes_eq_sym [] [] = refl
bytes_eq_sym [] (y ∷ ys) = refl
bytes_eq_sym (x ∷ xs) [] = refl
bytes_eq_sym (x ∷ xs) (y ∷ ys) = ground (arith, bytes_eq_sym xs ys)

pub bytes_eq_iff : (a b : Bytes) → (bytes_eq a b ≡ true) ↔ (a ≡ b)
bytes_eq_iff a b = (bytes_eq→eq a b, λ e. ground (arith, bytes_eq_refl a))

pub bytes_lt_irrefl : (a : Bytes) → bytes_lt a a ≡ false
unfolding bytes_lt
bytes_lt_irrefl [] = refl
bytes_lt_irrefl (x ∷ xs) = ground (arith, bytes_lt_irrefl xs)

pub bytes_lt_trans :
    (a b c : Bytes) → bytes_lt a b ≡ true → bytes_lt b c ≡ true → bytes_lt a c ≡ true
unfolding bytes_lt
bytes_lt_trans xs [] zs h k = cc
bytes_lt_trans [] (y ∷ ys) [] h k = cc
bytes_lt_trans [] (y ∷ ys) (z ∷ zs) h k = refl
bytes_lt_trans (x ∷ xs) (y ∷ ys) [] h k = cc
bytes_lt_trans (x ∷ xs) (y ∷ ys) (z ∷ zs) h k = ground (arith, bytes_lt_trans xs ys zs)

-- Exactly one of `a < b`, `a = b` and `b < a` holds.
pub bytes_lt_total : (a b : Bytes) → bytes_lt b a ≡ not (bytes_lt a b || bytes_eq a b)
unfolding bytes_lt bytes_eq
bytes_lt_total [] [] = refl
bytes_lt_total [] (y ∷ ys) = refl
bytes_lt_total (x ∷ xs) [] = refl
bytes_lt_total (x ∷ xs) (y ∷ ys) = ground (arith, bytes_lt_total xs ys)

pub bytes_lt_eq : (a b : Bytes) → bytes_eq a b ≡ true → bytes_lt a b ≡ false
unfolding bytes_lt bytes_eq
bytes_lt_eq [] [] h = refl
bytes_lt_eq [] (y ∷ ys) h = cc
bytes_lt_eq (x ∷ xs) [] h = cc
bytes_lt_eq (x ∷ xs) (y ∷ ys) h = ground (arith, bytes_lt_eq xs ys)

-- Slices of one length are compared before what follows them.
pub bytes_lt-append :
    (a b c d : Bytes)
    → length a ≡ length b
    → bytes_lt (a ++ c) (b ++ d) ≡ (if bytes_eq a b then bytes_lt c d else bytes_lt a b)
unfolding bytes_lt bytes_eq
bytes_lt-append [] [] c d h = refl
bytes_lt-append [] (y ∷ ys) c d h = absurd (omega arith)
bytes_lt-append (x ∷ xs) [] c d h = absurd (omega arith)
bytes_lt-append (x ∷ xs) (y ∷ ys) c d h = ground (arith, bytes_lt-append xs ys c d (omega arith))

pub bytes_eq-append :
    (a b c d : Bytes)
    → length a ≡ length b
    → bytes_eq (a ++ c) (b ++ d) ≡ (bytes_eq a b && bytes_eq c d)
unfolding bytes_eq
bytes_eq-append [] [] c d h = refl
bytes_eq-append [] (y ∷ ys) c d h = absurd (omega arith)
bytes_eq-append (x ∷ xs) [] c d h = absurd (omega arith)
bytes_eq-append (x ∷ xs) (y ∷ ys) c d h = ground (arith, bytes_eq-append xs ys c d (omega arith))

pub bytes_lt_prefix : (p a b : Bytes) → bytes_lt (p ++ a) (p ++ b) ≡ bytes_lt a b
unfolding bytes_lt
bytes_lt_prefix [] a b = refl
bytes_lt_prefix (x ∷ p) a b = ground (arith, bytes_lt_prefix p a b)

pub starts_with-append : (p a : Bytes) → starts_with (p ++ a) p ≡ true
unfolding starts_with
starts_with-append [] a = refl
starts_with-append (x ∷ p) a = ground (arith, starts_with-append p a)

pub strip_prefix-append : (p a : Bytes) → strip_prefix (p ++ a) p ≡ some a
unfolding strip_prefix
strip_prefix-append [] a = refl
strip_prefix-append (x ∷ p) a = ground (arith, strip_prefix-append p a)

-- A slice that `strip_prefix` accepts is the prefix and the rest.
pub strip_prefix→append : (k p r : Bytes) → strip_prefix k p ≡ some r → k ≡ p ++ r
unfolding strip_prefix
strip_prefix→append k [] r h = ground arith
strip_prefix→append [] (y ∷ p) r h = cc
strip_prefix→append (x ∷ k) (y ∷ p) r h = ground (arith, strip_prefix→append k p r)
