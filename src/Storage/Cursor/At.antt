-- ===== src/Storage/Cursor/At.antt =====
-- What a read gives at a known place of the input: `at pre rest` has read `pre` and not `rest`.
use uni5db.Base.{
  ℕ, ◌+◌, ◌-◌, ◌^◌, ◌<◌, ◌≡◌, refl, sym, ap, true, false, [], ◌∷◌, ◌++◌, append_assoc, some, arith,
  ltb, length, length-append, get_elem?, drop_append_length, take_append, drop_append,
  take_append_length, ok, ◌>>=◌, Result, String,
}
use uni5db.Bytes.{Bytes}
use uni5db.Bytes.BigEndian.{
  to_be_bytes, from_be_bytes, from_be_bytes-to_be_bytes, length-to_be_bytes,
}
use uni5db.Storage.Cursor.{
  Cursor, slice, is_done, u8, read_be, u32, u64, i16, i32, i64, f32, f64, push_bytes_segment,
  read_bytes_segment, bytes_segment,
}

abbrev pub at : Bytes → Bytes → Cursor
at pre rest = record { bytes = pre ++ rest; pos = length pre }

at_moved :
    (pre x rest : Bytes) (n : ℕ)
    → length x ≡ n
    → ◌≡◌ {A = Cursor}
        (record { bytes = pre ++ (x ++ rest); pos = length pre + n })
        (at (pre ++ x) rest)
at_moved pre x rest n h = λ i. record { bytes = (sym (append_assoc pre x rest)) i; pos = moved i }
  where
    moved : length pre + n ≡ length (pre ++ x)
    moved = omega (arith, length-append pre x)

pub get_elem?-append :
    (pre : Bytes) (b : ℕ) (rest : Bytes) → get_elem? (pre ++ b ∷ rest) (length pre) ≡ some b
get_elem?-append [] b rest = refl
get_elem?-append (x ∷ pre) b rest = get_elem?-append pre b rest

pub u8-at :
    (pre : Bytes) (b : ℕ) (rest : Bytes) → u8 (at pre (b ∷ rest)) ≡ ok (b, at (pre ++ b ∷ []) rest)
unfolding u8
u8-at pre b rest =
    rw (get_elem?-append pre b rest, u8) (ap (λ c. ok (b, c)) (at_moved pre (b ∷ []) rest 1 refl))

pub slice_at :
    (pre x rest : Bytes) → slice (pre ++ (x ++ rest)) (length pre) (length pre + length x) ≡ x
slice_at pre x rest =
    let width : length pre + length x - length pre ≡ length x = omega arith in
    rw (width, drop_append_length pre (x ++ rest)) (take_append_length x rest)

enough_at : (pre x rest : Bytes) → ltb (length (pre ++ (x ++ rest))) (length pre + length x) ≡ false
enough_at pre x rest = ground (arith, length-append pre (x ++ rest), length-append x rest)

read_be-at :
    (n : ℕ) (message : String) (pre x rest : Bytes)
    → length x ≡ n
    → read_be n message (at pre (x ++ rest)) ≡ ok (from_be_bytes x, at (pre ++ x) rest)
unfolding read_be
read_be-at n message pre x rest h = rw (← h) (
    rw (enough_at pre x rest, slice_at pre x rest)
      (ap (λ c. ok (from_be_bytes x, c)) (at_moved pre x rest (length x) refl)))

-- A fixed-width reader gives back the number whose bytes stand at the cursor.
read_be_number :
    (n : ℕ) (message : String) (pre : Bytes) (v : ℕ) (rest : Bytes)
    → v < 256 ^ n
    → read_be n message (at pre (to_be_bytes n v ++ rest))
      ≡ ok (v, at (pre ++ to_be_bytes n v) rest)
read_be_number n message pre v rest h = rw (
  read_be-at n message pre (to_be_bytes n v) rest (length-to_be_bytes n v),
  from_be_bytes-to_be_bytes n v h,
)

module _ (pre : Bytes) (v : ℕ) (rest : Bytes) where
  pub u32-at :
      v < 2 ^ 32 → u32 (at pre (to_be_bytes 4 v ++ rest)) ≡ ok (v, at (pre ++ to_be_bytes 4 v) rest)
  unfolding u32
  u32-at h = read_be_number 4 _ pre v rest h

  pub u64-at :
      v < 2 ^ 64 → u64 (at pre (to_be_bytes 8 v ++ rest)) ≡ ok (v, at (pre ++ to_be_bytes 8 v) rest)
  unfolding u64
  u64-at h = read_be_number 8 _ pre v rest h

  pub i16-at :
      v < 2 ^ 16 → i16 (at pre (to_be_bytes 2 v ++ rest)) ≡ ok (v, at (pre ++ to_be_bytes 2 v) rest)
  unfolding i16
  i16-at h = read_be_number 2 _ pre v rest h

  pub i32-at :
      v < 2 ^ 32 → i32 (at pre (to_be_bytes 4 v ++ rest)) ≡ ok (v, at (pre ++ to_be_bytes 4 v) rest)
  unfolding i32
  i32-at h = read_be_number 4 _ pre v rest h

  pub i64-at :
      v < 2 ^ 64 → i64 (at pre (to_be_bytes 8 v ++ rest)) ≡ ok (v, at (pre ++ to_be_bytes 8 v) rest)
  unfolding i64
  i64-at h = read_be_number 8 _ pre v rest h

  pub f32-at :
      v < 2 ^ 32 → f32 (at pre (to_be_bytes 4 v ++ rest)) ≡ ok (v, at (pre ++ to_be_bytes 4 v) rest)
  unfolding f32
  f32-at h = read_be_number 4 _ pre v rest h

  pub f64-at :
      v < 2 ^ 64 → f64 (at pre (to_be_bytes 8 v ++ rest)) ≡ ok (v, at (pre ++ to_be_bytes 8 v) rest)
  unfolding f64
  f64-at h = read_be_number 8 _ pre v rest h

read_segment :
    (header x rest : Bytes)
    → length header ≡ 4
    → from_be_bytes header ≡ length x
    → read_bytes_segment (header ++ (x ++ rest)) ≡ ok (x, 4 + length x)
unfolding read_bytes_segment
read_segment header x rest wide len =
    let body : Bytes = x ++ rest in
    rw (take_append 4 header body wide, drop_append 4 header body wide, len)
      (ground (
        arith,
        wide,
        length-append header body,
        length-append x rest,
        take_append (4 + length x - 4) x rest (omega arith),
      ))

-- A segment whose length fits 32 bits is read back with the number of bytes that it took, whatever
-- follows it.
pub read_bytes_segment-push :
    (x rest : Bytes)
    → length x < 2 ^ 32
    → read_bytes_segment (push_bytes_segment x ++ rest) ≡ ok (x, 4 + length x)
unfolding push_bytes_segment
read_bytes_segment-push x rest h = rw (append_assoc (to_be_bytes 4 (length x)) x rest) (
    read_segment (to_be_bytes 4 (length x)) x rest (length-to_be_bytes 4 (length x))
      (from_be_bytes-to_be_bytes 4 (length x) h))

pub length-push_bytes_segment : (x : Bytes) → length (push_bytes_segment x) ≡ 4 + length x
unfolding push_bytes_segment
length-push_bytes_segment x =
    omega (arith, length-append (to_be_bytes 4 (length x)) x, length-to_be_bytes 4 (length x))

pub bytes_segment-at :
    (pre x rest : Bytes)
    → length x < 2 ^ 32
    → bytes_segment (at pre (push_bytes_segment x ++ rest))
      ≡ ok (x, at (pre ++ push_bytes_segment x) rest)
unfolding bytes_segment
bytes_segment-at pre x rest h =
    rw
      (
        drop_append_length pre (push_bytes_segment x ++ rest),
        read_bytes_segment-push x rest h,
        ◌>>=◌,
        bytes_segment,
      )
      (ap (λ c. ok (x, c))
        (at_moved pre (push_bytes_segment x) rest (4 + length x) (length-push_bytes_segment x)))

pub is_done-at : (pre : Bytes) → is_done (at pre []) ≡ true
unfolding is_done
is_done-at pre = ground (arith, length-append pre [])

-- Reads at the cursor the value that `bytes` spell, and moves behind them.
abbrev pub Reads : {A : Type 0} → (Cursor → Result (A × Cursor)) → Bytes → A → Type 0
Reads read bytes a =
    (pre rest : Bytes) → read (at pre (bytes ++ rest)) ≡ ok (a, at (pre ++ bytes) rest)
