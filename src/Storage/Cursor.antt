-- ===== src/Storage/Cursor.antt =====
-- src/storage_layout/cursor.rs, and `push_bytes_segment` and `read_bytes_segment` of
-- src/storage_layout/tuple_codec.rs. A method returns its value and the moved cursor; a function that
-- appends to a buffer returns what it appends.
pub mod At
use uni5db.Base.{
  ℕ, ◌+◌, ◌-◌, Bool, List, [], ◌∷◌, ◌++◌, none, some, String, ltb, ◌==◌, if◌then◌else◌, length,
  get_elem?, take, drop, Result, ok, err, user_error, ◌>>=◌,
}
use uni5db.Bytes.{Bytes}
use uni5db.Bytes.BigEndian.{to_be_bytes, from_be_bytes}

pub record Cursor : Type 0 where
  pub bytes : Bytes
  pub pos : ℕ

-- `bytes[start..end]`, in range.
abbrev pub slice : Bytes → ℕ → ℕ → Bytes
slice bytes start end = take (end - start) (drop start bytes)

unfoldable pub new : Bytes → Cursor
new bytes = record { bytes = bytes; pos = 0 }

unfoldable pub is_done : Cursor → Bool
is_done c = c.pos == length c.bytes

unfoldable pub u8 : Cursor → Result (ℕ × Cursor)
u8 c = elim (get_elem? c.bytes c.pos) [
  | none ↦ err (user_error "XX000" "truncated u8")
  | some value ↦ ok (value, record c { pos = c.pos + 1 })
]

-- The common shape of the fixed-width readers: a bound check, the slice, and the move.
unfoldable pub read_be : ℕ → String → Cursor → Result (ℕ × Cursor)
read_be width message c =
    if ltb (length c.bytes) (c.pos + width)
    then err (user_error "XX000" message)
    else ok (from_be_bytes (slice c.bytes c.pos (c.pos + width)), record c { pos = c.pos + width })

unfoldable pub u32 : Cursor → Result (ℕ × Cursor)
unfolding read_be
u32 = read_be 4 "truncated u32"

unfoldable pub u64 : Cursor → Result (ℕ × Cursor)
unfolding read_be
u64 = read_be 8 "truncated u64"

unfoldable pub i16 : Cursor → Result (ℕ × Cursor)
unfolding read_be
i16 = read_be 2 "truncated i16"

unfoldable pub i32 : Cursor → Result (ℕ × Cursor)
unfolding read_be
i32 = read_be 4 "truncated i32"

unfoldable pub i64 : Cursor → Result (ℕ × Cursor)
unfolding read_be
i64 = read_be 8 "truncated i64"

unfoldable pub f32 : Cursor → Result (ℕ × Cursor)
unfolding read_be
f32 = read_be 4 "truncated f32"

unfoldable pub f64 : Cursor → Result (ℕ × Cursor)
unfolding read_be
f64 = read_be 8 "truncated f64"

unfoldable pub push_bytes_segment : Bytes → Bytes
push_bytes_segment bytes = to_be_bytes 4 (length bytes) ++ bytes

unfoldable pub read_bytes_segment : Bytes → Result (Bytes × ℕ)
read_bytes_segment bytes =
    if ltb (length bytes) 4
    then err (user_error "XX000" "truncated bytes segment length")
    else let len = from_be_bytes (take 4 bytes) in
      if ltb (length bytes) (4 + len)
      then err (user_error "XX000" "truncated bytes segment")
      else ok (slice bytes 4 (4 + len), 4 + len)

unfoldable pub bytes_segment : Cursor → Result (Bytes × Cursor)
bytes_segment c = do
  (bytes, consumed) ← read_bytes_segment (drop c.pos c.bytes)
  ok (bytes, record c { pos = c.pos + consumed })

unfoldable pub skip : ℕ → Cursor → Result Cursor
skip len c =
    if ltb (length c.bytes) (c.pos + len)
    then err (user_error "XX000" "truncated tuple value")
    else ok (record c { pos = c.pos + len })

unfoldable pub skip_bytes_segment : Cursor → Result Cursor
skip_bytes_segment c = do
  (_, consumed) ← read_bytes_segment (drop c.pos c.bytes)
  ok (record c { pos = c.pos + consumed })
