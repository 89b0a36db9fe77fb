-- ===== src/Bytes/Trim.antt =====
-- `str::trim` of the standard library on UTF-8 bytes: the characters with the property White_Space are
-- removed at both ends.
use uni5db.Base.{ℕ, zero, suc, List, [], ◌∷◌, Option, none, some, map, reverse, length}
use uni5db.Bytes.{Bytes, strip_prefix}

-- Their encodings.
abbrev pub spaces : List Bytes
spaces =
    (9 ∷ [])
    ∷ (10 ∷ [])
    ∷ (11 ∷ [])
    ∷ (12 ∷ [])
    ∷ (13 ∷ [])
    ∷ (32 ∷ [])
    ∷ (0xC2 ∷ 0x85 ∷ [])
    ∷ (0xC2 ∷ 0xA0 ∷ [])
    ∷ (0xE1 ∷ 0x9A ∷ 0x80 ∷ [])
    ∷ (0xE2 ∷ 0x80 ∷ 0x80 ∷ [])
    ∷ (0xE2 ∷ 0x80 ∷ 0x81 ∷ [])
    ∷ (0xE2 ∷ 0x80 ∷ 0x82 ∷ [])
    ∷ (0xE2 ∷ 0x80 ∷ 0x83 ∷ [])
    ∷ (0xE2 ∷ 0x80 ∷ 0x84 ∷ [])
    ∷ (0xE2 ∷ 0x80 ∷ 0x85 ∷ [])
    ∷ (0xE2 ∷ 0x80 ∷ 0x86 ∷ [])
    ∷ (0xE2 ∷ 0x80 ∷ 0x87 ∷ [])
    ∷ (0xE2 ∷ 0x80 ∷ 0x88 ∷ [])
    ∷ (0xE2 ∷ 0x80 ∷ 0x89 ∷ [])
    ∷ (0xE2 ∷ 0x80 ∷ 0x8A ∷ [])
    ∷ (0xE2 ∷ 0x80 ∷ 0xA8 ∷ [])
    ∷ (0xE2 ∷ 0x80 ∷ 0xA9 ∷ [])
    ∷ (0xE2 ∷ 0x80 ∷ 0xAF ∷ [])
    ∷ (0xE2 ∷ 0x81 ∷ 0x9F ∷ [])
    ∷ (0xE3 ∷ 0x80 ∷ 0x80 ∷ [])
    ∷ []

-- The text without the first of the prefixes that it has.
unfoldable pub strip_any : List Bytes → Bytes → Option Bytes
strip_any [] s = none
strip_any (p ∷ ps) s = elim (strip_prefix s p) [ none ↦ strip_any ps s | some rest ↦ some rest ]

-- Every round removes a byte at least, so the length is fuel enough.
unfoldable pub strip_all : List Bytes → ℕ → Bytes → Bytes
strip_all ps zero s = s
strip_all ps (suc fuel) s = elim (strip_any ps s) [ none ↦ s | some rest ↦ strip_all ps fuel rest ]

unfoldable pub trim_start : Bytes → Bytes
trim_start s = strip_all spaces (length s) s

unfoldable pub trim_end : Bytes → Bytes
trim_end s = reverse (strip_all (map reverse spaces) (length s) (reverse s))

unfoldable pub trim : Bytes → Bytes
trim s = trim_end (trim_start s)
