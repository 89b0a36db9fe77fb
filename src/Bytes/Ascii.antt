-- ===== src/Bytes/Ascii.antt =====
-- `to_ascii_lowercase` of the standard library.
use uni5db.Base.{ℕ, ◌+◌, ◌&&◌, leb, if◌then◌else◌, map}
use uni5db.Bytes.{Bytes}

lower_byte : ℕ → ℕ
lower_byte b = if leb b'A' b && leb b b'Z' then b + 32 else b

unfoldable pub to_ascii_lowercase : Bytes → Bytes
unfolding lower_byte
to_ascii_lowercase = map lower_byte
