-- ===== src/Storage/Tag.antt =====
-- The tag bytes of src/storage_layout/tuple_codec.rs.
use uni5db.Base.{ℕ, ◌≡◌, refl, Option, none, some, ◌==◌, if◌then◌else◌}

-- The arms of `match cursor.u8()?`.
pub data Tag : Type 0 where
  null boolean int16 int32 int64 text float32 float64 bytea array numeric date timestamp : Tag
  timestamp_tz uuid json jsonb : Tag

abbrev pub tag_byte : Tag → ℕ
tag_byte Tag.null = 0
tag_byte Tag.boolean = 1
tag_byte Tag.int16 = 16
tag_byte Tag.int32 = 2
tag_byte Tag.int64 = 3
tag_byte Tag.text = 4
tag_byte Tag.float32 = 5
tag_byte Tag.float64 = 6
tag_byte Tag.bytea = 7
tag_byte Tag.array = 8
tag_byte Tag.numeric = 9
tag_byte Tag.date = 10
tag_byte Tag.timestamp = 11
tag_byte Tag.timestamp_tz = 12
tag_byte Tag.uuid = 13
tag_byte Tag.json = 14
tag_byte Tag.jsonb = 15

unfoldable pub tag_of : ℕ → Option Tag
tag_of b =
    if b == 0
    then some Tag.null
    else if b == 1
    then some Tag.boolean
    else if b == 16
    then some Tag.int16
    else if b == 2
    then some Tag.int32
    else if b == 3
    then some Tag.int64
    else if b == 4
    then some Tag.text
    else if b == 5
    then some Tag.float32
    else if b == 6
    then some Tag.float64
    else if b == 7
    then some Tag.bytea
    else if b == 8
    then some Tag.array
    else if b == 9
    then some Tag.numeric
    else if b == 10
    then some Tag.date
    else if b == 11
    then some Tag.timestamp
    else if b == 12
    then some Tag.timestamp_tz
    else if b == 13
    then some Tag.uuid
    else if b == 14
    then some Tag.json
    else if b == 15
    then some Tag.jsonb
    else none

pub tag_of-tag_byte : (t : Tag) → tag_of (tag_byte t) ≡ some t
unfolding tag_of
tag_of-tag_byte Tag.null = refl
tag_of-tag_byte _ = refl
