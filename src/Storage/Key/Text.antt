-- ===== src/Storage/Key/Text.antt =====
-- Where the key format of src/storage_layout/olap_stats.rs departs from the order of the values, and
-- where its decoder has no arm.
use uni5db.Base.{◌<◌, ◌^◌, ◌≡◌, sym, ◌∙◌, ◌++◌, append_assoc, ltb, ◌==◌, if◌then◌else◌, length}
use uni5db.Bytes.{Bytes, bytes_lt}
use uni5db.Bytes.Order.{bytes_lt-append}
use uni5db.Bytes.BigEndian.{
  to_be_bytes, length-to_be_bytes, bytes_lt-to_be_bytes, bytes_eq-to_be_bytes,
}
use uni5db.Types.Value.{text}
use uni5db.Types.DataType.{DataType}
use uni5db.Storage.Cursor.{push_bytes_segment}
use uni5db.Storage.Key.{encode_key_value}

segments_lt :
    (a b c d : Bytes)
    → length a < 2 ^ 32
    → length b < 2 ^ 32
    → bytes_lt (push_bytes_segment a ++ c) (push_bytes_segment b ++ d)
      ≡ (if length a == length b then bytes_lt (a ++ c) (b ++ d) else ltb (length a) (length b))
unfolding push_bytes_segment
segments_lt a b c d ha hb =
    let la : Bytes = to_be_bytes 4 (length a) in
    let lb : Bytes = to_be_bytes 4 (length b) in
    rw (
      append_assoc la a c,
      append_assoc lb b d,
      bytes_lt-append la lb (a ++ c) (b ++ d)
          (length-to_be_bytes 4 (length a) ∙ sym (length-to_be_bytes 4 (length b))),
      bytes_eq-to_be_bytes 4 (length a) (length b) ha hb,
      bytes_lt-to_be_bytes 4 (length a) (length b) ha hb,
    )

-- The keys of two texts whose lengths fit 32 bits compare by the lengths of the texts, and only the
-- keys of texts of one length by their bytes.
pub bytes_lt-encode_key_value-text :
    (a b c d : Bytes)
    → length a < 2 ^ 32
    → length b < 2 ^ 32
    → bytes_lt (encode_key_value (text a) ++ c) (encode_key_value (text b) ++ d)
      ≡ (if length a == length b then bytes_lt (a ++ c) (b ++ d) else ltb (length a) (length b))
unfolding encode_key_value bytes_lt
bytes_lt-encode_key_value-text a b c d ha hb = segments_lt a b c d ha hb
