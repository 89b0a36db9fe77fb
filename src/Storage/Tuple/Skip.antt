-- ===== src/Storage/Tuple/Skip.antt =====
-- `skip_tuple_value` moves the cursor as `decode_tuple_value` does.
use uni5db.Base.{
  ℕ, zero, suc, ◌<◌, ◌≡◌, refl, ◌∙◌, [], ◌∷◌, none, some, arith, length, get_elem?, Result, ok, err,
  out_of_fuel, ◌>>=◌, String, List, Option,
}
use uni5db.Types.Value.{ColumnValue}
use uni5db.Storage.Tag.{Tag, tag_of}
use uni5db.Storage.Cursor.{
  Cursor, u8, read_be, u32, i16, i32, i64, f32, f64, bytes_segment, skip, skip_bytes_segment,
}
use uni5db.Storage.Tuple.{
  decode_tuple_string, read_as, decode_tuple_values, decode_payload, decode_with_fuel,
  decode_tuple_value, fuel_for, unknown_tag, skip_tuple_values, skip_payload, skip_with_fuel,
  skip_tuple_value,
}

-- Where the read `r` gives a value, the skip `s` moves to the same place.
abbrev Shadows : {A : Type 0} → Result (A × Cursor) → Result Cursor → Type 0
Shadows {A} r s = (a : A) (c : Cursor) → r ≡ ok (a, c) → s ≡ ok c

abbrev Follows : {A : Type 0} → (Cursor → Result Cursor) → (Cursor → Result (A × Cursor)) → Type 0
Follows skip_one read = (c : Cursor) → Shadows (read c) (skip_one c)

Shadows-ok : {A : Type 0} (a : A) (c : Cursor) → Shadows (ok (a, c)) (ok c)
Shadows-ok a c b d e = ground arith

Shadows-bind :
    {A B : Type 0} (r : Result (A × Cursor)) (s : Result Cursor)
    (f : A × Cursor → Result (B × Cursor)) (g : Cursor → Result Cursor)
    → Shadows r s
    → ((a : A) (c : Cursor) → Shadows (f (a, c)) (g c))
    → Shadows (r >>= f) (s >>= g)
Shadows-bind (ok (a, c)) s f g first next b d e = rw (first a c refl) (next a c b d e)
Shadows-bind (err x) s f g first next b d e = cc
Shadows-bind out_of_fuel s f g first next b d e = cc

-- A read that both make.
Shadows-same :
    {A B : Type 0} (r : Result (A × Cursor)) (f : A × Cursor → Result (B × Cursor))
    (g : A × Cursor → Result Cursor)
    → ((a : A) (c : Cursor) → Shadows (f (a, c)) (g (a, c)))
    → Shadows (r >>= f) (r >>= g)
Shadows-same (ok (a, c)) f g next = next a c
Shadows-same (err x) f g next = λ b d e. cc
Shadows-same out_of_fuel f g next = λ b d e. cc

-- A read whose last steps only check or rename.
Shadows-last :
    {A B : Type 0} (r : Result (A × Cursor)) (s : Result Cursor)
    (f : A × Cursor → Result (B × Cursor))
    → Shadows r s
    → ((a : A) (c : Cursor) → Shadows (f (a, c)) (ok c))
    → Shadows (r >>= f) s
Shadows-last (ok (a, c)) s f first next b d e = first a c refl ∙ next a c b d e
Shadows-last (err x) s f first next b d e = cc
Shadows-last out_of_fuel s f first next b d e = cc

read_be-Follows : (n : ℕ) (message : String) → Follows (skip n) (read_be n message)
unfolding read_be skip
read_be-Follows n message c a c' e = ground arith

get_elem?-some :
    {A : Type 0} (xs : List A) (i : ℕ) (x : A) → get_elem? xs i ≡ some x → i < length xs
get_elem?-some [] i x h = cc
get_elem?-some (y ∷ xs) zero x h = omega arith
get_elem?-some (y ∷ xs) (suc i) x h = omega (arith, get_elem?-some xs i x h)

u8-Follows : Follows (skip 1) u8
unfolding u8 skip
u8-Follows c a c' e = ground (arith, get_elem?-some c.bytes c.pos a)

segment-Follows : Follows skip_bytes_segment bytes_segment
unfolding skip_bytes_segment bytes_segment
segment-Follows c a c' e = ground arith

string-Follows : Follows skip_bytes_segment decode_tuple_string
unfolding decode_tuple_string
string-Follows c =
    Shadows-last (bytes_segment c) _ _ (segment-Follows c) (λ s d b d' e. ground arith)

as-Follows :
    {A : Type 0} (skip_one : Cursor → Result Cursor) (make : A → ColumnValue)
    (read : Cursor → Result (A × Cursor))
    → Follows skip_one read
    → Follows skip_one (read_as make read)
as-Follows skip_one make read h c = Shadows-last (read c) _ _ (h c) (λ a d. Shadows-ok (make a) d)

values-Follows :
    (skip_one : Cursor → Result Cursor) (decode : Cursor → Result (ColumnValue × Cursor)) (n : ℕ)
    → Follows skip_one decode
    → Follows (skip_tuple_values skip_one n) (decode_tuple_values decode n)
unfolding skip_tuple_values decode_tuple_values
values-Follows skip_one decode zero h c = Shadows-ok _ c
values-Follows skip_one decode (suc n) h c = Shadows-bind (decode c) (skip_one c) _ _ (h c) λ v d.
    Shadows-last (decode_tuple_values decode n d) _ _ (values-Follows skip_one decode n h d)
      λ vs d'. Shadows-ok _ d'

payload-Follows :
    (skip_one : Cursor → Result Cursor) (decode : Cursor → Result (ColumnValue × Cursor)) (t : Tag)
    → Follows skip_one decode
    → Follows (skip_payload skip_one t) (decode_payload decode t)
unfolding skip_payload decode_payload u32 i16 i32 i64 f32 f64
payload-Follows skip_one decode Tag.null h c = Shadows-ok _ c
payload-Follows skip_one decode Tag.boolean h c = as-Follows _ _ u8 u8-Follows c
payload-Follows skip_one decode Tag.int16 h c = as-Follows _ _ i16 (read_be-Follows 2 _) c
payload-Follows skip_one decode Tag.int32 h c = as-Follows _ _ i32 (read_be-Follows 4 _) c
payload-Follows skip_one decode Tag.int64 h c = as-Follows _ _ i64 (read_be-Follows 8 _) c
payload-Follows skip_one decode Tag.float32 h c = as-Follows _ _ f32 (read_be-Follows 4 _) c
payload-Follows skip_one decode Tag.float64 h c = as-Follows _ _ f64 (read_be-Follows 8 _) c
payload-Follows skip_one decode Tag.bytea h c = as-Follows _ _ bytes_segment segment-Follows c
payload-Follows skip_one decode Tag.array h c =
    Shadows-same (u32 c) _ _
      λ n d. as-Follows _ _ (decode_tuple_values decode n) (values-Follows skip_one decode n h) d
payload-Follows skip_one decode _ h c = as-Follows _ _ decode_tuple_string string-Follows c

tag-Shadows :
    (skip_one : Cursor → Result Cursor) (decode : Cursor → Result (ColumnValue × Cursor))
    (t : Option Tag) (c : Cursor)
    → Follows skip_one decode
    → Shadows {A = ColumnValue}
        (elim t [ none ↦ unknown_tag | some tag ↦ decode_payload decode tag c ])
        (elim t [ none ↦ unknown_tag | some tag ↦ skip_payload skip_one tag c ])
tag-Shadows skip_one decode none c h = λ a d e. cc
tag-Shadows skip_one decode (some t) c h = payload-Follows skip_one decode t h c

with_fuel-Follows : (f : ℕ) → Follows (skip_with_fuel f) (decode_with_fuel f)
unfolding skip_with_fuel decode_with_fuel
with_fuel-Follows zero c = λ a d e. cc
with_fuel-Follows (suc f) c =
    Shadows-same (u8 c) _ _
      λ b d. tag-Shadows (skip_with_fuel f) (decode_with_fuel f) (tag_of b) d (with_fuel-Follows f)

-- Wherever a value can be decoded, skipping it moves the cursor to the same place.
pub skip_tuple_value-decode_tuple_value :
    (c : Cursor) (v : ColumnValue) (c' : Cursor)
    → decode_tuple_value c ≡ ok (v, c')
    → skip_tuple_value c ≡ ok c'
unfolding skip_tuple_value decode_tuple_value
skip_tuple_value-decode_tuple_value c v c' e = with_fuel-Follows (fuel_for c) c v c' e
