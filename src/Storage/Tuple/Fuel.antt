-- ===== src/Storage/Tuple/Fuel.antt =====
-- The fuel of `decode_tuple_value` is always enough.
use uni5db.Base.{
  ℕ, zero, suc, ◌-◌, ◌<◌, ◌≤◌, ◌≡◌, ◌≢◌, refl, [], ◌∷◌, none, some, arith, length, Result, ok, err,
  out_of_fuel, ◌>>=◌, String, get_elem?, List, Option,
}
use uni5db.Types.Value.{ColumnValue}
use uni5db.Storage.Tag.{Tag, tag_of}
use uni5db.Storage.Cursor.{
  Cursor, u8, read_be, u32, i16, i32, i64, f32, f64, bytes_segment, read_bytes_segment,
}
use uni5db.Storage.Tuple.{
  decode_tuple_string, read_as, decode_tuple_values, decode_payload, decode_with_fuel,
  decode_tuple_value, fuel_for, unknown_tag,
}

-- The bytes that are left to read.
abbrev left : Cursor → ℕ
left c = length c.bytes - c.pos

-- A run that ends by itself, and reads forward only if it succeeds.
record Runs {A : Type 0} (c : Cursor) (r : Result (A × Cursor)) : Type 0 where
  ends : r ≢ out_of_fuel
  forward : (a : A) (c' : Cursor) → r ≡ ok (a, c') → left c' ≤ left c

get_elem?-some :
    {A : Type 0} (xs : List A) (i : ℕ) (x : A) → get_elem? xs i ≡ some x → i < length xs
get_elem?-some [] i x h = cc
get_elem?-some (y ∷ xs) zero x h = omega arith
get_elem?-some (y ∷ xs) (suc i) x h = omega (arith, get_elem?-some xs i x h)

u8-Runs : (c : Cursor) → Runs c (u8 c)
unfolding u8
u8-Runs c = record { ends = ground arith; forward = λ a c' e. ground arith }

u8_moves : (c : Cursor) (b : ℕ) (c' : Cursor) → u8 c ≡ ok (b, c') → left c' < left c
unfolding u8
u8_moves c b c' e = ground (arith, get_elem?-some c.bytes c.pos b)

read_be-Runs : (n : ℕ) (message : String) (c : Cursor) → Runs c (read_be n message c)
unfolding read_be
read_be-Runs n message c = record { ends = ground arith; forward = λ a c' e. ground arith }

bytes_segment-Runs : (c : Cursor) → Runs c (bytes_segment c)
unfolding bytes_segment read_bytes_segment
bytes_segment-Runs c = record { ends = ground arith; forward = λ a c' e. ground arith }

Runs-ok : {A : Type 0} (a : A) (c : Cursor) → Runs c (ok (a, c))
Runs-ok a c = record { ends = λ e. cc; forward = λ b c' e. ground arith }

Runs-bind :
    {A B : Type 0} (c : Cursor) (r : Result (A × Cursor)) (f : A × Cursor → Result (B × Cursor))
    → Runs c r
    → ((a : A) (c' : Cursor) → r ≡ ok (a, c') → Runs c' (f (a, c')))
    → Runs c (r >>= f)
Runs-bind c (ok (a, c')) f run next = record {
  ends = (next a c' refl).ends;
  forward = λ b d e. omega (arith, run.forward a c' refl, (next a c' refl).forward b d e);
}
Runs-bind c (err x) f run next = record { ends = λ e. cc; forward = λ b d e. cc }
Runs-bind c out_of_fuel f run next = absurd (run.ends refl)

string-Runs : (c : Cursor) → Runs c (decode_tuple_string c)
unfolding decode_tuple_string
string-Runs c =
    Runs-bind c (bytes_segment c) _ (bytes_segment-Runs c)
      (λ s d _. record { ends = ground arith; forward = λ a c' e. ground arith })

as-Runs :
    {A : Type 0} (make : A → ColumnValue) (read : Cursor → Result (A × Cursor)) (c : Cursor)
    → Runs c (read c)
    → Runs c (read_as make read c)
as-Runs make read c run = Runs-bind c (read c) _ run (λ a c' _. Runs-ok (make a) c')

-- Every element of an array starts no further from the end than the array.
values-Runs :
    (decode : Cursor → Result (ColumnValue × Cursor)) (n bound : ℕ) (c : Cursor)
    → ((d : Cursor) → left d < bound → Runs d (decode d))
    → left c < bound
    → Runs c (decode_tuple_values decode n c)
unfolding decode_tuple_values
values-Runs decode zero bound c each h = Runs-ok _ c
values-Runs decode (suc n) bound c each h = Runs-bind c (decode c) _ (each c h) λ v d e.
    Runs-bind d (decode_tuple_values decode n d) _
      (values-Runs decode n bound d each (omega (arith, (each c h).forward v d e)))
      λ vs d' _. Runs-ok _ d'

payload-Runs :
    (decode : Cursor → Result (ColumnValue × Cursor)) (t : Tag) (bound : ℕ) (c : Cursor)
    → ((d : Cursor) → left d < bound → Runs d (decode d))
    → left c < bound
    → Runs c (decode_payload decode t c)
unfolding decode_payload u32 i16 i32 i64 f32 f64
payload-Runs decode Tag.null bound c each h = Runs-ok _ c
payload-Runs decode Tag.boolean bound c each h = as-Runs _ u8 c (u8-Runs c)
payload-Runs decode Tag.int16 bound c each h = as-Runs _ i16 c (read_be-Runs 2 _ c)
payload-Runs decode Tag.int32 bound c each h = as-Runs _ i32 c (read_be-Runs 4 _ c)
payload-Runs decode Tag.int64 bound c each h = as-Runs _ i64 c (read_be-Runs 8 _ c)
payload-Runs decode Tag.float32 bound c each h = as-Runs _ f32 c (read_be-Runs 4 _ c)
payload-Runs decode Tag.float64 bound c each h = as-Runs _ f64 c (read_be-Runs 8 _ c)
payload-Runs decode Tag.bytea bound c each h = as-Runs _ bytes_segment c (bytes_segment-Runs c)
payload-Runs decode Tag.array bound c each h = Runs-bind c (u32 c) _ (read_be-Runs 4 _ c) λ n d e.
    as-Runs _ (decode_tuple_values decode n) d
      (values-Runs decode n bound d each (omega (arith, (read_be-Runs 4 _ c).forward n d e)))
payload-Runs decode _ bound c each h = as-Runs _ decode_tuple_string c (string-Runs c)

unknown-Runs : {A : Type 0} (c : Cursor) → Runs {A = A} c unknown_tag
unknown-Runs c = record { ends = λ e. cc; forward = λ a d e. cc }

tag-Runs :
    (decode : Cursor → Result (ColumnValue × Cursor)) (t : Option Tag) (c : Cursor)
    → ((t : Tag) → Runs c (decode_payload decode t c))
    → Runs {A = ColumnValue} c
        (elim t [ none ↦ unknown_tag | some tag ↦ decode_payload decode tag c ])
tag-Runs decode none c h = unknown-Runs c
tag-Runs decode (some t) c h = h t

with_fuel-Runs : (f : ℕ) (c : Cursor) → left c < f → Runs c (decode_with_fuel f c)
unfolding decode_with_fuel
with_fuel-Runs zero c h = absurd (omega arith)
with_fuel-Runs (suc f) c h = Runs-bind c (u8 c) _ (u8-Runs c) λ b d e.
    tag-Runs (decode_with_fuel f) (tag_of b) d λ t.
      payload-Runs (decode_with_fuel f) t f d (λ x hx. with_fuel-Runs f x hx)
        (omega (arith, u8_moves c b d e))

-- On every input the decoder returns a value or an error: its recursion never runs out of fuel.
pub decode_tuple_value-ne-out_of_fuel : (c : Cursor) → decode_tuple_value c ≢ out_of_fuel
unfolding decode_tuple_value
decode_tuple_value-ne-out_of_fuel c = (with_fuel-Runs (fuel_for c) c (omega arith)).ends
