-- ===== src/Bytes/Utf8.antt =====
-- `String::from_utf8` of the standard library: a text is its bytes, if they are well-formed UTF-8.
use uni5db.Base.{
  ℕ, ◌-◌, Bool, true, false, ◌&&◌, [], ◌∷◌, Option, none, some, ltb, leb, ◌==◌, if◌then◌else◌,
}
use uni5db.Bytes.{Bytes}

-- What may follow: a new character, or continuation bytes of which the first lies in a range.
pub data State : Type 0 where
  start : State
  more : ℕ → ℕ → ℕ → State

-- The lead byte `b`, by the table of well-formed sequences.
lead : ℕ → Option State
lead b =
    if ltb b 0x80
    then some start
    else if ltb b 0xc2
    then none
    else if ltb b 0xe0
    then some (State.more 0 0x80 0xbf)
    else if b == 0xe0
    then some (State.more 1 0xa0 0xbf)
    else if b == 0xed
    then some (State.more 1 0x80 0x9f)
    else if ltb b 0xf0
    then some (State.more 1 0x80 0xbf)
    else if b == 0xf0
    then some (State.more 2 0x90 0xbf)
    else if ltb b 0xf4
    then some (State.more 2 0x80 0xbf)
    else if b == 0xf4
    then some (State.more 2 0x80 0x8f)
    else none

next : State → ℕ → Option State
unfolding lead
next start b = lead b
next (more left lo hi) b =
    if leb lo b && leb b hi
    then (if left == 0 then some start else some (State.more (left - 1) 0x80 0xbf))
    else none

run : Option State → Bytes → Bool
run none bs = false
run (some start) [] = true
run (some (more _ _ _)) [] = false
run (some s) (b ∷ bs) = run (next s b) bs

unfoldable pub is_utf8 : Bytes → Bool
unfolding run next lead
is_utf8 bs = run (some start) bs
