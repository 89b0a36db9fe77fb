-- ===== src/Base/Maybe.antt =====
-- The `?` of the program in a function that returns an `Option`.
use mathlib.Core.Path.{◌≡◌, refl}
use mathlib.Core.Option.{Option, none, some}

infixl 5 ◌>>=◌
abbrev pub ◌>>=◌ {ℓ κ} : {A : Type ℓ} {B : Type κ} → Option A → (A → Option B) → Option B
none >>= next = none
some a >>= next = next a

pub >>=-eq-some {ℓ κ} :
    {A : Type ℓ} {B : Type κ} (first : Option A) (next : A → Option B) {final : B}
    → (first >>= next) ≡ some final
    → (a : A) × (first ≡ some a) × (next a ≡ some final)
>>=-eq-some none next h = cc
>>=-eq-some (some a) next h = (a, refl, h)
