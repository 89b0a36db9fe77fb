-- ===== src/Base/Outcome.antt =====
-- `PgWireResult` and `user_error` of src/error.rs: an error is its SQL state and its message.
-- `out_of_fuel` is no value of the program: a recursion of the model was given too little fuel.
use Prim.Native.String.{String}
use mathlib.Core.Path.{◌≡◌, refl}

pub record UserError : Type 0 where
  pub code : String
  pub message : String

abbrev pub user_error : String → String → UserError
user_error c m = record { code = c; message = m }

pub data Result {ℓ} (A : Type ℓ) : Type ℓ where
  out_of_fuel : Result A
  err : UserError → Result A
  ok : A → Result A

infixl 5 ◌>>=◌
-- The `?` of the program, and the end of the fuel passed on.
abbrev pub ◌>>=◌ {ℓ κ} : {A : Type ℓ} {B : Type κ} → Result A → (A → Result B) → Result B
out_of_fuel >>= next = out_of_fuel
err failure >>= next = err failure
ok value >>= next = next value

-- A chain that succeeds succeeds at its first step, with a value from which the rest succeeds.
pub >>=-eq-ok {ℓ κ} :
    {A : Type ℓ} {B : Type κ} (first : Result A) (next : A → Result B) {final : B}
    → (first >>= next) ≡ ok final
    → (value : A) × (first ≡ ok value) × (next value ≡ ok final)
>>=-eq-ok out_of_fuel next run = cc
>>=-eq-ok (err failure) next run = cc
>>=-eq-ok (ok value) next run = (value, refl, run)
