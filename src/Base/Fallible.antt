-- ===== src/Base/Fallible.antt =====
-- A computation that returns, or ends in an exception.
use mathlib.Core.Path.{◌≡◌, refl}
use mathlib.Core.Logic.{◌≢◌}
use native.Mathlib.Omega.{arith}

-- `std::runtime_error`, apart from the one with the text "Program error"; an exception of the standard
-- library's number conversions; one of Boost's accessors; and an access past the end of a vector,
-- which C++ leaves undefined.
pub data Error : Type 0 where
  runtime_error program_error bad_number system_error out_of_bounds : Error

pub data Result {ℓ} (A : Type ℓ) : Type ℓ where
  thrown : Error → Result A
  returned : A → Result A

infixl 5 ◌>>=◌
-- An exception ends what would follow.
abbrev pub ◌>>=◌ {ℓ κ} : {A : Type ℓ} {B : Type κ} → Result A → (A → Result B) → Result B
thrown exception >>= next = thrown exception
returned value >>= next = next value

-- What both parts of a computation that returned have returned.
pub >>=-returned {ℓ κ} :
    {A : Type ℓ} {B : Type κ} (first : Result A) (next : A → Result B) {last : B}
    → (first >>= next) ≡ returned last
    → (value : A) × (first ≡ returned value) × (next value ≡ returned last)
>>=-returned (thrown exception) next e = cc
>>=-returned (returned value) next e = (value, refl, e)

-- An exception that neither part throws.
pub >>=-spares {ℓ κ} :
    {A : Type ℓ} {B : Type κ} (first : Result A) (next : A → Result B) (x : Error)
    → first ≢ thrown x
    → ((value : A) → next value ≢ thrown x)
    → (first >>= next) ≢ thrown x
>>=-spares (thrown y) next x never later e = never (ground (arith, e))
>>=-spares (returned value) next x never later e = later value e

infixl 5 ◌>>◌
abbrev pub ◌>>◌ {ℓ} : {B : Type ℓ} → Result (Unit {0}) → Result B → Result B
check >> next = check >>= λ passed. next
