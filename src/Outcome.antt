-- ===== src/Outcome.antt =====
-- The ways in which an operation of the sources can fail, as values.
use cppami.Prelude.{◌≡◌, refl}
use cppami.Text.{Bytes}

pub data Error : Type 0 where
  -- `std::runtime_error("unknown key ...")`
  unknown_key : Bytes → Error
  -- a failed `assert`
  assertion : Error
  -- behaviour that the language leaves undefined
  undefined : Error
  -- `std::future_error`
  already_satisfied broken_promise : Error
  -- `std::runtime_error("Event timeout: ...")`
  timed_out : Bytes → Error
  -- `std::runtime_error` for a system call that failed, or a name that has no address
  system_error no_address : Error
  -- `std::invalid_argument`, `std::out_of_range`
  invalid_argument out_of_range : Error
  -- the bound on a loop's rounds was too small; no operation of the program does this
  out_of_fuel : Error

-- What a call returns or throws.
pub data Result {ℓ} (Value : Type ℓ) : Type ℓ where
  err : (thrown : Error) → Result Value
  ok : (returned : Value) → Result Value

module _ {ℓ κ} {A : Type ℓ} {B : Type κ} where
  abbrev pub map_ok : (A → B) → Result A → Result B
  map_ok f (err thrown) = err thrown
  map_ok f (ok x) = ok (f x)

  infixl 5 ◌>>=◌
  abbrev pub ◌>>=◌ : Result A → (A → Result B) → Result B
  err thrown >>= next = err thrown
  ok x >>= next = next x

  pub bind-eq-ok :
      (call : Result A) (next : A → Result B) {y : B}
      → (call >>= next) ≡ ok y
      → (x : A) × (call ≡ ok x) × (next x ≡ ok y)
  bind-eq-ok (err thrown) next h = cc
  bind-eq-ok (ok x) next h = (x, refl, h)

  pub bind-ext :
      (call : Result A) (f g : A → Result B) → ((x : A) → f x ≡ g x) → (call >>= f) ≡ (call >>= g)
  bind-ext (err thrown) f g h = refl
  bind-ext (ok x) f g h = h x

  pub map_ok-eq-ok :
      (f : A → B) (call : Result A) {y : B}
      → map_ok f call ≡ ok y
      → (x : A) × (call ≡ ok x) × (y ≡ f x)
  map_ok-eq-ok f (err thrown) h = cc
  map_ok-eq-ok f (ok x) h = (x, refl, cc)

pub ok_inj {ℓ} : {A : Type ℓ} {x y : A} → ok x ≡ ok y → x ≡ y
ok_inj h = cc

infixl 5 ◌>>◌
abbrev pub ◌>>◌ {κ} : {B : Type κ} → Result (Unit {0}) → Result B → Result B
first >> second = first >>= λ _. second
