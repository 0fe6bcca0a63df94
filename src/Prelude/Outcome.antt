-- ===== src/Prelude/Outcome.antt =====
-- Results of fallible code: Rust's `Result<A, E>` and `?`.
use mathlib.Core.Path.{◌≡◌, refl}
use mathlib.Core.Bool.{Bool, true, false}
use mathlib.Core.Option.{Option, none, some}

pub data Result {ℓ} (E : Type ℓ) (A : Type ℓ) : Type ℓ where
  ok : A → Result E A
  err : E → Result E A

-- `?`: the first error is the result.
abbrev pub ◌>>=◌ {ℓ} : {E A B : Type ℓ} → Result E A → (A → Result E B) → Result E B
ok value >>= next = next value
err error >>= next = err error

abbrev pub ◌>>◌ : {E B : Type 0} → Result E (Unit {0}) → Result E B → Result E B
first >> second = first >>= λ _. second

infixl 5 ◌>>=◌ ◌>>◌
-- `if !test { return Err(error) }`
abbrev pub ensure : {E : Type 0} → Bool → E → Result E (Unit {0})
ensure true error = ok tt
ensure false error = err error

-- `o.ok_or(error)`
abbrev pub ok_or {ℓ} : {E A : Type ℓ} → Option A → E → Result E A
ok_or none error = err error
ok_or (some value) error = ok value

-- Where a chain succeeds, its first part did, and the rest did from there.
pub >>=-eq-ok {ℓ} :
    {E A B : Type ℓ} (first : Result E A) (next : A → Result E B) {result : B}
    → (first >>= next) ≡ ok result
    → (value : A) × (first ≡ ok value) × (next value ≡ ok result)
>>=-eq-ok (ok value) next success = (value, refl, success)
>>=-eq-ok (err error) next success = cc

pub ok-injective {ℓ} : {E A : Type ℓ} {a b : A} → ◌≡◌ {A = Result E A} (ok a) (ok b) → a ≡ b
ok-injective h = cc

pub ensure-eq-ok :
    {E B : Type 0} (test : Bool) (error : E) (next : Result E B) {result : B}
    → (ensure test error >> next) ≡ ok result
    → (test ≡ true) × (next ≡ ok result)
ensure-eq-ok true error next success = (refl, success)
ensure-eq-ok false error next success = cc

pub some-injective {ℓ} : {A : Type ℓ} {a b : A} → ◌≡◌ {A = Option A} (some a) (some b) → a ≡ b
some-injective h = cc
