-- ===== src/Common/Results.antt =====
-- Fallible code: a value, or the error that the code throws. `do` blocks chain such results.
use mathlib.Core.Option.{Option, none, some}
use vz.Common.{◌≡◌, refl, Bool, true, false}
use vz.Shared.Errors.{Error, type_error}

pub data Result {ℓ} (X : Type ℓ) : Type ℓ where
  err : (thrown : Error) → Result X
  ok : (value : X) → Result X

module _ {ℓ κ} {X : Type ℓ} {Y : Type κ} where
  infixl 5 ◌>>=◌
  abbrev pub ◌>>=◌ : Result X → (X → Result Y) → Result Y
  err e >>= then = err e
  ok x >>= then = then x

  -- The inversion of a chain that ends well.
  pub >>=-eq-ok :
      (first : Result X) (then : X → Result Y) {y : Y}
      → (first >>= then) ≡ ok y
      → (x : X) × (first ≡ ok x) × (then x ≡ ok y)
  >>=-eq-ok (err e) then h = cc
  >>=-eq-ok (ok x) then h = (x, refl, h)

-- Some error is thrown.
abbrev pub IsErr {ℓ} : {X : Type ℓ} → Result X → Type ℓ
IsErr {X = X} r = (e : Error) × (r ≡ err e)

module _ {ℓ κ} {X : Type ℓ} {Y : Type κ} where
  pub IsErr-first : (first : Result X) (then : X → Result Y) → IsErr first → IsErr (first >>= then)
  IsErr-first first then h = (h.0, rw (h.1) refl)

  pub IsErr-then :
      (first : Result X) (then : X → Result Y) → ((x : X) → IsErr (then x)) → IsErr (first >>= then)
  IsErr-then (err e) then h = (e, refl)
  IsErr-then (ok x) then h = h x

-- A value of which a member is read: the runtime throws where it is null or undefined.
abbrev pub required {ℓ} : {X : Type ℓ} → Option X → Result X
required none = err type_error
required (some x) = ok x

-- `if (b) throw e;`
abbrev pub throw_if : Bool → Error → Result (Unit {0})
throw_if true e = err e
throw_if false e = ok tt

module _ {ℓ} {X : Type ℓ} where
  infixl 5 ◌>>◌
  abbrev pub ◌>>◌ : Result (Unit {0}) → Result X → Result X
  test >> rest = test >>= λ _. rest

  pub >>-eq-ok :
      (test : Result (Unit {0})) (rest : Result X) {x : X} → (test >> rest) ≡ ok x → rest ≡ ok x
  >>-eq-ok (err e) rest h = cc
  >>-eq-ok (ok tt) rest h = h

  pub ok-injective : {x y : X} → ok x ≡ ok y → x ≡ y
  ok-injective h = cc
