-- ===== src/Base/Results.antt =====
-- A Go function that returns a value and an error.
use mathlib.Core.Path.{◌≡◌, refl}
use mathlib.Core.Logic.{◌⊎◌, inl, inr}
use mathlib.Core.Bool.{Bool, true, false}

pub data Result {ℓ} (E A : Type ℓ) : Type ℓ where
  ok : A → Result E A
  err : E → Result E A

-- `if err != nil { return err }` between two steps.
module _ {ℓ} {E A B : Type ℓ} where
  infixl 5 ◌>>=◌
  abbrev pub ◌>>=◌ : Result E A → (A → Result E B) → Result E B
  err failure >>= next = err failure
  ok value >>= next = next value

  infixl 5 ◌>>◌
  abbrev pub ◌>>◌ : Result E A → Result E B → Result E B
  first >> second = first >>= λ _. second

  -- The steps of a chain that succeeded: the second one started from the value of the first one.
  pub >>=-eq-ok :
      (first : Result E A) (next : A → Result E B) {result : B}
      → (first >>= next) ≡ ok result
      → (value : A) × (first ≡ ok value) × (next value ≡ ok result)
  >>=-eq-ok (err failure) next success = cc
  >>=-eq-ok (ok value) next success = (value, refl, success)

module _ {ℓ} {E A : Type ℓ} where
  -- `if err != nil { return fmt.Errorf(…, err) }`
  abbrev pub map_err : (E → E) → Result E A → Result E A
  map_err g (ok a) = ok a
  map_err g (err e) = err (g e)

  abbrev pub is_ok : Result E A → Bool
  is_ok (ok a) = true
  is_ok (err e) = false

  pub is_ok_pair :
      {D : Type ℓ} (x : Result E A × D) → is_ok x.0 ≡ true → (a : A) × (x ≡ (ok a, x.1))
  is_ok_pair (ok a, d) h = (a, refl)
  is_ok_pair (err e, d) h = cc

  pub ok_injective : {a b : A} → ◌≡◌ {A = Result E A} (ok a) (ok b) → a ≡ b
  ok_injective h = cc h

  pub Result-cases : (r : Result E A) → ((a : A) × (r ≡ ok a)) ⊎ ((e : E) × (r ≡ err e))
  Result-cases (ok a) = inl (a, refl)
  Result-cases (err e) = inr (e, refl)

-- `if bad { return err }`
abbrev pub fail_if : {E : Type 0} → Bool → E → Result E (Unit {0})
fail_if true e = err e
fail_if false e = ok tt

pub fail_if-eq-ok :
    {E : Type 0} (bad : Bool) (e : E) {u : Unit} → fail_if bad e ≡ ok u → bad ≡ false
fail_if-eq-ok true e h = cc
fail_if-eq-ok false e h = refl
