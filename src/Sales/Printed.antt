-- ===== src/Sales/Printed.antt =====
-- The text of an amount in a response is read back as the amount.
use pdv.Base.{
  ℕ, zero, suc, ◌+◌, ◌-◌, ◌<◌, ◌==◌, leb, ◌≡◌, refl, ◌∙◌, ap, arith, true, false, [], ◌∷◌, ◌++◌,
  length, length-append, Bool-cases, inl, inr, some, pos, ltb_ℤ, ok,
}
use pdv.Errors.{Text, message}
use pdv.Text.{decimal, zeros, take, drop, is_empty, every_digit, value_of}
use pdv.Text.Decimal.{value-decimal, every_digit-decimal}
use pdv.Money.{Numeric, numeric_from_scaled_int}
use pdv.Money.Columns.{amount, IsColumn, numeric_to_scaled_int-column}
use pdv.Money.Print.{padded, with_point, scaled_int_to_string}
use pdv.Database.Store.{Environment}
use pdv.Database.Laws.{NumericLaws}
use pdv.Sales.Canonical.{every_digit-append, every_digit-zeros, length-zeros, all_digits-nonempty}
use pdv.Sales.Mapper.{numeric_to_money_string}

take-drop : (n : ℕ) (t : Text) → take n t ++ drop n t ≡ t
take-drop zero t = refl
take-drop (suc n) [] = refl
take-drop (suc n) (c ∷ t) = ap (λ (s : Text). c ∷ s) (take-drop n t)

length-drop : (n : ℕ) (t : Text) → length (drop n t) ≡ length t - n
length-drop zero t = omega arith
length-drop (suc n) [] = omega arith
length-drop (suc n) (c ∷ t) = omega (arith, length-drop n t)

every_digit-parts :
    (s t : Text) → every_digit (s ++ t) ≡ true → (every_digit s ≡ true) × (every_digit t ≡ true)
unfolding every_digit
every_digit-parts [] t h = (refl, h)
every_digit-parts (c ∷ s) t h = ground (arith, every_digit-parts s t)

value_from-zeros : (k : ℕ) (t : Text) → value_of (zeros k ++ t) ≡ value_of t
value_from-zeros zero t = refl
value_from-zeros (suc k) t = value_from-zeros k t

-- At least one digit stands in front of the point.
padded-digits :
    (d : Text) (places : ℕ)
    → every_digit d ≡ true
    → (every_digit (padded d places) ≡ true)
      × (value_of (padded d places) ≡ value_of d)
      × (places < length (padded d places))
unfolding padded
padded-digits d places h = elim (Bool-cases (leb (length d) places)) [
  | inl short ↦ rw short (
    every_digit-append (zeros (places - length d + 1)) d (every_digit-zeros (places - length d + 1))
        h,
    value_from-zeros (places - length d + 1) d,
    rw (length-append (zeros (places - length d + 1)) d, length-zeros (places - length d + 1))
        (ground (arith, short)),
  )
  | inr long ↦ rw long (h, refl, ground (arith, long))
]

nonempty : (t : Text) → 0 < length t → is_empty t ≡ false
nonempty [] h = absurd (omega (arith, h))
nonempty (c ∷ t) h = refl

nonempty-take : (n : ℕ) (t : Text) → 0 < n → 0 < length t → is_empty (take n t) ≡ false
nonempty-take zero t h k = absurd (omega (arith, h))
nonempty-take (suc n) [] h k = absurd (omega (arith, k))
nonempty-take (suc n) (c ∷ t) h k = refl

module _ (env : Environment) (laws : NumericLaws env) where
  -- Digits with a point in them are scanned as the number that they stand for.
  scan-with_point :
      (d : Text) (places n : ℕ)
      → 0 < places
      → every_digit d ≡ true
      → value_of d ≡ n
      → places < length d
      → env.scan_scientific (with_point d places) ≡ some (numeric_from_scaled_int (pos n) places)
  unfolding with_point
  scan-with_point d places n some_place digits value long =
      let at = length d - places in
      let (front, back) =
        every_digit-parts (take at d) (drop at d) (ap every_digit (take-drop at d) ∙ digits) in
      let size : length (drop at d) ≡ places = length-drop at d ∙ omega (arith, long) in
      laws.scan_digits (take at d) (drop at d)
        (all_digits-nonempty (take at d) front
          (nonempty-take at d (omega (arith, long)) (omega (arith, long))))
        (all_digits-nonempty (drop at d) back
          (nonempty (drop at d) (omega (arith, size, some_place))))
      ∙ rw (take-drop at d, size, value)

  scan-scaled_int_to_string :
      (n places : ℕ)
      → 0 < places
      → env.scan_scientific (scaled_int_to_string (pos n) places)
        ≡ some (numeric_from_scaled_int (pos n) places)
  unfolding scaled_int_to_string
  scan-scaled_int_to_string n zero h = absurd (omega (arith, h))
  scan-scaled_int_to_string n (suc places) h =
      let (digits, value, long) =
        padded-digits (decimal (n + 0)) (suc places) (every_digit-decimal (n + 0)) in
      let no_sign : ltb_ℤ (pos n) (pos 0) ≡ false = ground arith in
      let some_places : (suc places == 0) ≡ false = ground arith in
      let same : value_of (padded (decimal (n + 0)) (suc places)) ≡ n =
        value ∙ value-decimal (n + 0) ∙ omega arith in
      rw (no_sign, some_places)
        (scan-with_point (padded (decimal (n + 0)) (suc places)) (suc places) n h digits same long)

-- An amount with two places that is not negative is printed without an error, and the scan of the
-- printed text gives the same number of cents at two places, where the environment keeps the laws
-- on numbers.
pub numeric_to_money_string-scans :
    (env : Environment) (laws : NumericLaws env) (m : Numeric) (n : ℕ)
    → IsColumn 2 m
    → amount 2 m ≡ pos n
    → (t : Text) × (numeric_to_money_string m ≡ ok t)
      × (env.scan_scientific t ≡ some (numeric_from_scaled_int (pos n) 2))
unfolding numeric_to_money_string
numeric_to_money_string-scans env laws m n c value = (
  scaled_int_to_string (pos n) 2,
  rw (numeric_to_scaled_int-column 2 m c message, value),
  scan-scaled_int_to_string env laws n 2 (omega arith),
)
