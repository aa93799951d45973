-- ===== src/Text/Decimal.antt =====
-- The decimal text of a number: its digits stand for the number.
use native.Mathlib.Nat.{pow-suc, pow-zero}
use pdv.Base.{
  ℕ, zero, suc, ◌+◌, ◌-◌, ◌*◌, ◌/◌, ◌^◌, ◌≤◌, ◌≡◌, refl, ◌∙◌, arith, true, ◌==◌, [], ◌∷◌, ◌++◌,
  length, Bool-cases, inl, inr,
}
use pdv.Errors.{Text}
use pdv.Text.{digits_reversed, reverse_onto, decimal, value_from, value_of, every_digit}

-- The value of digits, last one first.
value_reversed : Text → ℕ
value_reversed [] = 0
value_reversed (c ∷ t) = value_reversed t * 10 + (c - b'0')

digits_reversed-value : (fuel n : ℕ) → n ≤ fuel → value_reversed (digits_reversed fuel n) ≡ n
unfolding digits_reversed value_reversed
digits_reversed-value zero n h = omega arith
digits_reversed-value (suc fuel) n h = ground (arith, digits_reversed-value fuel (n / 10))

every_digit-digits_reversed : (fuel n : ℕ) → every_digit (digits_reversed fuel n) ≡ true
unfolding digits_reversed every_digit
every_digit-digits_reversed zero n = refl
every_digit-digits_reversed (suc fuel) n = ground (arith, every_digit-digits_reversed fuel (n / 10))

value_from-shift : (t : Text) (n : ℕ) → value_from n t ≡ n * 10 ^ length t + value_from 0 t
value_from-shift [] n = simp pow-zero (omega arith)
value_from-shift (c ∷ t) n = rw (pow-suc 10 (length t)) (
    omega
      (arith, value_from-shift t (n * 10 + (c - b'0')), value_from-shift t (0 * 10 + (c - b'0'))))

pub value_from-append : (s t : Text) (n : ℕ) → value_from n (s ++ t) ≡ value_from (value_from n s) t
value_from-append [] t n = refl
value_from-append (c ∷ s) t n = value_from-append s t (n * 10 + (c - b'0'))

value-reverse_onto : (s t : Text) → value_of (reverse_onto s t) ≡ value_from (value_reversed s) t
unfolding reverse_onto value_reversed
value-reverse_onto [] t = refl
value-reverse_onto (c ∷ s) t = value-reverse_onto s (c ∷ t)

every_digit-reverse_onto :
    (s t : Text)
    → every_digit s ≡ true
    → every_digit t ≡ true
    → every_digit (reverse_onto s t) ≡ true
unfolding reverse_onto every_digit
every_digit-reverse_onto [] t h k = k
every_digit-reverse_onto (c ∷ s) t h k =
    every_digit-reverse_onto s (c ∷ t) (ground arith) (ground arith)

-- The digits of intToString stand for its argument, whatever the number: the loop has enough
-- rounds, and no digit is lost.
pub value-decimal : (n : ℕ) → value_of (decimal n) ≡ n
unfolding decimal
value-decimal n = elim (Bool-cases (n == 0)) [
  | inl e ↦ rw e (ground arith)
  | inr e ↦
      rw e (value-reverse_onto (digits_reversed n n) [] ∙ digits_reversed-value n n (omega arith))
]

pub every_digit-decimal : (n : ℕ) → every_digit (decimal n) ≡ true
unfolding decimal
every_digit-decimal n = elim (Bool-cases (n == 0)) [
  | inl e ↦ rw e (unfold every_digit in refl)
  | inr e ↦ rw e (
      every_digit-reverse_onto (digits_reversed n n) [] (every_digit-digits_reversed n n)
        (unfold every_digit in refl))
]
