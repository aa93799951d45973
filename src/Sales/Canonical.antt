-- ===== src/Sales/Canonical.antt =====
-- What the checks on amounts and quantities of sales/validation.go let through: digits, a point and two or
-- three digits.
use mathlib.Core.Path.{subst}
use pdv.Base.{
  ℕ, zero, suc, ◌-◌, ◌==◌, ltb, ◌≡◌, refl, ◌∙◌, sym, ap, arith, Bool, true, false, not, ◌||◌, [],
  ◌∷◌, ◌++◌, length, length-append, if◌then◌else◌, ok, >>=-eq-ok, fail_if, fail_if-eq-ok,
  ok_injective, Bool-cases, inl, inr,
}
use pdv.Errors.{Text, codes, validation}
use pdv.Text.{
  trim_space, trim_zeros, trim_right, is_empty, starts_with, cut, every_digit, all_digits, zeros,
}
use pdv.Sales.Input.{
  normalize_quantity_string, quantity_of_cut, quantity_fraction, pad_fraction,
  normalize_money_string, money_of_cut, cents,
}

-- Digits, a point, and so many digits.
pub record IsCanonical (places : ℕ) (t : Text) : Type 0 where
  pub whole : Text
  pub fraction : Text
  pub parts : t ≡ whole ++ b'.' ∷ fraction
  pub whole_digits : all_digits whole ≡ true
  pub fraction_digits : all_digits fraction ≡ true
  pub fraction_length : length fraction ≡ places

pub every_digit-append :
    (s t : Text) → every_digit s ≡ true → every_digit t ≡ true → every_digit (s ++ t) ≡ true
unfolding every_digit
every_digit-append [] t h k = k
every_digit-append (c ∷ s) t h k = ground (arith, every_digit-append s t)

all_digits-append :
    (s t : Text) → all_digits s ≡ true → every_digit t ≡ true → all_digits (s ++ t) ≡ true
unfolding all_digits every_digit
all_digits-append [] t h k = cc
all_digits-append (c ∷ s) t h k = ground (arith, every_digit-append s t)

pub every_digit-zeros : (n : ℕ) → every_digit (zeros n) ≡ true
unfolding every_digit
every_digit-zeros zero = refl
every_digit-zeros (suc n) = every_digit-zeros n

pub length-zeros : (n : ℕ) → length (zeros n) ≡ n
length-zeros zero = refl
length-zeros (suc n) = ap suc (length-zeros n)

every_digit-trim_right :
    (p : ℕ → Bool) (t : Text) → every_digit t ≡ true → every_digit (trim_right p t) ≡ true
unfolding trim_right every_digit
every_digit-trim_right p [] h = refl
every_digit-trim_right p (c ∷ t) h = ground (arith, every_digit-trim_right p t)

cents-digits :
    (f : Text)
    → all_digits f ≡ true
    → ltb 2 (length f) ≡ false
    → (all_digits (cents f) ≡ true) × (length (cents f) ≡ 2)
unfolding all_digits every_digit
cents-digits [] h k = cc
cents-digits (c ∷ []) h k = (ground arith, refl)
cents-digits (c ∷ d ∷ []) h k = (h, refl)
cents-digits (c ∷ d ∷ e ∷ f) h k = ground arith

money_of_cut-IsCanonical :
    (field trimmed : Text) (x : Text × Text × Bool) (r : Text)
    → money_of_cut field trimmed x ≡ ok r
    → IsCanonical 2 r
unfolding money_of_cut all_digits
money_of_cut-IsCanonical field trimmed (whole, fraction, true) r e =
    let (u, e1, e2) =
      >>=-eq-ok
        (fail_if (is_empty whole || is_empty fraction)
          (validation field "must be a valid monetary amount"))
        _ e in
    let (v, e3, e4) =
      >>=-eq-ok
        (fail_if (not (all_digits whole) || (not (all_digits fraction) || ltb 2 (length fraction)))
          (validation field "must have at most two decimal places"))
        _ e2 in
    let passed = fail_if-eq-ok _ _ e3 in
    let digits = cents-digits fraction (ground (arith, passed)) (ground (arith, passed)) in
    record {
      whole = whole;
      fraction = cents fraction;
      parts = sym (ok_injective e4);
      whole_digits = ground (arith, passed);
      fraction_digits = digits.0;
      fraction_length = digits.1;
    }
money_of_cut-IsCanonical field trimmed (whole, fraction, false) r e =
    let (u, e1, e2) =
      >>=-eq-ok
        (fail_if (not (all_digits trimmed)) (validation field "must be a valid monetary amount")) _
        e in
    let passed = fail_if-eq-ok _ _ e1 in
    record {
      whole = trimmed;
      fraction = codes "00";
      parts = sym (ok_injective e2);
      whole_digits = ground (arith, passed);
      fraction_digits = refl;
      fraction_length = refl;
    }

-- An amount that is accepted has become digits, a point and exactly two digits.
pub normalize_money_string-IsCanonical :
    (field value r : Text) → normalize_money_string field value ≡ ok r → IsCanonical 2 r
unfolding normalize_money_string
normalize_money_string-IsCanonical field value r e =
    let (u, e1, e2) =
      >>=-eq-ok (fail_if (is_empty (trim_space value)) (validation field "is required")) _ e in
    let (v, e3, e4) =
      >>=-eq-ok
        (fail_if (starts_with b'-' (trim_space value) || starts_with b'+' (trim_space value))
          (validation field "cannot be negative"))
        _ e2 in
    money_of_cut-IsCanonical field (trim_space value) (cut b'.' (trim_space value)) r e4

all_digits-every : (t : Text) → all_digits t ≡ true → every_digit t ≡ true
unfolding all_digits
all_digits-every t h = ground arith

pub all_digits-nonempty :
    (t : Text) → every_digit t ≡ true → is_empty t ≡ false → all_digits t ≡ true
unfolding all_digits
all_digits-nonempty t h k = rw (h, k)

-- Up to three digits are filled up to three.
pad_fraction-digits :
    (f : Text)
    → all_digits f ≡ true
    → ltb 3 (length f) ≡ false
    → (all_digits (pad_fraction f) ≡ true) × (length (pad_fraction f) ≡ 3)
unfolding pad_fraction
pad_fraction-digits f h k = (
  all_digits-append f (zeros (3 - length f)) h (every_digit-zeros _),
  length-append f (zeros (3 - length f)) ∙ rw (length-zeros (3 - length f)) (ground arith),
)

-- The digits of a long fraction that are kept.
kept : Text → Text
kept f = if is_empty (trim_zeros f) then b'0' ∷ [] else trim_zeros f

zero_digit : all_digits (b'0' ∷ []) ≡ true
unfolding all_digits every_digit
zero_digit = refl

all_digits-kept : (f : Text) → all_digits f ≡ true → all_digits (kept f) ≡ true
unfolding kept trim_zeros
all_digits-kept f h = elim (Bool-cases (is_empty (trim_zeros f))) [
  | inl gone ↦ rw gone zero_digit
  | inr left ↦ rw left (
      all_digits-nonempty (trim_zeros f)
        (every_digit-trim_right (λ c. c == b'0') f (all_digits-every f h)) left)
]

quantity_fraction-digits :
    {S : Type 0} (field f r : Text)
    → all_digits f ≡ true
    → quantity_fraction {S = S} field f ≡ ok r
    → (all_digits r ≡ true) × (length r ≡ 3)
unfolding quantity_fraction kept
quantity_fraction-digits {S} field f r h e = elim (Bool-cases (ltb 3 (length f))) [
  | inr short ↦
      subst (λ (t : Text). (all_digits t ≡ true) × (length t ≡ 3))
        (ok_injective (rw (short, quantity_fraction) at e)) (pad_fraction-digits f h short)
  | inl long ↦ elim (Bool-cases (ltb 3 (length (kept f)))) [
    | inl rest ↦ cc (rw (long, rest, quantity_fraction) at e)
    | inr fits ↦
        subst (λ (t : Text). (all_digits t ≡ true) × (length t ≡ 3))
          (ok_injective (rw (long, fits, quantity_fraction) at e))
          (pad_fraction-digits (kept f) (all_digits-kept f h) fits)
  ]
]

quantity_of_cut-IsCanonical :
    {S : Type 0} (field trimmed : Text) (x : Text × Text × Bool) (r : Text)
    → quantity_of_cut {S = S} field trimmed x ≡ ok r
    → IsCanonical 3 r
unfolding quantity_of_cut all_digits
quantity_of_cut-IsCanonical field trimmed (whole, fraction, true) r e =
    let (u, e1, e2) =
      >>=-eq-ok
        (fail_if (is_empty whole || is_empty fraction)
          (validation field "must be a valid decimal number"))
        _ e in
    let (v, e3, e4) =
      >>=-eq-ok
        (fail_if (not (all_digits whole) || not (all_digits fraction))
          (validation field "must have at most three decimal places"))
        _ e2 in
    let (padded, e5, e6) = >>=-eq-ok (quantity_fraction field fraction) _ e4 in
    let passed = fail_if-eq-ok _ _ e3 in
    let digits = quantity_fraction-digits field fraction padded (ground (arith, passed)) e5 in
    record {
      whole = whole;
      fraction = padded;
      parts = sym (ok_injective e6);
      whole_digits = ground (arith, passed);
      fraction_digits = digits.0;
      fraction_length = digits.1;
    }
quantity_of_cut-IsCanonical field trimmed (whole, fraction, false) r e =
    let (u, e1, e2) =
      >>=-eq-ok
        (fail_if (not (all_digits trimmed)) (validation field "must be a valid decimal number")) _
        e in
    let passed = fail_if-eq-ok _ _ e1 in
    record {
      whole = trimmed;
      fraction = codes "000";
      parts = sym (ok_injective e2);
      whole_digits = ground (arith, passed);
      fraction_digits = refl;
      fraction_length = refl;
    }

-- A quantity that is accepted has become digits, a point and exactly three digits.
pub normalize_quantity_string-IsCanonical :
    {S : Type 0} (field value r : Text)
    → normalize_quantity_string {S = S} field value ≡ ok r
    → IsCanonical 3 r
unfolding normalize_quantity_string
normalize_quantity_string-IsCanonical field value r e =
    let (u, e1, e2) =
      >>=-eq-ok (fail_if (is_empty (trim_space value)) (validation field "is required")) _ e in
    let (v, e3, e4) =
      >>=-eq-ok
        (fail_if (starts_with b'-' (trim_space value) || starts_with b'+' (trim_space value))
          (validation field "must be greater than zero"))
        _ e2 in
    quantity_of_cut-IsCanonical field (trim_space value) (cut b'.' (trim_space value)) r e4
