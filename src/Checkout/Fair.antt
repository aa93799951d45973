-- ===== src/Checkout/Fair.antt =====
-- What a payment that passes the checks of the checkout satisfies.
use Prim.Native.Nat.{Ordering}
use mathlib.Core.Path.{subst}
use native.Mathlib.Omega.{compare-eq, compare-gt}
use pdv.Base.{
  ◌≡◌, refl, ◌∙◌, sym, ap, arith, Bool, true, false, not, ◌||◌, Option, none, some, ℤ, pos, ◌+ℤ◌,
  ◌-ℤ◌, ◌≤ℤ◌, cmp_ℤ, ltb_ℤ, eqb_ℤ, eqb_ℤ→eq, eq_of_parts, int_laws, Bool-cases, inl, inr, Result,
  ok, err, map_err, fail_if, fail_if-eq-ok, >>=-eq-ok, ok_injective,
}
use pdv.Errors.{codes, wrap, validation, sentinel}
use pdv.Money.{Numeric, zero_money, numeric_from_scaled_int}
use pdv.Money.Columns.{
  amount, IsColumn, numeric_from_scaled_int-IsColumn, amount-numeric_from_scaled_int,
}
use pdv.Database.Rows.{PaymentMethod}
use pdv.Checkout.Errors.{
  CheckoutError, payment_method_inactive, invalid_received_amount, invalid_installments,
}
use pdv.Checkout.Money.{compare_money, subtract_money, differs, is_below, is_not_above}
use pdv.Checkout.Accepts.{compare_money-columns, subtract_money-columns}
use pdv.Checkout.Payments.{
  PaymentInput, ValidatedPayment, received_with_change, received_exactly, validate_received_amount,
  validate_installments, lacks_reference, check_payment,
}

-- The money received is the amount and the change. Without a method that allows change there is none.
abbrev pub ChangeRight : Bool → Numeric → Option Numeric → Option Numeric → Type 0
ChangeRight allows a none none = allows ≡ false
ChangeRight allows a (some r) none = (allows ≡ false) × (amount 2 r ≡ amount 2 a)
ChangeRight allows a none (some c) = ⊥
ChangeRight allows a (some r) (some c) =
    (allows ≡ true) × (amount 2 r ≡ amount 2 a +ℤ amount 2 c) × (pos 0 ≤ℤ amount 2 c)

abbrev pub InstallmentsRight : PaymentMethod → ℤ → Type 0
InstallmentsRight method n =
    (pos 1 ≤ℤ n)
    × (method.allows_installments ≡ false → n ≡ pos 1)
    × (method.allows_installments ≡ true → n ≤ℤ method.max_installments)

pub record IsFair (p : ValidatedPayment) : Type 0 where
  pub active : p.method.is_active ≡ true
  pub positive : pos 1 ≤ℤ amount 2 p.amount
  pub change : ChangeRight p.method.allows_change p.amount p.received_amount p.change_amount
  pub installments : InstallmentsRight p.method p.installments

abbrev pub ReceivedColumn : Option Numeric → Type 0
ReceivedColumn none = Unit {0}
ReceivedColumn (some r) = IsColumn 2 r

-- The comparisons, said on integers.
not_below : (a b : ℤ) → is_below (cmp_ℤ a b) ≡ false → b ≤ℤ a
not_below a b h = cases (cmp_ℤ a b) refl h
  where
    cases : (o : Ordering) → cmp_ℤ a b ≡ o → is_below o ≡ false → b ≤ℤ a
    cases Ordering.lt e k = cc
    cases Ordering.eq e k = omega (arith, compare-eq _ _ e)
    cases Ordering.gt e k = omega (arith, compare-gt _ _ e)

pub not_differs : (a b : ℤ) → differs (cmp_ℤ a b) ≡ false → a ≡ b
not_differs a b h = cases (cmp_ℤ a b) refl h
  where
    cases : (o : Ordering) → cmp_ℤ a b ≡ o → differs o ≡ false → a ≡ b
    cases Ordering.lt e k = cc
    cases Ordering.eq e k = eq_of_parts a b (compare-eq _ _ e)
    cases Ordering.gt e k = cc

above : (a : ℤ) → is_not_above (cmp_ℤ a (pos 0)) ≡ false → pos 1 ≤ℤ a
above a h = cases (cmp_ℤ a (pos 0)) refl h
  where
    cases : (o : Ordering) → cmp_ℤ a (pos 0) ≡ o → is_not_above o ≡ false → pos 1 ≤ℤ a
    cases Ordering.lt e k = cc
    cases Ordering.eq e k = cc
    cases Ordering.gt e k = omega (arith, compare-gt _ _ e)

pub map_err-ok :
    {A : Type 0} (g : CheckoutError → CheckoutError) (r : Result CheckoutError A) {a : A}
    → map_err g r ≡ ok a
    → r ≡ ok a
map_err-ok g (ok b) h = cc h
map_err-ok g (err e) h = cc

module _ (a : Numeric) (ca : IsColumn 2 a) where
  received_with_change-right :
      (received r c : Option Numeric)
      → ReceivedColumn received
      → received_with_change a received ≡ ok (r, c)
      → ChangeRight true a r c
  unfolding received_with_change
  received_with_change-right none r c cr e =
      subst (λ (x : Option Numeric × Option Numeric). ChangeRight true a x.0 x.1) (ok_injective e)
        (
          refl,
          rw (amount-numeric_from_scaled_int (pos 0) 2) (omega int_laws),
          rw (amount-numeric_from_scaled_int (pos 0) 2) (omega arith),
        )
  received_with_change-right (some x) r c cr e =
      let (cmp, e1, e2) =
        >>=-eq-ok (map_err (wrap "compare received amount") (compare_money x a)) _ e in
      let (u, e3, e4) =
        >>=-eq-ok (fail_if (is_below cmp) (sentinel invalid_received_amount)) _ e2 in
      let (change, e5, e6) =
        >>=-eq-ok (map_err (wrap "calculate change amount") (subtract_money x a)) _ e4 in
      let compared : cmp_ℤ (amount 2 x) (amount 2 a) ≡ cmp =
        ok_injective (sym (compare_money-columns x a cr ca) ∙ map_err-ok _ _ e1) in
      let enough : amount 2 a ≤ℤ amount 2 x =
        not_below (amount 2 x) (amount 2 a) (ap is_below compared ∙ fail_if-eq-ok _ _ e3) in
      let taken : numeric_from_scaled_int (amount 2 x -ℤ amount 2 a) 2 ≡ change =
        ok_injective (sym (subtract_money-columns x a cr ca) ∙ map_err-ok _ _ e5) in
      let cents : amount 2 change ≡ amount 2 x -ℤ amount 2 a =
        ap (amount 2) (sym taken) ∙ amount-numeric_from_scaled_int _ 2 in
      subst (λ (y : Option Numeric × Option Numeric). ChangeRight true a y.0 y.1) (ok_injective e6)
        (refl, rw cents (omega int_laws), rw cents (omega (int_laws, enough)))

  received_exactly-right :
      (received r c : Option Numeric)
      → ReceivedColumn received
      → received_exactly a received ≡ ok (r, c)
      → ChangeRight false a r c
  unfolding received_exactly
  received_exactly-right none r c cr e =
      subst (λ (x : Option Numeric × Option Numeric). ChangeRight false a x.0 x.1) (ok_injective e)
        refl
  received_exactly-right (some x) r c cr e =
      let (cmp, e1, e2) =
        >>=-eq-ok (map_err (wrap "compare received amount") (compare_money x a)) _ e in
      let (u, e3, e4) = >>=-eq-ok (fail_if (differs cmp) (sentinel invalid_received_amount)) _ e2 in
      let compared : cmp_ℤ (amount 2 x) (amount 2 a) ≡ cmp =
        ok_injective (sym (compare_money-columns x a cr ca) ∙ map_err-ok _ _ e1) in
      subst (λ (y : Option Numeric × Option Numeric). ChangeRight false a y.0 y.1) (ok_injective e4)
        (refl, not_differs (amount 2 x) (amount 2 a) (ap differs compared ∙ fail_if-eq-ok _ _ e3))

  pub validate_received_amount-right :
      (method : PaymentMethod) (received r c : Option Numeric)
      → ReceivedColumn received
      → validate_received_amount method a received ≡ ok (r, c)
      → ChangeRight method.allows_change a r c
  unfolding validate_received_amount
  validate_received_amount-right method received r c cr e = elim (Bool-cases method.allows_change) [
    | inl change ↦
        subst (λ b. ChangeRight b a r c) (sym change)
          (received_with_change-right received r c cr (rw (change, validate_received_amount) at e))
    | inr none_allowed ↦
        subst (λ b. ChangeRight b a r c) (sym none_allowed)
          (received_exactly-right received r c cr
            (rw (none_allowed, validate_received_amount) at e))
  ]

not-false : (b : Bool) → not b ≡ false → b ≡ true
not-false true h = refl
not-false false h = cc

-- A number of installments is accepted exactly as it is sent, within the bounds of the method.
pub validate_installments-right :
    (method : PaymentMethod) (n m : ℤ)
    → validate_installments method n ≡ ok m
    → (n ≡ m) × InstallmentsRight method m
unfolding validate_installments
validate_installments-right method n m e = elim (Bool-cases method.allows_installments) [
  | inr single ↦
      let (u, e1, e2) =
        >>=-eq-ok (fail_if (not (eqb_ℤ n (pos 1))) (sentinel invalid_installments)) _
          (rw (single, validate_installments) at e) in
      let one : n ≡ pos 1 = eqb_ℤ→eq n (pos 1) (not-false _ (fail_if-eq-ok _ _ e1)) in
      let same : m ≡ pos 1 = sym (ok_injective e2) in
      (one ∙ sym same, (rw same (omega arith), (λ _. same), λ many. cc (many, single)))
  | inl many ↦
      let (u, e1, e2) =
        >>=-eq-ok
          (fail_if (ltb_ℤ n (pos 1) || ltb_ℤ method.max_installments n)
            (sentinel invalid_installments))
          _ (rw (many, validate_installments) at e) in
      let inside = fail_if-eq-ok _ _ e1 in
      let same : n ≡ m = ok_injective e2 in
      subst (λ k. (n ≡ k) × InstallmentsRight method k) same
        (refl, (ground (arith, inside), (λ single. cc (many, single)), λ _. ground (arith, inside)))
]

-- The amounts of a payment of the request, as the parsers of the checkout give them.
pub record InputColumns (input : PaymentInput) : Type 0 where
  pub amount_column : IsColumn 2 input.amount
  pub received_column : ReceivedColumn input.received_amount

-- A payment that passes is fair, keeps its amount, and has the method that was found.
pub check_payment-IsFair :
    (method : PaymentMethod) (input : PaymentInput) (p : ValidatedPayment)
    → InputColumns input
    → check_payment method input ≡ ok p
    → IsFair p × (p.method ≡ method) × (p.amount ≡ input.amount)
unfolding check_payment
check_payment-IsFair method input p c e =
    let (u, e1, e2) =
      >>=-eq-ok (fail_if (not method.is_active) (sentinel payment_method_inactive)) _ e in
    let (cmp, e3, e4) =
      >>=-eq-ok (map_err (wrap "compare payment amount") (compare_money input.amount zero_money)) _
        e2 in
    let (v, e5, e6) =
      >>=-eq-ok
        (fail_if (is_not_above cmp) (validation (codes "amount") "must be greater than zero")) _
        e4 in
    let (received, e7, e8) =
      >>=-eq-ok (validate_received_amount method input.amount input.received_amount) _ e6 in
    let (installments, e9, e10) =
      >>=-eq-ok (validate_installments method input.installments) _ e8 in
    let (w, e11, e12) =
      >>=-eq-ok
        (fail_if (lacks_reference method input.external_reference)
          (validation (codes "externalReference") "is required"))
        _ e10 in
    let compared : cmp_ℤ (amount 2 input.amount) (pos 0) ≡ cmp =
      ap (cmp_ℤ (amount 2 input.amount)) (sym (amount-numeric_from_scaled_int (pos 0) 2))
      ∙ ok_injective (
          sym (
            compare_money-columns input.amount zero_money c.amount_column
              (numeric_from_scaled_int-IsColumn (pos 0) 2))
          ∙ map_err-ok _ _ e3) in
    subst (λ (q : ValidatedPayment). IsFair q × (q.method ≡ method) × (q.amount ≡ input.amount))
      (ok_injective e12)
      (
        record {
          active = not-false _ (fail_if-eq-ok _ _ e1);
          positive =
              above (amount 2 input.amount) (ap is_not_above compared ∙ fail_if-eq-ok _ _ e5);
          change =
              validate_received_amount-right input.amount c.amount_column method
                input.received_amount received.0 received.1 c.received_column e7;
          installments = (validate_installments-right method input.installments installments e9).1;
        },
        refl,
        refl,
      )
