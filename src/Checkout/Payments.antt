-- ===== src/Checkout/Payments.antt =====
-- ValidatePayments and the checks that it makes, of backend/internal/checkout/service_commands.go, with
-- the statement on payment methods.
use pdv.Base.{
  ◌==◌, ◌&&◌, ◌||◌, Bool, true, false, not, List, [], ◌∷◌, Option, none, some, ℤ, pos, ltb_ℤ, eqb_ℤ,
  if◌then◌else◌, Result, ok, map_err, fail_if, ◌>>=◌, ◌>>◌,
}
use pdv.Errors.{Text, codes, sentinel, wrap, validation, is_no_rows}
use pdv.Text.{is_empty, trim_space}
use pdv.Money.{Numeric, zero_money}
use pdv.Database.Rows.{Uuid, PaymentMethod}
use pdv.Database.Tables.{find}
use pdv.Database.Store
use pdv.Database.Store.{Db, Environment, Action, statement, one_row, lift, pure, on_error}
use pdv.Checkout.Errors.{
  Sentinel, CheckoutError, payment_method_not_found, payment_method_inactive, payments_required,
  payment_amount_mismatch, invalid_received_amount, invalid_installments,
}
use pdv.Checkout.Money.{compare_money, add_money, subtract_money, differs, is_below, is_not_above}

-- normalizedCheckoutPaymentInput
pub record PaymentInput : Type 0 where
  pub payment_method_id : Uuid
  pub amount : Numeric
  pub received_amount : Option Numeric
  pub installments : ℤ
  pub external_reference : Option Text

-- validatedCheckoutPayment
pub record ValidatedPayment : Type 0 where
  pub method : PaymentMethod
  pub amount : Numeric
  pub received_amount : Option Numeric
  pub change_amount : Option Numeric
  pub installments : ℤ
  pub external_reference : Option Text

-- Where the method allows change.
unfoldable pub received_with_change :
    Numeric → Option Numeric → Result CheckoutError (Option Numeric × Option Numeric)
received_with_change amount none = ok (some amount, some zero_money)
received_with_change amount (some received) = do
  cmp ← map_err (wrap "compare received amount") (compare_money received amount)
  fail_if (is_below cmp) (sentinel invalid_received_amount)
  change ← map_err (wrap "calculate change amount") (subtract_money received amount)
  ok (some received, some change)

-- Where it does not.
unfoldable pub received_exactly :
    Numeric → Option Numeric → Result CheckoutError (Option Numeric × Option Numeric)
received_exactly amount none = ok (none, none)
received_exactly amount (some received) = do
  cmp ← map_err (wrap "compare received amount") (compare_money received amount)
  fail_if (differs cmp) (sentinel invalid_received_amount)
  ok (some received, none)

unfoldable pub validate_received_amount :
    PaymentMethod
    → Numeric
    → Option Numeric
    → Result CheckoutError (Option Numeric × Option Numeric)
unfolding received_with_change received_exactly compare_money subtract_money
validate_received_amount method amount received =
    if method.allows_change
    then received_with_change amount received
    else received_exactly amount received

unfoldable pub validate_installments : PaymentMethod → ℤ → Result CheckoutError ℤ
validate_installments method installments =
    if not method.allows_installments
    then (fail_if (not (eqb_ℤ installments (pos 1))) (sentinel invalid_installments) >> ok (pos 1))
    else (fail_if (ltb_ℤ installments (pos 1) || ltb_ℤ method.max_installments installments)
          (sentinel invalid_installments)
        >> ok installments)

-- The two conditions on the external reference.
unfoldable pub lacks_reference : PaymentMethod → Option Text → Bool
lacks_reference method none = method.requires_external_reference
lacks_reference method (some reference) =
    method.requires_external_reference && is_empty (trim_space reference)

-- What the loop does with one payment once its method is found, up to the sum.
unfoldable pub check_payment : PaymentMethod → PaymentInput → Result CheckoutError ValidatedPayment
unfolding validate_received_amount validate_installments lacks_reference compare_money
check_payment method input = do
  fail_if (not method.is_active) (sentinel payment_method_inactive)
  cmp ← map_err (wrap "compare payment amount") (compare_money input.amount zero_money)
  fail_if (is_not_above cmp) (validation (codes "amount") "must be greater than zero")
  received ← validate_received_amount method input.amount input.received_amount
  installments ← validate_installments method input.installments
  fail_if (lacks_reference method input.external_reference)
      (validation (codes "externalReference") "is required")
  ok (record {
    method = method;
    amount = input.amount;
    received_amount = received.0;
    change_amount = received.1;
    installments = installments;
    external_reference = input.external_reference;
  })

unfoldable pub method_error : CheckoutError → CheckoutError
method_error e =
    if is_no_rows e then sentinel payment_method_not_found else wrap "get payment method" e

unfoldable pub no_payments : List PaymentInput → Bool
no_payments [] = true
no_payments (_ ∷ _) = false

abbrev method_at : Uuid → Uuid → PaymentMethod → Bool
method_at org id m = m.organization_id == org && m.id == id

module _ (env : Environment) (org : Uuid) where
  unfoldable pub get_payment_method_by_id : Uuid → Action Sentinel PaymentMethod
  unfolding statement
  get_payment_method_by_id id =
      statement env "GetPaymentMethodByIDForOrganization"
        λ db. one_row db (find (method_at org id) db.payment_methods)

  -- The loop, on the payments that are left and the sum so far.
  unfoldable pub validate_from :
      List PaymentInput → Numeric → Action Sentinel (List ValidatedPayment × Numeric)
  unfolding get_payment_method_by_id method_error check_payment add_money
  validate_from [] sum = pure ([], sum)
  validate_from (input ∷ inputs) sum =
      Store.◌>>=◌ (on_error method_error (get_payment_method_by_id input.payment_method_id))
        λ method. Store.◌>>=◌ (lift (check_payment method input)) λ checked.
          Store.◌>>=◌ (lift (map_err (wrap "sum payments") (add_money sum input.amount)))
            λ sum'. Store.◌>>=◌ (validate_from inputs sum') λ rest. pure (checked ∷ rest.0, rest.1)

  unfoldable pub validate_payments :
      Numeric → List PaymentInput → Action Sentinel (List ValidatedPayment)
  unfolding validate_from no_payments compare_money
  validate_payments sale_total inputs =
      Store.◌>>=◌ (lift (fail_if (no_payments inputs) (sentinel payments_required))) λ _.
        Store.◌>>=◌ (validate_from inputs zero_money) λ validated.
          Store.◌>>=◌
            (lift (map_err (wrap "compare payment total") (compare_money validated.1 sale_total)))
            λ cmp.
              Store.◌>>=◌ (lift (fail_if (differs cmp) (sentinel payment_amount_mismatch)))
                λ _. pure validated.0
