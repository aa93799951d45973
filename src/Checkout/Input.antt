-- ===== src/Checkout/Input.antt =====
-- The checks on requests of backend/internal/checkout/validation.go.
use pdv.Base.{
  ℕ, suc, ◌==◌, ltb, Bool, true, false, not, ◌||◌, List, [], ◌∷◌, ◌++◌, length, Option, none, some,
  ℤ, pos, ltb_ℤ, int16, if◌then◌else◌, Result, ok, err, ◌>>=◌, ◌>>◌, fail_if,
}
use pdv.Errors.{Text, codes, validation}
use pdv.Text.{trim_space, is_empty, starts_with, cut, all_digits, int_to_string}
use pdv.Money.{Numeric}
use pdv.Database.Rows.{Uuid}
use pdv.Database.Store.{Environment}
use pdv.Checkout.Errors.{CheckoutError}
use pdv.Checkout.Payments.{PaymentInput}

or_invalid : {A : Type 0} → Option A → CheckoutError → Result CheckoutError A
or_invalid none e = err e
or_invalid (some a) e = ok a

unfoldable pub normalize_required_text : Text → Text → Result CheckoutError Text
normalize_required_text field value = do
  fail_if (is_empty (trim_space value)) (validation field "is required")
  ok (trim_space value)

unfoldable pub parse_uuid : Environment → Text → Text → Result CheckoutError Uuid
unfolding or_invalid
parse_uuid env raw field = do
  fail_if (is_empty (trim_space raw)) (validation field "is required")
  or_invalid (env.scan_uuid (trim_space raw)) (validation field "must be a valid UUID")

abbrev pub cents : Text → Text
cents fraction = if length fraction == 1 then fraction ++ b'0' ∷ [] else fraction

unfoldable pub money_of_cut : Text → Text → Text × Text × Bool → Result CheckoutError Text
money_of_cut field trimmed (whole, fraction, true) = do
  fail_if
      (is_empty whole
        || (is_empty fraction
            || (not (all_digits whole) || (not (all_digits fraction) || ltb 2 (length fraction)))))
      (validation field "must have at most two decimal places")
  ok (whole ++ b'.' ∷ cents fraction)
money_of_cut field trimmed (whole, fraction, false) = do
  fail_if (not (all_digits trimmed)) (validation field "must be a valid monetary amount")
  ok (trimmed ++ codes ".00")

unfoldable pub normalize_money_string : Text → Text → Result CheckoutError Text
unfolding money_of_cut
normalize_money_string field value =
    let trimmed = trim_space value in
    do
      fail_if (is_empty trimmed) (validation field "is required")
      fail_if (starts_with b'-' trimmed || starts_with b'+' trimmed)
          (validation field "cannot be negative")
      money_of_cut field trimmed (cut b'.' trimmed)

unfoldable pub parse_money : Environment → Text → Text → Result CheckoutError Numeric
unfolding normalize_money_string or_invalid
parse_money env field value = do
  canonical ← normalize_money_string field value
  or_invalid (env.scan_scientific canonical) (validation field "must be a valid monetary amount")

-- "payments[" + intToString(index) + "]." + name
unfoldable pub field_name : ℕ → Text → Text
field_name index name = codes "payments[" ++ int_to_string (pos index) ++ codes "]." ++ name

pub record CheckoutPaymentInput : Type 0 where
  pub payment_method_id : Text
  pub amount : Text
  pub received_amount : Option Text
  pub installments : Option ℤ
  pub external_reference : Option Text

-- An int that is greater than 32767 is refused, any other is converted to int16.
unfoldable pub normalize_installments : Text → Option ℤ → Result CheckoutError ℤ
normalize_installments field none = ok (pos 1)
normalize_installments field (some n) = do
  fail_if (ltb_ℤ (pos 32767) n) (validation field "is too large")
  ok (int16 n)

-- The optional fields.
abbrev pub optional :
    {A : Type 0} → (Text → Result CheckoutError A) → Option Text → Result CheckoutError (Option A)
optional parse none = ok none
optional parse (some value) = do parsed ← parse value; ok (some parsed)

unfoldable pub normalize_checkout_payment_input :
    Environment → CheckoutPaymentInput → ℕ → Result CheckoutError PaymentInput
unfolding parse_uuid parse_money normalize_installments normalize_required_text field_name
normalize_checkout_payment_input env input index = do
  payment_method_id ←
      parse_uuid env input.payment_method_id (field_name index (codes "paymentMethodId"))
  amount ← parse_money env (field_name index (codes "amount")) input.amount
  received_amount ←
      optional (parse_money env (field_name index (codes "receivedAmount"))) input.received_amount
  installments ← normalize_installments (field_name index (codes "installments")) input.installments
  external_reference ←
      optional (normalize_required_text (field_name index (codes "externalReference")))
        input.external_reference
  ok (record {
    payment_method_id = payment_method_id;
    amount = amount;
    received_amount = received_amount;
    installments = installments;
    external_reference = external_reference;
  })

-- The loop over the payments, from an index on.
normalize_from :
    Environment → ℕ → List CheckoutPaymentInput → Result CheckoutError (List PaymentInput)
unfolding normalize_checkout_payment_input
normalize_from env index [] = ok []
normalize_from env index (payment ∷ payments) = do
  normalized ← normalize_checkout_payment_input env payment index
  rest ← normalize_from env (suc index) payments
  ok (normalized ∷ rest)

unfoldable pub normalize_checkout_input :
    Environment → List CheckoutPaymentInput → Result CheckoutError (List PaymentInput)
unfolding normalize_from
normalize_checkout_input env payments = normalize_from env 0 payments
