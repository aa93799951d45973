-- ===== src/Tests/Checkouts.antt =====
-- The theorems of the checkout at a small sale.
use pdv.Base.{
  ◌↔◌, ◌-◌, negsuc, arith, ◌≡◌, refl, List, [], ◌∷◌, All, none, some, ok, pos, ◌*ℤ◌, ◌+ℤ◌, ◌-ℤ◌,
  quo, rem, int32,
}
use pdv.Money.{Numeric, numeric_from_scaled_int, round_quo, rescale, pow10, numeric_to_scaled_int}
use pdv.Money.Columns.{amount, numeric_from_scaled_int-IsColumn}
use pdv.Database.Rows.{Sale, SaleItem}
use pdv.Sales.Money.{multiply_money_quantity as sales_multiply}
use pdv.Sales.Spec.{IsPriced, TotalsMatch}
use pdv.Errors.{codes}
use pdv.Sales.Input.{normalize_money_string as sales_normalize_money_string}
use pdv.Checkout.Input.{normalize_money_string, normalize_installments}
use pdv.Checkout.Requests.{
  normalize_installments-small, normalize_installments-wraps, normalize_money_string-agrees,
}
use pdv.Checkout.Money.{multiply_money_quantity}
use pdv.Checkout.Totals.{validate_sale_totals}
use pdv.Checkout.Accepts.{validate_sale_totals-accepts, multiply_money_quantity-agrees}
use pdv.Checkout.Payments.{PaymentInput, ValidatedPayment, validate_payments}
use pdv.Checkout.Paid.{Pays, validate_payments-Pays}
use pdv.Tests.Samples.{calm, shop, cash, open_sale, line, line_columns, coffee}

abbrev coffees : List SaleItem
coffees = line 1 (pos 2000) (pos 150) (pos 1848) ∷ line 2 (pos 1000) (pos 0) (pos 999) ∷ []

coffees-IsPriced : All IsPriced coffees
unfolding round_quo rescale pow10 quo rem int32 ◌*ℤ◌ ◌+ℤ◌ ◌-ℤ◌
coffees-IsPriced = (
  record { columns = line_columns 1 (pos 2000) (pos 150) (pos 1848); priced = refl },
  (record { columns = line_columns 2 (pos 1000) (pos 0) (pos 999); priced = refl }, tt),
)

abbrev coffee_sale : Sale
coffee_sale = record open_sale {
  subtotal = numeric_from_scaled_int (pos 2997) 2;
  discount = numeric_from_scaled_int (pos 150) 2;
  total = numeric_from_scaled_int (pos 2847) 2;
}

coffee_sale-TotalsMatch : TotalsMatch coffees coffee_sale
unfolding round_quo rescale pow10 quo rem int32 ◌*ℤ◌ ◌+ℤ◌ ◌-ℤ◌
coffee_sale-TotalsMatch = record {
  subtotal_column = numeric_from_scaled_int-IsColumn (pos 2997) 2;
  discount_column = numeric_from_scaled_int-IsColumn (pos 150) 2;
  addition_column = numeric_from_scaled_int-IsColumn (pos 0) 2;
  total_column = numeric_from_scaled_int-IsColumn (pos 2847) 2;
  subtotal = refl;
  discount = refl;
  addition = refl;
  total = refl;
}

validate_sale_totals-accepts_example : validate_sale_totals coffee_sale coffees ≡ ok tt
validate_sale_totals-accepts_example =
    validate_sale_totals-accepts coffee_sale coffees coffees-IsPriced coffee_sale-TotalsMatch

abbrev two_and_a_half : Numeric
two_and_a_half = numeric_from_scaled_int (pos 2500) 3

multiply_money_quantity-agrees_example :
    (r : Numeric) × (sales_multiply coffee.price two_and_a_half ≡ ok r)
    × (multiply_money_quantity coffee.price two_and_a_half ≡ ok r)
    × (amount 2 r ≡ round_quo (amount 2 coffee.price *ℤ amount 3 two_and_a_half) 1000)
multiply_money_quantity-agrees_example =
    multiply_money_quantity-agrees coffee.price two_and_a_half
      (numeric_from_scaled_int-IsColumn (pos 999) 2) (numeric_from_scaled_int-IsColumn (pos 2500) 3)

abbrev in_cash : PaymentInput
in_cash = record {
  payment_method_id = 7;
  amount = numeric_from_scaled_int (pos 2847) 2;
  received_amount = some (numeric_from_scaled_int (pos 5000) 2);
  installments = pos 1;
  external_reference = none;
}

abbrev in_cash_valid : ValidatedPayment
in_cash_valid = record {
  method = cash;
  amount = numeric_from_scaled_int (pos 2847) 2;
  received_amount = some (numeric_from_scaled_int (pos 5000) 2);
  change_amount = some (numeric_from_scaled_int (pos 2153) 2);
  installments = pos 1;
  external_reference = none;
}

in_cash_accepted :
    validate_payments calm 1 coffee_sale.total (in_cash ∷ []) shop ≡ (ok (in_cash_valid ∷ []), shop)
unfolding validate_payments numeric_to_scaled_int rescale ◌+ℤ◌ ◌-ℤ◌
in_cash_accepted = refl

validate_payments-Pays_example : Pays coffee_sale.total (in_cash ∷ []) (in_cash_valid ∷ [])
validate_payments-Pays_example =
    validate_payments-Pays calm 1 coffee_sale.total (in_cash ∷ []) shop shop (in_cash_valid ∷ [])
      (numeric_from_scaled_int-IsColumn (pos 2847) 2)
      (
        record {
          amount_column = numeric_from_scaled_int-IsColumn (pos 2847) 2;
          received_column = numeric_from_scaled_int-IsColumn (pos 5000) 2;
        },
        tt,
      )
      in_cash_accepted

normalize_installments-small_example :
    normalize_installments (codes "installments") (some (pos 12)) ≡ ok (pos 12)
normalize_installments-small_example =
    normalize_installments-small (codes "installments") 12 (omega arith)

normalize_installments-wraps_example :
    normalize_installments (codes "installments") (some (negsuc (65535 - 3))) ≡ ok (pos 3)
normalize_installments-wraps_example =
    normalize_installments-wraps (codes "installments") 3 (omega arith)

normalize_money_string-agrees_example :
    (sales_normalize_money_string (codes "amount") (codes " 1.5") ≡ ok (codes "1.50"))
    ↔ (normalize_money_string (codes "amount") (codes " 1.5") ≡ ok (codes "1.50"))
normalize_money_string-agrees_example =
    normalize_money_string-agrees (codes "amount") (codes " 1.5") (codes "1.50")
