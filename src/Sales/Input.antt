-- ===== src/Sales/Input.antt =====
-- The checks on requests of backend/internal/sales/validation.go.
use pdv.Base.{
  ◌-◌, ◌==◌, ltb, Bool, true, false, not, ◌||◌, [], ◌∷◌, ◌++◌, length, Option, none, some,
  if◌then◌else◌, Result, ok, err, ◌>>=◌, ◌>>◌, fail_if,
}
use pdv.Errors.{Text, Error, codes, validation}
use pdv.Text.{
  trim_space, trim_zeros, is_empty, starts_with, cut, all_digits, has_positive_digit, zeros,
}
use pdv.Money.{Numeric, zero_money}
use pdv.Database.Rows.{Uuid}
use pdv.Database.Store.{Environment}
use pdv.Sales.Errors.{SalesError}

abbrev pub or_error : {S A : Type 0} → Option A → Error S → Result (Error S) A
or_error none e = err e
or_error (some a) e = ok a

unfoldable pub normalize_required_text : {S : Type 0} → Text → Text → Result (Error S) Text
normalize_required_text field value = do
  fail_if (is_empty (trim_space value)) (validation field "is required")
  ok (trim_space value)

unfoldable pub parse_uuid : {S : Type 0} → Environment → Text → Text → Result (Error S) Uuid
parse_uuid env raw field = do
  fail_if (is_empty (trim_space raw)) (validation field "is required")
  or_error (env.scan_uuid (trim_space raw)) (validation field "must be a valid UUID")

-- `for len(fraction) < 3 { fraction += "0" }`
unfoldable pub pad_fraction : Text → Text
pad_fraction fraction = fraction ++ zeros (3 - length fraction)

-- More than three digits are accepted where the ones behind the third are zeros.
unfoldable pub quantity_fraction : {S : Type 0} → Text → Text → Result (Error S) Text
unfolding pad_fraction
quantity_fraction field fraction =
    if ltb 3 (length fraction)
    then (let kept = if is_empty (trim_zeros fraction) then b'0' ∷ [] else trim_zeros fraction in
        if ltb 3 (length kept)
        then err (validation field "must have at most three decimal places")
        else ok (pad_fraction kept))
    else ok (pad_fraction fraction)

unfoldable pub quantity_of_cut :
    {S : Type 0} → Text → Text → Text × Text × Bool → Result (Error S) Text
unfolding quantity_fraction
quantity_of_cut field trimmed (whole, fraction, true) = do
  fail_if (is_empty whole || is_empty fraction) (validation field "must be a valid decimal number")
  fail_if (not (all_digits whole) || not (all_digits fraction))
      (validation field "must have at most three decimal places")
  padded ← quantity_fraction field fraction
  ok (whole ++ b'.' ∷ padded)
quantity_of_cut field trimmed (whole, fraction, false) = do
  fail_if (not (all_digits trimmed)) (validation field "must be a valid decimal number")
  ok (trimmed ++ codes ".000")

unfoldable pub normalize_quantity_string : {S : Type 0} → Text → Text → Result (Error S) Text
unfolding quantity_of_cut
normalize_quantity_string field value =
    let trimmed = trim_space value in
    do
      fail_if (is_empty trimmed) (validation field "is required")
      fail_if (starts_with b'-' trimmed || starts_with b'+' trimmed)
          (validation field "must be greater than zero")
      quantity_of_cut field trimmed (cut b'.' trimmed)

unfoldable pub parse_quantity : {S : Type 0} → Environment → Text → Text → Result (Error S) Numeric
unfolding normalize_quantity_string
parse_quantity env field value = do
  canonical ← normalize_quantity_string field value
  fail_if (not (has_positive_digit canonical)) (validation field "must be greater than zero")
  or_error (env.scan_scientific canonical) (validation field "must be a valid decimal number")

-- One digit behind the point becomes two.
abbrev pub cents : Text → Text
cents fraction = if length fraction == 1 then fraction ++ b'0' ∷ [] else fraction

unfoldable pub money_of_cut : Text → Text → Text × Text × Bool → Result SalesError Text
money_of_cut field trimmed (whole, fraction, true) = do
  fail_if (is_empty whole || is_empty fraction) (validation field "must be a valid monetary amount")
  fail_if (not (all_digits whole) || (not (all_digits fraction) || ltb 2 (length fraction)))
      (validation field "must have at most two decimal places")
  ok (whole ++ b'.' ∷ cents fraction)
money_of_cut field trimmed (whole, fraction, false) = do
  fail_if (not (all_digits trimmed)) (validation field "must be a valid monetary amount")
  ok (trimmed ++ codes ".00")

unfoldable pub normalize_money_string : Text → Text → Result SalesError Text
unfolding money_of_cut
normalize_money_string field value =
    let trimmed = trim_space value in
    do
      fail_if (is_empty trimmed) (validation field "is required")
      fail_if (starts_with b'-' trimmed || starts_with b'+' trimmed)
          (validation field "cannot be negative")
      money_of_cut field trimmed (cut b'.' trimmed)

unfoldable pub parse_money : Environment → Text → Text → Result SalesError Numeric
unfolding normalize_money_string
parse_money env field value = do
  canonical ← normalize_money_string field value
  or_error (env.scan_scientific canonical) (validation field "must be a valid monetary amount")

unfoldable pub parse_optional_money : Environment → Text → Option Text → Result SalesError Numeric
unfolding parse_money
parse_optional_money env field none = ok zero_money
parse_optional_money env field (some value) = parse_money env field value

pub record AddItemInput : Type 0 where
  pub product_id : Text
  pub quantity : Text
  pub discount : Option Text

pub record NormalizedAddItem : Type 0 where
  pub product_id : Uuid
  pub quantity : Numeric
  pub discount : Numeric

unfoldable pub normalize_add_sale_item_input :
    Environment → AddItemInput → Result SalesError NormalizedAddItem
unfolding parse_uuid parse_quantity parse_optional_money
normalize_add_sale_item_input env input = do
  product_id ← parse_uuid env input.product_id (codes "productId")
  quantity ← parse_quantity env (codes "quantity") input.quantity
  discount ← parse_optional_money env (codes "discount") input.discount
  ok (record { product_id = product_id; quantity = quantity; discount = discount })

pub record UpdateItemInput : Type 0 where
  pub quantity : Text
  pub discount : Option Text

pub record NormalizedUpdateItem : Type 0 where
  pub quantity : Numeric
  pub discount : Numeric

unfoldable pub normalize_update_sale_item_input :
    Environment → UpdateItemInput → Result SalesError NormalizedUpdateItem
unfolding parse_quantity parse_optional_money
normalize_update_sale_item_input env input = do
  quantity ← parse_quantity env (codes "quantity") input.quantity
  discount ← parse_optional_money env (codes "discount") input.discount
  ok (record { quantity = quantity; discount = discount })
