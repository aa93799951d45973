-- ===== src/Sales/Money.antt =====
-- The arithmetic of backend/internal/sales/mapper.go on the rows of a sale.
use Prim.Native.Nat.{Ordering}
use pdv.Base.{
  cmp_ℤ, ◌||◌, not, Option, none, some, List, [], ◌∷◌, ℤ, pos, ◌+ℤ◌, ◌-ℤ◌, ◌*ℤ◌, int32,
  if◌then◌else◌, Result, ok, err, ◌>>=◌, map_err, ℕ, ◌>>◌, fail_if, Bool, true, false,
}
use pdv.Errors.{message, wrap, validation, codes}
use pdv.Money
use pdv.Money.{Numeric, numeric_from_scaled_int, zero_money, round_numeric}
use pdv.Database.Rows.{SaleItem}
use pdv.Sales.Errors.{SalesError}

abbrev pub numeric_to_scaled_int : Numeric → ℕ → Result SalesError ℤ
numeric_to_scaled_int = Money.numeric_to_scaled_int message

unfoldable pub compare_money : Numeric → Numeric → Result SalesError Ordering
compare_money a b = do
  left ← numeric_to_scaled_int a 2
  right ← numeric_to_scaled_int b 2
  ok (cmp_ℤ left right)

multiply_ints : Option ℤ → Option ℤ → ℤ → Numeric
multiply_ints none _ _ = zero_money
multiply_ints (some _) none _ = zero_money
multiply_ints (some a) (some b) exp = round_numeric (a *ℤ b) exp 2

-- The integers are multiplied as they stand, and the product is rounded.
unfoldable pub multiply_money_quantity : Numeric → Numeric → Result SalesError Numeric
unfolding multiply_ints round_numeric
multiply_money_quantity unit_price quantity =
    if not unit_price.valid || not quantity.valid
    then err (message "numeric value is null")
    else ok (multiply_ints unit_price.int quantity.int (int32 (unit_price.exp +ℤ quantity.exp)))

unfoldable pub subtract_money : Numeric → Numeric → Result SalesError Numeric
subtract_money minuend subtrahend = do
  left ← numeric_to_scaled_int minuend 2
  right ← numeric_to_scaled_int subtrahend 2
  ok (numeric_from_scaled_int (left -ℤ right) 2)

-- The loop over the items, on the three accumulators.
unfoldable pub sum_from : List SaleItem → ℤ → ℤ → ℤ → Result SalesError (ℤ × ℤ × ℤ)
sum_from [] subtotal discount total = ok (subtotal, discount, total)
sum_from (item ∷ items) subtotal discount total = do
  item_subtotal ←
      map_err (wrap "calculate item subtotal")
        (multiply_money_quantity item.unit_price item.quantity)
  item_subtotal_int ←
      map_err (wrap "normalize item subtotal") (numeric_to_scaled_int item_subtotal 2)
  item_discount_int ←
      map_err (wrap "normalize item discount") (numeric_to_scaled_int item.discount 2)
  item_total_int ← map_err (wrap "normalize item total") (numeric_to_scaled_int item.total 2)
  sum_from items (subtotal +ℤ item_subtotal_int) (discount +ℤ item_discount_int)
      (total +ℤ item_total_int)

unfoldable pub sum_sale_totals : List SaleItem → Result SalesError (Numeric × Numeric × Numeric)
unfolding sum_from
sum_sale_totals items = do
  sums ← sum_from items (pos 0) (pos 0) (pos 0)
  ok (
    numeric_from_scaled_int sums.0 2,
    numeric_from_scaled_int sums.1 2,
    numeric_from_scaled_int sums.2 2,
  )

abbrev pub exceeds : Ordering → Bool
exceeds Ordering.gt = true
exceeds _ = false

-- What AddItem and UpdateItem both do: the subtotal is rounded, the discount must not be greater, and
-- is taken off.
unfoldable pub price_item : Numeric → Numeric → Numeric → Result SalesError Numeric
unfolding multiply_money_quantity compare_money subtract_money
price_item unit_price quantity discount = do
  item_subtotal ←
      map_err (wrap "calculate item subtotal") (multiply_money_quantity unit_price quantity)
  cmp ← map_err (wrap "compare item discount") (compare_money discount item_subtotal)
  fail_if (exceeds cmp) (validation (codes "discount") "cannot be greater than the item subtotal")
  map_err (wrap "calculate item total") (subtract_money item_subtotal discount)
