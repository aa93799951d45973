-- ===== src/Checkout/Totals.antt =====
-- validateSaleTotals of backend/internal/checkout/service_commands.go.
use pdv.Base.{List, [], ◌∷◌, Result, ok, ◌>>=◌, ◌>>◌, map_err, fail_if}
use pdv.Errors.{codes, wrap, validation}
use pdv.Money.{Numeric, zero_money}
use pdv.Database.Rows.{Sale, SaleItem}
use pdv.Checkout.Errors.{CheckoutError}
use pdv.Checkout.Money.{compare_money, add_money, subtract_money, multiply_money_quantity, differs}

-- The loop over the items, with the three accumulators.
unfoldable pub add_items :
    List SaleItem → Numeric → Numeric → Numeric → Result CheckoutError (Numeric × Numeric × Numeric)
unfolding multiply_money_quantity subtract_money compare_money add_money
add_items [] subtotal discount total = ok (subtotal, discount, total)
add_items (item ∷ items) subtotal discount total = do
  item_subtotal ←
      map_err (wrap "calculate item subtotal")
        (multiply_money_quantity item.unit_price item.quantity)
  expected_total ←
      map_err (wrap "calculate item total") (subtract_money item_subtotal item.discount)
  cmp ← map_err (wrap "compare item total") (compare_money expected_total item.total)
  fail_if (differs cmp) (validation (codes "items") "sale item totals are inconsistent")
  subtotal' ← map_err (wrap "sum subtotal") (add_money subtotal item_subtotal)
  discount' ← map_err (wrap "sum discount") (add_money discount item.discount)
  total' ← map_err (wrap "sum total") (add_money total item.total)
  add_items items subtotal' discount' total'

-- What follows the loop. The sum of the totals is not looked at.
unfoldable pub check_header : Sale → Numeric → Numeric → Result CheckoutError (Unit {0})
unfolding subtract_money compare_money add_money
check_header sale subtotal discount = do
  subtotal_cmp ← map_err (wrap "compare sale subtotal") (compare_money sale.subtotal subtotal)
  fail_if (differs subtotal_cmp) (validation (codes "sale") "sale subtotal is inconsistent")
  discount_cmp ← map_err (wrap "compare sale discount") (compare_money sale.discount discount)
  fail_if (differs discount_cmp) (validation (codes "sale") "sale discount is inconsistent")
  net ← map_err (wrap "calculate sale expected total") (subtract_money subtotal discount)
  expected_total ← map_err (wrap "calculate sale final total") (add_money net sale.addition)
  total_cmp ← map_err (wrap "compare sale total") (compare_money sale.total expected_total)
  fail_if (differs total_cmp) (validation (codes "sale") "sale total is inconsistent")

unfoldable pub validate_sale_totals : Sale → List SaleItem → Result CheckoutError (Unit {0})
unfolding add_items check_header
validate_sale_totals sale items = do
  sums ← add_items items zero_money zero_money zero_money
  check_header sale sums.0 sums.1
