-- ===== src/Checkout/Money.antt =====
-- The arithmetic of backend/internal/checkout/validation.go.
use Prim.Native.Nat.{Ordering}
use pdv.Base.{ℕ, ℤ, negsuc, ◌+ℤ◌, ◌-ℤ◌, ◌*ℤ◌, cmp_ℤ, Bool, true, false, Result, ok, ◌>>=◌}
use pdv.Money
use pdv.Money.{Numeric, numeric_from_scaled_int, round_numeric}
use pdv.Checkout.Errors.{CheckoutError, fieldless}

abbrev pub numeric_to_scaled_int : Numeric → ℕ → Result CheckoutError ℤ
numeric_to_scaled_int = Money.numeric_to_scaled_int fieldless

unfoldable pub compare_money : Numeric → Numeric → Result CheckoutError Ordering
compare_money a b = do
  left ← numeric_to_scaled_int a 2
  right ← numeric_to_scaled_int b 2
  ok (cmp_ℤ left right)

unfoldable pub add_money : Numeric → Numeric → Result CheckoutError Numeric
add_money a b = do
  left ← numeric_to_scaled_int a 2
  right ← numeric_to_scaled_int b 2
  ok (numeric_from_scaled_int (left +ℤ right) 2)

unfoldable pub subtract_money : Numeric → Numeric → Result CheckoutError Numeric
subtract_money minuend subtrahend = do
  left ← numeric_to_scaled_int minuend 2
  right ← numeric_to_scaled_int subtrahend 2
  ok (numeric_from_scaled_int (left -ℤ right) 2)

-- Both numbers are brought to the places of their columns, and the product is rounded.
unfoldable pub multiply_money_quantity : Numeric → Numeric → Result CheckoutError Numeric
unfolding round_numeric
multiply_money_quantity unit_price quantity = do
  left ← numeric_to_scaled_int unit_price 2
  right ← numeric_to_scaled_int quantity 3
  ok (round_numeric (left *ℤ right) (negsuc 4) 2)

unfoldable pub add_quantity : Numeric → Numeric → Result CheckoutError Numeric
add_quantity a b = do
  left ← numeric_to_scaled_int a 3
  right ← numeric_to_scaled_int b 3
  ok (numeric_from_scaled_int (left +ℤ right) 3)

-- `cmp != 0`, `cmp < 0` and `cmp <= 0`
abbrev pub differs : Ordering → Bool
differs Ordering.eq = false
differs _ = true

abbrev pub is_below : Ordering → Bool
is_below Ordering.lt = true
is_below _ = false

abbrev pub is_not_above : Ordering → Bool
is_not_above Ordering.gt = false
is_not_above _ = true
