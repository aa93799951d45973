-- ===== src/Checkout/Accepts.antt =====
-- The checkout accepts the totals that the sales commands leave.
use Prim.Native.Nat.{Ordering, compare}
use native.Mathlib.Omega.{compare-lt, compare-gt}
use pdv.Base.{
  ◌≡◌, refl, ◌∙◌, sym, ap, ℕ, arith, List, [], ◌∷◌, All, ℤ, pos, negsuc, ◌+ℤ◌, ◌-ℤ◌, ◌*ℤ◌, cmp_ℤ,
  +ℤ_assoc, +ℤ_zero, zero_+ℤ, int_laws, ok,
}
use pdv.Money.{Numeric, numeric_from_scaled_int, round_quo, round_numeric}
use pdv.Money.Scaled.{rescale_down}
use pdv.Money.Columns.{
  amount, IsColumn, numeric_to_scaled_int-column, numeric_from_scaled_int-IsColumn,
  amount-numeric_from_scaled_int,
}
use pdv.Database.Rows.{Sale, SaleItem}
use pdv.Sales.Money.{multiply_money_quantity as sales_multiply}
use pdv.Sales.Spec.{gross, discount_of, total_of, sum_of, IsPriced, TotalsMatch}
use pdv.Sales.Totals.{multiply_money_quantity-columns as sales_multiply-columns}
use pdv.Checkout.Errors.{fieldless}
use pdv.Checkout.Money.{compare_money, add_money, subtract_money, multiply_money_quantity}
use pdv.Checkout.Totals.{add_items, check_header, validate_sale_totals}

compare_refl : (n : ℕ) → compare n n ≡ Ordering.eq
compare_refl n = cases (compare n n) refl
  where
    cases : (o : Ordering) → compare n n ≡ o → o ≡ Ordering.eq
    cases Ordering.eq e = refl
    cases Ordering.lt e = absurd (omega (arith, compare-lt n n e))
    cases Ordering.gt e = absurd (omega (arith, compare-gt n n e))

cmp_ℤ_refl : (a : ℤ) → cmp_ℤ a a ≡ Ordering.eq
cmp_ℤ_refl a = compare_refl _

module _ (a b : Numeric) (ca : IsColumn 2 a) (cb : IsColumn 2 b) where
  pub compare_money-columns : compare_money a b ≡ ok (cmp_ℤ (amount 2 a) (amount 2 b))
  unfolding compare_money
  compare_money-columns =
      rw (
        numeric_to_scaled_int-column 2 a ca fieldless,
        numeric_to_scaled_int-column 2 b cb fieldless,
      )

  pub add_money-columns : add_money a b ≡ ok (numeric_from_scaled_int (amount 2 a +ℤ amount 2 b) 2)
  unfolding add_money
  add_money-columns =
      rw (
        numeric_to_scaled_int-column 2 a ca fieldless,
        numeric_to_scaled_int-column 2 b cb fieldless,
      )

  pub subtract_money-columns :
      subtract_money a b ≡ ok (numeric_from_scaled_int (amount 2 a -ℤ amount 2 b) 2)
  unfolding subtract_money
  subtract_money-columns =
      rw (
        numeric_to_scaled_int-column 2 a ca fieldless,
        numeric_to_scaled_int-column 2 b cb fieldless,
      )

pub multiply_money_quantity-columns :
    (p q : Numeric)
    → IsColumn 2 p
    → IsColumn 3 q
    → multiply_money_quantity p q
      ≡ ok (numeric_from_scaled_int (round_quo (amount 2 p *ℤ amount 3 q) 1000) 2)
unfolding multiply_money_quantity round_numeric
multiply_money_quantity-columns p q cp cq = rw (
  numeric_to_scaled_int-column 2 p cp fieldless,
  numeric_to_scaled_int-column 3 q cq fieldless,
  rescale_down (amount 2 p *ℤ amount 3 q) (negsuc 4) 2 2 (omega arith) (omega int_laws),
)

-- A comparison of equal amounts lets a check pass.
module _ (a b : Numeric) (ca : IsColumn 2 a) (cb : IsColumn 2 b)
    (same : amount 2 a ≡ amount 2 b) where
  pub compare_money-same : compare_money a b ≡ ok Ordering.eq
  compare_money-same = compare_money-columns a b ca cb ∙ rw (same, cmp_ℤ_refl (amount 2 b))

-- Numbers made of cents.
abbrev pub cents : ℤ → Numeric
cents x = numeric_from_scaled_int x 2

pub cents-IsColumn : (x : ℤ) → IsColumn 2 (cents x)
cents-IsColumn x = numeric_from_scaled_int-IsColumn x 2

module _ (x : ℤ) (b : Numeric) (cb : IsColumn 2 b) where
  subtract_cents : subtract_money (cents x) b ≡ ok (cents (x -ℤ amount 2 b))
  subtract_cents =
      subtract_money-columns (cents x) b (cents-IsColumn x) cb
      ∙ ap (λ (z : ℤ). ok (cents (z -ℤ amount 2 b))) (amount-numeric_from_scaled_int x 2)

  pub add_cents : add_money (cents x) b ≡ ok (cents (x +ℤ amount 2 b))
  add_cents =
      add_money-columns (cents x) b (cents-IsColumn x) cb
      ∙ ap (λ (z : ℤ). ok (cents (z +ℤ amount 2 b))) (amount-numeric_from_scaled_int x 2)

add_two_cents : (x y : ℤ) → add_money (cents x) (cents y) ≡ ok (cents (x +ℤ y))
add_two_cents x y =
    add_cents x (cents y) (cents-IsColumn y)
    ∙ ap (λ (z : ℤ). ok (cents (x +ℤ z))) (amount-numeric_from_scaled_int y 2)

-- The loop passes every priced item and adds up.
add_items-priced :
    (items : List SaleItem)
    → All IsPriced items
    → (a b c : ℤ)
    → add_items items (cents a) (cents b) (cents c)
      ≡ ok (
        cents (a +ℤ sum_of gross items),
        cents (b +ℤ sum_of discount_of items),
        cents (c +ℤ sum_of total_of items),
      )
unfolding add_items
add_items-priced [] h a b c = cc (+ℤ_zero a, +ℤ_zero b, +ℤ_zero c)
add_items-priced (item ∷ items) (h, rest) a b c = rw (
  multiply_money_quantity-columns item.unit_price item.quantity h.columns.price h.columns.quantity,
  subtract_cents (gross item) item.discount h.columns.discount,
  compare_money-same (cents (gross item -ℤ discount_of item)) item.total (cents-IsColumn _)
      h.columns.total (amount-numeric_from_scaled_int _ 2 ∙ sym h.priced),
  add_two_cents a (gross item),
  add_cents b item.discount h.columns.discount,
  add_cents c item.total h.columns.total,
  add_items-priced items rest (a +ℤ gross item) (b +ℤ discount_of item) (c +ℤ total_of item),
  +ℤ_assoc a,
  +ℤ_assoc b,
  +ℤ_assoc c,
)

-- The totals of priced items are what the discounts leave of the products.
sum_total :
    (items : List SaleItem)
    → All IsPriced items
    → sum_of total_of items ≡ sum_of gross items -ℤ sum_of discount_of items
sum_total [] h = omega int_laws
sum_total (item ∷ items) (h, rest) = rw (h.priced, sum_total items rest) (omega int_laws)

check_header-matches :
    (sale : Sale) (items : List SaleItem)
    → All IsPriced items
    → TotalsMatch items sale
    → check_header sale (cents (sum_of gross items)) (cents (sum_of discount_of items)) ≡ ok tt
unfolding check_header
check_header-matches sale items h m =
    let net : amount 2
          (cents (sum_of gross items -ℤ sum_of discount_of items +ℤ amount 2 sale.addition))
        ≡ amount 2 sale.total =
      amount-numeric_from_scaled_int _ 2
      ∙ rw (m.addition, m.total, sum_total items h) (omega int_laws) in
    rw (
      compare_money-same sale.subtotal (cents (sum_of gross items)) m.subtotal_column
          (cents-IsColumn _) (m.subtotal ∙ sym (amount-numeric_from_scaled_int _ 2)),
      compare_money-same sale.discount (cents (sum_of discount_of items)) m.discount_column
          (cents-IsColumn _) (m.discount ∙ sym (amount-numeric_from_scaled_int _ 2)),
      subtract_cents (sum_of gross items) (cents (sum_of discount_of items)) (cents-IsColumn _),
      amount-numeric_from_scaled_int (sum_of discount_of items) 2,
      add_cents (sum_of gross items -ℤ sum_of discount_of items) sale.addition m.addition_column,
      compare_money-same sale.total
          (cents (sum_of gross items -ℤ sum_of discount_of items +ℤ amount 2 sale.addition))
          m.total_column (cents-IsColumn _) (sym net),
    )

-- A sale whose items are priced and whose header adds them up, which is what the sales commands
-- keep, passes the check of the totals in the checkout.
pub validate_sale_totals-accepts :
    (sale : Sale) (items : List SaleItem)
    → All IsPriced items
    → TotalsMatch items sale
    → validate_sale_totals sale items ≡ ok tt
unfolding validate_sale_totals
validate_sale_totals-accepts sale items h m = rw (
  add_items-priced items h (pos 0) (pos 0) (pos 0),
  zero_+ℤ (sum_of gross items),
  zero_+ℤ (sum_of discount_of items),
  check_header-matches sale items h m,
)

-- On a price with two places and a quantity with three, the multiplications of the sales and of
-- the checkout give the same amount, the rounded product.
pub multiply_money_quantity-agrees :
    (p q : Numeric)
    → IsColumn 2 p
    → IsColumn 3 q
    → (r : Numeric) × (sales_multiply p q ≡ ok r)
      × (multiply_money_quantity p q ≡ ok r)
      × (amount 2 r ≡ round_quo (amount 2 p *ℤ amount 3 q) 1000)
multiply_money_quantity-agrees p q cp cq = (
  cents (round_quo (amount 2 p *ℤ amount 3 q) 1000),
  sales_multiply-columns p q cp cq,
  multiply_money_quantity-columns p q cp cq,
  amount-numeric_from_scaled_int _ 2,
)
