-- ===== src/Sales/Totals.antt =====
-- The arithmetic of sales/mapper.go does not fail on columns, and computes the amounts of Sales/Spec.
use pdv.Base.{
  ◌≡◌, refl, ◌∙◌, ap, arith, List, [], ◌∷◌, ℤ, pos, negsuc, ◌+ℤ◌, +ℤ_zero, zero_+ℤ, +ℤ_assoc, ◌*ℤ◌,
  int_laws, int32, ok, All,
}
use pdv.Errors.{message}
use pdv.Money.{Numeric, numeric_from_scaled_int, round_quo, rescale}
use pdv.Money.Scaled.{rescale_down}
use pdv.Money.Product.{product_places}
use pdv.Money.Columns.{
  amount, IsColumn, amount-column, numeric_to_scaled_int-column, numeric_from_scaled_int-IsColumn,
  amount-numeric_from_scaled_int,
}
use pdv.Database.Rows.{SaleItem}
use pdv.Sales.Money.{multiply_money_quantity, sum_from, sum_sale_totals}
use pdv.Sales.Spec.{gross, discount_of, total_of, sum_of, HasColumns}

multiply_ints_at :
    (p q : Numeric) (cp : IsColumn 2 p) (cq : IsColumn 3 q)
    → multiply_money_quantity p q
      ≡ ok (
          numeric_from_scaled_int
            (rescale (cp.coefficient *ℤ cq.coefficient) (int32 (p.exp +ℤ q.exp)) 2)
            2)
unfolding multiply_money_quantity
multiply_ints_at p q cp cq = rw (cp.is_valid, cq.is_valid, cp.has_int, cq.has_int)

-- On a price and a quantity the product is the rounded product of their units.
pub multiply_money_quantity-columns :
    (p q : Numeric)
    → IsColumn 2 p
    → IsColumn 3 q
    → multiply_money_quantity p q
      ≡ ok (numeric_from_scaled_int (round_quo (amount 2 p *ℤ amount 3 q) 1000) 2)
multiply_money_quantity-columns p q cp cq =
    let product : rescale (cp.coefficient *ℤ cq.coefficient) (int32 (p.exp +ℤ q.exp)) 2
        ≡ round_quo (amount 2 p *ℤ amount 3 q) 1000 =
      rw (amount-column 2 p cp, amount-column 3 q cq, cp.has_exp, cq.has_exp)
        (product_places cp.coefficient cq.coefficient _ cp.up cq.up cp.small_up cq.small_up refl
          ∙ rescale_down _ (negsuc 4) 2 2 (omega arith) (omega int_laws)) in
    multiply_ints_at p q cp cq ∙ ap (λ (z : ℤ). ok (numeric_from_scaled_int z 2)) product

pub sum_from-columns :
    (items : List SaleItem)
    → All HasColumns items
    → (a b c : ℤ)
    → sum_from items a b c
      ≡ ok (a +ℤ sum_of gross items, b +ℤ sum_of discount_of items, c +ℤ sum_of total_of items)
unfolding sum_from
sum_from-columns [] h a b c = cc (+ℤ_zero a, +ℤ_zero b, +ℤ_zero c)
sum_from-columns (item ∷ items) (h, rest) a b c = rw (
  multiply_money_quantity-columns item.unit_price item.quantity h.price h.quantity,
  numeric_to_scaled_int-column 2 (numeric_from_scaled_int (gross item) 2)
      (numeric_from_scaled_int-IsColumn (gross item) 2) message,
  numeric_to_scaled_int-column 2 item.discount h.discount message,
  numeric_to_scaled_int-column 2 item.total h.total message,
  amount-numeric_from_scaled_int (gross item) 2,
  sum_from-columns items rest (a +ℤ gross item) (b +ℤ discount_of item) (c +ℤ total_of item),
  +ℤ_assoc a,
  +ℤ_assoc b,
  +ℤ_assoc c,
)

-- On items whose numbers have the places of their columns, sumSaleTotals does not fail and gives
-- the integer sums of the rounded products, of the discounts and of the totals.
pub sum_sale_totals-columns :
    (items : List SaleItem)
    → All HasColumns items
    → sum_sale_totals items
      ≡ ok (
        numeric_from_scaled_int (sum_of gross items) 2,
        numeric_from_scaled_int (sum_of discount_of items) 2,
        numeric_from_scaled_int (sum_of total_of items) 2,
      )
unfolding sum_sale_totals
sum_sale_totals-columns items h = rw (
  sum_from-columns items h (pos 0) (pos 0) (pos 0),
  zero_+ℤ (sum_of gross items),
  zero_+ℤ (sum_of discount_of items),
  zero_+ℤ (sum_of total_of items),
)
