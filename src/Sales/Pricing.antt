-- ===== src/Sales/Pricing.antt =====
-- The total that AddItem and UpdateItem compute for an item.
use mathlib.Core.Path.{subst}
use pdv.Base.{ok_injective, ◌≡◌, ℤ, ◌-ℤ◌, ◌*ℤ◌, cmp_ℤ, ok, err, Bool-cases, inl, inr, if◌then◌else◌}
use pdv.Errors.{message, validation, codes}
use pdv.Money.{Numeric, numeric_from_scaled_int, round_quo}
use pdv.Money.Columns.{
  amount, IsColumn, numeric_to_scaled_int-column, numeric_from_scaled_int-IsColumn,
  amount-numeric_from_scaled_int,
}
use pdv.Sales.Money.{compare_money, subtract_money, price_item, exceeds}
use pdv.Sales.Totals.{multiply_money_quantity-columns}

-- Four numbers that make an item priced.
pub record ArePriced (unit_price quantity discount total : Numeric) : Type 0 where
  pub price_column : IsColumn 2 unit_price
  pub quantity_column : IsColumn 3 quantity
  pub discount_column : IsColumn 2 discount
  pub total_column : IsColumn 2 total
  pub priced :
      amount 2 total
      ≡ round_quo (amount 2 unit_price *ℤ amount 3 quantity) 1000 -ℤ amount 2 discount

module _ (a b : Numeric) (ca : IsColumn 2 a) (cb : IsColumn 2 b) where
  pub compare_money-columns : compare_money a b ≡ ok (cmp_ℤ (amount 2 a) (amount 2 b))
  unfolding compare_money
  compare_money-columns =
      rw (numeric_to_scaled_int-column 2 a ca message, numeric_to_scaled_int-column 2 b cb message)

  pub subtract_money-columns :
      subtract_money a b ≡ ok (numeric_from_scaled_int (amount 2 a -ℤ amount 2 b) 2)
  unfolding subtract_money
  subtract_money-columns =
      rw (numeric_to_scaled_int-column 2 a ca message, numeric_to_scaled_int-column 2 b cb message)

-- The rounded product, and what is left of it, on columns.
module _ (p q d : Numeric) (cp : IsColumn 2 p) (cq : IsColumn 3 q) (cd : IsColumn 2 d) where
  abbrev product : ℤ
  product = round_quo (amount 2 p *ℤ amount 3 q) 1000

  -- On a price and a discount with two places and a quantity with three, the total of an item is
  -- the rounded product of price and quantity less the discount, and a discount that is greater
  -- than the rounded product is refused.
  pub price_item-columns : price_item p q d ≡ (
      if exceeds (cmp_ℤ (amount 2 d) product)
      then err (validation (codes "discount") "cannot be greater than the item subtotal")
      else ok (numeric_from_scaled_int (product -ℤ amount 2 d) 2))
  unfolding price_item
  price_item-columns = elim (Bool-cases (exceeds (cmp_ℤ (amount 2 d) product))) [
    | inl above ↦ rw (
      multiply_money_quantity-columns p q cp cq,
      compare_money-columns d (numeric_from_scaled_int product 2) cd
          (numeric_from_scaled_int-IsColumn product 2),
      amount-numeric_from_scaled_int product 2,
      above,
    )
    | inr below ↦ rw (
      multiply_money_quantity-columns p q cp cq,
      compare_money-columns d (numeric_from_scaled_int product 2) cd
          (numeric_from_scaled_int-IsColumn product 2),
      amount-numeric_from_scaled_int product 2,
      below,
      subtract_money-columns (numeric_from_scaled_int product 2) d
          (numeric_from_scaled_int-IsColumn product 2) cd,
      amount-numeric_from_scaled_int product 2,
    )
  ]

  -- A price that is accepted makes the item priced.
  pub price_item-ArePriced : (t : Numeric) → price_item p q d ≡ ok t → ArePriced p q d t
  price_item-ArePriced t e = elim (Bool-cases (exceeds (cmp_ℤ (amount 2 d) product))) [
    | inl above ↦ cc (rw (price_item-columns, above) at e)
    | inr below ↦
        subst (ArePriced p q d) (ok_injective (rw (price_item-columns, below) at e)) (record {
          price_column = cp;
          quantity_column = cq;
          discount_column = cd;
          total_column = numeric_from_scaled_int-IsColumn _ 2;
          priced = amount-numeric_from_scaled_int _ 2;
        })
  ]
