-- ===== src/Sales/Spec.antt =====
-- What the amounts of a sale should be, said on integers: cents for money, thousandths for quantities.
use pdv.Base.{◌≡◌, List, [], ◌∷◌, ℤ, pos, ◌+ℤ◌, ◌-ℤ◌, ◌*ℤ◌}
use pdv.Money.{round_quo}
use pdv.Money.Columns.{amount, IsColumn}
use pdv.Database.Rows.{Sale, SaleItem}

-- The cents of price times quantity, rounded.
abbrev pub gross : SaleItem → ℤ
gross item = round_quo (amount 2 item.unit_price *ℤ amount 3 item.quantity) 1000

abbrev pub discount_of : SaleItem → ℤ
discount_of item = amount 2 item.discount

abbrev pub total_of : SaleItem → ℤ
total_of item = amount 2 item.total

abbrev pub sum_of : (SaleItem → ℤ) → List SaleItem → ℤ
sum_of f [] = pos 0
sum_of f (item ∷ items) = f item +ℤ sum_of f items

-- The four numbers of an item are those of their columns.
pub record HasColumns (item : SaleItem) : Type 0 where
  pub price : IsColumn 2 item.unit_price
  pub quantity : IsColumn 3 item.quantity
  pub discount : IsColumn 2 item.discount
  pub total : IsColumn 2 item.total

-- … and its total is what is left of the rounded product.
pub record IsPriced (item : SaleItem) : Type 0 where
  pub columns : HasColumns item
  pub priced : total_of item ≡ gross item -ℤ discount_of item

-- The header of a sale adds its items up.
pub record TotalsMatch (items : List SaleItem) (sale : Sale) : Type 0 where
  pub subtotal_column : IsColumn 2 sale.subtotal
  pub discount_column : IsColumn 2 sale.discount
  pub addition_column : IsColumn 2 sale.addition
  pub total_column : IsColumn 2 sale.total
  pub subtotal : amount 2 sale.subtotal ≡ sum_of gross items
  pub discount : amount 2 sale.discount ≡ sum_of discount_of items
  pub addition : amount 2 sale.addition ≡ pos 0
  pub total : amount 2 sale.total ≡ sum_of total_of items
