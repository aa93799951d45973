-- ===== src/Sales/Mapper.antt =====
-- The responses of backend/internal/sales/mapper.go. A time that is NULL stays `none`
-- (timestampOrZero gives the zero time).
use pdv.Base.{ℕ, List, [], ◌∷◌, Option, Result, ok, ◌>>=◌, map_err}
use pdv.Errors.{Text, wrap}
use pdv.Money.{Numeric}
use pdv.Money.Print.{scaled_int_to_string}
use pdv.Database.Rows.{Uuid, Time, Sale, SaleItem, SaleStatus}
use pdv.Sales.Errors.{SalesError}
use pdv.Sales.Money.{numeric_to_scaled_int}

unfoldable pub numeric_to_money_string : Numeric → Result SalesError Text
unfolding scaled_int_to_string
numeric_to_money_string value = do
  int_val ← numeric_to_scaled_int value 2
  ok (scaled_int_to_string int_val 2)

unfoldable pub numeric_to_quantity_string : Numeric → Result SalesError Text
unfolding scaled_int_to_string
numeric_to_quantity_string value = do
  int_val ← numeric_to_scaled_int value 3
  ok (scaled_int_to_string int_val 3)

pub record SaleItemResponse : Type 0 where
  pub id : Uuid
  pub sale_id : Uuid
  pub product_id : Uuid
  pub product_name : Text
  pub product_sku : Text
  pub unit_price : Text
  pub quantity : Text
  pub discount : Text
  pub total : Text
  pub created_at : Time

pub record SaleResponse : Type 0 where
  pub id : Uuid
  pub number : ℕ
  pub status : SaleStatus
  pub subtotal : Text
  pub discount : Text
  pub addition : Text
  pub total : Text
  pub opened_at : Time
  pub completed_at : Option Time
  pub cancelled_at : Option Time
  pub created_at : Time
  pub updated_at : Time
  pub idempotency_key : Text
  pub items : List SaleItemResponse

unfoldable pub to_sale_item_response : SaleItem → Result SalesError SaleItemResponse
unfolding numeric_to_money_string numeric_to_quantity_string
to_sale_item_response item = do
  unit_price ← map_err (wrap "format unit price") (numeric_to_money_string item.unit_price)
  quantity ← map_err (wrap "format quantity") (numeric_to_quantity_string item.quantity)
  discount ← map_err (wrap "format discount") (numeric_to_money_string item.discount)
  total ← map_err (wrap "format total") (numeric_to_money_string item.total)
  ok (record {
    id = item.id;
    sale_id = item.sale_id;
    product_id = item.product_id;
    product_name = item.product_name;
    product_sku = item.product_sku;
    unit_price = unit_price;
    quantity = quantity;
    discount = discount;
    total = total;
    created_at = item.created_at;
  })

-- The loop over the items.
to_item_responses : List SaleItem → Result SalesError (List SaleItemResponse)
to_item_responses [] = ok []
to_item_responses (item ∷ items) = do
  response ← map_err (wrap "map sale item") (to_sale_item_response item)
  rest ← to_item_responses items
  ok (response ∷ rest)

-- toSaleResponseFromFields at the fields of a row, with the header that toSaleHeaderFromFields makes.
unfoldable pub to_sale_response : Sale → List SaleItem → Result SalesError SaleResponse
unfolding numeric_to_money_string to_item_responses to_sale_item_response
to_sale_response sale items = do
  subtotal ← map_err (wrap "format subtotal") (numeric_to_money_string sale.subtotal)
  discount ← map_err (wrap "format discount") (numeric_to_money_string sale.discount)
  addition ← map_err (wrap "format addition") (numeric_to_money_string sale.addition)
  total ← map_err (wrap "format total") (numeric_to_money_string sale.total)
  responses ← to_item_responses items
  ok (record {
    id = sale.id;
    number = sale.number;
    status = sale.status;
    subtotal = subtotal;
    discount = discount;
    addition = addition;
    total = total;
    opened_at = sale.opened_at;
    completed_at = sale.completed_at;
    cancelled_at = sale.cancelled_at;
    created_at = sale.created_at;
    updated_at = sale.updated_at;
    idempotency_key = sale.idempotency_key;
    items = responses;
  })
