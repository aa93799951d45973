-- ===== src/Tests/Stocks.antt =====
-- Runs of the commands on the stock, and of a checkout.
use pdv.Base.{◌≡◌, refl, true, err, is_ok, ℕ, [], ◌∷◌, none, some, List, ok, pos, int_laws}
use pdv.Errors.{Text, codes}
use pdv.Database.Store.{Db}
use pdv.Sales.Input.{AddItemInput}
use pdv.Sales.Consistency.{IsConsistent}
use pdv.Sales.Service.{add_item}
use pdv.Sales.Service.Commands.{add_item-IsConsistent}
use pdv.Inventory.Errors.{InventoryError}
use pdv.Inventory.Short.{create_adjustment-short}
use pdv.Inventory.Input.{
  NormalizedAdjustmentInput, normalize_adjustment_input, CreateInventoryEntryInput,
  CreateInventoryAdjustmentInput,
}
use pdv.Inventory.Ledger.{IsBooked}
use pdv.Inventory.Service.{create_entry, create_adjustment}
use pdv.Inventory.Keeps.{create_entry-IsBooked, create_adjustment-IsBooked}
use pdv.Checkout.Input.{CheckoutPaymentInput, parse_uuid, normalize_checkout_input}
use pdv.Checkout.Service.{checkout, payment_idempotency_key}
use pdv.Checkout.Errors.{CheckoutError}
use pdv.Checkout.Once.{IsCompleted, checkout-once}
use pdv.Checkout.Keys.{payment_idempotency_key-injective}
use pdv.Checkout.Stock.{Aggregate, aggregate_quantities}
use pdv.Checkout.Sums.{held, ordered, aggregate_quantities-held}
use pdv.Database.Rows.{SaleItem, Inventory}
use pdv.Money.{numeric_from_scaled_int}
use pdv.Money.Columns.{numeric_from_scaled_int-IsColumn}
use pdv.Text.{trim_space}
use pdv.Checkout.Keeps.{checkout-IsBooked}
use pdv.Histories.{here, next, adds, checks_out, Reach-IsConsistent}
use pdv.Database.Sales.{items_of_sale}
use pdv.Database.Rows.{Sale}
use pdv.Tests.Samples.{calm, calm_laws, cashier, shop, shop-IsConsistent, line, open_sale}

-- Ten coffees arrive.
abbrev ten_coffees : CreateInventoryEntryInput
ten_coffees = record {
  product_id = codes "3";
  quantity = codes "10";
  reason = none;
  reference_type = codes "invoice";
  reference_id = codes "70";
}

-- One is spilled.
abbrev spilled : CreateInventoryAdjustmentInput
spilled = record {
  product_id = codes "3";
  direction = codes " out ";
  quantity = codes "1";
  reason = codes "spilled";
  reference_type = codes "count";
  reference_id = codes "71";
}

shop-IsBooked : IsBooked shop
shop-IsBooked = record { stocked = tt; movements = tt; balance = λ o s p. omega int_laws }

abbrev stocked : Db
stocked = (create_entry calm cashier ten_coffees shop).1

stocked-IsBooked : IsBooked stocked
stocked-IsBooked = create_entry-IsBooked calm calm_laws cashier ten_coffees shop shop-IsBooked

create_entry-IsBooked_example : IsBooked (create_entry calm cashier ten_coffees shop).1
create_entry-IsBooked_example =
    create_entry-IsBooked calm calm_laws cashier ten_coffees shop shop-IsBooked

create_adjustment-IsBooked_example : IsBooked (create_adjustment calm cashier spilled stocked).1
create_adjustment-IsBooked_example =
    create_adjustment-IsBooked calm calm_laws cashier spilled stocked stocked-IsBooked

-- Two coffees and a half are sold out of that stock.
abbrev some_coffees : AddItemInput
some_coffees = record {
  product_id = codes "3";
  quantity = codes "2.5";
  discount = some (codes "1.5");
}

abbrev sold : Db
sold = (add_item calm cashier (codes "4") some_coffees shop).1

abbrev ready : Db
ready = record sold {
  inventory = stocked.inventory;
  inventory_movements = stocked.inventory_movements;
}

ready-IsConsistent : IsConsistent ready
ready-IsConsistent =
    add_item-IsConsistent calm calm_laws cashier (codes "4") some_coffees shop shop-IsConsistent

abbrev in_cash : List CheckoutPaymentInput
in_cash =
    record {
      payment_method_id = codes "7";
      amount = codes "23.48";
      received_amount = some (codes "30");
      installments = none;
      external_reference = none;
    }
    ∷ []

checkout-IsBooked_example : IsBooked (checkout calm cashier none (codes "4") in_cash ready).1
checkout-IsBooked_example =
    checkout-IsBooked calm calm_laws cashier none (codes "4") in_cash ready stocked-IsBooked

-- A sale of one coffee, and one coffee on hand.
abbrev till : Db
till = record shop {
  sales =
      record open_sale {
        subtotal = numeric_from_scaled_int (pos 999) 2;
        total = numeric_from_scaled_int (pos 999) 2;
      }
      ∷ [];
  sale_items = line 1 (pos 1000) (pos 0) (pos 999) ∷ [];
  inventory =
      record {
        organization_id = 1;
        store_id = 2;
        product_id = 3;
        quantity = numeric_from_scaled_int (pos 1000) 3;
        created_at = 0;
        updated_at = 0;
      }
      ∷ [];
}

abbrev by_coin : List CheckoutPaymentInput
by_coin =
    record {
      payment_method_id = codes "7";
      amount = codes "9.99";
      received_amount = none;
      installments = none;
      external_reference = none;
    }
    ∷ []

checked_out : is_ok (checkout calm cashier none (codes "4") by_coin till).0 ≡ true
unfolding checkout parse_uuid trim_space normalize_checkout_input pdv.Text.cut pdv.Text.all_digits
    pdv.Database.Store.with_tx pdv.Database.Sales.lock_sale_by_id
    pdv.Database.Sales.list_sale_items_by_sale_id pdv.Database.Sales.items_of_sale
    pdv.Checkout.Totals.validate_sale_totals pdv.Money.numeric_to_scaled_int pdv.Money.rescale
    pdv.Base.◌-ℤ◌ pdv.Money.round_quo pdv.Base.rem pdv.Base.◌*ℤ◌ pdv.Money.pow10 pdv.Base.int32
    pdv.Base.quo pdv.Base.◌+ℤ◌ pdv.Checkout.Payments.validate_payments
    pdv.Checkout.Stock.apply_inventory_changes pdv.Database.Inventory.decrease_inventory
    pdv.Database.Inventory.create_inventory_movement pdv.Checkout.Money.add_quantity
    pdv.Database.Payments.create_payment_for_store pdv.Database.Payments.approve_payment_for_store
    pdv.Database.Sales.complete_sale_for_store pdv.Database.Fiscal.create_fiscal_document_for_store
    pdv.Checkout.Mapper.to_checkout_response
checked_out = refl

four : parse_uuid calm (codes "4") (codes "id") ≡ ok 4
unfolding parse_uuid trim_space
four = refl

checkout-once_example :
    IsCompleted cashier 4 (checkout calm cashier none (codes "4") by_coin till).1
    × ((e : CheckoutError) × (checkout calm cashier none
            (codes "4")
            by_coin
            (checkout calm cashier none (codes "4") by_coin till).1
          ≡ (err e, (checkout calm cashier none (codes "4") by_coin till).1)))
checkout-once_example =
    checkout-once calm cashier none 4 (codes "4") four by_coin till checked_out by_coin

keys_differ : payment_idempotency_key calm 4 1 ≡ payment_idempotency_key calm 4 1
keys_differ = refl

payment_idempotency_key-injective_example : ◌≡◌ {A = ℕ} 1 1
payment_idempotency_key-injective_example = payment_idempotency_key-injective calm 4 1 1 keys_differ

abbrev lines : List SaleItem
lines = line 1 (pos 2500) (pos 150) (pos 2348) ∷ line 2 (pos 1000) (pos 0) (pos 999) ∷ []

aggregate_quantities-held_example :
    (aggregates : List Aggregate) × (aggregate_quantities calm lines ≡ ok aggregates)
    × ((key : Text) → held key aggregates ≡ ordered calm key lines)
aggregate_quantities-held_example = aggregate_quantities-held calm lines (
  numeric_from_scaled_int-IsColumn (pos 2500) 3,
  (numeric_from_scaled_int-IsColumn (pos 1000) 3, tt),
)

-- Eleven coffees are taken of the ten.
abbrev eleven : CreateInventoryAdjustmentInput
eleven = record {
  product_id = codes "3";
  direction = codes "OUT";
  quantity = codes "11";
  reason = codes "count";
  reference_type = codes "count";
  reference_id = codes "72";
}

abbrev eleven_taken : NormalizedAdjustmentInput
eleven_taken = record {
  product_id = 3;
  direction = codes "OUT";
  quantity = numeric_from_scaled_int (pos 11000) 3;
  reason = some (codes "count");
  reference_type = codes "count";
  reference_id = 72;
}

abbrev ten_on_hand : Inventory
ten_on_hand = record {
  organization_id = 1;
  store_id = 2;
  product_id = 3;
  quantity = numeric_from_scaled_int (pos 10000) 3;
  created_at = 0;
  updated_at = 0;
}

abbrev filled : Db
filled = record shop { inventory = ten_on_hand ∷ [] }

create_adjustment-short_example :
    (e : InventoryError) × (create_adjustment calm cashier eleven filled ≡ (err e, filled))
unfolding normalize_adjustment_input pdv.Sales.Input.parse_uuid trim_space
    pdv.Sales.Input.parse_quantity pdv.Text.cut pdv.Text.all_digits pdv.Text.has_positive_digit
    pdv.Sales.Input.normalize_required_text pdv.Money.rescale
create_adjustment-short_example =
    create_adjustment-short calm cashier eleven eleven_taken refl refl filled ten_on_hand refl refl

abbrev till_sale : Sale
till_sale = record open_sale {
  subtotal = numeric_from_scaled_int (pos 999) 2;
  total = numeric_from_scaled_int (pos 999) 2;
}

abbrev till_line : SaleItem
till_line = line 1 (pos 1000) (pos 0) (pos 999)

abbrev paid_off : Db
paid_off = (checkout calm cashier none (codes "4") by_coin till).1

Reach-IsConsistent_example : IsConsistent (checkout calm cashier none (codes "4") in_cash sold).1
Reach-IsConsistent_example = Reach-IsConsistent calm_laws shop-IsConsistent (
    next (next here (adds cashier (codes "4") some_coffees shop))
      (checks_out cashier none (codes "4") in_cash sold))
