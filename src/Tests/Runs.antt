-- ===== src/Tests/Runs.antt =====
-- The theorems at small inputs.
use text.Mathlib.Text.{◌==◌ as str_eq}
use pdv.Base.{
  ℕ, ◌+◌, ◌*◌, ◌/◌, ◌≤◌, ◌<◌, ◌≡◌, refl, arith, List, [], ◌∷◌, All, none, some, ok, err, pos, neg,
  ◌-ℤ◌, ◌*ℤ◌, cmp_ℤ, if◌then◌else◌,
}
use pdv.Errors.{codes, validation, pg_error}
use pdv.Text.{trim_space, trim_zeros, cut, all_digits, int_to_string}
use pdv.Text.Signed.{read_int, read-int_to_string}
use pdv.Money.{numeric_from_scaled_int, round_quo}
use pdv.Money.Columns.{amount, numeric_from_scaled_int-IsColumn}
use pdv.Money.Rounding.{round_quo-nearest, round_quo-neg}
use pdv.Database.Rows.{SaleItem}
use pdv.Sales.Errors.{Sentinel}
use pdv.Database.Store.{Action, Db, Environment, with_tx}
use pdv.Sales.Input.{
  AddItemInput, UpdateItemInput, normalize_quantity_string, normalize_money_string,
}
use pdv.Sales.Canonical.{
  IsCanonical, normalize_quantity_string-IsCanonical, normalize_money_string-IsCanonical,
}
use pdv.Sales.Money.{price_item, exceeds, sum_sale_totals}
use pdv.Sales.Pricing.{price_item-columns}
use pdv.Sales.Spec.{gross, discount_of, total_of, sum_of, HasColumns}
use pdv.Sales.Totals.{sum_sale_totals-columns}
use pdv.Sales.Consistency.{IsConsistent}
use pdv.Sales.Service.{add_item, update_item, remove_item}
use pdv.Sales.Service.Commands.{
  add_item-IsConsistent, update_item-IsConsistent, remove_item-IsConsistent,
}
use pdv.Sales.Service.Lifecycle.{create-IsConsistent}
use pdv.Sales.Service.Cancellation.{IsCancellation, cancel-once}
use pdv.Base.{is_ok, true}
use pdv.Sales.Errors.{SalesError}
use pdv.Sales.Service.Closed.{closed_sale-unchanged}
use pdv.Sales.Input.{parse_uuid}
use pdv.Sales.Service.{create, cancel}
use pdv.Database.Rows.{completed}
use pdv.Sales.Paging.{normalize_pagination, page_offset, total_pages}
use pdv.Sales.Pages.{total_pages-least, total_pages-wraps, page_offset-wraps, page_offset-small}
use pdv.Base.{negsuc, ◌-◌}
use pdv.Tests.Samples.{
  open_sale, calm, calm_laws, cashier, shop, shop-IsConsistent, coffee, line, line_columns,
}

abbrev two_coffees : AddItemInput
two_coffees = record {
  product_id = codes "3";
  quantity = codes "2.5";
  discount = some (codes "1.5");
}

abbrev three_coffees : UpdateItemInput
three_coffees = record { quantity = codes "3"; discount = none }

abbrev sold : Db
sold = (add_item calm cashier (codes "4") two_coffees shop).1

sold-IsConsistent : IsConsistent sold
sold-IsConsistent =
    add_item-IsConsistent calm calm_laws cashier (codes "4") two_coffees shop shop-IsConsistent

add_item-IsConsistent_example : IsConsistent (add_item calm cashier (codes "4") two_coffees shop).1
add_item-IsConsistent_example =
    add_item-IsConsistent calm calm_laws cashier (codes "4") two_coffees shop shop-IsConsistent

update_item-IsConsistent_example :
    IsConsistent (update_item calm cashier (codes "4") (codes "101") three_coffees sold).1
update_item-IsConsistent_example =
    update_item-IsConsistent calm calm_laws cashier (codes "4") (codes "101") three_coffees sold
      sold-IsConsistent

remove_item-IsConsistent_example :
    IsConsistent (remove_item calm cashier (codes "4") (codes "101") sold).1
remove_item-IsConsistent_example =
    remove_item-IsConsistent calm calm_laws cashier (codes "4") (codes "101") sold sold-IsConsistent

price_item-columns_example :
    price_item coffee.price
      (numeric_from_scaled_int (pos 2500) 3)
      (numeric_from_scaled_int (pos 150) 2)
    ≡ (if exceeds (
          cmp_ℤ (amount 2 (numeric_from_scaled_int (pos 150) 2)) (
            round_quo
              (amount 2 coffee.price *ℤ amount 3 (numeric_from_scaled_int (pos 2500) 3))
              1000))
        then err (validation (codes "discount") "cannot be greater than the item subtotal")
        else ok (
            numeric_from_scaled_int
              (round_quo
                  (amount 2 coffee.price *ℤ amount 3 (numeric_from_scaled_int (pos 2500) 3))
                  1000
                -ℤ amount 2 (numeric_from_scaled_int (pos 150) 2))
              2))
price_item-columns_example =
    price_item-columns coffee.price (numeric_from_scaled_int (pos 2500) 3)
      (numeric_from_scaled_int (pos 150) 2) (numeric_from_scaled_int-IsColumn (pos 999) 2)
      (numeric_from_scaled_int-IsColumn (pos 2500) 3) (numeric_from_scaled_int-IsColumn (pos 150) 2)

abbrev two_lines : List SaleItem
two_lines = line 1 (pos 2500) (pos 150) (pos 2348) ∷ line 2 (pos 1000) (pos 0) (pos 999) ∷ []

two_lines_columns : All HasColumns two_lines
two_lines_columns = (
  line_columns 1 (pos 2500) (pos 150) (pos 2348),
  (line_columns 2 (pos 1000) (pos 0) (pos 999), tt),
)

sum_sale_totals-columns_example :
    sum_sale_totals two_lines
    ≡ ok (
      numeric_from_scaled_int (sum_of gross two_lines) 2,
      numeric_from_scaled_int (sum_of discount_of two_lines) 2,
      numeric_from_scaled_int (sum_of total_of two_lines) 2,
    )
sum_sale_totals-columns_example = sum_sale_totals-columns two_lines two_lines_columns

round_quo-nearest_example :
    (r : ℕ) × (round_quo (pos 24975) 1000 ≡ pos r)
    × (r * (2 * 1000) ≤ 24975 * 2 + 1000)
    × (24975 * 2 + 1000 < r * (2 * 1000) + 2 * 1000)
round_quo-nearest_example = round_quo-nearest 24975 1000 (omega arith)

round_quo-neg_example : round_quo (neg 24975) 1000 ≡ neg (24975 / 1000)
round_quo-neg_example = round_quo-neg 24975 1000 (omega arith)

-- A driver that refuses the commit.
abbrev refusing : Environment
refusing = record calm {
  fault = λ name _. if str_eq name "COMMIT" then some ("08006", "") else none;
}

abbrev emptying : Action Sentinel (Unit {0})
emptying db = (ok tt, record db { sales = [] })

refused : with_tx refusing emptying shop ≡ (err (pg_error "08006" ""), shop)
unfolding with_tx
refused = refl

quantity_accepted :
    normalize_quantity_string {S = Sentinel} (codes "quantity") (codes " 2.5000 ")
    ≡ ok (codes "2.500")
unfolding normalize_quantity_string trim_space trim_zeros cut all_digits
quantity_accepted = refl

money_accepted : normalize_money_string (codes "discount") (codes "1.5") ≡ ok (codes "1.50")
unfolding normalize_money_string trim_space cut all_digits
money_accepted = refl

normalize_quantity_string-IsCanonical_example : IsCanonical 3 (codes "2.500")
normalize_quantity_string-IsCanonical_example =
    normalize_quantity_string-IsCanonical (codes "quantity") (codes " 2.5000 ") (codes "2.500")
      quantity_accepted

normalize_money_string-IsCanonical_example : IsCanonical 2 (codes "1.50")
normalize_money_string-IsCanonical_example =
    normalize_money_string-IsCanonical (codes "discount") (codes "1.5") (codes "1.50")
      money_accepted

create-IsConsistent_example : IsConsistent (create calm cashier (codes "b") shop).1
create-IsConsistent_example =
    create-IsConsistent calm calm_laws cashier (codes "b") shop shop-IsConsistent

abbrev cancelled_shop : Db
cancelled_shop = (cancel calm cashier (codes "4") shop).1

abbrev sold_out : Db
sold_out = record shop { sales = record open_sale { status = completed } ∷ [] }

four : parse_uuid {S = Sentinel} calm (codes "4") (codes "id") ≡ ok 4
unfolding parse_uuid trim_space
four = refl

cancelled_ok : is_ok (cancel calm cashier (codes "4") shop).0 ≡ true
unfolding cancel parse_uuid trim_space with_tx pdv.Database.Sales.lock_sale_by_id
    pdv.Database.Sales.cancel_sale_for_store pdv.Database.Sales.list_sale_items_by_sale_id
    pdv.Sales.Mapper.to_sale_response pdv.Money.numeric_to_scaled_int
    pdv.Database.Sales.items_of_sale
cancelled_ok = refl

cancel-once_example :
    IsCancellation cashier 4 shop cancelled_shop
    × ((e : SalesError) × (cancel calm cashier (codes "4") cancelled_shop
          ≡ (err e, cancelled_shop)))
    × ((add_item calm cashier (codes "4") two_coffees cancelled_shop).1 ≡ cancelled_shop)
    × ((update_item calm cashier (codes "4") (codes "101") three_coffees cancelled_shop).1
        ≡ cancelled_shop)
    × ((remove_item calm cashier (codes "4") (codes "101") cancelled_shop).1 ≡ cancelled_shop)
cancel-once_example =
    cancel-once calm cashier 4 (codes "4") four shop cancelled_ok (codes "101") two_coffees
      three_coffees

closed_sale-unchanged_example :
    ((add_item calm cashier (codes "4") two_coffees sold_out).1 ≡ sold_out)
    × ((update_item calm cashier (codes "4") (codes "101") three_coffees sold_out).1 ≡ sold_out)
    × ((remove_item calm cashier (codes "4") (codes "101") sold_out).1 ≡ sold_out)
closed_sale-unchanged_example =
    closed_sale-unchanged calm cashier sold_out 4 (record open_sale { status = completed }) refl
      refl (codes "4") four (codes "101") two_coffees three_coffees

total_pages-least_example :
    (pages : ℕ) × (total_pages (pos 41) 20 ≡ pos pages) × (41 ≤ pages * 20) × (pages * 20 < 41 + 20)
total_pages-least_example = total_pages-least 41 20 (omega arith) (omega arith)

total_pages-wraps_example :
    total_pages (pos 9223372036854775807) 100
    ≡ neg ((18446744073709551617 - (9223372036854775807 + 100)) / 100)
total_pages-wraps_example =
    total_pages-wraps 9223372036854775807 100 (omega arith) (omega arith) (omega arith)

read-int_to_string_example : read_int (int_to_string (negsuc 41)) ≡ some (negsuc 41)
read-int_to_string_example = read-int_to_string (negsuc 41) (omega arith)

page_offset-wraps_example :
    (normalize_pagination (some (pos (3000000000 + 1))) (some (pos 1))
      ≡ ok (pos (3000000000 + 1), pos 1))
    × (page_offset (pos (3000000000 + 1)) (pos 1) ≡ negsuc (4294967295 - 3000000000))
page_offset-wraps_example = page_offset-wraps 3000000000 (omega arith) (omega arith)

page_offset-small_example : page_offset (pos (3 + 1)) (pos 20) ≡ pos (3 * 20)
page_offset-small_example = page_offset-small 3 20 (omega arith)
