-- ===== src/Sales/Errors.antt =====
-- backend/internal/sales/errors.go, and the translation of the driver's errors (persistence.go).
use text.Mathlib.Text.{◌==◌ as str_eq}
use pdv.Base.{String, Option, none, some, ◌||◌, if◌then◌else◌}
use pdv.Errors.{Error, sentinel, wrap, is_no_rows, as_pg_error}

pub data Sentinel : Type 0 where
  sale_not_found sale_item_not_found sale_not_open sale_already_cancelled : Sentinel
  product_not_found product_inactive : Sentinel

abbrev pub SalesError : Type 0
SalesError = Error Sentinel

-- The answer to a foreign key violation, where there is one.
foreign_key_error : Option (String × String) → Option SalesError
foreign_key_error none = none
foreign_key_error (some (code, constraint)) =
    if str_eq code "23503"
    then (if str_eq constraint "sale_items_sale_fk"
        then some (sentinel sale_not_found)
        else if str_eq constraint "sale_items_product_fk"
        then some (sentinel product_not_found)
        else none)
    else none

or_database_error : Option SalesError → SalesError → SalesError
or_database_error (some e) _ = e
or_database_error none e = wrap "database operation failed" e

unfoldable pub translate_not_found_error : SalesError → SalesError → SalesError
unfolding foreign_key_error or_database_error
translate_not_found_error e not_found =
    if is_no_rows e then not_found else or_database_error (foreign_key_error (as_pg_error e)) e

unfoldable pub translate_sale_read_error : SalesError → SalesError
unfolding translate_not_found_error
translate_sale_read_error e = translate_not_found_error e (sentinel sale_not_found)

unfoldable pub translate_sale_item_read_error : SalesError → SalesError
unfolding translate_not_found_error
translate_sale_item_read_error e = translate_not_found_error e (sentinel sale_item_not_found)

unfoldable pub translate_sale_item_mutation_error : SalesError → SalesError
unfolding translate_not_found_error
translate_sale_item_mutation_error e = translate_not_found_error e (sentinel sale_item_not_found)

unfoldable pub translate_product_read_error : SalesError → SalesError
unfolding translate_not_found_error
translate_product_read_error e = translate_not_found_error e (sentinel product_not_found)

-- The answer to a check violation, where there is one.
check_error : Option (String × String) → Option SalesError
check_error none = none
check_error (some (code, constraint)) =
    if str_eq code "23514"
    then (if str_eq constraint "sales_status_timestamps_consistency"
          || (str_eq constraint "sales_total_consistency"
              || (str_eq constraint "sales_status_transition_check"
                  || str_eq constraint "sale_items_discount_not_greater_than_gross"))
        then some (sentinel sale_not_open)
        else none)
    else none

mutation_error : SalesError → Option SalesError → Option SalesError → SalesError
mutation_error e (some f) _ = f
mutation_error e none (some f) = f
mutation_error e none none =
    if is_no_rows e then sentinel sale_not_found else wrap "database operation failed" e

unfoldable pub translate_sale_mutation_error : SalesError → SalesError
unfolding foreign_key_error check_error mutation_error
translate_sale_mutation_error e =
    mutation_error e (foreign_key_error (as_pg_error e)) (check_error (as_pg_error e))
