-- ===== src/Tests/Samples.antt =====
-- A driver and a server that never fail, and a store with one product and one open sale.
use mathlib.Core.Path.{subst}
use pdv.Base.{
  ◌+◌, ◌/◌, ◌%◌, negsuc, ok, ◌==◌, ◌≡◌, refl, arith, Bool, true, false, [], ◌∷◌, ◌++◌, length,
  Option, none, some, ℤ, pos, ◌+ℤ◌, ◌-ℤ◌, ltb_ℤ, Bool-cases, inl, inr, some_injective,
}
use pdv.Errors.{Text, codes}
use pdv.Text.{cut, every_digit, all_digits, value_of, decimal}
use pdv.Money.{Numeric, numeric_from_scaled_int, zero_money}
use pdv.Money.Columns.{amount, numeric_from_scaled_int-IsColumn, amount-numeric_from_scaled_int}
use pdv.Database.Rows.{Uuid, Sale, SaleItem, opened, Product, PaymentMethod}
use pdv.Database.Identity.{user_active}
use pdv.Database.Tables.{find}
use pdv.Database.Store.{Db, Environment}
use pdv.Database.Laws.{NumericLaws}
use pdv.Database.Sales.{sale_at, items_of_sale}
use pdv.Sales.Spec.{TotalsMatch, HasColumns}
use pdv.Sales.Consistency.{IsConsistent}
use pdv.Sales.Service.{StoreActor}

abbrev pub scan : Text × Text × Bool → Option Numeric
scan (whole, fraction, _) =
    some (numeric_from_scaled_int (pos (value_of (whole ++ fraction))) (length fraction))

-- The digits of the last three places stand behind the point.
abbrev pub digits_of : ℤ → Text
digits_of (pos n) =
    decimal (n / 1000)
    ++ b'.' ∷ decimal ((n % 1000) / 100)
    ++ decimal ((n % 100) / 10)
    ++ decimal (n % 10)
digits_of (negsuc n) = []

abbrev pub calm : Environment
calm = record {
  fault = λ _ _. none;
  column = λ places n. some (numeric_from_scaled_int (amount places n) places);
  add_numeric = λ a b. numeric_from_scaled_int (amount 3 a +ℤ amount 3 b) 3;
  subtract_numeric = λ a b. numeric_from_scaled_int (amount 3 a -ℤ amount 3 b) 3;
  less_numeric = λ a b. ltb_ℤ (amount 3 a) (amount 3 b);
  now = λ db. length db.sale_items;
  new_id = λ db. 100 + length db.sale_items + length db.sales + length db.inventory_movements;
  numeric_value = λ n. ok (digits_of (amount 3 n));
  scan_scientific = λ t. scan (cut b'.' t);
  scan_uuid = λ t. some (value_of t);
  uuid_string = decimal;
}

cut-digits :
    (whole fraction : Text)
    → every_digit whole ≡ true
    → cut b'.' (whole ++ b'.' ∷ fraction) ≡ (whole, fraction, true)
unfolding cut every_digit
cut-digits [] fraction h = refl
cut-digits (c ∷ whole) fraction h =
    let digit : (c == b'.') ≡ false = ground arith in
    rw (cut-digits whole fraction (ground arith), digit)

pub calm_laws : NumericLaws calm
unfolding all_digits
calm_laws = record {
  column_IsColumn = λ places n m _ e.
      subst (pdv.Money.Columns.IsColumn places) (some_injective e)
        (numeric_from_scaled_int-IsColumn _ places);
  column_exact = λ places n m _ _ e.
      subst (λ (k : Numeric). amount places k ≡ amount places n) (some_injective e)
        (amount-numeric_from_scaled_int (amount places n) places);
  add_exact = λ a b _ _. (numeric_from_scaled_int-IsColumn _ 3, amount-numeric_from_scaled_int _ 3);
  subtract_exact =
      λ a b _ _. (numeric_from_scaled_int-IsColumn _ 3, amount-numeric_from_scaled_int _ 3);
  less_exact = λ a b _ _. refl;
  scan_digits = λ whole fraction h _. rw (cut-digits whole fraction (ground arith));
}

abbrev pub cashier : StoreActor
cashier = record { organization_id = 1; store_id = 2; membership_id = 9 }

abbrev pub open_sale : Sale
open_sale = record {
  id = 4;
  organization_id = 1;
  store_id = 2;
  number = 1;
  idempotency_key = codes "a";
  status = opened;
  subtotal = zero_money;
  discount = zero_money;
  addition = zero_money;
  total = zero_money;
  opened_by_membership_id = 9;
  completed_by_membership_id = none;
  cancelled_by_membership_id = none;
  opened_at = 0;
  completed_at = none;
  cancelled_at = none;
  created_at = 0;
  updated_at = 0;
}

abbrev pub coffee : Product
coffee = record {
  organization_id = 1;
  id = 3;
  sku = codes "coffee";
  barcode = none;
  name = codes "Coffee";
  category_id = none;
  price = numeric_from_scaled_int (pos 999) 2;
  cost = numeric_from_scaled_int (pos 500) 2;
  is_active = true;
  created_at = 0;
  updated_at = 0;
}

abbrev pub cash : PaymentMethod
cash = record {
  id = 7;
  organization_id = 1;
  code = codes "cash";
  name = codes "Cash";
  kind = codes "CASH";
  provider = none;
  allows_change = true;
  requires_external_reference = false;
  allows_installments = false;
  max_installments = pos 1;
  fee_percentage = zero_money;
  settlement_days = pos 0;
  is_active = true;
  sort_order = pos 0;
  created_at = 0;
  updated_at = 0;
}

abbrev pub shop : Db
shop = record {
  sales = open_sale ∷ [];
  sale_items = [];
  sale_number_counters = [];
  products = coffee ∷ [];
  stores = record { organization_id = 1; id = 2 } ∷ [];
  inventory = [];
  inventory_movements = [];
  payment_methods = cash ∷ [];
  store_payment_methods =
      record { organization_id = 1; store_id = 2; payment_method_id = 7; is_active = true } ∷ [];
  payments = [];
  fiscal_documents = [];
  users = record { id = 5; status = user_active } ∷ [];
  auth_sessions = [];
  auth_refresh_tokens = [];
  security_audit_events = [];
  invalidated_sessions = [];
}

open_sale_matches : TotalsMatch [] open_sale
open_sale_matches = record {
  subtotal_column = numeric_from_scaled_int-IsColumn (pos 0) 2;
  discount_column = numeric_from_scaled_int-IsColumn (pos 0) 2;
  addition_column = numeric_from_scaled_int-IsColumn (pos 0) 2;
  total_column = numeric_from_scaled_int-IsColumn (pos 0) 2;
  subtotal = amount-numeric_from_scaled_int (pos 0) 2;
  discount = amount-numeric_from_scaled_int (pos 0) 2;
  addition = amount-numeric_from_scaled_int (pos 0) 2;
  total = amount-numeric_from_scaled_int (pos 0) 2;
}

only_sale :
    (o s i : Uuid) (sale : Sale)
    → find (sale_at o s i) (open_sale ∷ []) ≡ some sale
    → open_sale ≡ sale
only_sale o s i sale h = elim (Bool-cases (sale_at o s i open_sale)) [
  | inl here ↦ some_injective (rw here at h)
  | inr away ↦ cc (rw away at h)
]

pub shop-IsConsistent : IsConsistent shop
unfolding items_of_sale
shop-IsConsistent = record {
  prices = (numeric_from_scaled_int-IsColumn (pos 999) 2, tt);
  items = tt;
  headers =
      λ o s i sale _ found. subst (TotalsMatch []) (only_sale o s i sale found) open_sale_matches;
  owned = λ _ _ _ _ _. refl;
}

-- A line of a sale of coffee.
abbrev pub line : Uuid → ℤ → ℤ → ℤ → SaleItem
line id quantity discount total = record {
  id = id;
  organization_id = 1;
  store_id = 2;
  sale_id = 4;
  product_id = 3;
  product_name = codes "Coffee";
  product_sku = codes "coffee";
  unit_price = coffee.price;
  quantity = numeric_from_scaled_int quantity 3;
  discount = numeric_from_scaled_int discount 2;
  total = numeric_from_scaled_int total 2;
  created_at = 0;
}

pub line_columns :
    (id : Uuid) (quantity discount total : ℤ) → HasColumns (line id quantity discount total)
line_columns id quantity discount total = record {
  price = numeric_from_scaled_int-IsColumn (pos 999) 2;
  quantity = numeric_from_scaled_int-IsColumn quantity 3;
  discount = numeric_from_scaled_int-IsColumn discount 2;
  total = numeric_from_scaled_int-IsColumn total 2;
}
