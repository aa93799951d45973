-- ===== src/Inventory/Input.antt =====
-- The checks on requests of backend/internal/inventory/validation.go. The parsers of texts, quantities and
-- identifiers are, line by line, those of sales/validation.go, with the errors of this package.
use pdv.Sales.Input
use pdv.Base.{
  ◌-◌, ◌==◌, leb, Bool, not, ◌&&◌, Option, none, some, if◌then◌else◌, Result, ok, ◌>>=◌, ◌>>◌,
  fail_if, map, ℕ,
}
use pdv.Errors.{Text, codes, validation}
use pdv.Text.{trim_space, is_empty}
use pdv.Money.{Numeric}
use pdv.Database.Rows.{Uuid}
use pdv.Database.Sales.{text_eq}
use pdv.Database.Store.{Environment}
use pdv.Inventory.Errors.{InventoryError}

abbrev pub normalize_required_text : Text → Text → Result InventoryError Text
normalize_required_text = Input.normalize_required_text

abbrev pub parse_uuid : Environment → Text → Text → Result InventoryError Uuid
parse_uuid = Input.parse_uuid

abbrev pub normalize_quantity_string : Text → Text → Result InventoryError Text
normalize_quantity_string = Input.normalize_quantity_string

abbrev pub parse_quantity : Environment → Text → Text → Result InventoryError Numeric
parse_quantity = Input.parse_quantity

unfoldable pub normalize_optional_reason : Option Text → Result InventoryError (Option Text)
normalize_optional_reason none = ok none
normalize_optional_reason (some value) = do
  trimmed ← normalize_required_text (codes "reason") value
  ok (some trimmed)

pub record CreateInventoryEntryInput : Type 0 where
  pub product_id : Text
  pub quantity : Text
  pub reason : Option Text
  pub reference_type : Text
  pub reference_id : Text

pub record NormalizedEntryInput : Type 0 where
  pub product_id : Uuid
  pub quantity : Numeric
  pub reason : Option Text
  pub reference_type : Text
  pub reference_id : Uuid

unfoldable pub normalize_entry_input :
    Environment → CreateInventoryEntryInput → Result InventoryError NormalizedEntryInput
unfolding normalize_optional_reason
normalize_entry_input env input = do
  product_id ← parse_uuid env input.product_id (codes "productId")
  quantity ← parse_quantity env (codes "quantity") input.quantity
  reason ← normalize_optional_reason input.reason
  reference_type ← normalize_required_text (codes "referenceType") input.reference_type
  reference_id ← parse_uuid env input.reference_id (codes "referenceId")
  ok (record {
    product_id = product_id;
    quantity = quantity;
    reason = reason;
    reference_type = reference_type;
    reference_id = reference_id;
  })

-- strings.ToUpper as far as IN and OUT can tell: no other character becomes one of their letters.
abbrev pub upper : ℕ → ℕ
upper c = if leb b'a' c && leb c b'z' then c - 32 else if c == 0x131 then b'I' else c

abbrev pub to_upper : Text → Text
to_upper = map upper

pub record CreateInventoryAdjustmentInput : Type 0 where
  pub product_id : Text
  pub direction : Text
  pub quantity : Text
  pub reason : Text
  pub reference_type : Text
  pub reference_id : Text

pub record NormalizedAdjustmentInput : Type 0 where
  pub product_id : Uuid
  pub direction : Text
  pub quantity : Numeric
  pub reason : Option Text
  pub reference_type : Text
  pub reference_id : Uuid

abbrev pub is_in : Text → Bool
is_in direction = text_eq direction (codes "IN")

abbrev pub is_out : Text → Bool
is_out direction = text_eq direction (codes "OUT")

unfoldable pub normalize_adjustment_input :
    Environment → CreateInventoryAdjustmentInput → Result InventoryError NormalizedAdjustmentInput
normalize_adjustment_input env input = do
  product_id ← parse_uuid env input.product_id (codes "productId")
  quantity ← parse_quantity env (codes "quantity") input.quantity
  fail_if (is_empty input.direction) (validation (codes "direction") "is required")
  let direction = to_upper (trim_space input.direction)
  fail_if (not (is_in direction) && not (is_out direction))
      (validation (codes "direction") "must be IN or OUT")
  reason ← normalize_required_text (codes "reason") input.reason
  reference_type ← normalize_required_text (codes "referenceType") input.reference_type
  reference_id ← parse_uuid env input.reference_id (codes "referenceId")
  ok (record {
    product_id = product_id;
    direction = direction;
    quantity = quantity;
    reason = some reason;
    reference_type = reference_type;
    reference_id = reference_id;
  })
