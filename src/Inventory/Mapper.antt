-- ===== src/Inventory/Mapper.antt =====
-- The responses of backend/internal/inventory/mapper.go. Identifiers stay identifiers and times stay
-- times: the texts of both are made by the driver and by the JSON encoder.
use pdv.Base.{not, [], Option, Result, ok, err, ◌>>=◌, ◌>>◌, fail_if}
use pdv.Errors.{Text, codes, message}
use pdv.Money.{Numeric}
use pdv.Database.Rows.{Uuid, Time, MovementType, InventoryMovement}
use pdv.Database.Store.{Environment}
use pdv.Inventory.Errors.{InventoryError}
use pdv.Inventory.Input.{normalize_quantity_string}

abbrev pub driver_text : Result Text Text → Result InventoryError Text
driver_text (ok t) = ok t
driver_text (err t) = err (message "numeric driver value")

unfoldable pub numeric_to_quantity_string : Environment → Numeric → Result InventoryError Text
numeric_to_quantity_string env value = do
  fail_if (not value.valid) (message "numeric value is null")
  text ← driver_text (env.numeric_value value)
  normalize_quantity_string (codes "quantity") text

-- `if value, err := …; err == nil { t = value }`
abbrev pub or_text : Result InventoryError Text → Text → Text
or_text (ok t) _ = t
or_text (err e) t = t

pub record InventoryChangeSummary : Type 0 where
  pub product_id : Uuid
  pub previous_quantity : Text
  pub current_quantity : Text
  pub updated_at : Time

unfoldable pub to_inventory_change_summary :
    Environment → Uuid → Numeric → Numeric → Time → InventoryChangeSummary
unfolding numeric_to_quantity_string
to_inventory_change_summary env product previous current updated_at = record {
  product_id = product;
  previous_quantity = or_text (numeric_to_quantity_string env previous) (codes "0.000");
  current_quantity = or_text (numeric_to_quantity_string env current) (codes "0.000");
  updated_at = updated_at;
}

pub record InventoryMovementResponse : Type 0 where
  pub id : Uuid
  pub product_id : Uuid
  pub movement_type : MovementType
  pub quantity : Text
  pub previous_quantity : Text
  pub current_quantity : Text
  pub reason : Option Text
  pub reference_type : Text
  pub reference_id : Uuid
  pub created_at : Time

unfoldable pub to_inventory_movement_response :
    Environment → InventoryMovement → InventoryMovementResponse
unfolding numeric_to_quantity_string
to_inventory_movement_response env movement = record {
  id = movement.id;
  product_id = movement.product_id;
  movement_type = movement.movement_type;
  quantity = or_text (numeric_to_quantity_string env movement.quantity) [];
  previous_quantity = or_text (numeric_to_quantity_string env movement.previous_quantity) [];
  current_quantity = or_text (numeric_to_quantity_string env movement.current_quantity) [];
  reason = movement.reason;
  reference_type = movement.reference_type;
  reference_id = movement.reference_id;
  created_at = movement.created_at;
}

pub record InventoryChangeResponse : Type 0 where
  pub inventory : InventoryChangeSummary
  pub movement : InventoryMovementResponse
