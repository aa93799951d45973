-- ===== src/Inventory/Errors.antt =====
-- backend/internal/inventory/errors.go.
use pdv.Errors.{Error}

pub data Sentinel : Type 0 where
  product_not_found inventory_not_found insufficient_inventory : Sentinel
  inventory_operation_already_processed inventory_movement_not_found : Sentinel

abbrev pub InventoryError : Type 0
InventoryError = Error Sentinel
