-- ===== src/Inventory/Service.antt =====
-- The commands of backend/internal/inventory/service_commands.go. Each runs in one transaction; an
-- error rolls it back.
use pdv.Base.{not, Option, Result, ok, err, if◌then◌else◌}
use pdv.Errors.{Text, codes, sentinel, validation, wrap, is_no_rows, is_unique_violation}
use pdv.Money.{Numeric}
use pdv.Database.Rows.{
  Uuid, Product, StoreScope, Inventory, MovementType, purchase, adjustment_in, adjustment_out,
}
use pdv.Database.Store.{
  Db, Environment, Action, pure, lift, on_error, recovering, with_tx, ◌>>=◌, ◌>>◌,
}
use pdv.Database.Sales.{get_product_by_id}
use pdv.Database.Inventory.{
  StockChange, decrease_inventory, increase_inventory, get_inventory_by_product_id,
  create_inventory_movement,
}
use pdv.Sales.Service.{StoreActor, to_store_scope, to_actor_scope}
use pdv.Inventory.Errors.{
  Sentinel, InventoryError, product_not_found, inventory_not_found, insufficient_inventory,
  inventory_operation_already_processed,
}
use pdv.Inventory.Input.{
  CreateInventoryEntryInput, NormalizedEntryInput, normalize_entry_input,
  CreateInventoryAdjustmentInput, NormalizedAdjustmentInput, normalize_adjustment_input, is_in,
  is_out,
}
use pdv.Inventory.Mapper.{
  InventoryChangeResponse, to_inventory_change_summary, to_inventory_movement_response,
}

abbrev pub Command : Type 0 → Type 0
Command = Action Sentinel

abbrev pub product_error : InventoryError → InventoryError
product_error e = if is_no_rows e then sentinel product_not_found else wrap "get product" e

abbrev pub movement_error : InventoryError → InventoryError
movement_error e =
    if is_unique_violation e "inventory_movements_reference_unique"
    then sentinel inventory_operation_already_processed
    else wrap "create inventory movement" e

-- The stock that a decrease did not find, or did not find enough of.
abbrev pub missing_or_short : Result InventoryError Inventory → InventoryError
missing_or_short (ok _) = sentinel insufficient_inventory
missing_or_short (err e) =
    if is_no_rows e then sentinel inventory_not_found else wrap "check inventory balance" e

module _ (env : Environment) where
  unfoldable pub translate_decrease_inventory_error :
      StoreScope → Uuid → InventoryError → Db → InventoryError
  translate_decrease_inventory_error scope product e db =
      if not (is_no_rows e)
      then wrap "decrease inventory" e
      else missing_or_short (get_inventory_by_product_id env scope product db).0

  unfoldable pub get_product_in_tx : StoreScope → Uuid → Command Product
  get_product_in_tx scope id = on_error product_error (get_product_by_id env scope id)

  unfoldable pub apply_adjustment :
      StoreScope → NormalizedAdjustmentInput → Command (StockChange × MovementType)
  unfolding translate_decrease_inventory_error
  apply_adjustment scope input =
      if is_in input.direction
      then (do
        update ←
            on_error (wrap "increase inventory")
              (increase_inventory env scope input.product_id input.quantity)
        pure (update, adjustment_in))
      else if is_out input.direction
      then (do
        update ←
            recovering (translate_decrease_inventory_error scope input.product_id)
              (decrease_inventory env scope input.product_id input.quantity)
        pure (update, adjustment_out))
      else lift (err (validation (codes "direction") "must be IN or OUT"))

  module _ (actor : StoreActor) where
    -- The movement is recorded, and both are answered.
    unfoldable pub record_movement :
        MovementType
        → Uuid
        → Numeric
        → Option Text
        → Text
        → Uuid
        → StockChange
        → Command InventoryChangeResponse
    record_movement movement_type product quantity reason reference_type reference_id change = do
      movement ← on_error movement_error (
          create_inventory_movement env (to_actor_scope actor) (record {
            product_id = product;
            movement_type = movement_type;
            quantity = quantity;
            previous_quantity = change.previous_quantity;
            current_quantity = change.current_quantity;
            reason = reason;
            reference_type = reference_type;
            reference_id = reference_id;
          }))
      pure (record {
        inventory =
            to_inventory_change_summary env product change.previous_quantity change.current_quantity
              change.updated_at;
        movement = to_inventory_movement_response env movement;
      })

    unfoldable pub create_entry_tx : NormalizedEntryInput → Command InventoryChangeResponse
    unfolding get_product_in_tx record_movement
    create_entry_tx n = do
      get_product_in_tx (to_store_scope actor) n.product_id
      change ←
          on_error (wrap "increase inventory")
            (increase_inventory env (to_store_scope actor) n.product_id n.quantity)
      record_movement purchase n.product_id n.quantity n.reason n.reference_type n.reference_id
          change

    unfoldable pub create_entry : CreateInventoryEntryInput → Command InventoryChangeResponse
    unfolding create_entry_tx
    create_entry input = do
      normalized ← lift (normalize_entry_input env input)
      with_tx env (create_entry_tx normalized)

    unfoldable pub create_adjustment_tx :
        NormalizedAdjustmentInput → Command InventoryChangeResponse
    unfolding get_product_in_tx apply_adjustment record_movement
    create_adjustment_tx n = do
      get_product_in_tx (to_store_scope actor) n.product_id
      snapshot ← apply_adjustment (to_store_scope actor) n
      record_movement snapshot.1 n.product_id n.quantity n.reason n.reference_type n.reference_id
          snapshot.0

    unfoldable pub create_adjustment :
        CreateInventoryAdjustmentInput → Command InventoryChangeResponse
    unfolding create_adjustment_tx
    create_adjustment input = do
      normalized ← lift (normalize_adjustment_input env input)
      with_tx env (create_adjustment_tx normalized)
