-- ===== src/Checkout/Stock.antt =====
-- applyInventoryChanges of backend/internal/checkout/service_commands.go: the quantities of a sale are added
-- up by product, and the stock of each product decreases, in the order of the products' texts.
use pdv.Base.{
  ◌==◌, ltb, ◌&&◌, ◌||◌, Bool, true, false, List, [], ◌∷◌, none, if◌then◌else◌, Result, ok, err,
  map_err, ◌>>=◌,
}
use pdv.Errors.{Text, codes, sentinel, wrap, is_no_rows, is_unique_violation}
use pdv.Money.{Numeric, zero_money}
use pdv.Database.Rows.{Uuid, StoreScope, SaleItem, Inventory, sale}
use pdv.Database.Tables.{order_by}
use pdv.Database.Store
use pdv.Database.Store.{Db, Environment, Action, pure, on_error, recovering}
use pdv.Database.Sales.{text_eq}
use pdv.Database.Inventory.{
  StockChange, NewMovement, decrease_inventory, get_inventory_by_product_id,
  create_inventory_movement,
}
use pdv.Sales.Service.{StoreActor, to_store_scope, to_actor_scope}
use pdv.Checkout.Errors.{
  Sentinel, CheckoutError, sale_already_completed, inventory_not_found, insufficient_inventory,
}
use pdv.Checkout.Money.{add_quantity}

pub record Aggregate : Type 0 where
  pub key : Text
  pub product_id : Uuid
  pub quantity : Numeric

-- byProduct[key], with its first quantity where the key is new.
unfoldable pub add_to :
    Text → Uuid → Numeric → List Aggregate → Result CheckoutError (List Aggregate)
add_to key product quantity [] = do
  sum ← add_quantity zero_money quantity
  ok (record { key = key; product_id = product; quantity = sum } ∷ [])
add_to key product quantity (a ∷ others) =
    let rest = add_to key product quantity others in
    if text_eq a.key key
    then (add_quantity a.quantity quantity >>= λ sum. ok (record a { quantity = sum } ∷ others))
    else (rest >>= λ more. ok (a ∷ more))

-- The loop over the items, on the map so far.
unfoldable pub aggregate_from :
    Environment → List SaleItem → List Aggregate → Result CheckoutError (List Aggregate)
unfolding add_to
aggregate_from env [] by_product = ok by_product
aggregate_from env (item ∷ items) by_product = do
  more ←
      map_err (wrap "aggregate inventory quantity")
        (add_to (env.uuid_string item.product_id) item.product_id item.quantity by_product)
  aggregate_from env items more

-- The order of strings.
abbrev pub text_before : Text → Text → Bool
text_before [] t = true
text_before (c ∷ s) [] = false
text_before (c ∷ s) (d ∷ t) = ltb c d || c == d && text_before s t

abbrev pub key_before : Aggregate → Aggregate → Bool
key_before a b = text_before a.key b.key

-- sort.Strings on the keys, and the entry of each.
unfoldable pub aggregate_quantities :
    Environment → List SaleItem → Result CheckoutError (List Aggregate)
unfolding aggregate_from
aggregate_quantities env items = do
  by_product ← aggregate_from env items []
  ok (order_by key_before by_product)

abbrev pub lookup_error : Result CheckoutError Inventory → CheckoutError
lookup_error (ok _) = sentinel insufficient_inventory
lookup_error (err e) =
    if is_no_rows e then sentinel inventory_not_found else wrap "get inventory by product id" e

unfoldable pub decrease_error : Environment → StoreScope → Uuid → CheckoutError → Db → CheckoutError
decrease_error env scope product e db =
    if is_no_rows e
    then lookup_error (get_inventory_by_product_id env scope product db).0
    else wrap "decrease inventory" e

abbrev pub sale_movement_error : CheckoutError → CheckoutError
sale_movement_error e =
    if is_unique_violation e "inventory_movements_reference_unique"
    then sentinel sale_already_completed
    else wrap "create inventory movement" e

abbrev pub sale_movement : Uuid → Aggregate → StockChange → NewMovement
sale_movement sale_id a update = record {
  product_id = a.product_id;
  movement_type = sale;
  quantity = a.quantity;
  previous_quantity = update.previous_quantity;
  current_quantity = update.current_quantity;
  reason = none;
  reference_type = codes "sale";
  reference_id = sale_id;
}

module _ (env : Environment) (actor : StoreActor) (sale_id : Uuid) where
  unfoldable pub apply_aggregate : Aggregate → Action Sentinel (Unit {0})
  unfolding decrease_error
  apply_aggregate a =
      Store.◌>>=◌
        (recovering (decrease_error env (to_store_scope actor) a.product_id)
          (decrease_inventory env (to_store_scope actor) a.product_id a.quantity))
        λ update.
          Store.◌>>=◌
            (on_error sale_movement_error (
              create_inventory_movement env (to_actor_scope actor)
                (sale_movement sale_id a update)))
            λ _. pure tt

  unfoldable pub apply_aggregates : List Aggregate → Action Sentinel (Unit {0})
  unfolding apply_aggregate
  apply_aggregates [] = pure tt
  apply_aggregates (a ∷ others) = Store.◌>>=◌ (apply_aggregate a) λ _. apply_aggregates others

  unfoldable pub apply_inventory_changes : List SaleItem → Action Sentinel (Unit {0})
  unfolding aggregate_quantities apply_aggregates
  apply_inventory_changes items =
      Store.◌>>=◌ (Store.lift (aggregate_quantities env items))
        λ aggregates. apply_aggregates aggregates
