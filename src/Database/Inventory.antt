-- ===== src/Database/Inventory.antt =====
-- The statements on the stock of backend/internal/platform/database/inventory.sql.go. The keys of a row of
-- inventory are its primary key, so a statement concerns at most one row.
use pdv.Base.{
  ◌==◌, ◌&&◌, Bool, true, false, Option, none, some, [], ◌∷◌, ◌++◌, if◌then◌else◌, pos, Result, ok,
  err, ◌>>=◌,
}
use pdv.Errors.{Text, Error, pg_error, no_rows}
use pdv.Money.{Numeric, numeric_from_scaled_int}
use pdv.Database.Rows.{
  Uuid, Time, StoreScope, ActorScope, Inventory, InventoryMovement, MovementType, purchase, sale,
  sale_cancellation, adjustment_in, adjustment_out,
}
use pdv.Database.Tables.{find, replace}
use pdv.Database.Store.{Db, Environment, Action, statement, one_row, or_overflow}
use pdv.Database.Sales.{text_eq}

abbrev pub stock_at : Uuid → Uuid → Uuid → Inventory → Bool
stock_at org store product r =
    r.organization_id == org && r.store_id == store && r.product_id == product

-- The row that a change of the stock returns.
pub record StockChange : Type 0 where
  pub organization_id : Uuid
  pub store_id : Uuid
  pub product_id : Uuid
  pub previous_quantity : Numeric
  pub current_quantity : Numeric
  pub created_at : Time
  pub updated_at : Time

abbrev pub change_of : Inventory → Numeric → StockChange
change_of r previous = record {
  organization_id = r.organization_id;
  store_id = r.store_id;
  product_id = r.product_id;
  previous_quantity = previous;
  current_quantity = r.quantity;
  created_at = r.created_at;
  updated_at = r.updated_at;
}

-- The literal 0 of the statements.
abbrev pub sql_zero : Numeric
sql_zero = numeric_from_scaled_int (pos 0) 0

-- CreateInventoryMovementForStoreParams without the scope
pub record NewMovement : Type 0 where
  pub product_id : Uuid
  pub movement_type : MovementType
  pub quantity : Numeric
  pub previous_quantity : Numeric
  pub current_quantity : Numeric
  pub reason : Option Text
  pub reference_type : Text
  pub reference_id : Uuid

abbrev pub same_type : MovementType → MovementType → Bool
same_type purchase purchase = true
same_type sale sale = true
same_type sale_cancellation sale_cancellation = true
same_type adjustment_in adjustment_in = true
same_type adjustment_out adjustment_out = true
same_type _ _ = false

-- The columns of inventory_movements_reference_unique.
abbrev pub same_reference : ActorScope → NewMovement → InventoryMovement → Bool
same_reference scope n m =
    m.organization_id == scope.organization_id
    && m.store_id == scope.store_id
    && m.product_id == n.product_id
    && same_type m.movement_type n.movement_type
    && text_eq m.reference_type n.reference_type
    && m.reference_id == n.reference_id

abbrev pub movement_row :
    Environment → ActorScope → NewMovement → Db → Numeric → Numeric → Numeric → InventoryMovement
movement_row env scope n db quantity previous current = record {
  organization_id = scope.organization_id;
  store_id = scope.store_id;
  id = env.new_id db;
  product_id = n.product_id;
  actor_membership_id = scope.actor_membership_id;
  movement_type = n.movement_type;
  quantity = quantity;
  previous_quantity = previous;
  current_quantity = current;
  reason = n.reason;
  reference_type = n.reference_type;
  reference_id = n.reference_id;
  created_at = env.now db;
}

abbrev pub with_quantity : Environment → Db → Numeric → Inventory → Inventory
with_quantity env db quantity r = record r { quantity = quantity; updated_at = env.now db }

abbrev pub first_row : Environment → StoreScope → Uuid → Numeric → Db → Inventory
first_row env scope product added db = record {
  organization_id = scope.organization_id;
  store_id = scope.store_id;
  product_id = product;
  quantity = added;
  created_at = env.now db;
  updated_at = env.now db;
}

module _ {S : Type 0} (env : Environment) where
  -- quantity - $1, where the stock is enough
  unfoldable pub take_off :
      StoreScope → Uuid → Numeric → Db → Inventory → Result (Error S) (StockChange × Db)
  take_off scope product quantity db r =
      if env.less_numeric r.quantity quantity
      then err no_rows
      else (or_overflow (env.column 3 (env.subtract_numeric r.quantity quantity)) >>= λ current.
          or_overflow (env.column 3 (env.add_numeric current quantity)) >>= λ previous. ok (
            change_of (with_quantity env db current r) previous,
            record db {
              inventory =
                  replace (stock_at scope.organization_id scope.store_id product)
                    (with_quantity env db current) db.inventory;
            },
          ))

  unfoldable pub decrease_inventory : StoreScope → Uuid → Numeric → Action S StockChange
  unfolding statement take_off
  decrease_inventory scope product quantity = statement env "DecreaseInventoryForStore" λ db.
      if env.less_numeric sql_zero quantity
      then elim (find (stock_at scope.organization_id scope.store_id product) db.inventory) [
        | none ↦ err no_rows
        | some r ↦ take_off scope product quantity db r
      ]
      else err no_rows

  -- The first stock of a product.
  unfoldable pub put_first :
      StoreScope → Uuid → Numeric → Numeric → Db → Result (Error S) (StockChange × Db)
  put_first scope product quantity added db =
      let r = first_row env scope product added db in
      or_overflow (env.column 3 (env.subtract_numeric added quantity)) >>= λ previous.
      ok (change_of r previous, record db { inventory = db.inventory ++ r ∷ [] })

  -- inventory.quantity + EXCLUDED.quantity
  unfoldable pub put_more :
      StoreScope → Uuid → Numeric → Numeric → Db → Inventory → Result (Error S) (StockChange × Db)
  put_more scope product quantity added db r =
      or_overflow (env.column 3 (env.add_numeric r.quantity added)) >>= λ current.
      or_overflow (env.column 3 (env.subtract_numeric current quantity)) >>= λ previous. ok (
        change_of (with_quantity env db current r) previous,
        record db {
          inventory =
              replace (stock_at scope.organization_id scope.store_id product)
                (with_quantity env db current) db.inventory;
        },
      )

  unfoldable pub increase_inventory : StoreScope → Uuid → Numeric → Action S StockChange
  unfolding statement put_first put_more
  increase_inventory scope product quantity = statement env "IncreaseInventoryForStore" λ db.
      if env.less_numeric sql_zero quantity
      then (or_overflow (env.column 3 quantity) >>= λ added.
          elim (find (stock_at scope.organization_id scope.store_id product) db.inventory) [
            | none ↦ put_first scope product quantity added db
            | some r ↦ put_more scope product quantity added db r
          ])
      else err no_rows

  unfoldable pub get_inventory_by_product_id : StoreScope → Uuid → Action S Inventory
  unfolding statement
  get_inventory_by_product_id scope product =
      statement env "GetInventoryByProductIDForStore"
        λ db. one_row db (find (stock_at scope.organization_id scope.store_id product) db.inventory)

  unfoldable pub insert_movement :
      ActorScope → NewMovement → Db → Result (Error S) (InventoryMovement × Db)
  insert_movement scope n db = or_overflow (env.column 3 n.quantity) >>= λ quantity.
      or_overflow (env.column 3 n.previous_quantity) >>= λ previous.
      or_overflow (env.column 3 n.current_quantity) >>= λ current.
      let m = movement_row env scope n db quantity previous current in
      ok (m, record db { inventory_movements = db.inventory_movements ++ m ∷ [] })

  unfoldable pub create_inventory_movement : ActorScope → NewMovement → Action S InventoryMovement
  unfolding statement insert_movement
  create_inventory_movement scope n = statement env "CreateInventoryMovementForStore" λ db.
      elim (find (same_reference scope n) db.inventory_movements) [
        | some _ ↦ err (pg_error "23505" "inventory_movements_reference_unique")
        | none ↦ insert_movement scope n db
      ]
