-- ===== src/Sales/Service.antt =====
-- The commands of backend/internal/sales/service_commands.go. Each runs in one transaction; an error
-- rolls it back.
mod Recalculation
pub mod Recalculate
mod Items
pub mod Keeps
pub mod Commands
pub mod Cancellation
pub mod Lifecycle
pub mod Closed
use pdv.Base.{
  Bool, true, false, not, String, List, Option, none, some, ok, if◌then◌else◌, ℤ, Result, err,
  fail_if, map_err,
}
use pdv.Errors.{Text, Error, codes, sentinel, validation, wrap}
use pdv.Money.{Numeric, zero_money}
use pdv.Database.Rows.{
  Uuid, Sale, SaleItem, SaleStatus, opened, completed, cancelled, Product, StoreScope, ActorScope,
}
use pdv.Database.Store.{Db, Environment, Action, pure, lift, on_error, with_tx, ◌>>=◌, ◌>>◌}
use pdv.Database.Sales.{
  is_open, lock_sale_by_id, list_sale_items_by_sale_id, get_sale_item_by_id, get_product_by_id,
  create_sale_for_store, recalculate_sale_totals_for_store, cancel_sale_for_store,
}
use pdv.Database.SaleItems.{
  NewItem, create_sale_item_for_store, update_sale_item_for_store, delete_sale_item_for_store,
}
use pdv.Sales.Errors.{
  Sentinel, SalesError, sale_not_open, sale_already_cancelled, product_inactive,
  translate_sale_mutation_error, translate_sale_item_mutation_error, translate_sale_item_read_error,
  translate_product_read_error,
}
use pdv.Sales.Money.{price_item, sum_sale_totals}
use pdv.Sales.Input.{
  parse_uuid, normalize_required_text, AddItemInput, UpdateItemInput, normalize_add_sale_item_input,
  normalize_update_sale_item_input,
}
use pdv.Sales.Mapper.{SaleResponse, to_sale_response}

abbrev pub Command : Type 0 → Type 0
Command = Action Sentinel

-- authn.StoreActor
pub record StoreActor : Type 0 where
  pub organization_id : Uuid
  pub store_id : Uuid
  pub membership_id : Uuid

abbrev pub to_store_scope : StoreActor → StoreScope
to_store_scope a = record { organization_id = a.organization_id; store_id = a.store_id }

abbrev pub to_actor_scope : StoreActor → ActorScope
to_actor_scope a = record {
  organization_id = a.organization_id;
  store_id = a.store_id;
  actor_membership_id = a.membership_id;
}

-- `if err != nil { return fmt.Errorf(text, translate(err)) }`
abbrev wrapping : {A : Type 0} → String → (SalesError → SalesError) → Command A → Command A
wrapping text translate = on_error (λ e. wrap text (translate e))

abbrev keep : SalesError → SalesError
keep e = e

-- The switch of Cancel.
unfoldable pub cancellable : SaleStatus → Result SalesError (Unit {0})
cancellable opened = ok tt
cancellable cancelled = err (sentinel sale_already_cancelled)
cancellable completed = err (sentinel sale_not_open)

module _ (env : Environment) (actor : StoreActor) where
  pub lock_open_sale : Uuid → Command Sale
  lock_open_sale sale_id = do
    sale ←
        on_error translate_sale_mutation_error (lock_sale_by_id env (to_store_scope actor) sale_id)
    lift (fail_if (not (is_open sale.status)) (sentinel sale_not_open))
    pure sale

  -- The sums are written, and the row is answered with the items.
  pub write_totals : Uuid → List SaleItem → Numeric × Numeric × Numeric → Command SaleResponse
  write_totals sale_id items sums = do
    row ← wrapping "update sale totals" translate_sale_mutation_error (
        recalculate_sale_totals_for_store env (to_store_scope actor) sale_id sums.0 sums.1
          zero_money sums.2)
    lift (map_err (wrap "map sale response") (to_sale_response row items))

  -- The totals of the sale are computed again from its items.
  pub recalculate : Uuid → Command SaleResponse
  unfolding write_totals
  recalculate sale_id = do
    items ←
        wrapping "list sale items" keep
          (list_sale_items_by_sale_id env (to_store_scope actor) sale_id)
    sums ← lift (map_err (wrap "recalculate sale totals") (sum_sale_totals items))
    write_totals sale_id items sums

  pub create_tx : Text → Command SaleResponse
  create_tx key = do
    sale ←
        wrapping "create sale" translate_sale_mutation_error
          (create_sale_for_store env (to_actor_scope actor) key)
    items ←
        wrapping "list sale items" keep
          (list_sale_items_by_sale_id env (to_store_scope actor) sale.id)
    lift (map_err (wrap "map sale response") (to_sale_response sale items))

  pub create : Text → Command SaleResponse
  unfolding create_tx
  create idempotency_key = do
    key ← lift (normalize_required_text (codes "idempotencyKey") idempotency_key)
    with_tx env (create_tx key)

  pub add_item_tx : Uuid → Uuid → Numeric → Numeric → Command SaleResponse
  unfolding lock_open_sale recalculate
  add_item_tx sale_id product_id quantity discount = do
    lock_open_sale sale_id
    product ←
        on_error translate_product_read_error
          (get_product_by_id env (to_store_scope actor) product_id)
    lift (fail_if (not product.is_active) (sentinel product_inactive))
    item_total ← lift (price_item product.price quantity discount)
    wrapping "create sale item" translate_sale_mutation_error (
        create_sale_item_for_store env (to_store_scope actor) (record {
          sale_id = sale_id;
          product_id = product.id;
          product_name = product.name;
          product_sku = product.sku;
          unit_price = product.price;
          quantity = quantity;
          discount = discount;
          total = item_total;
        }))
    recalculate sale_id

  pub add_item : Text → AddItemInput → Command SaleResponse
  unfolding add_item_tx
  add_item raw_sale_id input = do
    sale_id ← lift (parse_uuid env raw_sale_id (codes "id"))
    normalized ← lift (normalize_add_sale_item_input env input)
    with_tx env (add_item_tx sale_id normalized.product_id normalized.quantity normalized.discount)

  pub get_sale_item : Uuid → Uuid → Command SaleItem
  get_sale_item sale_id item_id =
      on_error translate_sale_item_read_error
        (get_sale_item_by_id env (to_store_scope actor) sale_id item_id)

  pub update_item_tx : Uuid → Uuid → Numeric → Numeric → Command SaleResponse
  unfolding lock_open_sale recalculate get_sale_item
  update_item_tx sale_id item_id quantity discount = do
    lock_open_sale sale_id
    item ← get_sale_item sale_id item_id
    item_total ← lift (price_item item.unit_price quantity discount)
    wrapping "update sale item" translate_sale_item_mutation_error (
        update_sale_item_for_store env (to_store_scope actor) sale_id item_id quantity discount
          item_total)
    recalculate sale_id

  pub update_item : Text → Text → UpdateItemInput → Command SaleResponse
  unfolding update_item_tx
  update_item raw_sale_id raw_item_id input = do
    sale_id ← lift (parse_uuid env raw_sale_id (codes "id"))
    item_id ← lift (parse_uuid env raw_item_id (codes "itemId"))
    normalized ← lift (normalize_update_sale_item_input env input)
    with_tx env (update_item_tx sale_id item_id normalized.quantity normalized.discount)

  pub remove_item_tx : Uuid → Uuid → Command SaleResponse
  unfolding lock_open_sale recalculate get_sale_item
  remove_item_tx sale_id item_id = do
    lock_open_sale sale_id
    get_sale_item sale_id item_id
    wrapping "delete sale item" translate_sale_item_mutation_error
        (delete_sale_item_for_store env (to_store_scope actor) sale_id item_id)
    recalculate sale_id

  pub remove_item : Text → Text → Command SaleResponse
  unfolding remove_item_tx
  remove_item raw_sale_id raw_item_id = do
    sale_id ← lift (parse_uuid env raw_sale_id (codes "id"))
    item_id ← lift (parse_uuid env raw_item_id (codes "itemId"))
    with_tx env (remove_item_tx sale_id item_id)

  unfoldable pub cancel_tx : Uuid → Command SaleResponse
  unfolding cancellable
  cancel_tx sale_id = do
    sale ←
        on_error translate_sale_mutation_error (lock_sale_by_id env (to_store_scope actor) sale_id)
    lift (cancellable sale.status)
    row ←
        wrapping "cancel sale" translate_sale_mutation_error
          (cancel_sale_for_store env (to_actor_scope actor) sale_id)
    items ←
        wrapping "list sale items" keep
          (list_sale_items_by_sale_id env (to_store_scope actor) sale_id)
    lift (map_err (wrap "map sale response") (to_sale_response row items))

  unfoldable pub cancel : Text → Command SaleResponse
  unfolding cancel_tx
  cancel raw_id = do
    sale_id ← lift (parse_uuid env raw_id (codes "id"))
    with_tx env (cancel_tx sale_id)
