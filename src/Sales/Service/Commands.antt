-- ===== src/Sales/Service/Commands.antt =====
-- The commands on items, with their requests: the database stays consistent.
use mathlib.Core.Path.{subst}
use pdv.Base.{◌≡◌, ok, >>=-eq-ok, ok_injective}
use pdv.Errors.{Text, codes}
use pdv.Money.Columns.{IsColumn}
use pdv.Database.Store.{Db, Environment}
use pdv.Database.Ensures.{lift_keeps, with_tx_keeps}
use pdv.Database.Laws.{NumericLaws}
use pdv.Sales.Input.{
  AddItemInput, UpdateItemInput, NormalizedAddItem, NormalizedUpdateItem,
  normalize_add_sale_item_input, normalize_update_sale_item_input, parse_uuid, parse_quantity,
  parse_optional_money,
}
use pdv.Sales.Parsed.{parse_quantity-IsColumn, parse_optional_money-IsColumn}
use pdv.Sales.Consistency.{IsConsistent}
use pdv.Sales.Service.{
  StoreActor, add_item, update_item, remove_item, add_item_tx, update_item_tx, remove_item_tx,
}
use pdv.Sales.Service.Keeps.{add_item_tx_ensures, update_item_tx_ensures, remove_item_tx_ensures}

module _ (env : Environment) (laws : NumericLaws env) where
  pub add_input_columns :
      (input : AddItemInput) (n : NormalizedAddItem)
      → normalize_add_sale_item_input env input ≡ ok n
      → IsColumn 3 n.quantity × IsColumn 2 n.discount
  unfolding normalize_add_sale_item_input
  add_input_columns input n e =
      let (product, e1, e2) = >>=-eq-ok (parse_uuid env input.product_id (codes "productId")) _ e in
      let (quantity, e3, e4) =
        >>=-eq-ok (parse_quantity env (codes "quantity") input.quantity) _ e2 in
      let (discount, e5, e6) =
        >>=-eq-ok (parse_optional_money env (codes "discount") input.discount) _ e4 in
      subst (λ (m : NormalizedAddItem). IsColumn 3 m.quantity × IsColumn 2 m.discount)
        (ok_injective e6)
        (
          parse_quantity-IsColumn env laws (codes "quantity") input.quantity quantity e3,
          parse_optional_money-IsColumn env laws (codes "discount") input.discount discount e5,
        )

  pub update_input_columns :
      (input : UpdateItemInput) (n : NormalizedUpdateItem)
      → normalize_update_sale_item_input env input ≡ ok n
      → IsColumn 3 n.quantity × IsColumn 2 n.discount
  unfolding normalize_update_sale_item_input
  update_input_columns input n e =
      let (quantity, e3, e4) =
        >>=-eq-ok (parse_quantity env (codes "quantity") input.quantity) _ e in
      let (discount, e5, e6) =
        >>=-eq-ok (parse_optional_money env (codes "discount") input.discount) _ e4 in
      subst (λ (m : NormalizedUpdateItem). IsColumn 3 m.quantity × IsColumn 2 m.discount)
        (ok_injective e6)
        (
          parse_quantity-IsColumn env laws (codes "quantity") input.quantity quantity e3,
          parse_optional_money-IsColumn env laws (codes "discount") input.discount discount e5,
        )

-- AddItem keeps every item priced as its rounded product less its discount and every header the
-- sum of the items of its sale, whether the request is refused, a statement or the commit fails,
-- or the item is added, where the environment keeps the laws on numbers and the database was so
-- before. The environment keeps the laws on numbers, and the database was consistent before: every
-- item priced as its rounded product less its discount, every header the sum of its items.
pub add_item-IsConsistent :
    (env : Environment) (laws : NumericLaws env) (actor : StoreActor) (sale_id : Text)
    (input : AddItemInput) (db : Db)
    → IsConsistent db
    → IsConsistent (add_item env actor sale_id input db).1
unfolding add_item
add_item-IsConsistent env laws actor sale_id input db c =
    lift_keeps IsConsistent (parse_uuid env sale_id (codes "id")) _ db c λ id _.
      lift_keeps IsConsistent (normalize_add_sale_item_input env input) _ db c λ n e.
        let (cq, cd) = add_input_columns env laws input n e in
        with_tx_keeps env (add_item_tx env actor id n.product_id n.quantity n.discount) db
          IsConsistent
          (add_item_tx_ensures env laws actor id n.quantity n.discount cq cd n.product_id) c

-- UpdateItem keeps every item priced and every header the sum of its items, on success and on
-- every failure, where the environment keeps the laws on numbers and the database was so before.
-- The environment keeps the laws on numbers, and the database was consistent before: every item
-- priced as its rounded product less its discount, every header the sum of its items.
pub update_item-IsConsistent :
    (env : Environment) (laws : NumericLaws env) (actor : StoreActor) (sale_id item_id : Text)
    (input : UpdateItemInput) (db : Db)
    → IsConsistent db
    → IsConsistent (update_item env actor sale_id item_id input db).1
unfolding update_item
update_item-IsConsistent env laws actor sale_id item_id input db c =
    lift_keeps IsConsistent (parse_uuid env sale_id (codes "id")) _ db c λ id _.
      lift_keeps IsConsistent (parse_uuid env item_id (codes "itemId")) _ db c λ item _.
        lift_keeps IsConsistent (normalize_update_sale_item_input env input) _ db c λ n e.
          let (cq, cd) = update_input_columns env laws input n e in
          with_tx_keeps env (update_item_tx env actor id item n.quantity n.discount) db IsConsistent
            (update_item_tx_ensures env laws actor id n.quantity n.discount cq cd item) c

-- RemoveItem keeps every item priced and every header the sum of its items, on success and on
-- every failure, where the environment keeps the laws on numbers and the database was so before.
-- The environment keeps the laws on numbers, and the database was consistent before: every item
-- priced as its rounded product less its discount, every header the sum of its items.
pub remove_item-IsConsistent :
    (env : Environment) (laws : NumericLaws env) (actor : StoreActor) (sale_id item_id : Text)
    (db : Db)
    → IsConsistent db
    → IsConsistent (remove_item env actor sale_id item_id db).1
unfolding remove_item
remove_item-IsConsistent env laws actor sale_id item_id db c =
    lift_keeps IsConsistent (parse_uuid env sale_id (codes "id")) _ db c λ id _.
      lift_keeps IsConsistent (parse_uuid env item_id (codes "itemId")) _ db c λ item _.
        with_tx_keeps env (remove_item_tx env actor id item) db IsConsistent
          (remove_item_tx_ensures env laws actor id item) c
