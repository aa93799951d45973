-- ===== src/Sales/Service/Keeps.antt =====
-- The commands keep the database consistent.
use mathlib.Core.Path.{subst}
use pdv.Base.{
  ◌≡◌, refl, Bool, true, false, not, ◌==◌, ◌&&◌, some, ok, inl, inr, Option-cases, fail_if-eq-ok,
}
use pdv.Money.{Numeric}
use pdv.Money.Columns.{IsColumn}
use pdv.Database.Rows.{Uuid, Sale, SaleItem, Product, Store}
use pdv.Database.Tables.{find}
use pdv.Database.Lookup.{All-find}
use pdv.Database.Store.{Db, Environment}
use pdv.Database.Ensures.{
  Ensures, Ensures-given, Ensures-weaken, Ensures-bind, Ensures-lift, Ensures-on_error,
  Ensures-statement, one_row_ok,
}
use pdv.Database.Laws.{NumericLaws}
use pdv.Database.Sales.{
  is_open, sale_at, lock_sale_by_id, get_product_by_id, get_sale_item_by_id, product_in_store,
}
use pdv.Sales.Errors.{Sentinel}
use pdv.Sales.Spec.{IsPriced}
use pdv.Sales.Pricing.{ArePriced, price_item-ArePriced}
use pdv.Sales.Consistency.{IsConsistent, IsPending}
use pdv.Sales.Service.{
  StoreActor, to_store_scope, lock_open_sale, get_sale_item, add_item_tx, update_item_tx,
  remove_item_tx,
}
use pdv.Sales.Service.Recalculate.{recalculate_ensures}
use pdv.Sales.Service.Items.{Found, create_item_ensures, update_item_ensures, delete_item_ensures}

module _ (env : Environment) (laws : NumericLaws env) (actor : StoreActor) (id : Uuid) where
  abbrev Pending : Db → Type 0
  Pending = IsPending actor.organization_id actor.store_id id

  abbrev pub Locked : Sale → Db → Type 0
  Locked sale db =
      IsConsistent db
      × (find (sale_at actor.organization_id actor.store_id id) db.sales ≡ some sale)

  begun : (sale : Sale) (db : Db) → Locked sale db → is_open sale.status ≡ true → Pending db
  begun sale db (c, found) is = record {
    others = record {
      prices = c.prices;
      items = c.items;
      headers = λ o s i x _ there. c.headers o s i x refl there;
      owned = λ o s i _ missing. c.owned o s i refl missing;
    };
    header = sale;
    present = found;
    unfinished = is;
  }

  pub lock_ensures :
      {S : Type 0}
      → Ensures IsConsistent (lock_sale_by_id {S = S} env (to_store_scope actor) id) Locked
  unfolding lock_sale_by_id
  lock_ensures = Ensures-statement _ _ env _ _ λ db c sale db' e.
      let (found, same) = one_row_ok db _ e in subst (Locked sale) same (c, found)

  not-not : (b : Bool) → not b ≡ false → b ≡ true
  not-not true h = refl
  not-not false h = cc

  lock_open_ensures : Ensures IsConsistent (lock_open_sale env actor id) (λ _ db. Pending db)
  unfolding lock_open_sale
  lock_open_ensures =
      Ensures-bind IsConsistent Locked _ _ _ (Ensures-on_error _ _ _ _ lock_ensures) λ sale.
        Ensures-bind (Locked sale) (λ _ db. Pending db) _ _ _
          (Ensures-lift _ _ _ λ u db e l. begun sale db l (not-not _ (fail_if-eq-ok _ _ e)))
          λ u. Ensures-lift _ _ (ok sale) λ s db e p. p

  abbrev Sold : Product → Db → Type 0
  Sold product db = Pending db × IsColumn 2 product.price

  product_price :
      (db : Db) (product_id : Uuid) (product : Product)
      → Pending db
      → product_in_store (to_store_scope actor) product_id db ≡ some product
      → IsColumn 2 product.price
  unfolding product_in_store
  product_price db product_id product p e =
      elim (Option-cases (
        find (λ (s : Store). s.organization_id == actor.organization_id && s.id == actor.store_id)
          db.stores)) [
            | inl missing ↦ cc (rw (missing, product_in_store) at e)
            | inr (store, there) ↦
                All-find (λ (x : Product). IsColumn 2 x.price) _ db.products p.others.prices
                  (rw (there, product_in_store) at e)
          ]

  get_product_ensures :
      (product_id : Uuid)
      → Ensures Pending
          (get_product_by_id {S = Sentinel} env (to_store_scope actor) product_id)
          Sold
  unfolding get_product_by_id
  get_product_ensures product_id = Ensures-statement _ _ env _ _ λ db p product db' e.
      let (found, same) = one_row_ok db _ e in
      subst (Sold product) same (p, product_price db product_id product p found)

  Found-item :
      (item_id : Uuid)
      → Ensures Pending
          (get_sale_item env actor id item_id)
          (λ item db. Found env laws actor id item_id item db)
  unfolding get_sale_item get_sale_item_by_id
  Found-item item_id = Ensures-on_error _ _ _ _ (
      Ensures-statement _ _ env _ _ λ db p item db' e.
        let (found, same) = one_row_ok db _ e in
        subst (Found env laws actor id item_id item) same (p, found))

  item_price :
      (item_id : Uuid) (item : SaleItem) (db : Db)
      → Found env laws actor id item_id item db
      → IsColumn 2 item.unit_price
  item_price item_id item db (p, found) =
      (All-find IsPriced _ db.sale_items p.others.items found).columns.price

  module _ (quantity discount : Numeric) (cq : IsColumn 3 quantity) (cd : IsColumn 2 discount) where
    pub add_item_tx_ensures :
        (product_id : Uuid)
        → Ensures IsConsistent
            (add_item_tx env actor id product_id quantity discount)
            (λ _ db. IsConsistent db)
    unfolding add_item_tx
    add_item_tx_ensures product_id =
        Ensures-bind IsConsistent (λ _ db. Pending db) _ _ _ lock_open_ensures
          λ _.
            Ensures-bind Pending Sold _ _ _
              (Ensures-on_error _ _ _ _ (get_product_ensures product_id))
              λ product.
                Ensures-bind (Sold product) (λ _ db. Sold product db) _ _ _
                  (Ensures-lift _ _ _ λ u db e s. s)
                  λ u.
                    Ensures-bind (Sold product)
                      (λ total db. Pending db × ArePriced product.price quantity discount total) _ _
                      _
                      (Ensures-lift _ _ _ λ total db e s. (
                        s.0,
                        price_item-ArePriced product.price quantity discount s.1 cq cd total e,
                      ))
                      λ total. Ensures-given Pending _ _ λ a.
                        Ensures-bind Pending (λ _ db. Pending db) _ _ _
                          (Ensures-on_error _ _ _ _
                            (create_item_ensures env laws actor id _ refl a))
                          λ _. recalculate_ensures env laws actor id

    pub update_item_tx_ensures :
        (item_id : Uuid)
        → Ensures IsConsistent
            (update_item_tx env actor id item_id quantity discount)
            (λ _ db. IsConsistent db)
    unfolding update_item_tx
    update_item_tx_ensures item_id =
        Ensures-bind IsConsistent (λ _ db. Pending db) _ _ _ lock_open_ensures
          λ _.
            Ensures-bind Pending (λ item db. Found env laws actor id item_id item db) _ _ _
              (Found-item item_id)
              λ item.
                Ensures-bind (Found env laws actor id item_id item)
                  (λ total db.
                    Found env laws actor id item_id item db
                    × ArePriced item.unit_price quantity discount total)
                  _ _ _
                  (Ensures-lift _ _ _ λ total db e f. (
                    f,
                    price_item-ArePriced item.unit_price quantity discount
                        (item_price item_id item db f) cq cd total e,
                  ))
                  λ total. Ensures-given (Found env laws actor id item_id item) _ _ λ a.
                    Ensures-bind (Found env laws actor id item_id item) (λ _ db. Pending db) _ _ _
                      (Ensures-on_error _ _ _ _ (
                        update_item_ensures env laws actor id item_id item quantity discount total
                          a))
                      λ _. recalculate_ensures env laws actor id

  pub remove_item_tx_ensures :
      (item_id : Uuid)
      → Ensures IsConsistent (remove_item_tx env actor id item_id) (λ _ db. IsConsistent db)
  unfolding remove_item_tx
  remove_item_tx_ensures item_id =
      Ensures-bind IsConsistent (λ _ db. Pending db) _ _ _ lock_open_ensures
        λ _.
          Ensures-bind Pending (λ item db. Found env laws actor id item_id item db) _ _ _
            (Found-item item_id)
            λ item.
              Ensures-bind (Found env laws actor id item_id item) (λ _ db. Pending db) _ _ _
                (Ensures-on_error _ _ _ _ (
                  Ensures-weaken _ Pending _ _ (λ db f. f.0)
                    (delete_item_ensures env laws actor id item_id)))
                λ _. recalculate_ensures env laws actor id
