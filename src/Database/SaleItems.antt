-- ===== src/Database/SaleItems.antt =====
-- The statements on sale_items of backend/queries/sales.sql, as sales.sql.go sends them.
use pdv.Base.{◌==◌, ◌&&◌, none, some, [], ◌∷◌, ◌++◌, Result, ok, err, ◌>>=◌}
use pdv.Errors.{Text, Error, pg_error, no_rows}
use pdv.Money.{Numeric}
use pdv.Database.Rows.{Uuid, SaleItem, Product, StoreScope}
use pdv.Database.Tables.{find, replace, remove}
use pdv.Database.Store.{Db, Environment, Action, statement, or_overflow}
use pdv.Database.Sales.{sale_at, item_at}

-- The columns that the service sends with a new item.
pub record NewItem : Type 0 where
  pub sale_id : Uuid
  pub product_id : Uuid
  pub product_name : Text
  pub product_sku : Text
  pub unit_price : Numeric
  pub quantity : Numeric
  pub discount : Numeric
  pub total : Numeric

abbrev pub item_row :
    Environment → StoreScope → NewItem → Db → Numeric → Numeric → Numeric → Numeric → SaleItem
item_row env scope n db unit_price quantity discount total = record {
  id = env.new_id db;
  organization_id = scope.organization_id;
  store_id = scope.store_id;
  sale_id = n.sale_id;
  product_id = n.product_id;
  product_name = n.product_name;
  product_sku = n.product_sku;
  unit_price = unit_price;
  quantity = quantity;
  discount = discount;
  total = total;
  created_at = env.now db;
}

-- The row as it is stored, each number as its column keeps it.
unfoldable pub stored_item :
    {S : Type 0} → Environment → StoreScope → NewItem → Db → Result (Error S) SaleItem
stored_item env scope n db = do
  unit_price ← or_overflow (env.column 2 n.unit_price)
  quantity ← or_overflow (env.column 3 n.quantity)
  discount ← or_overflow (env.column 2 n.discount)
  total ← or_overflow (env.column 2 n.total)
  ok (item_row env scope n db unit_price quantity discount total)

-- The primary key, and the foreign keys sale_items_sale_fk and sale_items_product_fk.
unfoldable pub insert_item :
    {S : Type 0} → StoreScope → SaleItem → Db → Result (Error S) (SaleItem × Db)
insert_item scope item db = elim (find (λ (i : SaleItem). i.id == item.id) db.sale_items) [
  | some _ ↦ err (pg_error "23505" "sale_items_pkey")
  | none ↦ elim (find (sale_at scope.organization_id scope.store_id item.sale_id) db.sales) [
    | none ↦ err (pg_error "23503" "sale_items_sale_fk")
    | some _ ↦
        elim (find
          (λ (p : Product). p.organization_id == scope.organization_id && p.id == item.product_id)
          db.products) [
            | none ↦ err (pg_error "23503" "sale_items_product_fk")
            | some _ ↦ ok (item, record db { sale_items = db.sale_items ++ item ∷ [] })
          ]
  ]
]

module _ {S : Type 0} (env : Environment) where
  unfoldable pub create_sale_item_for_store : StoreScope → NewItem → Action S SaleItem
  unfolding statement stored_item insert_item
  create_sale_item_for_store scope new_item =
      statement env "CreateSaleItemForStore"
        λ db. stored_item env scope new_item db >>= λ item. insert_item scope item db

  -- The unit price is not touched.
  unfoldable pub update_sale_item_for_store :
      StoreScope → Uuid → Uuid → Numeric → Numeric → Numeric → Action S SaleItem
  unfolding statement
  update_sale_item_for_store scope sale_id id quantity discount total =
      statement env "UpdateSaleItemForStore" λ db.
        or_overflow (env.column 3 quantity) >>= λ quantity'.
        or_overflow (env.column 2 discount) >>= λ discount'.
        or_overflow (env.column 2 total) >>= λ total'.
        let at = item_at scope.organization_id scope.store_id sale_id id in
        let f = λ (i : SaleItem). record i {
          quantity = quantity';
          discount = discount';
          total = total';
        } in
        elim (find at db.sale_items) [
          | none ↦ err no_rows
          | some i ↦ ok (f i, record db { sale_items = replace at f db.sale_items })
        ]

  unfoldable pub delete_sale_item_for_store : StoreScope → Uuid → Uuid → Action S SaleItem
  unfolding statement
  delete_sale_item_for_store scope sale_id id = statement env "DeleteSaleItemForStore" λ db.
      let at = item_at scope.organization_id scope.store_id sale_id id in
      elim (find at db.sale_items) [
        | none ↦ err no_rows
        | some i ↦ ok (i, record db { sale_items = remove at db.sale_items })
      ]
