-- ===== src/Database/Sales.antt =====
-- The statements of backend/queries/sales.sql as backend/internal/platform/database/sales.sql.go sends
-- them, with the trigger touch_updated_at on sales. A number goes through its column when it is written.
-- The foreign key and the primary key on which an answer of the service depends are written out; other
-- constraints are faults of the environment.
use pdv.Base.{
  ℕ, ◌+◌, ◌==◌, ltb, Bool, true, false, not, ◌&&◌, ◌||◌, Option, none, some, List, [], ◌∷◌, ◌++◌,
  select, Result, ok, err, ◌>>=◌,
}
use pdv.Errors.{Text, Error, pg_error, no_rows}
use pdv.Money.{Numeric, zero_money}
use pdv.Database.Rows.{
  Uuid, Sale, SaleItem, SaleStatus, opened, completed, cancelled, Product, Store, Counter,
  StoreScope, ActorScope,
}
use pdv.Database.Tables.{find, replace, order_by}
use pdv.Database.Store.{Db, Environment, Action, statement, one_row, or_overflow}

abbrev pub is_open : SaleStatus → Bool
is_open opened = true
is_open _ = false

abbrev pub is_cancelled : SaleStatus → Bool
is_cancelled cancelled = true
is_cancelled _ = false

abbrev pub text_eq : Text → Text → Bool
text_eq [] [] = true
text_eq [] (d ∷ t) = false
text_eq (c ∷ s) [] = false
text_eq (c ∷ s) (d ∷ t) = c == d && text_eq s t

-- The clauses on organization, store and id that every statement has.
abbrev pub sale_at : Uuid → Uuid → Uuid → Sale → Bool
sale_at org store id s = s.organization_id == org && s.store_id == store && s.id == id

abbrev pub item_of : Uuid → Uuid → Uuid → SaleItem → Bool
item_of org store sale_id i =
    i.organization_id == org && i.store_id == store && i.sale_id == sale_id

abbrev pub item_at : Uuid → Uuid → Uuid → Uuid → SaleItem → Bool
item_at org store sale_id id i = item_of org store sale_id i && i.id == id

-- ORDER BY item.created_at ASC, item.id ASC
abbrev pub item_before : SaleItem → SaleItem → Bool
item_before a b = ltb a.created_at b.created_at || a.created_at == b.created_at && ltb a.id b.id

unfoldable pub items_of_sale : Uuid → Uuid → Uuid → List SaleItem → List SaleItem
items_of_sale org store sale_id items =
    order_by item_before (select (item_of org store sale_id) items)

-- The join with the store of the scope.
unfoldable pub product_in_store : StoreScope → Uuid → Db → Option Product
product_in_store scope id db =
    elim (find (λ (s : Store). s.organization_id == scope.organization_id && s.id == scope.store_id)
      db.stores) [
        | none ↦ none
        | some _ ↦
            find (λ (p : Product). p.organization_id == scope.organization_id && p.id == id)
              db.products
      ]

abbrev counter_at : ActorScope → Counter → Bool
counter_at scope c = c.organization_id == scope.organization_id && c.store_id == scope.store_id

abbrev pub sale_by_key : ActorScope → Text → Sale → Bool
sale_by_key scope key s =
    s.organization_id == scope.organization_id
    && s.store_id == scope.store_id
    && text_eq s.idempotency_key key

-- INSERT INTO sale_number_counters … ON CONFLICT DO UPDATE … RETURNING next_number - 1
unfoldable pub allocate_number : ActorScope → List Counter → ℕ × List Counter
allocate_number scope counters = elim (find (counter_at scope) counters) [
  | none ↦ (
    1,
    counters
        ++ (record {
          organization_id = scope.organization_id;
          store_id = scope.store_id;
          next_number = 2;
        })
          ∷ [],
  )
  | some c ↦ (
    c.next_number,
    replace (counter_at scope) (λ d. record d { next_number = d.next_number + 1 }) counters,
  )
]

unfoldable pub new_sale : Environment → ActorScope → Text → ℕ → Numeric → Db → Sale
new_sale env scope key number zero db = record {
  id = env.new_id db;
  organization_id = scope.organization_id;
  store_id = scope.store_id;
  number = number;
  idempotency_key = key;
  status = opened;
  subtotal = zero;
  discount = zero;
  addition = zero;
  total = zero;
  opened_by_membership_id = scope.actor_membership_id;
  completed_by_membership_id = none;
  cancelled_by_membership_id = none;
  opened_at = env.now db;
  completed_at = none;
  cancelled_at = none;
  created_at = env.now db;
  updated_at = env.now db;
}

-- Changes the sale at the scope and the id where its status passes the test.
unfoldable pub update_sale :
    {S : Type 0}
    → Uuid
    → Uuid
    → Uuid
    → (Sale → Bool)
    → (Sale → Sale)
    → Db
    → Result (Error S) (Sale × Db)
update_sale org store id allowed f db =
    let at = λ (s : Sale). sale_at org store id s && allowed s in
    elim (find at db.sales) [
      | none ↦ err no_rows
      | some s ↦ ok (f s, record db { sales = replace at f db.sales })
    ]

module _ {S : Type 0} (env : Environment) where
  unfoldable pub get_sale_by_id : StoreScope → Uuid → Action S Sale
  unfolding statement
  get_sale_by_id scope id =
      statement env "GetSaleByIDForStore"
        λ db. one_row db (find (sale_at scope.organization_id scope.store_id id) db.sales)

  -- The same row, locked until the transaction ends.
  unfoldable pub lock_sale_by_id : StoreScope → Uuid → Action S Sale
  unfolding statement
  lock_sale_by_id scope id =
      statement env "LockSaleByIDForStore"
        λ db. one_row db (find (sale_at scope.organization_id scope.store_id id) db.sales)

  unfoldable pub list_sale_items_by_sale_id : StoreScope → Uuid → Action S (List SaleItem)
  unfolding statement
  list_sale_items_by_sale_id scope sale_id =
      statement env "ListSaleItemsBySaleIDForStore"
        λ db. ok (items_of_sale scope.organization_id scope.store_id sale_id db.sale_items, db)

  unfoldable pub get_sale_item_by_id : StoreScope → Uuid → Uuid → Action S SaleItem
  unfolding statement
  get_sale_item_by_id scope sale_id id = statement env "GetSaleItemByIDForStore" λ db.
      one_row db (find (item_at scope.organization_id scope.store_id sale_id id) db.sale_items)

  unfoldable pub get_product_by_id : StoreScope → Uuid → Action S Product
  unfolding statement product_in_store
  get_product_by_id scope id =
      statement env "GetProductByIDForStore" λ db. one_row db (product_in_store scope id db)

  -- The sale that has the idempotency key, or a new one with the next number of the store.
  unfoldable pub insert_sale : ActorScope → Text → Numeric → Db → Result (Error S) (Sale × Db)
  unfolding new_sale allocate_number
  insert_sale scope key zero db =
      let (number, counters) = allocate_number scope db.sale_number_counters in
      let sale = new_sale env scope key number zero db in
      elim (find (λ (s : Sale). s.id == env.new_id db) db.sales) [
        | some _ ↦ err (pg_error "23505" "sales_pkey")
        | none ↦
            ok (sale, record db { sales = db.sales ++ sale ∷ []; sale_number_counters = counters })
      ]

  unfoldable pub create_sale_for_store : ActorScope → Text → Action S Sale
  unfolding statement insert_sale
  create_sale_for_store scope key = statement env "CreateSaleForStore" λ db.
      elim (find (sale_by_key scope key) db.sales) [
        | some sale ↦ ok (sale, db)
        | none ↦ or_overflow (env.column 2 zero_money) >>= λ zero. insert_sale scope key zero db
      ]

  unfoldable pub recalculate_sale_totals_for_store :
      StoreScope → Uuid → Numeric → Numeric → Numeric → Numeric → Action S Sale
  unfolding statement update_sale
  recalculate_sale_totals_for_store scope id subtotal discount addition total =
      statement env "RecalculateSaleTotalsForStore" λ db.
        or_overflow (env.column 2 subtotal) >>= λ subtotal'.
        or_overflow (env.column 2 discount) >>= λ discount'.
        or_overflow (env.column 2 addition) >>= λ addition'.
        or_overflow (env.column 2 total) >>= λ total'.
        update_sale scope.organization_id scope.store_id id (λ s. is_open s.status)
          (λ s. record s {
            subtotal = subtotal';
            discount = discount';
            addition = addition';
            total = total';
            updated_at = env.now db;
          })
          db

  unfoldable pub complete_sale_for_store : ActorScope → Uuid → Action S Sale
  unfolding statement update_sale
  complete_sale_for_store scope id = statement env "CompleteSaleForStore" λ db.
      update_sale scope.organization_id scope.store_id id (λ s. is_open s.status)
        (λ s. record s {
          status = completed;
          completed_by_membership_id = some scope.actor_membership_id;
          completed_at = some (env.now db);
          updated_at = env.now db;
        })
        db

  -- The statement also cancels a completed sale.
  unfoldable pub cancel_sale_for_store : ActorScope → Uuid → Action S Sale
  unfolding statement update_sale
  cancel_sale_for_store scope id = statement env "CancelSaleForStore" λ db.
      update_sale scope.organization_id scope.store_id id (λ s. not (is_cancelled s.status))
        (λ s. record s {
          status = cancelled;
          cancelled_by_membership_id = some scope.actor_membership_id;
          cancelled_at = some (env.now db);
          updated_at = env.now db;
        })
        db
