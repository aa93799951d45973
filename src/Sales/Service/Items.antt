-- ===== src/Sales/Service/Items.antt =====
-- The statements on items keep a pending sale pending, and every item priced.
use mathlib.Core.Path.{subst}
use pdv.Base.{
  ◌≡◌, refl, ◌∙◌, arith, true, false, ◌==◌, ◌&&◌, some, List, [], ◌∷◌, ◌++◌, All, All-append, ok,
  inl, inr, Option-cases, select, >>=-eq-ok, ok_injective,
}
use pdv.Money.{Numeric}
use pdv.Database.Rows.{Uuid, SaleItem, Product}
use pdv.Database.Tables.{find, replace}
use pdv.Database.Lookup.{
  select-append_out, select-replace_out, select-remove_out, All-replace, All-remove,
}
use pdv.Database.Store.{Db, Environment}
use pdv.Database.Ensures.{Ensures, Ensures-statement, overflow_step, ok_pair}
use pdv.Database.Laws.{NumericLaws}
use pdv.Database.Sales.{sale_at, item_of, item_at, items_of_sale}
use pdv.Database.SaleItems.{
  NewItem, item_row, stored_item, insert_item, create_sale_item_for_store,
  update_sale_item_for_store, delete_sale_item_for_store,
}
use pdv.Sales.Errors.{Sentinel}
use pdv.Sales.Spec.{IsPriced}
use pdv.Sales.Pricing.{ArePriced}
use pdv.Sales.Consistency.{this_sale, IsPending}
use pdv.Sales.Service.{StoreActor, to_store_scope}

other_items :
    (org store id o s i : Uuid)
    → this_sale org store id o s i ≡ false
    → (x : SaleItem) → item_of org store id x ≡ true
    → item_of o s i x ≡ false
other_items org store id o s i h x k = ground arith

-- A change of the items that only this sale can see.
module _ (org store id : Uuid) (db : Db) (items : List SaleItem)
    (unseen : (o s i : Uuid)
      → this_sale org store id o s i ≡ false
      → select (item_of o s i) items ≡ select (item_of o s i) db.sale_items) where
  pub items_changed :
      All IsPriced items
      → IsPending org store id db
      → IsPending org store id (record db { sale_items = items })
  unfolding items_of_sale
  items_changed all p = record {
    others = record {
      prices = p.others.prices;
      items = all;
      headers = λ o s i sale apart found.
          rw (unseen o s i apart) (p.others.headers o s i sale apart found);
      owned = λ o s i apart missing. rw (unseen o s i apart) (p.others.owned o s i apart missing);
    };
    header = p.header;
    present = p.present;
    unfinished = p.unfinished;
  }

module _ (env : Environment) (laws : NumericLaws env) (actor : StoreActor) (id : Uuid) where
  abbrev Pending : Db → Type 0
  Pending = IsPending actor.organization_id actor.store_id id

  -- Written to their columns, four such numbers stay such numbers.
  stored-ArePriced :
      (item : SaleItem) (u q d t : Numeric)
      → ArePriced u q d t
      → env.column 2 u ≡ some item.unit_price
      → env.column 3 q ≡ some item.quantity
      → env.column 2 d ≡ some item.discount
      → env.column 2 t ≡ some item.total
      → IsPriced item
  stored-ArePriced item u q d t a eu eq ed et = record {
    columns = record {
      price = laws.column_IsColumn 2 u _ (omega arith) eu;
      quantity = laws.column_IsColumn 3 q _ (omega arith) eq;
      discount = laws.column_IsColumn 2 d _ (omega arith) ed;
      total = laws.column_IsColumn 2 t _ (omega arith) et;
    };
    priced = cc (
      a.priced,
      laws.column_exact 2 u item.unit_price (omega arith) a.price_column eu,
      laws.column_exact 3 q item.quantity (omega arith) a.quantity_column eq,
      laws.column_exact 2 d item.discount (omega arith) a.discount_column ed,
      laws.column_exact 2 t item.total (omega arith) a.total_column et,
    );
  }

  repriced :
      (item : SaleItem) (q d t q' d' t' : Numeric)
      → ArePriced item.unit_price q d t
      → env.column 3 q ≡ some q'
      → env.column 2 d ≡ some d'
      → env.column 2 t ≡ some t'
      → IsPriced (record item { quantity = q'; discount = d'; total = t' })
  repriced item q d t q' d' t' a eq ed et = record {
    columns = record {
      price = a.price_column;
      quantity = laws.column_IsColumn 3 q _ (omega arith) eq;
      discount = laws.column_IsColumn 2 d _ (omega arith) ed;
      total = laws.column_IsColumn 2 t _ (omega arith) et;
    };
    priced = cc (
      a.priced,
      laws.column_exact 3 q q' (omega arith) a.quantity_column eq,
      laws.column_exact 2 d d' (omega arith) a.discount_column ed,
      laws.column_exact 2 t t' (omega arith) a.total_column et,
    );
  }

  -- An insertion that succeeds appends the row.
  insert_item_ok :
      (item : SaleItem) (db : Db) {row : SaleItem} {db' : Db}
      → insert_item {S = Sentinel} (to_store_scope actor) item db ≡ ok (row, db')
      → record db { sale_items = db.sale_items ++ item ∷ [] } ≡ db'
  unfolding insert_item
  insert_item_ok item db e =
      elim (Option-cases (find (λ (i : SaleItem). i.id == item.id) db.sale_items)) [
        | inr (i, taken) ↦ cc (rw (taken, insert_item) at e)
        | inl free ↦
            elim (Option-cases
              (find (sale_at actor.organization_id actor.store_id item.sale_id) db.sales)) [
                | inl missing ↦ cc (rw (free, missing, insert_item) at e)
                | inr (s, there) ↦
                    elim (Option-cases (
                      find
                        (λ (p : Product).
                          p.organization_id == actor.organization_id && p.id == item.product_id)
                        db.products)) [
                          | inl missing ↦ cc (rw (free, there, missing, insert_item) at e)
                          | inr (p, known) ↦ (ok_pair (rw (free, there, known, insert_item) at e)).1
                        ]
              ]
      ]

  in_sale :
      (item : SaleItem)
      → item.organization_id ≡ actor.organization_id
      → item.store_id ≡ actor.store_id
      → item.sale_id ≡ id
      → item_of actor.organization_id actor.store_id id item ≡ true
  in_sale item eo es ei = ground (arith, eo, es, ei)

  -- The row of a new item is priced, and belongs to the sale.
  stored_item_ok :
      (n : NewItem) (db : Db) (item : SaleItem)
      → n.sale_id ≡ id
      → ArePriced n.unit_price n.quantity n.discount n.total
      → stored_item {S = Sentinel} env (to_store_scope actor) n db ≡ ok item
      → IsPriced item × (item_of actor.organization_id actor.store_id id item ≡ true)
  unfolding stored_item
  stored_item_ok n db item same a e =
      let (u, eu, e1) = overflow_step (env.column 2 n.unit_price) _ e in
      let (q, eq, e2) = overflow_step (env.column 3 n.quantity) _ e1 in
      let (d, ed, e3) = overflow_step (env.column 2 n.discount) _ e2 in
      let (t, et, e4) = overflow_step (env.column 2 n.total) _ e3 in
      subst
        (λ (i : SaleItem). IsPriced i × (item_of actor.organization_id actor.store_id id i ≡ true))
        (ok_injective e4)
        (
          stored-ArePriced (item_row env (to_store_scope actor) n db u q d t) n.unit_price
              n.quantity n.discount n.total a eu eq ed et,
          in_sale (item_row env (to_store_scope actor) n db u q d t) refl refl same,
        )

  pub create_item_ensures :
      (n : NewItem)
      → n.sale_id ≡ id
      → ArePriced n.unit_price n.quantity n.discount n.total
      → Ensures Pending
          (create_sale_item_for_store {S = Sentinel} env (to_store_scope actor) n)
          (λ _ db. Pending db)
  unfolding create_sale_item_for_store
  create_item_ensures n same a = Ensures-statement _ _ env _ _ λ db p row db' e.
      let (item, stored, inserted) =
        >>=-eq-ok (stored_item {S = Sentinel} env (to_store_scope actor) n db)
          (λ item. insert_item (to_store_scope actor) item db) e in
      let (priced, mine) = stored_item_ok n db item same a stored in
      subst Pending (insert_item_ok item db inserted) (
        items_changed actor.organization_id actor.store_id id db (db.sale_items ++ item ∷ [])
          (λ o s i apart.
            select-append_out (item_of o s i) db.sale_items item
              (other_items _ _ id o s i apart item mine))
          (All-append IsPriced db.sale_items (item ∷ []) p.others.items (priced, tt)) p)

  -- The item that a statement at its keys finds.
  abbrev pub Found : Uuid → SaleItem → Db → Type 0
  Found item_id item db =
      Pending db
      × (find (item_at actor.organization_id actor.store_id id item_id) db.sale_items ≡ some item)

  at_mine :
      (item_id : Uuid) (x : SaleItem)
      → item_at actor.organization_id actor.store_id id item_id x ≡ true
      → item_of actor.organization_id actor.store_id id x ≡ true
  at_mine item_id x h = ground arith

  updated_item_ok :
      (item_id : Uuid) (f : SaleItem → SaleItem) (item : SaleItem) (db : Db)
      → ((x : SaleItem) (o s i : Uuid) → item_of o s i (f x) ≡ item_of o s i x)
      → Found item_id item db
      → IsPriced (f item)
      → Pending (record db {
        sale_items =
            replace (item_at actor.organization_id actor.store_id id item_id) f db.sale_items;
      })
  updated_item_ok item_id f item db same (p, found) priced =
      items_changed actor.organization_id actor.store_id id db _
        (λ o s i apart.
          select-replace_out (item_at actor.organization_id actor.store_id id item_id)
            (item_of o s i) (λ x k. other_items _ _ id o s i apart x (at_mine item_id x k)) f
            (λ x k. same x o s i ∙ other_items _ _ id o s i apart x (at_mine item_id x k))
            db.sale_items)
        (All-replace IsPriced _ f db.sale_items found priced p.others.items) p

  pub update_item_ensures :
      (item_id : Uuid) (item : SaleItem) (q d t : Numeric)
      → ArePriced item.unit_price q d t
      → Ensures
          (Found item_id item)
          (update_sale_item_for_store {S = Sentinel} env (to_store_scope actor) id item_id q d t)
          (λ _ db. Pending db)
  unfolding update_sale_item_for_store
  update_item_ensures item_id item q d t a =
      Ensures-statement _ _ env _ _ λ db (p, found) row db' e.
        let (q', eq, e1) = overflow_step (env.column 3 q) _ e in
        let (d', ed, e2) = overflow_step (env.column 2 d) _ e1 in
        let (t', et, e3) = overflow_step (env.column 2 t) _ e2 in
        subst Pending (ok_pair (rw found at e3)).1 (
          updated_item_ok item_id _ item db (λ x o s i. refl) (p, found)
            (repriced item q d t q' d' t' a eq ed et))

  pub delete_item_ensures :
      (item_id : Uuid)
      → Ensures Pending
          (delete_sale_item_for_store {S = Sentinel} env (to_store_scope actor) id item_id)
          (λ _ db. Pending db)
  unfolding delete_sale_item_for_store
  delete_item_ensures item_id = Ensures-statement _ _ env _ _ λ db p row db' e.
      elim (Option-cases
        (find (item_at actor.organization_id actor.store_id id item_id) db.sale_items)) [
          | inl missing ↦ cc (rw missing at e)
          | inr (i, found) ↦ subst Pending (ok_pair (rw found at e)).1 (
              items_changed actor.organization_id actor.store_id id db _
                (λ o s i apart.
                  select-remove_out (item_at actor.organization_id actor.store_id id item_id)
                    (item_of o s i) (λ x k. other_items _ _ id o s i apart x (at_mine item_id x k))
                    db.sale_items)
                (All-remove IsPriced _ db.sale_items p.others.items) p)
        ]
