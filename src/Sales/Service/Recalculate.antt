-- ===== src/Sales/Service/Recalculate.antt =====
-- `recalculate` takes a pending sale to a consistent database.
use pdv.Base.{
  ◌≡◌, refl, Bool, true, false, ◌&&◌, some, List, [], ◌∷◌, sym, All, ok, inl, inr, Option-cases,
  map_err,
}
use mathlib.Core.Path.{subst}
use pdv.Errors.{wrap}
use pdv.Money.{Numeric, zero_money, numeric_from_scaled_int}
use pdv.Database.Rows.{Uuid, Sale, SaleItem}
use pdv.Database.Tables.{find, replace}
use pdv.Database.Lookup.{find_holds, All-order_by, All-select}
use pdv.Database.Store.{Db, Environment, lift}
use pdv.Database.Ensures.{
  Ensures, Ensures-known, Ensures-bind, Ensures-lift, Ensures-on_error, Ensures-statement,
  overflow_step, ok_pair,
}
use pdv.Database.Laws.{NumericLaws}
use pdv.Database.Sales.{
  is_open, sale_at, item_of, item_before, items_of_sale, list_sale_items_by_sale_id,
  recalculate_sale_totals_for_store, update_sale,
}
use pdv.Sales.Errors.{Sentinel}
use pdv.Sales.Money.{sum_sale_totals}
use pdv.Sales.Spec.{gross, discount_of, total_of, sum_of, HasColumns, IsPriced, TotalsMatch}
use pdv.Sales.Totals.{sum_sale_totals-columns}
use pdv.Sales.Consistency.{IsConsistent, IsPending}
use pdv.Sales.Service.{StoreActor, to_store_scope, write_totals, recalculate}
use pdv.Sales.Service.Recalculation.{stored_totals, header_updated}

pub All-IsPriced-columns : (items : List SaleItem) → All IsPriced items → All HasColumns items
All-IsPriced-columns [] h = tt
All-IsPriced-columns (i ∷ items) h = (h.0.columns, All-IsPriced-columns items h.1)

pub items_of_sale-All :
    (P : SaleItem → Type 0) (o t i : Uuid) (items : List SaleItem)
    → All P items
    → All P (items_of_sale o t i items)
unfolding items_of_sale
items_of_sale-All P o t i items h =
    All-order_by P item_before _ (All-select P (item_of o t i) items h)

pub and_left : (a b : Bool) → (a && b) ≡ true → a ≡ true
and_left true b h = refl
and_left false b h = cc

pub and_both : (a b : Bool) → a ≡ true → b ≡ true → (a && b) ≡ true
and_both a b h k = rw (h, k)

-- A success of an UPDATE of sales has replaced the row.
pub update_sale_ok :
    {S : Type 0} (org store id : Uuid) (allowed : Sale → Bool) (f : Sale → Sale) (db : Db)
    {row : Sale} {db' : Db}
    → update_sale {S = S} org store id allowed f db ≡ ok (row, db')
    → record db { sales = replace (λ s. sale_at org store id s && allowed s) f db.sales } ≡ db'
unfolding update_sale
update_sale_ok org store id allowed f db e =
    elim (Option-cases (find (λ (s : Sale). sale_at org store id s && allowed s) db.sales)) [
      | inl missing ↦ cc (rw (missing, update_sale) at e)
      | inr (s, found) ↦ (ok_pair (rw (found, update_sale) at e)).1
    ]

module _ (env : Environment) (laws : NumericLaws env) (actor : StoreActor) (id : Uuid) where
  abbrev Pending : Db → Type 0
  Pending = IsPending actor.organization_id actor.store_id id

  -- The items that the statement lists are those of the database it leaves alone.
  list_items_ensures :
      Ensures Pending
        (list_sale_items_by_sale_id {S = Sentinel} env (to_store_scope actor) id)
        (λ items db.
          Pending db
          × (items ≡ items_of_sale actor.organization_id actor.store_id id db.sale_items))
  unfolding list_sale_items_by_sale_id
  list_items_ensures = Ensures-statement _ _ env _ _ λ db p items db' e.
      let (eitems, edb) = ok_pair e in
      subst
        (λ (d : Db).
          Pending d × (items ≡ items_of_sale actor.organization_id actor.store_id id d.sale_items))
        edb (p, sym eitems)

  sums_written :
      (items : List SaleItem) (db : Db)
      → Pending db
      → items ≡ items_of_sale actor.organization_id actor.store_id id db.sale_items
      → (a b c d : Numeric) → env.column 2 (numeric_from_scaled_int (sum_of gross items) 2) ≡ some a
      → env.column 2 (numeric_from_scaled_int (sum_of discount_of items) 2) ≡ some b
      → env.column 2 zero_money ≡ some c
      → env.column 2 (numeric_from_scaled_int (sum_of total_of items) 2) ≡ some d
      → (row : Sale) (db' : Db)
      → update_sale {S = Sentinel} actor.organization_id actor.store_id id
          (λ s. is_open s.status)
          (λ s. record s {
            subtotal = a;
            discount = b;
            addition = c;
            total = d;
            updated_at = env.now db;
          })
          db
        ≡ ok (row, db')
      → IsConsistent db'
  sums_written items db p eitems a b c d ea eb ec ed row db' e =
      let f : Sale → Sale = λ s. record s {
        subtotal = a;
        discount = b;
        addition = c;
        total = d;
        updated_at = env.now db;
      } in
      subst IsConsistent (update_sale_ok _ _ id _ f db e) (
        header_updated actor.organization_id actor.store_id id db f _ p.header (λ o t i x. refl)
          (λ x k. and_left (sale_at actor.organization_id actor.store_id id x) _ k) p.present
          (and_both _ _
            (find_holds (sale_at actor.organization_id actor.store_id id) db.sales p.present)
            p.unfinished)
          (subst (λ l. TotalsMatch l (f p.header)) eitems
            (stored_totals env laws items (f p.header) ea eb ec ed))
          p.others)

  -- The statement that writes the sums of the items of the sale.
  write_sums :
      (items : List SaleItem)
      → Ensures
          (λ db.
            Pending db
            × (items ≡ items_of_sale actor.organization_id actor.store_id id db.sale_items))
          (recalculate_sale_totals_for_store {S = Sentinel} env
            (to_store_scope actor)
            id
            (numeric_from_scaled_int (sum_of gross items) 2)
            (numeric_from_scaled_int (sum_of discount_of items) 2)
            zero_money
            (numeric_from_scaled_int (sum_of total_of items) 2))
          (λ _ db. IsConsistent db)
  unfolding recalculate_sale_totals_for_store
  write_sums items = Ensures-statement _ _ env _ _ λ db (p, eitems) row db' e.
      let (a, ea, e1) =
        overflow_step (env.column 2 (numeric_from_scaled_int (sum_of gross items) 2)) _ e in
      let (b, eb, e2) =
        overflow_step (env.column 2 (numeric_from_scaled_int (sum_of discount_of items) 2)) _ e1 in
      let (c, ec, e3) = overflow_step (env.column 2 zero_money) _ e2 in
      let (d, ed, e4) =
        overflow_step (env.column 2 (numeric_from_scaled_int (sum_of total_of items) 2)) _ e3 in
      sums_written items db p eitems a b c d ea eb ec ed row db' e4

  abbrev Listed : List SaleItem → Db → Type 0
  Listed items db =
      Pending db × (items ≡ items_of_sale actor.organization_id actor.store_id id db.sale_items)

  Listed-columns : (items : List SaleItem) (db : Db) → Listed items db → All HasColumns items
  Listed-columns items db (p, e) =
      subst (All HasColumns) (sym e)
        (All-IsPriced-columns _ (items_of_sale-All IsPriced _ _ id db.sale_items p.others.items))

  abbrev sums : List SaleItem → Numeric × Numeric × Numeric
  sums items = (
    numeric_from_scaled_int (sum_of gross items) 2,
    numeric_from_scaled_int (sum_of discount_of items) 2,
    numeric_from_scaled_int (sum_of total_of items) 2,
  )

  sum_ensures :
      (items : List SaleItem)
      → Ensures
          (Listed items)
          (lift (map_err (wrap "recalculate sale totals") (sum_sale_totals items)))
          (λ s db. Listed items db × (s ≡ sums items))
  sum_ensures items =
      Ensures-lift _ _ _
        λ s db e p. (p, cc (e, sum_sale_totals-columns items (Listed-columns items db p)))

  write_totals_ensures :
      (items : List SaleItem)
      → Ensures
          (Listed items)
          (write_totals env actor id items (sums items))
          (λ _ db. IsConsistent db)
  unfolding write_totals
  write_totals_ensures items =
      Ensures-bind (Listed items) (λ _ db. IsConsistent db) _ _ _
        (Ensures-on_error _ _ _ _ (write_sums items)) λ row. Ensures-lift _ _ _ λ response db e c. c

  -- From a pending sale a recalculation that succeeds ends with every header right.
  pub recalculate_ensures : Ensures Pending (recalculate env actor id) (λ _ db. IsConsistent db)
  unfolding recalculate
  recalculate_ensures =
      Ensures-bind Pending Listed _ _ _ (Ensures-on_error _ _ _ _ list_items_ensures) λ items.
        Ensures-bind (Listed items) (λ s db. Listed items db × (s ≡ sums items)) _ _ _
          (sum_ensures items)
          λ s.
            Ensures-known (Listed items) _ (λ s. write_totals env actor id items s) (sums items) s
              (write_totals_ensures items)
