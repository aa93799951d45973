-- ===== src/Sales/Service/Lifecycle.antt =====
-- Create and Cancel keep the database consistent.
use mathlib.Core.Path.{subst}
use pdv.Base.{
  ◌≡◌, Bool, refl, ◌∙◌, ap, true, not, ◌==◌, none, some, List, [], ◌∷◌, ◌++◌, sym, ok, inl, inr,
  Option-cases, Bool-cases, some_injective, if◌then◌else◌,
}
use pdv.Errors.{Text, codes}
use pdv.Money.{Numeric, zero_money}
use pdv.Money.Columns.{amount, IsColumn}
use pdv.Database.Rows.{Uuid, Sale, SaleItem, SaleStatus, opened, completed, cancelled, Counter}
use pdv.Database.Tables.{find}
use pdv.Database.Lookup.{find_holds, find-append_some, find-append_none}
use pdv.Database.Store.{Db, Environment}
use pdv.Database.Ensures.{
  Ensures, Ensures-bind, Ensures-lift, Ensures-given, Ensures-on_error, Ensures-statement,
  overflow_step, ok_pair, with_tx_keeps, lift_keeps,
}
use pdv.Database.Laws.{NumericLaws}
use pdv.Database.Sales.{
  is_open, is_cancelled, sale_at, items_of_sale, sale_by_key, create_sale_for_store, insert_sale,
  new_sale, allocate_number, cancel_sale_for_store, complete_sale_for_store, update_sale,
  list_sale_items_by_sale_id,
}
use pdv.Sales.Errors.{Sentinel}
use pdv.Sales.Spec.{TotalsMatch}
use pdv.Sales.Consistency.{IsConsistent}
use pdv.Sales.Input.{normalize_required_text, parse_uuid}
use pdv.Sales.Service.{
  StoreActor, to_store_scope, to_actor_scope, cancellable, create_tx, create, cancel_tx, cancel,
}
use pdv.Sales.Service.Recalculation.{stored_totals, header_updated, none_not_some}
use pdv.Sales.Service.Recalculate.{update_sale_ok, and_left, and_both}
use pdv.Sales.Service.Keeps.{Locked, lock_ensures}

-- A row whose header matches no items, behind those that are there.
module _ (db : Db) (row : Sale) (counters : List Counter) (empty : TotalsMatch [] row)
    (c : IsConsistent db) where
  after : Db
  after = record db { sales = db.sales ++ row ∷ []; sale_number_counters = counters }

  appended_header :
      (o s i : Uuid) (sale : Sale)
      → find (sale_at o s i) (db.sales ++ row ∷ []) ≡ some sale
      → TotalsMatch (items_of_sale o s i db.sale_items) sale
  appended_header o s i sale found = elim (Option-cases (find (sale_at o s i) db.sales)) [
    | inr (old, there) ↦ c.headers o s i sale refl (
        there
        ∙ ap some
            (some_injective (sym (find-append_some (sale_at o s i) db.sales row there) ∙ found)))
    | inl missing ↦
        let last : (if sale_at o s i row then some row else none) ≡ some sale =
          sym (find-append_none (sale_at o s i) db.sales row missing) ∙ found in
        elim (Bool-cases (sale_at o s i row)) [
          | inr away ↦ absurd (none_not_some (rw away at last))
          | inl here ↦
              subst (TotalsMatch (items_of_sale o s i db.sale_items))
                (some_injective (rw here at last))
                (subst (λ l. TotalsMatch l row) (sym (c.owned o s i refl missing)) empty)
        ]
  ]

  appended_owner :
      (o s i : Uuid)
      → find (sale_at o s i) (db.sales ++ row ∷ []) ≡ none
      → items_of_sale o s i db.sale_items ≡ []
  appended_owner o s i missing = elim (Option-cases (find (sale_at o s i) db.sales)) [
    | inl gone ↦ c.owned o s i refl gone
    | inr (old, there) ↦
        absurd (none_not_some (sym missing ∙ find-append_some (sale_at o s i) db.sales row there))
  ]

  appended-IsConsistent : IsConsistent after
  unfolding after
  appended-IsConsistent = record {
    prices = c.prices;
    items = c.items;
    headers = λ o s i sale _ found. appended_header o s i sale found;
    owned = λ o s i _ missing. appended_owner o s i missing;
  }

-- The amounts alone matter.
same_amounts :
    (items : List SaleItem) (s t : Sale)
    → s.subtotal ≡ t.subtotal
    → s.discount ≡ t.discount
    → s.addition ≡ t.addition
    → s.total ≡ t.total
    → TotalsMatch items s
    → TotalsMatch items t
same_amounts items s t es ed ea et m = record {
  subtotal_column = subst (IsColumn 2) es m.subtotal_column;
  discount_column = subst (IsColumn 2) ed m.discount_column;
  addition_column = subst (IsColumn 2) ea m.addition_column;
  total_column = subst (IsColumn 2) et m.total_column;
  subtotal = ap (amount 2) (sym es) ∙ m.subtotal;
  discount = ap (amount 2) (sym ed) ∙ m.discount;
  addition = ap (amount 2) (sym ea) ∙ m.addition;
  total = ap (amount 2) (sym et) ∙ m.total;
}

pub cancellable-open :
    (status : SaleStatus) {u : Unit} → cancellable status ≡ ok u → is_open status ≡ true
unfolding cancellable
cancellable-open opened h = refl
cancellable-open completed h = cc
cancellable-open cancelled h = cc

pub open_not_cancelled :
    (status : SaleStatus) → is_open status ≡ true → not (is_cancelled status) ≡ true
open_not_cancelled opened h = refl
open_not_cancelled completed h = cc
open_not_cancelled cancelled h = cc

module _ (env : Environment) (laws : NumericLaws env) (actor : StoreActor) where
  insert_sale-IsConsistent :
      (key : Text) (zero : Numeric) (db : Db) {row : Sale} {db' : Db}
      → env.column 2 zero_money ≡ some zero
      → IsConsistent db
      → insert_sale {S = Sentinel} env (to_actor_scope actor) key zero db ≡ ok (row, db')
      → IsConsistent db'
  unfolding insert_sale after new_sale
  insert_sale-IsConsistent key zero db written c e =
      elim (Option-cases (find (λ (s : Sale). s.id == env.new_id db) db.sales)) [
        | inr (s, taken) ↦ cc (rw (taken, insert_sale) at e)
        | inl free ↦ subst IsConsistent (ok_pair (rw (free, insert_sale) at e)).1 (
            appended-IsConsistent db
              (new_sale env (to_actor_scope actor) key
                (allocate_number (to_actor_scope actor) db.sale_number_counters).0 zero db)
              (allocate_number (to_actor_scope actor) db.sale_number_counters).1
              (stored_totals env laws [] _ written written written written) c)
      ]

  create_sale_ensures :
      (key : Text)
      → Ensures IsConsistent
          (create_sale_for_store {S = Sentinel} env (to_actor_scope actor) key)
          (λ _ db. IsConsistent db)
  unfolding create_sale_for_store
  create_sale_ensures key = Ensures-statement _ _ env _ _ λ db c row db' e.
      elim (Option-cases (find (sale_by_key (to_actor_scope actor) key) db.sales)) [
        | inr (sale, known) ↦ subst IsConsistent (ok_pair (rw known at e)).1 c
        | inl unknown ↦
            let (zero, written, e1) =
              overflow_step (env.column 2 zero_money)
                (λ zero. insert_sale {S = Sentinel} env (to_actor_scope actor) key zero db)
                (rw unknown at e) in
            insert_sale-IsConsistent key zero db written c e1
      ]

  list_keeps :
      (id : Uuid)
      → Ensures IsConsistent
          (list_sale_items_by_sale_id {S = Sentinel} env (to_store_scope actor) id)
          (λ _ db. IsConsistent db)
  unfolding list_sale_items_by_sale_id
  list_keeps id =
      Ensures-statement _ _ env _ _ λ db c items db' e. subst IsConsistent (ok_pair e).1 c

  create_tx_ensures :
      (key : Text) → Ensures IsConsistent (create_tx env actor key) (λ _ db. IsConsistent db)
  unfolding create_tx
  create_tx_ensures key =
      Ensures-bind IsConsistent (λ _ db. IsConsistent db) _ _ _
        (Ensures-on_error _ _ _ _ (create_sale_ensures key))
        λ sale.
          Ensures-bind IsConsistent (λ _ db. IsConsistent db) _ _ _
            (Ensures-on_error _ _ _ _ (list_keeps sale.id))
            λ items. Ensures-lift _ _ _ λ response db e c. c

  -- A change of the status that leaves the amounts as they are.
  restamped_ensures :
      (id : Uuid) (sale : Sale) (allowed : Sale → Bool) (f : Sale → Sale) (db : Db) {S : Type 0}
      {row : Sale} {db' : Db}
      → ((items : List SaleItem) (s : Sale) → TotalsMatch items s → TotalsMatch items (f s))
      → ((o t i : Uuid) (s : Sale) → sale_at o t i (f s) ≡ sale_at o t i s)
      → allowed sale ≡ true
      → Locked env laws actor id sale db
      → update_sale {S = S} actor.organization_id actor.store_id id allowed f db ≡ ok (row, db')
      → IsConsistent db'
  restamped_ensures id sale allowed f db same keys may (c, found) e =
      subst IsConsistent (update_sale_ok actor.organization_id actor.store_id id allowed f db e) (
        header_updated actor.organization_id actor.store_id id db f _ sale (λ o t i x. keys o t i x)
          (λ x k. and_left (sale_at actor.organization_id actor.store_id id x) _ k) found
          (and_both _ _
            (find_holds (sale_at actor.organization_id actor.store_id id) db.sales found) may)
          (same _ sale (c.headers actor.organization_id actor.store_id id sale refl found))
          (record {
            prices = c.prices;
            items = c.items;
            headers = λ o s i x _ there. c.headers o s i x refl there;
            owned = λ o s i _ missing. c.owned o s i refl missing;
          }))

  cancel_sale_ensures :
      (id : Uuid) (sale : Sale)
      → is_open sale.status ≡ true
      → Ensures
          (λ db. Locked env laws actor id sale db)
          (cancel_sale_for_store {S = Sentinel} env (to_actor_scope actor) id)
          (λ _ db. IsConsistent db)
  unfolding cancel_sale_for_store
  cancel_sale_ensures id sale is = Ensures-statement _ _ env _ _ λ db l row db' e.
      restamped_ensures id sale (λ s. not (is_cancelled s.status)) _ db
        (λ items s m. same_amounts items s _ refl refl refl refl m) (λ o t i s. refl)
        (open_not_cancelled sale.status is) l e

  -- The completion of a sale that is open.
  pub complete_sale_ensures :
      {S : Type 0} (id : Uuid) (sale : Sale)
      → is_open sale.status ≡ true
      → Ensures
          (λ db. Locked env laws actor id sale db)
          (complete_sale_for_store {S = S} env (to_actor_scope actor) id)
          (λ _ db. IsConsistent db)
  unfolding complete_sale_for_store
  complete_sale_ensures id sale is = Ensures-statement _ _ env _ _ λ db l row db' e.
      restamped_ensures id sale (λ s. is_open s.status) _ db
        (λ items s m. same_amounts items s _ refl refl refl refl m) (λ o t i s. refl) is l e

  cancel_tx_ensures :
      (id : Uuid) → Ensures IsConsistent (cancel_tx env actor id) (λ _ db. IsConsistent db)
  unfolding cancel_tx
  cancel_tx_ensures id =
      Ensures-bind IsConsistent (λ sale db. Locked env laws actor id sale db) _ _ _
        (Ensures-on_error _ _ _ _ (lock_ensures env laws actor id))
        λ sale.
          Ensures-bind (λ db. Locked env laws actor id sale db)
            (λ _ db. Locked env laws actor id sale db × (is_open sale.status ≡ true)) _ _ _
            (Ensures-lift _ _ _ λ u db e l. (l, cancellable-open sale.status e))
            λ _.
              Ensures-given (λ db. Locked env laws actor id sale db) _ _
                λ is.
                  Ensures-bind (λ db. Locked env laws actor id sale db) (λ _ db. IsConsistent db) _
                    _ _ (Ensures-on_error _ _ _ _ (cancel_sale_ensures id sale is))
                    λ row.
                      Ensures-bind IsConsistent (λ _ db. IsConsistent db) _ _ _
                        (Ensures-on_error _ _ _ _ (list_keeps id))
                        λ items. Ensures-lift _ _ _ λ response db e c. c

-- Create keeps every item priced and every header the sum of its items, whether the key is
-- refused, known or new, and also when a statement or the commit fails, where the environment
-- keeps the laws on numbers and the database was so before. The environment keeps the laws on
-- numbers, and the database was consistent before: every item priced as its rounded product less
-- its discount, every header the sum of its items.
pub create-IsConsistent :
    (env : Environment) (laws : NumericLaws env) (actor : StoreActor) (key : Text) (db : Db)
    → IsConsistent db
    → IsConsistent (create env actor key db).1
unfolding create
create-IsConsistent env laws actor key db c =
    lift_keeps IsConsistent (normalize_required_text (codes "idempotencyKey") key) _ db c
      λ trimmed _.
        with_tx_keeps env (create_tx env actor trimmed) db IsConsistent
          (create_tx_ensures env laws actor trimmed) c

-- Cancel keeps every item priced and every header the sum of its items, on success and on every
-- failure, where the environment keeps the laws on numbers and the database was so before. The
-- environment keeps the laws on numbers, and the database was consistent before: every item priced
-- as its rounded product less its discount, every header the sum of its items.
pub cancel-IsConsistent :
    (env : Environment) (laws : NumericLaws env) (actor : StoreActor) (id : Text) (db : Db)
    → IsConsistent db
    → IsConsistent (cancel env actor id db).1
unfolding cancel
cancel-IsConsistent env laws actor id db c =
    lift_keeps IsConsistent (parse_uuid env id (codes "id")) _ db c λ sale_id _.
      with_tx_keeps env (cancel_tx env actor sale_id) db IsConsistent
        (cancel_tx_ensures env laws actor sale_id) c
