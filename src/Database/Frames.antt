-- ===== src/Database/Frames.antt =====
-- What a statement leaves alone: a predicate that does not look at the table that the statement writes
-- holds behind it. And what a request keeps whether it succeeds or fails.
use mathlib.Core.Path.{subst}
use pdv.Base.{
  ◌≡◌, ◌&&◌, Bool, ap, List, Option, none, some, Result, ok, err, inl, inr, Option-cases,
  Bool-cases, >>=-eq-ok, ◌==◌,
}
use pdv.Errors.{Text, Error}
use pdv.Money.{Numeric}
use pdv.Database.Rows.{
  Uuid, StoreScope, ActorScope, Sale, Inventory, InventoryMovement, Payment, FiscalDocument,
  FiscalDocumentStatus,
}
use pdv.Database.Tables.{find}
use pdv.Database.Store
use pdv.Database.Store.{Db, Environment, Action, lift, on_error, with_tx}
use pdv.Database.Ensures.{
  Ensures, Ensures-statement, overflow_step, ok_pair, one_row_ok, with_tx_keeps,
}
use pdv.Database.Sales.{
  sale_at, is_open, lock_sale_by_id, list_sale_items_by_sale_id, update_sale,
  complete_sale_for_store,
}
use pdv.Database.Inventory.{
  stock_at, sql_zero, take_off, decrease_inventory, same_reference, insert_movement, NewMovement,
  create_inventory_movement,
}
use pdv.Database.Payments.{
  NewPayment, payment_by_key, binding_of, active_method, payment_row, nullable_column,
  store_payment, insert_payment, create_payment_for_store, approve_payment_for_store, payment_at,
  is_pending,
}
use pdv.Database.Fiscal.{
  Authorization, document_of, document_at, document_row, insert_document,
  create_fiscal_document_for_store, update_document, mark_fiscal_document_authorized,
  mark_fiscal_document_error,
}

module _ {S : Type 0} (P : Db → Type 0) (env : Environment) where
  -- Reads.
  pub lock_sale_frame :
      (scope : StoreScope) (id : Uuid) → Ensures P (lock_sale_by_id {S = S} env scope id) (λ _. P)
  unfolding lock_sale_by_id
  lock_sale_frame scope id =
      Ensures-statement _ _ env _ _ λ db p a db' e. subst P (one_row_ok db _ e).1 p

  pub list_items_frame :
      (scope : StoreScope) (id : Uuid)
      → Ensures P (list_sale_items_by_sale_id {S = S} env scope id) (λ _. P)
  unfolding list_sale_items_by_sale_id
  list_items_frame scope id = Ensures-statement _ _ env _ _ λ db p a db' e. subst P (ok_pair e).1 p

  pub complete_sale_frame :
      ((db : Db) (rows : List Sale) → P db → P (record db { sales = rows }))
      → (scope : ActorScope) (id : Uuid)
      → Ensures P (complete_sale_for_store {S = S} env scope id) (λ _. P)
  unfolding complete_sale_for_store update_sale
  complete_sale_frame blind scope id = Ensures-statement _ _ env _ _ λ db p a db' e.
      elim (Option-cases (
        find (λ (s : Sale). sale_at scope.organization_id scope.store_id id s && is_open s.status)
          db.sales)) [
            | inl missing ↦ cc (rw (missing, update_sale) at e)
            | inr (s, found) ↦ subst P (ok_pair (rw (found, update_sale) at e)).1 (blind db _ p)
          ]

  pub decrease_frame :
      ((db : Db) (rows : List Inventory) → P db → P (record db { inventory = rows }))
      → (scope : StoreScope) (product : Uuid) (quantity : Numeric)
      → Ensures P (decrease_inventory {S = S} env scope product quantity) (λ _. P)
  unfolding decrease_inventory take_off
  decrease_frame blind scope product quantity = Ensures-statement _ _ env _ _ λ db p a db' e.
      elim (Bool-cases (env.less_numeric sql_zero quantity)) [
        | inr nothing ↦ cc (rw nothing at e)
        | inl something ↦
            elim (Option-cases
              (find (stock_at scope.organization_id scope.store_id product) db.inventory)) [
                | inl missing ↦ cc (rw (something, missing) at e)
                | inr (r, found) ↦ elim (Bool-cases (env.less_numeric r.quantity quantity)) [
                  | inl short ↦ cc (rw (something, found, short) at e)
                  | inr enough ↦
                      let (current, ec, e1) =
                        overflow_step (env.column 3 (env.subtract_numeric r.quantity quantity)) _
                          (rw (something, found, enough) at e) in
                      let (previous, ep, e2) =
                        overflow_step (env.column 3 (env.add_numeric current quantity)) _ e1 in
                      subst P (ok_pair e2).1 (blind db _ p)
                ]
              ]
      ]

  pub create_movement_frame :
      ((db : Db) (rows : List InventoryMovement)
        → P db
        → P (record db { inventory_movements = rows }))
      → (scope : ActorScope) (n : NewMovement)
      → Ensures P (create_inventory_movement {S = S} env scope n) (λ _. P)
  unfolding create_inventory_movement insert_movement
  create_movement_frame blind scope n = Ensures-statement _ _ env _ _ λ db p a db' e.
      elim (Option-cases (find (same_reference scope n) db.inventory_movements)) [
        | inr (k, taken) ↦ cc (rw taken at e)
        | inl fresh ↦
            let (quantity, eq, e1) = overflow_step (env.column 3 n.quantity) _ (rw fresh at e) in
            let (previous, ep, e2) = overflow_step (env.column 3 n.previous_quantity) _ e1 in
            let (current, ec, e3) = overflow_step (env.column 3 n.current_quantity) _ e2 in
            subst P (ok_pair e3).1 (blind db _ p)
      ]

  module _
      (blind : (db : Db) (rows : List Payment) → P db → P (record db { payments = rows })) where
    store_payment_frame :
        (scope : ActorScope) (row : Payment) (db : Db) (a : Payment) (db' : Db)
        → P db
        → store_payment {S = S} scope row db ≡ ok (a, db')
        → P db'
    unfolding store_payment
    store_payment_frame scope row db a db' p e =
        elim (Option-cases
          (find (sale_at scope.organization_id scope.store_id row.sale_id) db.sales)) [
            | inl missing ↦ cc (rw (missing, store_payment) at e)
            | inr (s, there) ↦
                elim (Option-cases (find (λ (q : Payment). q.id == row.id) db.payments)) [
                  | inr (q, taken) ↦ cc (rw (there, taken, store_payment) at e)
                  | inl free ↦
                      subst P (ok_pair (rw (there, free, store_payment) at e)).1 (blind db _ p)
                ]
          ]

    insert_payment_frame :
        (scope : ActorScope) (n : NewPayment) (db : Db) (a : Payment) (db' : Db)
        → P db
        → insert_payment {S = S} env scope n db ≡ ok (a, db')
        → P db'
    unfolding insert_payment
    insert_payment_frame scope n db a db' p e =
        let (amount, ea, e1) = overflow_step (env.column 2 n.amount) _ e in
        let (received, er, e2) = >>=-eq-ok (nullable_column {S = S} env n.received_amount) _ e1 in
        let (change, ec, e3) = >>=-eq-ok (nullable_column {S = S} env n.change_amount) _ e2 in
        store_payment_frame scope (payment_row env scope n db amount received change) db a db' p e3

    pub create_payment_frame :
        (scope : ActorScope) (n : NewPayment)
        → Ensures P (create_payment_for_store {S = S} env scope n) (λ _. P)
    unfolding create_payment_for_store
    create_payment_frame scope n = Ensures-statement _ _ env _ _ λ db p a db' e.
        elim (Option-cases (find (payment_by_key scope n.idempotency_key) db.payments)) [
          | inr (q, known) ↦ subst P (ok_pair (rw known at e)).1 p
          | inl unknown ↦
              elim (Option-cases
                (find (binding_of scope n.payment_method_id) db.store_payment_methods)) [
                  | inl unbound ↦ cc (rw (unknown, unbound) at e)
                  | inr (b, bound) ↦
                      elim (Option-cases
                        (find (active_method scope n.payment_method_id) db.payment_methods)) [
                          | inl inactive ↦ cc (rw (unknown, bound, inactive) at e)
                          | inr (m, active) ↦
                              insert_payment_frame scope n db a db' p
                                (rw (unknown, bound, active) at e)
                        ]
                ]
        ]

    pub approve_payment_frame :
        (scope : StoreScope) (id : Uuid) (r c : Numeric)
        → Ensures P (approve_payment_for_store {S = S} env scope id r c) (λ _. P)
    unfolding approve_payment_for_store
    approve_payment_frame scope id r c = Ensures-statement _ _ env _ _ λ db p a db' e.
        let (received, er, e1) = >>=-eq-ok (nullable_column {S = S} env r) _ e in
        let (change, ec, e2) = >>=-eq-ok (nullable_column {S = S} env c) _ e1 in
        elim (Option-cases
          (find (λ (q : Payment). payment_at scope id q && is_pending q.status) db.payments)) [
            | inl missing ↦ cc (rw missing at e2)
            | inr (q, found) ↦ subst P (ok_pair (rw found at e2)).1 (blind db _ p)
          ]

  module _
      (blind : (db : Db) (rows : List FiscalDocument)
        → P db
        → P (record db { fiscal_documents = rows })) where
    insert_document_frame :
        (scope : StoreScope) (d : FiscalDocument) (db : Db) (a : FiscalDocument) (db' : Db)
        → P db
        → insert_document {S = S} env scope d db ≡ ok (a, db')
        → P db'
    unfolding insert_document
    insert_document_frame scope d db a db' p e =
        elim (Option-cases
          (find (sale_at scope.organization_id scope.store_id d.sale_id) db.sales)) [
            | inl missing ↦ cc (rw (missing, insert_document) at e)
            | inr (s, there) ↦
                elim (Option-cases
                  (find (λ (x : FiscalDocument). x.id == d.id) db.fiscal_documents)) [
                    | inr (q, taken) ↦ cc (rw (there, taken, insert_document) at e)
                    | inl free ↦
                        subst P (ok_pair (rw (there, free, insert_document) at e)).1 (blind db _ p)
                  ]
          ]

    pub create_document_frame :
        (scope : StoreScope) (id : Uuid)
        → Ensures P (create_fiscal_document_for_store {S = S} env scope id) (λ _. P)
    unfolding create_fiscal_document_for_store
    create_document_frame scope id = Ensures-statement _ _ env _ _ λ db p a db' e.
        elim (Option-cases (find (document_of scope id) db.fiscal_documents)) [
          | inr (d, known) ↦ subst P (ok_pair (rw known at e)).1 (blind db _ p)
          | inl unknown ↦
              insert_document_frame scope (document_row env scope id db) db a db' p
                (rw unknown at e)
        ]

    update_document_frame :
        (scope : StoreScope) (id : Option Uuid) (allowed : FiscalDocumentStatus → Bool)
        (f : FiscalDocument → FiscalDocument) (db : Db) (a : FiscalDocument) (db' : Db)
        → P db
        → update_document {S = S} env scope id allowed f db ≡ ok (a, db')
        → P db'
    unfolding update_document
    update_document_frame scope none allowed f db a db' p e = cc e
    update_document_frame scope (some id) allowed f db a db' p e =
        elim (Option-cases (
          find (λ (d : FiscalDocument). document_at scope id d && allowed d.status)
            db.fiscal_documents)) [
              | inl missing ↦ cc (rw (missing, update_document) at e)
              | inr (d, found) ↦
                  subst P (ok_pair (rw (found, update_document) at e)).1 (blind db _ p)
            ]

    pub mark_authorized_frame :
        (scope : StoreScope) (id : Option Uuid) (x : Authorization)
        → Ensures P (mark_fiscal_document_authorized {S = S} env scope id x) (λ _. P)
    unfolding mark_fiscal_document_authorized
    mark_authorized_frame scope id x =
        Ensures-statement _ _ env _ _
          λ db p a db' e. update_document_frame scope id _ _ db a db' p e

    pub mark_error_frame :
        (scope : StoreScope) (id : Option Uuid) (code text : Text)
        → Ensures P (mark_fiscal_document_error {S = S} env scope id code text) (λ _. P)
    unfolding mark_fiscal_document_error
    mark_error_frame scope id code text =
        Ensures-statement _ _ env _ _
          λ db p a db' e. update_document_frame scope id _ _ db a db' p e

-- A request that keeps P on success and on failure.
pub record Keeps {S A : Type 0} (P : Db → Type 0) (m : Action S A) : Type 0 where
  pub at : (db : Db) → P db → P (m db).1

module _ {S A : Type 0} (P : Db → Type 0) where
  pub Keeps-lift : (r : Result (Error S) A) → Keeps P (lift r)
  Keeps-lift r = record { at = λ db p. p }

  pub Keeps-with_tx :
      (env : Environment) (m : Action S A) → Ensures P m (λ _. P) → Keeps P (with_tx env m)
  Keeps-with_tx env m h = record { at = λ db p. with_tx_keeps env m db P h p }

  pub Keeps-on_error : (g : Error S → Error S) (m : Action S A) → Keeps P m → Keeps P (on_error g m)
  Keeps-on_error g m h = record { at = λ db p. relabelled (m db) (h.at db p) }
    where
      relabelled : (x : Result (Error S) A × Db) → P x.1 → P (Store.relabel g x).1
      relabelled (ok a, db) p = p
      relabelled (err e, db) p = p

  pub Keeps-bind :
      {B : Type 0} (m : Action S A) (f : A → Action S B)
      → Keeps P m
      → ((a : A) → Keeps P (f a))
      → Keeps P (Store.◌>>=◌ m f)
  Keeps-bind {B} m f h k = record { at = λ db p. continued (m db) (h.at db p) }
    where
      continued : (x : Result (Error S) A × Db) → P x.1 → P (Store.continue x f).1
      continued (ok a, db) p = (k a).at db p
      continued (err e, db) p = p

  pub Keeps-Ensures : (m : Action S A) → Keeps P m → Ensures P m (λ _. P)
  Keeps-Ensures m h = record {
    at = λ db p a db' e. subst P (ap (λ (x : Result (Error S) A × Db). x.1) e) (h.at db p);
  }
