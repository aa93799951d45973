-- ===== src/Checkout/Keeps.antt =====
-- Checkout keeps the books of the stock and the sums of the sales.
use mathlib.Core.Path.{subst}
use pdv.Base.{ℕ, suc, ◌≡◌, refl, true, Option, none, some, List, [], ◌∷◌, ok, map_err, fail_if}
use pdv.Errors.{Text, codes, wrap, sentinel}
use pdv.Money.{Numeric, zero_money}
use pdv.Database.Rows.{
  Inventory, InventoryMovement, Uuid, Sale, SaleItem, SaleStatus, opened, completed, cancelled,
  Payment, FiscalDocument,
}
use pdv.Database.Store.{Db, Environment}
use pdv.Database.Ensures.{
  Ensures, Ensures-bind, Ensures-lift, Ensures-pure, Ensures-on_error, Ensures-recovering,
  Ensures-statement, Ensures-given, one_row_ok,
}
use pdv.Database.Frames.{
  lock_sale_frame, list_items_frame, complete_sale_frame, decrease_frame, create_movement_frame,
  create_payment_frame, approve_payment_frame, create_document_frame, mark_authorized_frame,
  mark_error_frame, Keeps, Keeps-lift, Keeps-bind, Keeps-on_error, Keeps-with_tx,
}
use pdv.Database.Laws.{NumericLaws}
use pdv.Database.Sales.{is_open, lock_sale_by_id, complete_sale_for_store}
use pdv.Sales.Consistency.{IsConsistent}
use pdv.Sales.Service.Keeps.{Locked, lock_ensures}
use pdv.Sales.Service.Lifecycle.{complete_sale_ensures}
use pdv.Sales.Service.{StoreActor, to_store_scope, to_actor_scope}
use pdv.Inventory.Ledger.{IsBooked}
use pdv.Checkout.Errors.{Sentinel, payment_amount_mismatch, sale_has_no_items}
use pdv.Checkout.Money.{add_money, compare_money, differs}
use pdv.Checkout.Input.{CheckoutPaymentInput, parse_uuid, normalize_checkout_input}
use pdv.Checkout.Payments.{
  PaymentInput, ValidatedPayment, validate_payments, check_payment, method_error, validate_from,
  get_payment_method_by_id,
}
use pdv.Checkout.Totals.{validate_sale_totals}
use pdv.Checkout.Stock.{
  Aggregate, decrease_error, sale_movement, apply_aggregate, apply_aggregates,
  apply_inventory_changes,
}
use pdv.Checkout.Mapper.{FiscalDocumentResponse, CheckoutState, to_checkout_response}
use pdv.Checkout.Service.{
  Provider, may_check_out, no_items, create_and_approve, create_payments_from, create_payments,
  complete_tx, checkout_tx, mark_authorized, mark_failed, settle_document,
  authorize_fiscal_document, checkout, parse_uuid_must,
}
use pdv.Database.Fiscal.{Authorization}
use pdv.Checkout.Booked.{apply_inventory_changes-IsBooked}

pub may_check_out-open :
    (status : SaleStatus) {u : Unit} → may_check_out status ≡ ok u → is_open status ≡ true
unfolding may_check_out
may_check_out-open opened h = refl
may_check_out-open completed h = cc
may_check_out-open cancelled h = cc

module _ (env : Environment) (actor : StoreActor) (id : Uuid) where
  -- The rest, for a predicate that the tables which are written do not concern.
  module _ (P : Db → Type 0) where
    apply_aggregates_frame :
        ((db : Db) (rows : List Inventory) → P db → P (record db { inventory = rows }))
        → ((db : Db) (rows : List InventoryMovement)
            → P db
            → P (record db { inventory_movements = rows }))
        → (aggregates : List Aggregate)
        → Ensures P (apply_aggregates env actor id aggregates) (λ _. P)
    unfolding apply_aggregates apply_aggregate
    apply_aggregates_frame stock movements [] = Ensures-pure _ _ tt λ db p. p
    apply_aggregates_frame stock movements (a ∷ others) =
        Ensures-bind _ (λ _. P) _ _ _
          (Ensures-bind _ (λ _. P) _ _ _
            (Ensures-recovering _ _ (decrease_error env (to_store_scope actor) a.product_id) _
              (decrease_frame P env stock (to_store_scope actor) a.product_id a.quantity))
            λ update.
              Ensures-bind _ (λ _. P) _ _ _
                (Ensures-on_error _ _ _ _ (
                  create_movement_frame P env movements (to_actor_scope actor)
                    (sale_movement id a update)))
                λ m. Ensures-pure _ _ tt λ db p. p)
          λ _. apply_aggregates_frame stock movements others

    pub apply_inventory_changes_frame :
        ((db : Db) (rows : List Inventory) → P db → P (record db { inventory = rows }))
        → ((db : Db) (rows : List InventoryMovement)
            → P db
            → P (record db { inventory_movements = rows }))
        → (items : List SaleItem) → Ensures P (apply_inventory_changes env actor id items) (λ _. P)
    unfolding apply_inventory_changes
    apply_inventory_changes_frame stock movements items =
        Ensures-bind _ (λ _. P) _ _ _ (Ensures-lift _ _ _ λ _ db _ p. p)
          λ aggregates. apply_aggregates_frame stock movements aggregates

    validate_from_frame :
        (inputs : List PaymentInput) (sum : Numeric)
        → Ensures P (validate_from env actor.organization_id inputs sum) (λ _. P)
    unfolding validate_from get_payment_method_by_id
    validate_from_frame [] sum = Ensures-pure _ _ _ λ db p. p
    validate_from_frame (input ∷ inputs) sum =
        Ensures-bind _ (λ _. P) _ _ _
          (Ensures-on_error _ _ method_error _
            (Ensures-statement _ _ env _ _ λ db p a db' e. subst P (one_row_ok db _ e).1 p))
          λ method.
            Ensures-bind _ (λ _. P) _ _ _
              (Ensures-lift _ _ (check_payment method input) λ _ db _ p. p)
              λ checked.
                Ensures-bind _ (λ _. P) _ _ _
                  (Ensures-lift _ _ (map_err (wrap "sum payments") (add_money sum input.amount))
                    λ _ db _ p. p)
                  λ sum'.
                    Ensures-bind _ (λ _. P) _ _ _ (validate_from_frame inputs sum')
                      λ rest. Ensures-pure _ _ (checked ∷ rest.0, rest.1) λ db p. p

    validate_payments_frame :
        (total : Numeric) (inputs : List PaymentInput)
        → Ensures P (validate_payments env actor.organization_id total inputs) (λ _. P)
    unfolding validate_payments
    validate_payments_frame total inputs =
        Ensures-bind _ (λ _. P) _ _ _ (Ensures-lift _ _ _ λ _ db _ p. p)
          λ _.
            Ensures-bind _ (λ _. P) _ _ _ (validate_from_frame inputs zero_money)
              λ validated.
                Ensures-bind _ (λ _. P) _ _ _
                  (Ensures-lift _ _
                    (map_err (wrap "compare payment total") (compare_money validated.1 total))
                    λ _ db _ p. p)
                  λ cmp.
                    Ensures-bind _ (λ _. P) _ _ _
                      (Ensures-lift _ _ (fail_if (differs cmp) (sentinel payment_amount_mismatch))
                        λ _ db _ p. p)
                      λ _. Ensures-pure _ _ validated.0 λ db p. p

    create_payments_frame :
        ((db : Db) (rows : List Payment) → P db → P (record db { payments = rows }))
        → (index : ℕ) (inputs : List ValidatedPayment)
        → Ensures P (create_payments_from env actor id index inputs) (λ _. P)
    unfolding create_payments_from create_and_approve
    create_payments_frame blind index [] = Ensures-pure _ _ _ λ db p. p
    create_payments_frame blind index (input ∷ inputs) =
        Ensures-bind _ (λ _. P) _ _ _
          (Ensures-bind _ (λ _. P) _ _ _
            (Ensures-on_error _ _ _ _ (create_payment_frame P env blind (to_actor_scope actor) _))
            λ create.
              Ensures-bind _ (λ _. P) _ _ _
                (Ensures-on_error _ _ _ _
                  (approve_payment_frame P env blind (to_store_scope actor) create.id _ _))
                λ row. Ensures-pure _ _ _ λ db p. p)
          λ result.
            Ensures-bind _ (λ _. P) _ _ _ (create_payments_frame blind (suc index) inputs)
              λ results. Ensures-pure _ _ _ λ db p. p

  -- The transaction: from `R`, with `P` once the sale is locked, to `Q` once it is completed.
  module _ (R : Db → Type 0) (P : Sale → Db → Type 0) (Q : Db → Type 0)
      (locks : Ensures R (lock_sale_by_id {S = Sentinel} env (to_store_scope actor) id) P)
      (stocks : (s : Sale) (items : List SaleItem)
        → Ensures (P s) (apply_inventory_changes env actor id items) (λ _. P s))
      (pays : (s : Sale) (db : Db) (rows : List Payment)
        → P s db
        → P s (record db { payments = rows }))
      (completes : (s : Sale)
        → is_open s.status ≡ true
        → Ensures
            (P s)
            (complete_sale_for_store {S = Sentinel} env (to_actor_scope actor) id)
            (λ _. Q))
      (documents : (db : Db) (rows : List FiscalDocument)
        → Q db
        → Q (record db { fiscal_documents = rows })) where
    complete_tx_ensures :
        (s : Sale) (items : List SaleItem) (validated : List ValidatedPayment)
        → is_open s.status ≡ true
        → Ensures (P s) (complete_tx env actor id items validated) (λ _. Q)
    unfolding complete_tx create_payments
    complete_tx_ensures s items validated is =
        Ensures-bind _ (λ _. P s) _ _ _ (stocks s items)
          λ _.
            Ensures-bind _ (λ _. P s) _ _ _ (create_payments_frame (P s) (pays s) 0 validated)
              λ payments.
                Ensures-bind _ (λ _. Q) _ _ _ (Ensures-on_error _ _ _ _ (completes s is))
                  λ sale.
                    Ensures-bind _ (λ _. Q) _ _ _
                      (Ensures-on_error _ _ _ _
                        (create_document_frame Q env documents (to_store_scope actor) id))
                      λ document. Ensures-pure _ _ _ λ db q. q

    pub checkout_tx_ensures :
        (inputs : List PaymentInput) → Ensures R (checkout_tx env actor id inputs) (λ _. Q)
    unfolding checkout_tx
    checkout_tx_ensures inputs = Ensures-bind _ P _ _ _ (Ensures-on_error _ _ _ _ locks) λ s.
        Ensures-bind _ (λ _ db. P s db × (is_open s.status ≡ true)) _ _ _
          (Ensures-lift _ _ _ λ u db e p. (p, may_check_out-open s.status e))
          λ _. Ensures-given _ _ _ λ is.
            Ensures-bind _ (λ _. P s) _ _ _
              (Ensures-on_error _ _ _ _ (list_items_frame (P s) env (to_store_scope actor) id))
              λ items.
                Ensures-bind _ (λ _. P s) _ _ _
                  (Ensures-lift _ _ (fail_if (no_items items) (sentinel sale_has_no_items))
                    λ _ db _ p. p)
                  λ _.
                    Ensures-bind _ (λ _. P s) _ _ _
                      (Ensures-lift _ _ (validate_sale_totals s items) λ _ db _ p. p)
                      λ _.
                        Ensures-bind _ (λ _. P s) _ _ _
                          (validate_payments_frame (P s) s.total inputs)
                          λ validated. complete_tx_ensures s items validated is

-- The request: the transaction, and the authorization of the document.
module _ (env : Environment) (actor : StoreActor) (P : Db → Type 0)
    (documents : (db : Db) (rows : List FiscalDocument)
      → P db
      → P (record db { fiscal_documents = rows })) where
  settle_document-Keeps :
      (document : FiscalDocumentResponse) (result : Option Authorization)
      → Keeps P (settle_document env actor document result)
  unfolding mark_authorized mark_failed
  settle_document-Keeps document none =
      Keeps-bind P _ _
        (Keeps-on_error P _ _ (
          Keeps-with_tx P env _ (
            mark_error_frame P env documents (to_store_scope actor)
              (parse_uuid_must env actor document.id) _ _)))
        λ updated. Keeps-lift P (ok _)
  settle_document-Keeps document (some result) = Keeps-with_tx P env _ (
      Ensures-bind _ (λ _. P) _ _ _
        (mark_authorized_frame P env documents (to_store_scope actor)
          (parse_uuid_must env actor document.id) result)
        λ row. Ensures-pure _ _ _ λ db p. p)

  pub authorize_fiscal_document-Keeps :
      (provider : Provider) (state : CheckoutState)
      → Keeps P (authorize_fiscal_document env actor provider state)
  unfolding authorize_fiscal_document
  authorize_fiscal_document-Keeps none state = Keeps-lift P (ok state.fiscal_document)
  authorize_fiscal_document-Keeps (some authorize) state =
      Keeps-bind P _ _ (Keeps-lift P _)
        λ input. settle_document-Keeps state.fiscal_document (authorize input)

  pub checkout-Keeps :
      ((id : Uuid) (inputs : List PaymentInput)
        → Ensures P (checkout_tx env actor id inputs) (λ _. P))
      → (provider : Provider) (raw : Text) (input : List CheckoutPaymentInput)
      → Keeps P (checkout env actor provider raw input)
  unfolding checkout
  checkout-Keeps h provider raw input =
      Keeps-bind P _ _ (Keeps-lift P (parse_uuid env raw (codes "id"))) λ id.
        Keeps-bind P _ _ (Keeps-lift P (normalize_checkout_input env input)) λ normalized.
          Keeps-bind P _ _ (Keeps-with_tx P env _ (h id normalized)) λ state.
            Keeps-bind P _ _ (authorize_fiscal_document-Keeps provider state) λ document.
              Keeps-lift P (to_checkout_response env (record state { fiscal_document = document }))

-- Checkout keeps the books, on success and on every failure, also of the authorization behind the
-- transaction: the stock of every product in every store is the sum of what its movements have
-- moved, is not negative, and every movement ends with what it began with and moved, where the
-- environment keeps the laws on numbers and the books were so before.
pub checkout-IsBooked :
    (env : Environment) (laws : NumericLaws env) (actor : StoreActor) (provider : Provider)
    (raw : Text) (input : List CheckoutPaymentInput) (db : Db)
    → IsBooked db
    → IsBooked (checkout env actor provider raw input db).1
checkout-IsBooked env laws actor provider raw input db books =
    (checkout-Keeps env actor IsBooked (λ _ _ b. b)
        (λ id inputs.
          checkout_tx_ensures env actor id IsBooked (λ _. IsBooked) IsBooked
            (lock_sale_frame IsBooked env (to_store_scope actor) id)
            (λ _ items. apply_inventory_changes-IsBooked env actor id laws items) (λ _ _ _ b. b)
            (λ _ _. complete_sale_frame IsBooked env (λ _ _ b. b) (to_actor_scope actor) id)
            (λ _ _ b. b) inputs)
        provider raw input).at
      db books

-- Checkout keeps every item priced and every header the sum of its items, on success and on every
-- failure, where the environment keeps the laws on numbers and the database was so before. The
-- environment keeps the laws on numbers, and the database was consistent before: every item priced
-- as its rounded product less its discount, every header the sum of its items.
pub checkout-IsConsistent :
    (env : Environment) (laws : NumericLaws env) (actor : StoreActor) (provider : Provider)
    (raw : Text) (input : List CheckoutPaymentInput) (db : Db)
    → IsConsistent db
    → IsConsistent (checkout env actor provider raw input db).1
checkout-IsConsistent env laws actor provider raw input db c =
    (checkout-Keeps env actor IsConsistent (λ _ _ b. b)
        (λ id inputs.
          checkout_tx_ensures env actor id IsConsistent (Locked env laws actor id) IsConsistent
            (lock_ensures env laws actor id)
            (λ s items.
              apply_inventory_changes_frame env actor id (Locked env laws actor id s) (λ _ _ b. b)
                (λ _ _ b. b) items)
            (λ _ _ _ b. b) (λ s is. complete_sale_ensures env laws actor id s is) (λ _ _ b. b)
            inputs)
        provider raw input).at
      db c
