-- ===== src/Checkout/Service.antt =====
-- Checkout of backend/internal/checkout/service_commands.go: the transaction that completes a sale, and the
-- authorization of its fiscal document behind it.
use pdv.Base.{
  ℕ, suc, pos, Bool, true, false, List, [], ◌∷◌, ◌++◌, Option, none, some, Result, ok, err, fail_if,
}
use pdv.Errors.{Text, codes, sentinel, wrap, is_no_rows}
use pdv.Text.{int_to_string}
use pdv.Money.{Numeric}
use pdv.Database.Rows.{Uuid, SaleItem, SaleStatus, opened, completed, cancelled}
use pdv.Database.Store.{Environment, Action, pure, lift, on_error, with_tx, ◌>>=◌, ◌>>◌}
use pdv.Database.Sales.{lock_sale_by_id, list_sale_items_by_sale_id, complete_sale_for_store}
use pdv.Database.Payments.{create_payment_for_store, approve_payment_for_store}
use pdv.Database.Fiscal.{
  Authorization, create_fiscal_document_for_store, mark_fiscal_document_authorized,
  mark_fiscal_document_error,
}
use pdv.Sales.Service.{StoreActor, to_store_scope, to_actor_scope}
use pdv.Checkout.Errors.{
  Sentinel, CheckoutError, sale_not_found, sale_not_open, sale_already_completed, sale_has_no_items,
}
use pdv.Checkout.Input.{CheckoutPaymentInput, parse_uuid, normalize_checkout_input}
use pdv.Checkout.Payments.{PaymentInput, ValidatedPayment, validate_payments}
use pdv.Checkout.Totals.{validate_sale_totals}
use pdv.Checkout.Stock.{apply_inventory_changes}
use pdv.Checkout.Mapper.{
  CheckoutPaymentResult, CheckoutState, CheckoutResponse, FiscalDocumentResponse,
  AuthorizationInput, to_fiscal_document_response, to_checkout_response,
  to_fiscal_authorization_input,
}

-- fiscal.Provider.Authorize: an error, or an authorization. There may be no provider.
abbrev pub Provider : Type 0
Provider = Option (AuthorizationInput → Option Authorization)

abbrev pub lock_error : CheckoutError → CheckoutError
lock_error e = if_no_rows (is_no_rows e)
  where
    if_no_rows : Bool → CheckoutError
    if_no_rows true = sentinel sale_not_found
    if_no_rows false = wrap "lock sale" e

-- The switch on the status.
unfoldable pub may_check_out : SaleStatus → Result CheckoutError (Unit {0})
may_check_out opened = ok tt
may_check_out completed = err (sentinel sale_already_completed)
may_check_out cancelled = err (sentinel sale_not_open)

unfoldable pub no_items : List SaleItem → Bool
no_items [] = true
no_items (_ ∷ _) = false

-- pgtype.Numeric{}, which is NULL.
abbrev pub null_numeric : Numeric
null_numeric = record {
  int = none;
  exp = pos 0;
  nan = false;
  infinity_modifier = pos 0;
  valid = false;
}

abbrev pub deref_numeric : Option Numeric → Numeric
deref_numeric none = null_numeric
deref_numeric (some value) = value

abbrev pub payment_external_reference : Option Text → Option Text
payment_external_reference value = value

unfoldable pub payment_idempotency_key : Environment → Uuid → ℕ → Text
payment_idempotency_key env sale_id index =
    codes "checkout:" ++ env.uuid_string sale_id ++ codes ":payment:" ++ int_to_string (pos index)

module _ (env : Environment) (actor : StoreActor) where
  unfoldable pub create_and_approve :
      Uuid → ℕ → ValidatedPayment → Action Sentinel CheckoutPaymentResult
  unfolding payment_idempotency_key
  create_and_approve sale_id index input = do
    create ← on_error (wrap "create payment") (
        create_payment_for_store env (to_actor_scope actor) (record {
          sale_id = sale_id;
          payment_method_id = input.method.id;
          amount = input.amount;
          received_amount = deref_numeric input.received_amount;
          change_amount = deref_numeric input.change_amount;
          installments = input.installments;
          external_reference = payment_external_reference input.external_reference;
          idempotency_key = payment_idempotency_key env sale_id index;
        }))
    row ← on_error (wrap "approve payment") (
        approve_payment_for_store env (to_store_scope actor) create.id
          (deref_numeric input.received_amount) (deref_numeric input.change_amount))
    pure (record { row = row; method = input.method })

  -- The loop over the payments, from an index on.
  unfoldable pub create_payments_from :
      Uuid → ℕ → List ValidatedPayment → Action Sentinel (List CheckoutPaymentResult)
  unfolding create_and_approve
  create_payments_from sale_id index [] = pure []
  create_payments_from sale_id index (input ∷ inputs) =
      create_and_approve sale_id index input >>= λ result.
      create_payments_from sale_id (suc index) inputs >>= λ results. pure (result ∷ results)

  unfoldable pub create_payments :
      Uuid → List ValidatedPayment → Action Sentinel (List CheckoutPaymentResult)
  unfolding create_payments_from
  create_payments sale_id inputs = create_payments_from sale_id 0 inputs

  -- What follows the checks: the stock, the payments, the sale and its document.
  unfoldable pub complete_tx :
      Uuid → List SaleItem → List ValidatedPayment → Action Sentinel CheckoutState
  unfolding apply_inventory_changes create_payments
  complete_tx sale_id items validated = do
    apply_inventory_changes env actor sale_id items
    payments ← create_payments sale_id validated
    sale ←
        on_error (wrap "complete sale") (complete_sale_for_store env (to_actor_scope actor) sale_id)
    document ←
        on_error (wrap "create fiscal document")
          (create_fiscal_document_for_store env (to_store_scope actor) sale_id)
    pure (record {
      sale = sale;
      items = items;
      payments = payments;
      fiscal_document = to_fiscal_document_response env document;
    })

  unfoldable pub checkout_tx : Uuid → List PaymentInput → Action Sentinel CheckoutState
  unfolding complete_tx may_check_out no_items
  checkout_tx sale_id inputs = do
    sale ← on_error lock_error (lock_sale_by_id env (to_store_scope actor) sale_id)
    lift (may_check_out sale.status)
    items ←
        on_error (wrap "list sale items")
          (list_sale_items_by_sale_id env (to_store_scope actor) sale_id)
    lift (fail_if (no_items items) (sentinel sale_has_no_items))
    lift (validate_sale_totals sale items)
    validated ← validate_payments env actor.organization_id sale.total inputs
    complete_tx sale_id items validated

  unfoldable pub parse_uuid_must : Text → Option Uuid
  parse_uuid_must raw = elim (parse_uuid env raw (codes "id")) [ ok id ↦ some id | err _ ↦ none ]

  -- The document is marked in a transaction of its own.
  unfoldable pub mark_authorized :
      FiscalDocumentResponse → Authorization → Action Sentinel FiscalDocumentResponse
  unfolding parse_uuid_must
  mark_authorized document result = with_tx env (do
    row ←
        mark_fiscal_document_authorized env (to_store_scope actor) (parse_uuid_must document.id)
          result
    pure (to_fiscal_document_response env row))

  unfoldable pub mark_failed : FiscalDocumentResponse → Action Sentinel FiscalDocumentResponse
  unfolding parse_uuid_must
  mark_failed document = do
    updated ← on_error (wrap "mark fiscal document error") (
        with_tx env (
          mark_fiscal_document_error env (to_store_scope actor) (parse_uuid_must document.id)
            (codes "mock_authorization_failed") (codes "Fiscal authorization failed")))
    pure (to_fiscal_document_response env updated)

  abbrev pub settle_document :
      FiscalDocumentResponse → Option Authorization → Action Sentinel FiscalDocumentResponse
  settle_document document none = mark_failed document
  settle_document document (some result) = mark_authorized document result

  unfoldable pub authorize_fiscal_document :
      Provider → CheckoutState → Action Sentinel FiscalDocumentResponse
  unfolding mark_authorized mark_failed
  authorize_fiscal_document none state = pure state.fiscal_document
  authorize_fiscal_document (some authorize) state = do
    input ← lift (to_fiscal_authorization_input env state)
    settle_document state.fiscal_document (authorize input)

  unfoldable pub checkout :
      Provider → Text → List CheckoutPaymentInput → Action Sentinel CheckoutResponse
  unfolding checkout_tx authorize_fiscal_document
  checkout provider raw_sale_id input = do
    sale_id ← lift (parse_uuid env raw_sale_id (codes "id"))
    normalized ← lift (normalize_checkout_input env input)
    state ← with_tx env (checkout_tx sale_id normalized)
    document ← authorize_fiscal_document provider state
    lift (to_checkout_response env (record state { fiscal_document = document }))
