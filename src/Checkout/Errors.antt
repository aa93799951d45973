-- ===== src/Checkout/Errors.antt =====
-- backend/internal/checkout/errors.go.
use pdv.Base.{[]}
use pdv.Base.{String}
use pdv.Errors.{Error, validation}

pub data Sentinel : Type 0 where
  sale_not_found sale_not_open sale_already_completed sale_has_no_items : Sentinel
  payment_method_not_found payment_method_inactive payments_required payment_amount_mismatch :
      Sentinel
  invalid_received_amount invalid_installments : Sentinel
  inventory_not_found insufficient_inventory : Sentinel
  fiscal_document_not_found fiscal_authorization_failed receipt_not_available : Sentinel

abbrev pub CheckoutError : Type 0
CheckoutError = Error Sentinel

-- newValidationError("", text)
abbrev pub fieldless : String → CheckoutError
fieldless text = validation [] text
