-- ===== src/Checkout/Mapper.antt =====
-- The responses of backend/internal/checkout/mapper.go, and what it sends to the fiscal provider. A time that
-- is NULL stays `none` (timestampOrZero gives the zero time).
use pdv.Base.{ℕ, ℤ, pos, length, List, [], ◌∷◌, Option, none, some, Result, ok, ◌>>=◌, map_err}
use pdv.Errors.{Text, codes, wrap}
use pdv.Money.{Numeric}
use pdv.Money.Print.{scaled_int_to_string}
use pdv.Database.Rows.{
  Time, Sale, SaleItem, SaleStatus, Payment, PaymentMethod, PaymentStatus, FiscalDocument,
  FiscalDocumentStatus, FiscalEnvironment,
}
use pdv.Database.Store.{Environment}
use pdv.Checkout.Errors.{CheckoutError}
use pdv.Checkout.Money.{numeric_to_scaled_int}

unfoldable pub money_to_string : Numeric → Result CheckoutError Text
unfolding scaled_int_to_string
money_to_string value = do
  scaled ← numeric_to_scaled_int value 2
  ok (scaled_int_to_string scaled 2)

pub record CheckoutPaymentResult : Type 0 where
  pub row : Payment
  pub method : PaymentMethod

pub record FiscalDocumentResponse : Type 0 where
  pub id : Text
  pub sale_id : Text
  pub status : FiscalDocumentStatus
  pub environment : FiscalEnvironment
  pub document_model : ℤ
  pub series : Option ℤ
  pub number : Option ℤ
  pub access_key : Option Text
  pub protocol : Option Text
  pub provider : Option Text
  pub external_reference : Option Text
  pub error_code : Option Text
  pub error_message : Option Text
  pub issued_at : Option Time
  pub cancelled_at : Option Time
  pub created_at : Time
  pub updated_at : Time

-- The XML is not answered.
unfoldable pub to_fiscal_document_response : Environment → FiscalDocument → FiscalDocumentResponse
to_fiscal_document_response env row = record {
  id = env.uuid_string row.id;
  sale_id = env.uuid_string row.sale_id;
  status = row.status;
  environment = row.environment;
  document_model = row.document_model;
  series = row.series;
  number = row.number;
  access_key = row.access_key;
  protocol = row.protocol;
  provider = row.provider;
  external_reference = row.external_reference;
  error_code = row.error_code;
  error_message = row.error_message;
  issued_at = row.issued_at;
  cancelled_at = row.cancelled_at;
  created_at = row.created_at;
  updated_at = row.updated_at;
}

pub record CheckoutState : Type 0 where
  pub sale : Sale
  pub items : List SaleItem
  pub payments : List CheckoutPaymentResult
  pub fiscal_document : FiscalDocumentResponse

pub record CheckoutSaleResponse : Type 0 where
  pub id : Text
  pub number : ℕ
  pub status : SaleStatus
  pub subtotal : Text
  pub discount : Text
  pub addition : Text
  pub total : Text
  pub opened_at : Time
  pub completed_at : Option Time
  pub cancelled_at : Option Time
  pub created_at : Time
  pub updated_at : Time
  pub idempotency_key : Text

unfoldable pub to_checkout_sale_response :
    Environment → Sale → Result CheckoutError CheckoutSaleResponse
unfolding money_to_string
to_checkout_sale_response env row = do
  subtotal ← map_err (wrap "format subtotal") (money_to_string row.subtotal)
  discount ← map_err (wrap "format discount") (money_to_string row.discount)
  addition ← map_err (wrap "format addition") (money_to_string row.addition)
  total ← map_err (wrap "format total") (money_to_string row.total)
  ok (record {
    id = env.uuid_string row.id;
    number = row.number;
    status = row.status;
    subtotal = subtotal;
    discount = discount;
    addition = addition;
    total = total;
    opened_at = row.opened_at;
    completed_at = row.completed_at;
    cancelled_at = row.cancelled_at;
    created_at = row.created_at;
    updated_at = row.updated_at;
    idempotency_key = row.idempotency_key;
  })

pub record CheckoutPaymentResponse : Type 0 where
  pub id : Text
  pub sale_id : Text
  pub payment_method_id : Text
  pub payment_method_code : Text
  pub payment_method_name : Text
  pub payment_method_kind : Text
  pub amount : Text
  pub received_amount : Option Text
  pub change_amount : Option Text
  pub status : PaymentStatus
  pub installments : ℤ
  pub external_reference : Option Text
  pub paid_at : Option Time
  pub created_at : Time
  pub updated_at : Time

-- A number that is NULL is left out.
unfoldable pub optional_money : Option Numeric → Result CheckoutError (Option Text)
unfolding money_to_string
optional_money none = ok none
optional_money (some value) = do text ← money_to_string value; ok (some text)

unfoldable pub to_checkout_payment_response :
    Environment → Payment → PaymentMethod → Result CheckoutError CheckoutPaymentResponse
unfolding money_to_string optional_money
to_checkout_payment_response env row method = do
  amount ← map_err (wrap "format amount") (money_to_string row.amount)
  received_amount ← map_err (wrap "format received amount") (optional_money row.received_amount)
  change_amount ← map_err (wrap "format change amount") (optional_money row.change_amount)
  ok (record {
    id = env.uuid_string row.id;
    sale_id = env.uuid_string row.sale_id;
    payment_method_id = env.uuid_string row.payment_method_id;
    payment_method_code = method.code;
    payment_method_name = method.name;
    payment_method_kind = method.kind;
    amount = amount;
    received_amount = received_amount;
    change_amount = change_amount;
    status = row.status;
    installments = row.installments;
    external_reference = row.external_reference;
    paid_at = row.paid_at;
    created_at = row.created_at;
    updated_at = row.updated_at;
  })

-- The loop over the payments.
unfoldable pub to_payment_responses :
    Environment → List CheckoutPaymentResult → Result CheckoutError (List CheckoutPaymentResponse)
unfolding to_checkout_payment_response
to_payment_responses env [] = ok []
to_payment_responses env (payment ∷ payments) = do
  item ← to_checkout_payment_response env payment.row payment.method
  items ← to_payment_responses env payments
  ok (item ∷ items)

pub record CheckoutResponse : Type 0 where
  pub sale : CheckoutSaleResponse
  pub payments : List CheckoutPaymentResponse
  pub fiscal_document : FiscalDocumentResponse

unfoldable pub to_checkout_response :
    Environment → CheckoutState → Result CheckoutError CheckoutResponse
unfolding to_checkout_sale_response to_payment_responses
to_checkout_response env state = do
  sale ← to_checkout_sale_response env state.sale
  payments ← to_payment_responses env state.payments
  ok (record { sale = sale; payments = payments; fiscal_document = state.fiscal_document })

-- fiscal.AuthorizationInput
pub record AuthorizationInput : Type 0 where
  pub sale_id : Text
  pub sale_number : ℕ
  pub sale_total : Text
  pub item_count : ℕ
  pub payment_count : ℕ
  pub completed_at : Option Time
  pub environment : Text
  pub document_model : ℤ

unfoldable pub to_fiscal_authorization_input :
    Environment → CheckoutState → Result CheckoutError AuthorizationInput
unfolding money_to_string
to_fiscal_authorization_input env state = do
  sale_total ← map_err (wrap "format sale total") (money_to_string state.sale.total)
  ok (record {
    sale_id = env.uuid_string state.sale.id;
    sale_number = state.sale.number;
    sale_total = sale_total;
    item_count = length state.items;
    payment_count = length state.payments;
    completed_at = state.sale.completed_at;
    environment = codes "HOMOLOGATION";
    document_model = pos 65;
  })
