-- ===== src/Database/Rows.antt =====
-- The rows of backend/internal/platform/database/models.go that the sales, the stock and the checkout
-- work on. A UUID that a column NOT NULL holds is a number; a nullable one, and a nullable time, is an
-- option (`Valid` of the Go value).
use pdv.Base.{ℤ, ℕ, Bool, Option}
use pdv.Errors.{Text}
use pdv.Money.{Numeric}

abbrev pub Uuid : Type 0
Uuid = ℕ

abbrev pub Time : Type 0
Time = ℕ

-- backend/internal/platform/tenancy/scope.go
pub record StoreScope : Type 0 where
  pub organization_id : Uuid
  pub store_id : Uuid

pub record ActorScope : Type 0 where
  pub organization_id : Uuid
  pub store_id : Uuid
  pub actor_membership_id : Uuid

-- OPEN, COMPLETED and CANCELLED.
pub data SaleStatus : Type 0 where
  opened completed cancelled : SaleStatus

pub record Sale : Type 0 where
  pub id : Uuid
  pub organization_id : Uuid
  pub store_id : Uuid
  pub number : ℕ
  pub idempotency_key : Text
  pub status : SaleStatus
  pub subtotal : Numeric
  pub discount : Numeric
  pub addition : Numeric
  pub total : Numeric
  pub opened_by_membership_id : Uuid
  pub completed_by_membership_id : Option Uuid
  pub cancelled_by_membership_id : Option Uuid
  pub opened_at : Time
  pub completed_at : Option Time
  pub cancelled_at : Option Time
  pub created_at : Time
  pub updated_at : Time

pub record SaleItem : Type 0 where
  pub id : Uuid
  pub organization_id : Uuid
  pub store_id : Uuid
  pub sale_id : Uuid
  pub product_id : Uuid
  pub product_name : Text
  pub product_sku : Text
  pub unit_price : Numeric
  pub quantity : Numeric
  pub discount : Numeric
  pub total : Numeric
  pub created_at : Time

-- GetProductByIDForStoreRow without its store, which the query joins.
pub record Product : Type 0 where
  pub organization_id : Uuid
  pub id : Uuid
  pub sku : Text
  pub barcode : Option Text
  pub name : Text
  pub category_id : Option Uuid
  pub price : Numeric
  pub cost : Numeric
  pub is_active : Bool
  pub created_at : Time
  pub updated_at : Time

pub record Store : Type 0 where
  pub organization_id : Uuid
  pub id : Uuid

pub record Counter : Type 0 where
  pub organization_id : Uuid
  pub store_id : Uuid
  pub next_number : ℕ

pub record Inventory : Type 0 where
  pub organization_id : Uuid
  pub store_id : Uuid
  pub product_id : Uuid
  pub quantity : Numeric
  pub created_at : Time
  pub updated_at : Time

pub data MovementType : Type 0 where
  purchase sale sale_cancellation adjustment_in adjustment_out : MovementType

pub record InventoryMovement : Type 0 where
  pub organization_id : Uuid
  pub store_id : Uuid
  pub id : Uuid
  pub product_id : Uuid
  pub actor_membership_id : Uuid
  pub movement_type : MovementType
  pub quantity : Numeric
  pub previous_quantity : Numeric
  pub current_quantity : Numeric
  pub reason : Option Text
  pub reference_type : Text
  pub reference_id : Uuid
  pub created_at : Time

pub record PaymentMethod : Type 0 where
  pub id : Uuid
  pub organization_id : Uuid
  pub code : Text
  pub name : Text
  pub kind : Text
  pub provider : Option Text
  pub allows_change : Bool
  pub requires_external_reference : Bool
  pub allows_installments : Bool
  pub max_installments : ℤ
  pub fee_percentage : Numeric
  pub settlement_days : ℤ
  pub is_active : Bool
  pub sort_order : ℤ
  pub created_at : Time
  pub updated_at : Time

pub record StorePaymentMethod : Type 0 where
  pub organization_id : Uuid
  pub store_id : Uuid
  pub payment_method_id : Uuid
  pub is_active : Bool

pub data PaymentStatus : Type 0 where
  pending approved declined cancelled_payment : PaymentStatus

pub record Payment : Type 0 where
  pub id : Uuid
  pub organization_id : Uuid
  pub store_id : Uuid
  pub sale_id : Uuid
  pub payment_method_id : Uuid
  pub idempotency_key : Text
  pub status : PaymentStatus
  pub amount : Numeric
  pub received_amount : Option Numeric
  pub change_amount : Option Numeric
  pub installments : ℤ
  pub external_reference : Option Text
  pub paid_at : Option Time
  pub cancelled_at : Option Time
  pub created_at : Time
  pub updated_at : Time

pub data FiscalDocumentStatus : Type 0 where
  document_pending processing authorized rejected failed document_cancelled : FiscalDocumentStatus

pub data FiscalEnvironment : Type 0 where
  homologation production : FiscalEnvironment

pub record FiscalDocument : Type 0 where
  pub id : Uuid
  pub organization_id : Uuid
  pub store_id : Uuid
  pub sale_id : Uuid
  pub status : FiscalDocumentStatus
  pub environment : FiscalEnvironment
  pub document_model : ℤ
  pub series : Option ℤ
  pub number : Option ℤ
  pub access_key : Option Text
  pub protocol : Option Text
  pub provider : Option Text
  pub external_reference : Option Text
  pub xml : Option Text
  pub error_code : Option Text
  pub error_message : Option Text
  pub issued_at : Option Time
  pub cancelled_at : Option Time
  pub created_at : Time
  pub updated_at : Time
