-- ===== src/Database/Payments.antt =====
-- The statements of a checkout on payments, of backend/internal/platform/database/payments.sql.go.
use pdv.Base.{
  ◌==◌, ◌&&◌, Bool, true, false, ℤ, Option, none, some, [], ◌∷◌, ◌++◌, if◌then◌else◌, Result, ok,
  err, ◌>>=◌,
}
use pdv.Errors.{Text, Error, pg_error, no_rows}
use pdv.Money.{Numeric}
use pdv.Database.Rows.{
  Uuid, StoreScope, ActorScope, PaymentMethod, StorePaymentMethod, Payment, PaymentStatus, pending,
  approved,
}
use pdv.Database.Tables.{find, replace}
use pdv.Database.Store.{Db, Environment, Action, statement, or_overflow}
use pdv.Database.Sales.{text_eq, sale_at}

-- CreatePaymentForStoreParams without the scope. A number that is not valid is NULL.
pub record NewPayment : Type 0 where
  pub sale_id : Uuid
  pub payment_method_id : Uuid
  pub amount : Numeric
  pub received_amount : Numeric
  pub change_amount : Numeric
  pub installments : ℤ
  pub external_reference : Option Text
  pub idempotency_key : Text

abbrev pub payment_by_key : ActorScope → Text → Payment → Bool
payment_by_key scope key p =
    p.organization_id == scope.organization_id
    && p.store_id == scope.store_id
    && text_eq p.idempotency_key key

abbrev pub binding_of : ActorScope → Uuid → StorePaymentMethod → Bool
binding_of scope id b =
    b.organization_id == scope.organization_id
    && b.store_id == scope.store_id
    && b.payment_method_id == id
    && b.is_active

abbrev pub active_method : ActorScope → Uuid → PaymentMethod → Bool
active_method scope id m = m.organization_id == scope.organization_id && m.id == id && m.is_active

abbrev pub payment_at : StoreScope → Uuid → Payment → Bool
payment_at scope id p =
    p.organization_id == scope.organization_id && p.store_id == scope.store_id && p.id == id

abbrev pub is_pending : PaymentStatus → Bool
is_pending pending = true
is_pending _ = false

-- The columns that a payment begins with.
abbrev pub payment_row :
    Environment → ActorScope → NewPayment → Db → Numeric → Option Numeric → Option Numeric → Payment
payment_row env scope n db amount received change = record {
  id = env.new_id db;
  organization_id = scope.organization_id;
  store_id = scope.store_id;
  sale_id = n.sale_id;
  payment_method_id = n.payment_method_id;
  idempotency_key = n.idempotency_key;
  status = pending;
  amount = amount;
  received_amount = received;
  change_amount = change;
  installments = n.installments;
  external_reference = n.external_reference;
  paid_at = none;
  cancelled_at = none;
  created_at = env.now db;
  updated_at = env.now db;
}

-- COALESCE
abbrev pub coalesce : {A : Type 0} → Option A → Option A → Option A
coalesce (some a) _ = some a
coalesce none o = o

module _ {S : Type 0} where
  -- A nullable column of type NUMERIC(15, 2).
  unfoldable pub nullable_column : Environment → Numeric → Result (Error S) (Option Numeric)
  nullable_column env n =
      if n.valid then (or_overflow (env.column 2 n) >>= λ written. ok (some written)) else ok none

  -- The foreign key on the sale and the primary key.
  unfoldable pub store_payment : ActorScope → Payment → Db → Result (Error S) (Payment × Db)
  store_payment scope p db =
      elim (find (sale_at scope.organization_id scope.store_id p.sale_id) db.sales) [
        | none ↦ err (pg_error "23503" "payments_sale_fk")
        | some _ ↦ elim (find (λ (q : Payment). q.id == p.id) db.payments) [
          | some _ ↦ err (pg_error "23505" "payments_pkey")
          | none ↦ ok (p, record db { payments = db.payments ++ p ∷ [] })
        ]
      ]

  unfoldable pub insert_payment :
      Environment → ActorScope → NewPayment → Db → Result (Error S) (Payment × Db)
  unfolding nullable_column store_payment
  insert_payment env scope n db = or_overflow (env.column 2 n.amount) >>= λ amount.
      nullable_column env n.received_amount >>= λ received.
      nullable_column env n.change_amount >>= λ change.
      store_payment scope (payment_row env scope n db amount received change) db

  -- The payment that has the key, or a new one by a method that is active in the store.
  unfoldable pub create_payment_for_store : Environment → ActorScope → NewPayment → Action S Payment
  unfolding statement insert_payment
  create_payment_for_store env scope n = statement env "CreatePaymentForStore" λ db.
      elim (find (payment_by_key scope n.idempotency_key) db.payments) [
        | some p ↦ ok (p, db)
        | none ↦ elim (find (binding_of scope n.payment_method_id) db.store_payment_methods) [
          | none ↦ err no_rows
          | some _ ↦ elim (find (active_method scope n.payment_method_id) db.payment_methods) [
            | none ↦ err no_rows
            | some _ ↦ insert_payment env scope n db
          ]
        ]
      ]

  unfoldable pub approve_payment_for_store :
      Environment → StoreScope → Uuid → Numeric → Numeric → Action S Payment
  unfolding statement nullable_column
  approve_payment_for_store env scope id received_amount change_amount =
      statement env "ApprovePaymentForStore" λ db.
        nullable_column env received_amount >>= λ received.
        nullable_column env change_amount >>= λ change.
        let p = λ (q : Payment). payment_at scope id q && is_pending q.status in
        let f = λ (q : Payment). record q {
          status = approved;
          paid_at = some (env.now db);
          received_amount = coalesce received q.received_amount;
          change_amount = coalesce change q.change_amount;
          updated_at = env.now db;
        } in
        elim (find p db.payments) [
          | none ↦ err no_rows
          | some q ↦ ok (f q, record db { payments = replace p f db.payments })
        ]
