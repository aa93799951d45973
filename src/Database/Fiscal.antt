-- ===== src/Database/Fiscal.antt =====
-- The statements of a checkout on fiscal documents, of backend/internal/platform/database/fiscal_documents.sql.go.
use pdv.Base.{
  ◌==◌, ◌&&◌, Bool, true, false, pos, Option, none, some, [], ◌∷◌, ◌++◌, Result, ok, err,
}
use pdv.Errors.{Text, Error, pg_error, no_rows}
use pdv.Database.Rows.{
  Uuid, StoreScope, FiscalDocument, FiscalDocumentStatus, document_pending, processing, authorized,
  rejected, failed, homologation,
}
use pdv.Database.Tables.{find, replace}
use pdv.Database.Store.{Db, Environment, Action, statement}
use pdv.Database.Sales.{sale_at}

abbrev pub document_of : StoreScope → Uuid → FiscalDocument → Bool
document_of scope sale_id d =
    d.organization_id == scope.organization_id
    && d.store_id == scope.store_id
    && d.sale_id == sale_id

abbrev pub document_at : StoreScope → Uuid → FiscalDocument → Bool
document_at scope id d =
    d.organization_id == scope.organization_id && d.store_id == scope.store_id && d.id == id

-- The columns that a document begins with: a checkout gives the sale alone.
abbrev pub document_row : Environment → StoreScope → Uuid → Db → FiscalDocument
document_row env scope sale_id db = record {
  id = env.new_id db;
  organization_id = scope.organization_id;
  store_id = scope.store_id;
  sale_id = sale_id;
  status = document_pending;
  environment = homologation;
  document_model = pos 65;
  series = none;
  number = none;
  access_key = none;
  protocol = none;
  provider = none;
  external_reference = none;
  xml = none;
  error_code = none;
  error_message = none;
  issued_at = none;
  cancelled_at = none;
  created_at = env.now db;
  updated_at = env.now db;
}

-- PENDING and PROCESSING
abbrev pub may_be_authorized : FiscalDocumentStatus → Bool
may_be_authorized document_pending = true
may_be_authorized processing = true
may_be_authorized _ = false

-- PENDING, PROCESSING and REJECTED
abbrev pub may_fail : FiscalDocumentStatus → Bool
may_fail document_pending = true
may_fail processing = true
may_fail rejected = true
may_fail _ = false

-- MarkFiscalDocumentAuthorizedForStoreParams without the keys and without `issued_at`, which is NULL.
pub record Authorization : Type 0 where
  pub access_key : Text
  pub protocol : Text
  pub provider : Text
  pub external_reference : Text
  pub xml : Text

module _ {S : Type 0} (env : Environment) where
  unfoldable pub insert_document :
      StoreScope → FiscalDocument → Db → Result (Error S) (FiscalDocument × Db)
  insert_document scope d db =
      elim (find (sale_at scope.organization_id scope.store_id d.sale_id) db.sales) [
        | none ↦ err (pg_error "23503" "fiscal_documents_sale_fk")
        | some _ ↦ elim (find (λ (x : FiscalDocument). x.id == d.id) db.fiscal_documents) [
          | some _ ↦ err (pg_error "23505" "fiscal_documents_pkey")
          | none ↦ ok (d, record db { fiscal_documents = db.fiscal_documents ++ d ∷ [] })
        ]
      ]

  -- The document of the sale, or a new one. On a conflict the row is written again as it is.
  unfoldable pub create_fiscal_document_for_store : StoreScope → Uuid → Action S FiscalDocument
  unfolding statement insert_document
  create_fiscal_document_for_store scope sale_id =
      statement env "CreateFiscalDocumentForStore" λ db.
        let p = document_of scope sale_id in
        let touch = λ (d : FiscalDocument). record d { updated_at = env.now db } in
        elim (find p db.fiscal_documents) [
          | some d ↦
              ok (touch d, record db { fiscal_documents = replace p touch db.fiscal_documents })
          | none ↦ insert_document scope (document_row env scope sale_id db) db
        ]

  -- An UPDATE of the document with the id, where its status allows it. No document has a NULL id.
  unfoldable pub update_document :
      StoreScope
      → Option Uuid
      → (FiscalDocumentStatus → Bool)
      → (FiscalDocument → FiscalDocument)
      → Db
      → Result (Error S) (FiscalDocument × Db)
  update_document scope none allowed f db = err no_rows
  update_document scope (some id) allowed f db =
      let p = λ (d : FiscalDocument). document_at scope id d && allowed d.status in
      elim (find p db.fiscal_documents) [
        | none ↦ err no_rows
        | some d ↦ ok (f d, record db { fiscal_documents = replace p f db.fiscal_documents })
      ]

  unfoldable pub mark_fiscal_document_authorized :
      StoreScope → Option Uuid → Authorization → Action S FiscalDocument
  unfolding statement update_document
  mark_fiscal_document_authorized scope id a =
      statement env "MarkFiscalDocumentAuthorizedForStore" λ db.
        update_document scope id may_be_authorized
          (λ d. record d {
            status = authorized;
            access_key = some a.access_key;
            protocol = some a.protocol;
            provider = some a.provider;
            external_reference = some a.external_reference;
            xml = some a.xml;
            issued_at = some (env.now db);
            error_code = none;
            error_message = none;
            updated_at = env.now db;
          })
          db

  unfoldable pub mark_fiscal_document_error :
      StoreScope → Option Uuid → Text → Text → Action S FiscalDocument
  unfolding statement update_document
  mark_fiscal_document_error scope id code text =
      statement env "MarkFiscalDocumentErrorForStore" λ db.
        update_document scope id may_fail
          (λ d. record d {
            status = failed;
            error_code = some code;
            error_message = some text;
            updated_at = env.now db;
          })
          db
