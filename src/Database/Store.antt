-- ===== src/Database/Store.antt =====
-- The tables, what the program does not implement (the driver and the server), and statements that run
-- in a transaction.
use pdv.Base.{ℕ, Bool, String, Option, none, some, List, Result, ok, err}
use pdv.Errors.{Text, Error, both, pg_error, no_rows}
use pdv.Money.{Numeric}
use pdv.Database.Rows.{
  Uuid, Time, Sale, SaleItem, Product, Store, Counter, Inventory, InventoryMovement, PaymentMethod,
  StorePaymentMethod, Payment, FiscalDocument,
}
use pdv.Database.Identity.{User, AuthSession, AuthRefreshToken, SecurityAuditEvent}

pub record Db : Type 0 where
  pub sales : List Sale
  pub sale_items : List SaleItem
  pub sale_number_counters : List Counter
  pub products : List Product
  pub stores : List Store
  pub inventory : List Inventory
  pub inventory_movements : List InventoryMovement
  pub payment_methods : List PaymentMethod
  pub store_payment_methods : List StorePaymentMethod
  pub payments : List Payment
  pub fiscal_documents : List FiscalDocument
  pub users : List User
  pub auth_sessions : List AuthSession
  pub auth_refresh_tokens : List AuthRefreshToken
  pub security_audit_events : List SecurityAuditEvent
  -- Not a table: the sessions that the cache was told to forget.
  pub invalidated_sessions : List Uuid

-- The driver and the server.
pub record Environment : Type 0 where
  -- A statement may fail with a *pgconn.PgError (code, constraint): a check, a foreign key, a lost
  -- connection.
  pub fault : String → Db → Option (String × String)
  -- What is read back of a number that is written to a column NUMERIC(15, s); `none` is an overflow.
  pub column : ℕ → Numeric → Option Numeric
  -- The server's `+`, `-` and `<` on numbers.
  pub add_numeric : Numeric → Numeric → Numeric
  pub subtract_numeric : Numeric → Numeric → Numeric
  pub less_numeric : Numeric → Numeric → Bool
  -- NOW(), and the default uuidv7() of a primary key.
  pub now : Db → Time
  pub new_id : Db → Uuid
  -- pgtype: Numeric.Value as a text, Numeric.ScanScientific, UUID.Scan, UUID.String
  pub numeric_value : Numeric → Result Text Text
  pub scan_scientific : Text → Option Numeric
  pub scan_uuid : Text → Option Uuid
  pub uuid_string : Uuid → Text

-- A step of a transaction: the tables come back also with an error.
abbrev pub Action : Type 0 → Type 0 → Type 0
Action S A = Db → Result (Error S) A × Db

module _ {S : Type 0} where
  -- The deferred rollback may fail too, and then its error is joined. Behind a commit that failed it answers
  -- ErrTxClosed, which Rollback drops.
  abbrev pub rolled_back : Environment → Db → Error S → Error S
  rolled_back env after e = elim (env.fault "ROLLBACK" after) [
    | none ↦ e
    | some (code, constraint) ↦ both "\n" e (pg_error code constraint)
  ]

module _ {S A : Type 0} where
  abbrev pub pure : A → Action S A
  pure a db = (ok a, db)

  abbrev pub lift : Result (Error S) A → Action S A
  lift r db = (r, db)

  abbrev pub relabel : (Error S → Error S) → Result (Error S) A × Db → Result (Error S) A × Db
  relabel g (ok a, db) = (ok a, db)
  relabel g (err e, db) = (err (g e), db)

  abbrev pub on_error : (Error S → Error S) → Action S A → Action S A
  on_error g m db = relabel g (m db)

  -- An error whose meaning is looked up in the tables.
  abbrev pub recovering : (Error S → Db → Error S) → Action S A → Action S A
  recovering g m db = let x = m db in relabel (λ e. g e x.1) x

  -- An error leaves what stood before the statement.
  abbrev pub settle : Db → Result (Error S) (A × Db) → Result (Error S) A × Db
  settle db (ok (a, db')) = (ok a, db')
  settle db (err e) = (err e, db)

  abbrev pub statement_or_fault :
      Option (String × String) → (Db → Result (Error S) (A × Db)) → Action S A
  statement_or_fault none f db = settle db (f db)
  statement_or_fault (some (code, constraint)) f db = (err (pg_error code constraint), db)

  unfoldable pub statement : Environment → String → (Db → Result (Error S) (A × Db)) → Action S A
  statement env name f db = statement_or_fault (env.fault name db) f db

  -- A query of one row.
  abbrev pub one_row : Db → Option A → Result (Error S) (A × Db)
  one_row db none = err no_rows
  one_row db (some a) = ok (a, db)

  abbrev pub or_overflow : Option A → Result (Error S) A
  or_overflow none = err (pg_error "22003" "")
  or_overflow (some a) = ok a

  -- A commit that fails leaves what the transaction found, and so does an error of the function.
  abbrev pub end_transaction : Environment → Db → Result (Error S) A × Db → Result (Error S) A × Db
  end_transaction env before (err e, after) = (err (rolled_back env after e), before)
  end_transaction env before (ok a, after) = elim (env.fault "COMMIT" after) [
    | none ↦ (ok a, after)
    | some (code, constraint) ↦ (err (pg_error code constraint), before)
  ]

  unfoldable pub with_tx : Environment → Action S A → Action S A
  with_tx env m db = elim (env.fault "BEGIN" db) [
    | none ↦ end_transaction env db (m db)
    | some (code, constraint) ↦ (err (pg_error code constraint), db)
  ]

module _ {S A B : Type 0} where
  abbrev pub continue : Result (Error S) A × Db → (A → Action S B) → Result (Error S) B × Db
  continue (ok a, db) f = f a db
  continue (err e, db) f = (err e, db)

  infixl 5 ◌>>=◌
  abbrev pub ◌>>=◌ : Action S A → (A → Action S B) → Action S B
  ◌>>=◌ m f db = continue (m db) f

  infixl 5 ◌>>◌
  abbrev pub ◌>>◌ : Action S A → Action S B → Action S B
  m >> k = m >>= λ _. k
