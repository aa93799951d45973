-- ===== src/Database/Quiet.antt =====
-- What a step answers where no statement fails: one rule for each way to build a step.
use pdv.Base.{◌≡◌, refl, String, none, Result, ok}
use pdv.Errors.{Error}
use pdv.Database.Store
use pdv.Database.Store.{Db, Environment, Action, on_error, statement, with_tx, end_transaction}

-- No statement fails, and no transaction does.
abbrev pub IsQuiet : Environment → Type 0
IsQuiet env = (name : String) (db : Db) → env.fault name db ≡ none

module _ {S A : Type 0} where
  pub on_error-quiet :
      (g : Error S → Error S) (m : Action S A) (db : Db) {a : A} {db' : Db}
      → m db ≡ (ok a, db')
      → on_error g m db ≡ (ok a, db')
  on_error-quiet g m db h = rw h refl

  pub bind-quiet :
      {B : Type 0} (m : Action S A) (f : A → Action S B) (db : Db) {a : A} {db1 : Db}
      {x : Result (Error S) B × Db}
      → m db ≡ (ok a, db1)
      → f a db1 ≡ x
      → Store.◌>>=◌ m f db ≡ x
  bind-quiet m f db h k = rw h k

  pub statement-quiet :
      (env : Environment)
      → IsQuiet env
      → (name : String) (f : Db → Result (Error S) (A × Db)) (db : Db) {a : A} {db' : Db}
      → f db ≡ ok (a, db')
      → statement env name f db ≡ (ok a, db')
  unfolding statement
  statement-quiet env quiet name f db h = rw (quiet name db, h) refl

  pub with_tx-quiet :
      (env : Environment)
      → IsQuiet env
      → (m : Action S A) (db : Db) {a : A} {db' : Db} → m db ≡ (ok a, db')
      → with_tx env m db ≡ (ok a, db')
  unfolding with_tx
  with_tx-quiet env quiet m db {a} {db'} h =
      rw (with_tx, quiet "BEGIN" db, h, end_transaction, quiet "COMMIT" db') refl
