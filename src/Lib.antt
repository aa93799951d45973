-- ===== src/Lib.antt =====
-- PDV: the backend of a point of sale. A store opens sales, adds, changes and removes their items, and a
-- checkout validates the payments, takes the items off the stock and completes the sale.
--
-- The files, and the code they model:
--   Base, Errors, Text: what the other files share. Integers of any size, results with errors, the error
--     values of the services, texts as lists of code points.
--   Money: pgtype.Numeric and the arithmetic on scaled integers of backend/internal/sales/mapper.go, which
--     backend/internal/checkout/validation.go repeats. Money/Columns says which numbers a column
--     NUMERIC(15, s) holds.
--   Database: the rows of backend/internal/platform/database/models.go (Rows, Identity), and the statements of
--     sales.sql.go, products.sql.go, inventory.sql.go, payments.sql.go, payment_methods.sql.go,
--     fiscal_documents.sql.go, sessions.sql.go and audit.sql.go as functions of the tables. A table is a list
--     of rows. A statement is a step that may fail; a transaction (transaction.go, WithTx) ends with the
--     tables it began with when a step or the commit fails. Transactions that touch one sale are one after
--     the other, as the row lock of LockSaleByIDForStore makes them. Database/Ensures is what a step leaves
--     where it succeeds, Database/Frames what a statement leaves alone.
--   Sales: backend/internal/sales. Sales/Input is validation.go, Sales/Money and Sales/Mapper are
--     mapper.go, Sales/Errors is errors.go and persistence.go, Sales/Service is service_commands.go. Sales/Spec
--     says on integers what the amounts of a sale should be, Sales/Consistency what the commands keep, and
--     the files below Sales/Service prove it.
--   Inventory: backend/internal/inventory. Inventory/Input is validation.go, Inventory/Mapper and
--     Inventory/Errors the files of these names, Inventory/Service is service_commands.go. Inventory/Ledger
--     says what it means that the books are right, and Stock, Changes, Recorded and Keeps prove it.
--   Checkout: backend/internal/checkout. Checkout/Input and Checkout/Money are validation.go;
--     Checkout/Totals, Checkout/Payments, Checkout/Stock and Checkout/Service are validateSaleTotals,
--     ValidatePayments, applyInventoryChanges, and Checkout with authorizeFiscalDocument of
--     service_commands.go; Checkout/Mapper is mapper.go. The checkout calls the statements on the stock, and
--     what it does to the stock is stated by the same books as for Inventory.
--   Sessions: backend/internal/sessions. Sessions/Service is service_create.go, with what the others share,
--     Sessions/Rotate is service_rotate.go, Sessions/Revoke is service_revoke.go, Sessions/Input is service.go
--     and validation.go. Sessions/Guard says what the commands keep of the sessions and their tokens; Changes
--     and Statements say it of the statements, and Keeps, Commands, Everywhere, Mitigation and Reuse of the
--     commands. Database/Quiet is what a step answers where no statement fails.
--   Histories: the requests on sales, of both packages, as steps from tables to tables, and what they reach.
--   Tests: an environment that keeps the laws of the driver, and runs at small databases.
--
-- What is not under the repository is a parameter: Environment (Database/Store) holds the driver and the
-- server, with the errors a statement, a commit and a rollback may meet, the rounding of a column, the server's sums and comparisons
-- of numbers, the clock, the identifiers that the server makes, and the scanning and printing of numbers and
-- identifiers; NumericLaws (Database/Laws) is what the code relies on of it. Dependencies (Sessions/Input)
-- holds the codec of refresh tokens, the clock, the lifetimes and the random identifiers. The fiscal provider
-- of a checkout is an argument.
--
-- A commit that answers an error is taken to have changed nothing. In fact a reply may be lost behind a commit
-- that the server has made; what is stated of errors does not speak of that case.
--
-- Bounds: an amount is an integer of any size, as big.Int is; exponents are int32 and wrap; the digits of a
-- number are computed with the number itself as fuel, since each round divides it by ten. The sums of a
-- page count are int64 and wrap, and an int is 64 bits. A time is a number, without the range of time.Time.
--
-- Not modelled: the HTTP handlers, login and passwords, the guards, roles and members, the catalogue, the
-- listings, the reads of fiscal documents and receipts, and the frontend, which this library has not come to;
-- the codec of refresh tokens, because its hash is a library's; the start of the process and the adapters,
-- because they only wire libraries together.
pub mod Base
pub mod Errors
pub mod Text
pub mod Money
pub mod Database
pub mod Sales
pub mod Checkout
pub mod Inventory
pub mod Sessions
pub mod Histories
pub mod Tests
