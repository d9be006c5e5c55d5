-- ===== src/Lib.antt =====
-- The core of the Offbook backend, a personal and household finance server: its ledger of
-- transactions and what the services compute from it or write to it.
--
-- The parts, and where they are modelled:
-- - Common: shared tests, lists, sorting, results and amounts. Amounts are the decimal library,
--   an interface `Decimal` with the laws `IsDecimal` that its documentation states; whole numbers
--   of a smallest unit meet them.
-- - Model: the rows that several parts share (backend/internal/model), and the string functions
--   of the Go standard library as the interface `Strings`.
-- - Categorization: the rule engine, backend/internal/service/categorization/engine.go. Compile
--   makes `CompiledRule`s, Match and Apply pick the `Decision` of the first rule that fires, and
--   SetActions writes it onto a row.
-- - Tags: NormalizeTags and canonicalizeTags, backend/internal/service/transaction_tags.go.
-- - Transfers: proposals of transfer pairs and their confirmation, dismissal and unlinking,
--   backend/internal/repository/transfer_matching.go and
--   backend/internal/service/transfer_matching.go, over a `Store` of rows.
-- - Reconcile: ReconcilePosition, backend/internal/service/reconcile.go, with the queries of
--   backend/internal/repository/transaction_repo.go and balance_observation_repo.go, over a
--   `Ledger` of transactions and observations.
-- - Households: the rows, calls on the tables and, in Households.Tables, the repositories of
--   backend/internal/repository/household_repo.go, user_repo.go and account_repo.go,
--   with the unique indexes of the schema. Households.Service has one operation per method of
--   backend/internal/service/household/service.go, its child Invites those on invites, and
--   Households.Purge is RunPurge of purge.go. An operation is a function from the tables to a
--   result and the tables, so that what was written before an error stays written. Its Steps are
--   the operations as a step relation.
-- - Valuation: Value, ValuePositions, Series and TrimUnknownStart,
--   backend/internal/service/valuation/valuation.go, over lists of price and asset rows.
-- - CostBasis: Recompute, backend/internal/service/valuation/cost_basis.go, over the rows of a
--   ledger and the price rows.
-- - Calendar: the dates of package time in UTC, as day numbers, and weeks, months and years as
--   spans of days.
-- - Plans: the rows of categories and budgets and their owners, with the reads of
--   backend/internal/repository/category_repo.go.
-- - Budgets: backend/internal/service/budget_service.go over the queries of
--   backend/internal/repository/budget_repo.go. Limits has the limit of a period, Rollover what
--   earlier periods roll over, Summary the view of a budget and of a month, Editing the writes.
-- - Categories: backend/internal/service/category_service.go over
--   backend/internal/repository/category_repo.go and a `CategoryLedger` of the tables that name a
--   category. Slugs has names and slugs, Editing creation and renaming, Reassign deletion with one
--   function for each statement of the move, Taxonomy the invariant and Steps the operations as a
--   step relation.
-- - Goals: backend/internal/service/savings_goal_service.go over
--   backend/internal/repository/savings_goal_repo.go. Steps has the requests as a step relation, in
--   which an update may write what it made of an earlier book.
-- - Samples: rows and string functions for the test modules.
--
-- How the code is rendered: a table is the list of its live rows, in the order of their insertion,
-- and a query is a function on that list; soft-deleted rows that a statement reads too are a table
-- of their own. A database transaction is one function on the state; an
-- error of the database itself (a lost connection) is not modelled, while the errors that the
-- services return are values of a result. Times are numbers, ids are numbers and nullable columns
-- are options. Loops over rows are structural recursion. Two loops count rounds down: the 37
-- of the rollover, of which a theorem shows that they are enough, and the 50 that the code gives
-- to the search for a free slug.
--
-- Not modelled: HTTP handlers, the SQL of reports, encryption, network clients (Plaid, price and
-- AI providers), schedulers and the frontend; they are I/O or other languages.
pub mod Common
pub mod Calendar
pub mod Model
pub mod Samples
pub mod Categorization
pub mod Tags
pub mod Transfers
pub mod Households
pub mod Reconcile
pub mod Valuation
pub mod CostBasis
pub mod Plans
pub mod Budgets
pub mod Categories
pub mod Goals
