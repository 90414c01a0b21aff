-- ===== src/Lib.antt =====
-- Verification of the Meet Millions Finance back end: the parts that compute money and taxes, move
-- documents, queries, reports and filing periods through their workflow, keep invoices and payments,
-- keep the audit log, decide who may do what, and migrate the database. Each function of the source
-- is a function here under the source's name; a handler is a function from the tables it reads and the
-- validated body to the tables it leaves or an error.
--
-- - Prelude: the library names in use, Boolean tests, lists over the native numbers, integers.
-- - Money (src/utils/money.js): rounding percentages and splitting amounts. Amounts are paise, so
--   natural numbers; a rate is a number of thousandths of a percent, which makes half of 0.25% a whole
--   number. A product is exact here; the source's doubles give the same below 2^53 for rates and
--   quantities that a double holds exactly (whole and quarter percents), and for others, 2.3% say, may
--   round a half down.
-- - Tax (src/services/tax-engine.js): Gst has `isInterState` and `computeGstLine`, Summary has
--   `summariseGst` and `groupByRate`, Rules has `resolveRule`, Tds has `computeTdsLine` and the payment
--   loop, Run has the lines of `runComputation`, `tdsCodeFor` and, in Run/Handler, the whole function.
-- - Store (src/db/tenancy.js): a table is a list of rows with an id; `find` and `update` go by the id.
-- - Workflow (src/services/workflow.js, src/modules/verification.js): Documents has the statuses and
--   the decision on a document, Periods the statuses of filing periods and `refreshFilingPeriod`,
--   Progress the stepper of `buildStageProgress`. Desk puts them on the tables: the routes of
--   verification.js in Desk/Review and Desk/Bulk, those of src/modules/queries.js in Desk/Queries,
--   each with its checklist update and refresh; Desk/Patched is one turn of the bulk loop; Desk/Step, Quiet and Kept carry the invariant.
-- - Reports (src/modules/reports.js, src/modules/approvals.js): generating, submitting and deciding in
--   Routes, the client's sign-off, archiving and the other approvals in SignOff, over the desk's
--   tables; Counted, Steps, Review and Signed carry the invariant.
-- - Auth (src/auth, src/permissions): Sessions has src/auth/session.js, Access has `authorize`, Roles
--   the levels of the roles, Totp the base-32 text of a secret.
-- - Features (src/services/features.js): what a tenant is entitled to; Catalogue is the table of
--   features, Granted what decides on one of them.
-- - Ids (src/utils/id.js): the identifiers.
-- - Migrations (src/db/migration-plan.js, scripts/migrate-runner.mjs): the plan of a run, and the rows
--   of `schema_migrations` that it writes; which files' statements are carried out is an argument.
-- - Billing (src/modules/billing.js, src/modules/webhooks.js): Invoices has the figures of
--   `createInvoice`, Settle has `settlePayment`, Routes the route that verifies a payment and what
--   a payment event does, Routes/Inbox the webhook's inbox in front of it, Routes/Office those that record, refund and void, Ledger the invariant of the
--   books, Subscriptions the tenant's own plan.
-- - Audit (src/services/audit.js): the hash chain, `verifyChain`, the anchors and the purge.
-- - RateLimit (src/services/ratelimit.js): the limiter over its cache and its table, each read as its
--   last write left it.
-- - Examples: the concrete inputs at which the results below apply.
--
-- The parts meet in the tables. A decision changes a document, from which a refresh derives the
-- status of its period; a query holds its document and its period back; a report moves its period on,
-- and archives its documents; a computation counts the lines of verified documents; settling a payment
-- changes the payment, its invoice and the invoice's period. Every loop recurs on a list, so no fuel is
-- chosen but in `digits_from`, where the number itself is enough (`decimal_inj` of Audit/Canonical), and
-- in `drain`, whose turns are as many as its bits.
--
-- Clocks, fresh ids, the answers of payment gateways and validated request bodies are arguments, and
-- SHA-256 is a function that is not looked into. Instants, ids and free texts are numbers where the
-- code only stores or compares them; codes and hashed fields are lists of code points. Queries are read
-- as filters and choices on lists. Each handler runs as one step: interleaved requests are not
-- modelled. Of two routes that meet in a table each is modelled on the rows that it reads and writes.
-- Also not modelled: passwords, the one-time codes themselves, the lists of permissions, the router,
-- notifications, the figures of reports, integrations, database adapters, the browser application and tests.
pub mod Prelude
pub mod Money
pub mod Tax
pub mod Store
pub mod Workflow
pub mod Billing
pub mod Audit
pub mod RateLimit
pub mod Examples
pub mod Reports
pub mod Migrations
pub mod Auth
pub mod Ids
pub mod Features
