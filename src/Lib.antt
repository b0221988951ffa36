-- ===== src/Lib.antt =====
-- KAIRO sells shoes over WhatsApp. Its API (apps/api) keeps a catalog with stock, drafts orders,
-- shows the customer a summary, reserves stock when an order is confirmed, has the carrier issue a
-- shipping guide, and follows the order until it is delivered or returned. This library models the
-- API's dialogue, order, stock, shipping and message core and proves what keeps it correct.
--
-- The program and the files:
--   Database: the tables of apps/api/src/database/schema that the operations use, as lists of
--     records. Keys and times are numbers, a size is a number of tenths, amounts are whole pesos.
--   Order: apps/api/src/modules/orders. State has the table of transitions (order-state.ts),
--     Validation the checks of inputs (order-validation.ts), Rows what the repository's methods
--     share, Edit `create`, Patch `update` and `reuseDestination`, Summaries `createSummary`,
--     Transition with Transition/Confirm and Transition/Moves `transition`, all of
--     postgres-order-repository.ts, and Service the checks of order-service.ts before them.
--     Ledger says what the orders hold of the stock, and has the proofs about it; Drafts, Patch/Touches
--     and Summaries/Shown say what the writes of a draft touch and show.
--   Customer: resolveCustomerContact of apps/api/src/modules/customers/customer-contact.ts.
--   Catalog: `setPhysicalStock` of apps/api/src/modules/catalog/postgres-catalog-repository.ts.
--   Shipping: the policy (apps/api/src/modules/shipping/shipping-policy.ts and the refinements of
--     packages/contracts/src/shipping.ts), the choice of a carrier (shipping-selection.ts), and
--     Quotes `selectQuote` of postgres-shipping-quote-repository.ts.
--   Guide: apps/api/src/modules/shipping. State has the table of guide-job-state.ts, Jobs and Marks
--     the methods of postgres-shipping-guide-job-repository.ts, Worker `runOnce` of
--     shipping-guide-worker.ts, and Worker/Floor what else writes the jobs between two runs.
--   Conversation: apps/api/src/modules/conversations. State, Messages and Advance have the state machine
--     of conversation-state.ts, Flow the owner's commands and texts of configured-flow.ts, Checks
--     the checks of flow-definition.ts; Laws, Patience, Confirms, Sizes, Templates and Commands have
--     the proofs.
--   Outbox: apps/api/src/modules/whatsapp. State has the table of outbound-message-state.ts, Post the
--     tables, Enqueue and Claim the methods of postgres-outbound-repository.ts, Worker `runOnce` of
--     outbox-worker.ts, Control `takeControl` and `releaseControl` of
--     conversations/postgres-conversation-admin-repository.ts, and Traffic all that writes the messages.
--   Auth: apps/api/src/modules/auth. Roles has capabilities.ts, authorize.ts and username.ts, Store the
--     methods of postgres-admin-auth-repository.ts, Session, Users, Login and Mfa those of
--     auth-service.ts; Sessions, Manage, Factors, Refusals and Usernames have the proofs.
--   System: the requests that write orders and stock as steps on one database, with any writes of the
--     other tables between them.
--   Common: tests on numbers, lists as tables, results, text. Tests: runs in a small shop.
--
-- How code is modelled. A transaction is one step from a database to a result: an error leaves the
-- database as it was. A method that reads before its transaction takes the database of that moment
-- as an argument of its own, and it may be any. Random keys, the clock and sequence numbers are
-- arguments (Env). A row lock or an advisory lock orders transactions that run at one time, and is
-- not modelled beyond that; a run of a worker is one step too. JavaScript numbers are natural
-- numbers; where the code subtracts, the comparison is written without the difference or follows the
-- guard that keeps it from going below 0. Text is a list of UTF-16 units; case mapping and
-- normalisation are a parameter (Unicode). The carrier's and WhatsApp's answers and failing calls to
-- the database are parameters of a worker's run; the functions of node:crypto are a parameter of the
-- users' service, whose methods run without a failure between their statements. No definition runs on
-- fuel: every loop is structural.
--
-- Not modelled: what drives orders from a conversation, received messages, quotes from the carrier and
-- the guide's PDF, the import of the catalog, privacy and retention, the audit but for the events of the
-- users' service, the encodings of one-time codes and login tokens, alerts but the one of a confirmed
-- order, queries that only read, the HTTP layer, the admin panel (apps/admin), and the infrastructure.
-- The texts of errors, columns that nothing modelled reads, and times of updates are left out.
pub mod Auth
pub mod Catalog
pub mod Common
pub mod Conversation
pub mod Customer
pub mod Database
pub mod Guide
pub mod Order
pub mod Outbox
pub mod Shipping
pub mod System
pub mod Tests
