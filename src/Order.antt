-- ===== src/Order.antt =====
-- Orders: apps/api/src/modules/orders.
pub mod State
pub mod Validation
pub mod Rows
pub mod Transition
pub mod Summaries
pub mod Drafts
pub mod Edit
pub mod Patch
pub mod Service
pub mod Ledger
