-- ===== src/Tests.antt =====
-- A small shop, and runs of the operations in it.
pub mod Shop
mod Orders
mod Carriers
mod Guides
mod Dialogue
mod Outbox
mod Panel
mod Quotes
