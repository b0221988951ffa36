-- ===== src/Shipping.antt =====
-- Shipping: the policy of the owner, and the choice of a carrier among the quotes.
pub mod Policy
pub mod Selection
pub mod Quotes
