-- ===== src/Outbox.antt =====
-- apps/api/src/modules/whatsapp: the messages that go out to the customers.
pub mod State
pub mod Post
pub mod Enqueue
pub mod Claim
pub mod Control
pub mod Worker
pub mod Laws
pub mod Traffic
pub mod Good
pub mod Once
pub mod Speaks
pub mod Window
pub mod Keys
