-- ===== src/Conversation.antt =====
-- apps/api/src/modules/conversations: the dialogue that takes an order over WhatsApp.
pub mod State
pub mod Messages
pub mod Advance
pub mod Flow
pub mod Laws
pub mod Patience
pub mod Confirms
pub mod Sizes
pub mod Templates
pub mod Checks
pub mod Commands
