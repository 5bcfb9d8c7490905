-- ===== src/Conversation.antt =====
-- `ConversationService` of backend/domain/conversation.py.
pub mod Service
pub mod Summary
pub mod Context
pub mod Counts
pub mod Waits
pub mod Groups
pub mod Refine
mod Tests
