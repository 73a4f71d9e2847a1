-- ===== src/Chat.antt =====
-- chat-identity/src/lib.rs and the key functions of chat-identity/src/event.rs.
pub mod Error
pub mod Identity
pub mod Keys
