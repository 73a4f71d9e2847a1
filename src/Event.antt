-- ===== src/Event.antt =====
-- chat-identity/src/event.rs: Nostr events. One child for each stage of an event's life.
pub mod Canonical
pub mod Id
pub mod Difficulty
pub mod Clock
pub mod Mine
pub mod Sign
pub mod Verify
