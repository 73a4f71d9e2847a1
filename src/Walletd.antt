-- ===== src/Walletd.antt =====
-- walletd-mobile/src/lib.rs: the wallet engine that runs inside a phone app.
pub mod Log
pub mod Config
pub mod Engine
