-- ===== src/Signer.antt =====
-- src/lib.rs: the wallet's key primitives. One child for the secrets, the wallets, the messages
-- and the payments; the proofs stand in the modules below each.
pub mod Error
pub mod Secret
pub mod Wallet
pub mod Message
pub mod Payment
pub mod Accounts
pub mod Networks
