-- ===== src/Crates.antt =====
-- The code outside the repository, as records of functions with what is assumed of them.
pub mod Hex
pub mod Phrase
pub mod Chain
pub mod Payment
pub mod Curve
pub mod Bech
pub mod Json
