-- ===== src/Witness/Toys.antt =====
-- Concrete functions in the place of the crates, with the laws that are assumed of them.
mod HexToy
mod PhraseToy
mod ChainToy
mod SdkToy
mod CurveToy
mod BechToy
mod JsonToy
mod WireToy
pub use HexToy.*
pub use PhraseToy.*
pub use ChainToy.*
pub use SdkToy.*
pub use CurveToy.*
pub use BechToy.*
pub use JsonToy.*
pub use WireToy.*
