-- ===== src/Witness.antt =====
-- Concrete crates that meet the assumptions, and the properties at concrete inputs.
mod Toys
mod Events
mod Signers
mod Payments
mod Wires
mod Chats
mod Phones
mod Engines
mod Received
mod Surfaces
