-- ===== src/Poa.antt =====
-- x/poa: the proof-of-authority validators that confirm multi-signature calls.
pub mod Types
pub mod Keeper
pub mod Genesis
pub mod Messages
pub mod Invariant
pub mod Examples
