-- ===== src/Ccstorage.antt =====
-- x/ccstorage: the currencies, and their copies in the storage of the virtual machine.
pub mod Types
pub mod Keeper
pub mod Mirror
pub mod Chain
pub mod Balances
pub mod Synced
mod Examples
