-- ===== src/Currencies.antt =====
-- x/currencies: coins that are issued for, and withdrawn to, another chain.
pub mod Types
pub mod Keeper
pub mod Supply
mod Examples
