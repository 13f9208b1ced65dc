-- ===== src/Orders.antt =====
-- x/orders: the orders that accounts post, with their coins locked, until they are filled.
pub mod Types
pub mod Keeper
pub mod Amounts
pub mod Cases
pub mod Solvency
pub mod Trace
pub mod Revoking
pub mod Genesis
mod Examples
