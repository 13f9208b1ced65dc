-- ===== src/Markets.antt =====
-- x/markets: the pairs of currencies that can be traded.
pub mod Types
pub mod Keeper
pub mod Listed
pub mod Genesis
mod Examples
