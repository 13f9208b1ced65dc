-- ===== src/Oracle.antt =====
-- x/oracle: the prices that oracles post, and the median of each block.
pub mod Types
pub mod Keeper
pub mod Prices
pub mod Median
pub mod Posting
pub mod Blocks
mod Examples
