-- ===== src/Orderbook.antt =====
-- x/orderbook: at the end of a block the orders of each market are matched at one clearance price.
pub mod Sorter
pub mod Aggregates
pub mod Curves
pub mod Clearance
pub mod Fills
pub mod Matcher
pub mod Pool
pub mod History
pub mod Squash
pub mod Depth
pub mod Volumes
mod Examples
