-- ===== src/Orderbook/Volumes.antt =====
-- How much the fills take of each order and in total.
pub mod Quantity
pub mod Sides
pub mod Loops
pub mod Cleared
