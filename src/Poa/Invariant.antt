-- ===== src/Poa/Invariant.antt =====
-- The three records of the validators in the store of x/poa: the list, the per-address records as
-- its index, and the counter as its length.
pub mod Lookup
pub mod Steps
pub mod Methods
pub mod Quorum
pub mod Chain
