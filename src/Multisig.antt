-- ===== src/Multisig.antt =====
-- x/multisig: calls that are executed once enough validators have confirmed them.
pub mod Types
pub mod Queue
pub mod Keeper
pub mod Votes
pub mod Calls
pub mod Handler
pub mod EndBlock
pub mod Trace
pub mod Invariant
mod Examples
