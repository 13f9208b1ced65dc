-- ===== src/Multisig/Invariant.antt =====
-- The multi-signature store under messages and blocks.
pub mod Defs
pub mod QueueLaws
pub mod Steps
pub mod Submit
pub mod Settle
pub mod Blocks
pub mod Turns
pub mod Decisions
pub mod Stranded
pub mod History
