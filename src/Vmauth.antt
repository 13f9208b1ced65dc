-- ===== src/Vmauth.antt =====
-- x/vmauth: the accounts, with their coins kept equal to the balances in the virtual machine.
pub mod Keeper
pub mod Reading
mod Examples
