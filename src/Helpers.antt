-- ===== src/Helpers.antt =====
-- helpers/: what the modules share.
pub mod Eth
pub mod Pages
mod Examples
