-- ===== src/Harness.antt =====
-- crates/xtask: the checks of the boot harness.
pub mod Text
pub mod Records
pub mod Protocol
pub mod Boot
mod Examples
