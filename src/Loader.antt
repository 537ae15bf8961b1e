-- ===== src/Loader.antt =====
-- crates/uefi-loader: the boot scenario, the errors of the loader, and the contract that it hands over.
pub mod Scenario
pub mod Error
pub mod Firmware
pub mod Load
pub mod Prepare
pub mod Contract
pub mod Handoff
pub mod Examples
pub mod Main
