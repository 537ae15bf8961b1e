-- ===== src/Kernel.antt =====
-- crates/kernel: the boot state machine, the diagnostic records, and the entry of the kernel image.
pub mod Diagnostics
pub mod Console
pub mod Boot
pub mod Entry
mod Examples
