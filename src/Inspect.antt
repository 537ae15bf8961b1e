-- ===== src/Inspect.antt =====
-- crates/xtask/src/inspect.rs: the host's inspection of the kernel ELF image and of its linker map.
pub mod Types
pub mod Words
pub mod Hex
pub mod Map
pub mod Symbols
pub mod Combined
pub mod Report
pub mod Spec
mod Examples
