-- ===== src/Elf.antt =====
-- crates/boot-elf/src/lib.rs: the strict parser of the kernel's ELF image.
pub mod Error
pub mod Types
pub mod Read
pub mod Header
pub mod Segment
pub mod Spec
pub mod Parse
pub mod Iterate
pub mod Examples
