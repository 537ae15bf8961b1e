-- ===== src/Contract.antt =====
-- crates/boot-contract/src/lib.rs: the handoff from the loader to the kernel.
pub mod Error
pub mod Types
pub mod Typed
pub mod Builder
pub mod Validate
pub mod Layout
pub mod Reader
pub mod Writer
pub mod Wire
mod Examples
