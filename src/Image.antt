-- ===== src/Image.antt =====
-- crates/xtask/src/image.rs: the deterministic disk image, its construction and its validation.
pub mod Types
pub mod Read
pub mod Gpt
pub mod Fat
pub mod Scenario
pub mod Payload
pub mod Files
pub mod Directory
pub mod Build
pub mod Sample
pub mod Examples
