-- ===== src/Lib.antt =====
-- PolytopeOS: the boot handoff, its test harness, and the lexer of its compiler.
--
-- A UEFI loader reads a kernel image, checks it with the crate boot-elf, copies its segments, and
-- hands the kernel a contract of fixed size that the crate boot-contract defines. The kernel parses
-- the contract from raw bytes before it trusts any of them. Both parsers stand on the boundary to
-- untrusted data. The harness of crates/xtask boots an image and judges its log by the diagnostic
-- records. The compiler's lexer stands alone.
--
-- Contract: crates/boot-contract/src/lib.rs.
--   Contract/Types      the constants and the structs
--   Contract/Error      `ValidationError` and `EncodeError`
--   Contract/Typed      the ranges of the Rust types of the fields
--   Contract/Builder    `BootHeader::current`, `PlatformInfo::{x86_64_uefi, with_rsdp}`,
--                       `ScenarioInfo::{normal, test}`, `BootInfo::{new, set_memory_region}`
--   Contract/Validate   `validate_ref` and its four checks; Spec is what they are compared with
--   Contract/Reader     `Reader`, and the reads of `parse`
--   Contract/Writer     `Writer`, and the writes of `encode`
--   Contract/Layout     the bytes of a contract, independent of the reads and writes
--   Contract/Wire       `prevalidate`, `parse`, `BootInfo::encode`
-- Elf: crates/boot-elf/src/lib.rs.
--   Elf/Types, Error    the constants, the structs and `ParseError`
--   Elf/Read            `read_array`, `read_u16` and the others, `decode_program_header`, `align_up`
--   Elf/Header          `validate_identification`, `parse_header`
--   Elf/Segment         `validate_load_segment`, `load_segment_from_header`
--   Elf/Parse           `validate_program_headers`, `parse`
--   Elf/Iterate         `ValidatedElf::segments`, `LoadSegments::{next, size_hint}`
--   Elf/Spec            what a load plan is, independent of the checks
-- Kernel: crates/kernel.
--   Kernel/Diagnostics  the records of src/diagnostics.rs, and `QemuExitCode` of crates/arch-x86_64
--   Kernel/Console      `EarlyConsole::write_record` of crates/arch-x86_64
--   Kernel/Boot         `BootState` of src/lib.rs
--   Kernel/Entry        `polytope_kernel_main` and the panic handler of src/bin/x86_64.rs
-- Loader: crates/uefi-loader.
--   Loader/Scenario     `BootScenario::parse` of src/lib.rs
--   Loader/Error        `LoaderError` of src/main.rs
--   Loader/Firmware     the crate uefi as a record of functions, and the writes to memory
--   Loader/Load         `load_segments`, `load_segment`, `reserve_stack_guard` and
--                       `ContractStorage::allocate` of src/main.rs
--   Loader/Prepare      `prepare_kernel` and `read_bounded_file` of src/main.rs
--   Loader/Contract     `encode_contract` and `normalize_memory_kind` of src/main.rs; Spec is what
--                       they are compared with
--   Loader/Main         `main` of src/main.rs, by its records and how it ends
--   Loader/Handoff      the loader's contract and the kernel's verdict on it, together
-- Compiler: crates/compiler/src/lib.rs.
--   Compiler/Chars      Rust's `char` and `str`, and byte offsets in a text
--   Compiler/Lexer      the tokens, `Lexer`, its `next`, and the items of an iteration
--   Compiler/Lexer/Spec the items of a source, independent of the loops
-- Harness: crates/xtask/src/qemu.rs.
--   Harness/Text        the operations on byte slices
--   Harness/Records     the diagnostic records, their grammar, sequence numbers and kinds
--   Harness/Protocol    `parse_protocol_stream`, `process_protocol_line`, `classify_boot`
--   Harness/Boot        a boot from the loader's records to the verdict of the harness
-- Inspect: crates/xtask/src/inspect.rs.
--   Inspect/Types       the constants, the report and the errors
--   Inspect/Words       the text operations, and `parse_hex`
--   Inspect/Hex         the numerals that `parse_hex` reads
--   Inspect/Map         `MapSection`, `MapLayout` and its parser; the rows of a linker map
--   Inspect/Symbols     `MapLayout::validate_constants_and_symbols`, `align_up`
--   Inspect/Combined    `validate_combined` and its checks of segments and sections
--   Inspect/Spec        what a kernel layout is, independent of the checks
--   Inspect/Report      `inspect_kernel_bytes`, `inspect_kernel`, `read_bounded`
-- Image: crates/xtask/src/image.rs.
--   Image/Types         the constants and the errors
--   Image/Read          `read_u16` and the others, `lba_range`, `sector`, `ensure_zero`
--   Image/Gpt           `validate_raw_gpt_layout`; Spec is what it is compared with
--   Image/Fat           `validate_raw_fat32_layout`, `validate_canonical_fat_entries`
--   Image/Scenario      `BootScenario`, `parse_scenario`
--   Image/Payload       `validate_uefi_loader`, `validate_kernel_elf`
--   Image/Files         `read_fat_file`
--   Image/Directory     `validate_directory`, `ensure_fixed_timestamp`
--   Image/Build         `build_image_bytes`, `validate_image_bytes` and what they call
--   Image/Sample        a whole image as test data
-- Base: lists over the native numbers, outcomes, bits, bytes, UTF-8, and the loop that reads a file by
--   chunks (Base/Chunks).
--
-- Numbers. A value of a type `uN` is a natural number, and a byte slice is a list of numbers below
-- 256. An addition that the source checks is written with its bound; one that it does not check
-- panics at its bound, as in a build with overflow checks. `usize` has 64 bits.
--
-- Outcomes. A `Result` is `ok`, `err` or `panic`; the last stands for a slice out of range, an
-- arithmetic overflow and a failed debug assertion. A method with `&mut self` takes the state and
-- returns it.
--
-- Fuel. `LoadSegments::next` runs one round for each header that is left, and the loop over the
-- segments makes one call more than there are headers, so that neither stops early. The loop of
-- `validate_program_headers` runs over its range. The loops of `Lexer::next` have a round for each
-- character of the source, and an iteration makes one call more than there are characters; each item
-- takes a character. The loops of `read_fat_file` and `read_bounded_file` have two rounds more than their
-- maximum, since each round but the last adds a byte.
--
-- Parameters. The constants of `MemoryType` and the entries of the memory map come from the crate
-- uefi, which is not part of the repository; the loader's definitions take them as arguments, and the
-- files, the page allocation, the exit from the boot services and the memory as records. The
-- kernel reads its contract through a raw pointer; the memory behind it is an argument. The exit status
-- that QEMU gives for a guest value is an argument, with the documented value as a hypothesis. The
-- inspector takes its SHA-256 digest as an argument, and what the file system says of its two paths. The
-- image code takes what it calls of the crates gpt, fatfs, uuid and sha2 as a record of functions.
--
-- Not modelled: the jump of crates/uefi-loader to the kernel, which is assembly, the port input and output of crates/arch-x86_64, the processes, builds and reports of
-- crates/xtask and its file writes, the command line of crates/polyctl, and the assembly and the linker
-- script under arch/. The accessors that only return a field are the fields of the records.
pub mod Base
pub mod Contract
pub mod Elf
pub mod Kernel
pub mod Loader
pub mod Compiler
pub mod Harness
pub mod Inspect
pub mod Image
