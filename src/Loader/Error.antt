-- ===== src/Loader/Error.antt =====
-- crates/uefi-loader/src/main.rs: `LoaderError` and its records.
use Prim.Native.String.{String}

pub data LoaderError : Type 0 where
  file_read config_invalid elf_invalid allocation kernel_address contract_storage contract :
      LoaderError

pub marker : LoaderError → String
marker file_read = "POLYTOPE_BOOT schema=1 seq=0002 phase=loader level=error code=FILE_READ"
marker config_invalid =
    "POLYTOPE_BOOT schema=1 seq=0002 phase=loader level=error code=CONFIG_INVALID"
marker elf_invalid = "POLYTOPE_BOOT schema=1 seq=0002 phase=loader level=error code=ELF_INVALID"
marker allocation = "POLYTOPE_BOOT schema=1 seq=0002 phase=loader level=error code=ALLOCATION"
marker kernel_address =
    "POLYTOPE_BOOT schema=1 seq=0002 phase=loader level=error code=KERNEL_ADDRESS"
marker contract_storage =
    "POLYTOPE_BOOT schema=1 seq=0002 phase=loader level=error code=CONTRACT_STORAGE"
marker contract = "POLYTOPE_BOOT schema=1 seq=0003 phase=handoff level=error code=CONTRACT_BUILD"
