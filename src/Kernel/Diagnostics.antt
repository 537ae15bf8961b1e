-- ===== src/Kernel/Diagnostics.antt =====
-- crates/kernel/src/diagnostics.rs, and `QemuExitCode` of crates/arch-x86_64/src/lib.rs.
use Prim.Native.String.{String}
use polytope_os.Base.{ℕ}

abbrev pub kernel_ready : String
kernel_ready = "POLYTOPE_BOOT schema=1 seq=0004 phase=kernel_entry level=info code=KERNEL_READY"

abbrev pub abi_version_rejected : String
abi_version_rejected =
    "POLYTOPE_BOOT schema=1 seq=0004 phase=kernel_entry level=error code=ABI_VERSION"

abbrev pub contract_length_rejected : String
contract_length_rejected =
    "POLYTOPE_BOOT schema=1 seq=0004 phase=kernel_entry level=error code=CONTRACT_LENGTH"

abbrev pub contract_invalid : String
contract_invalid =
    "POLYTOPE_BOOT schema=1 seq=0004 phase=kernel_entry level=error code=CONTRACT_INVALID"

abbrev pub kernel_panic : String
kernel_panic = "POLYTOPE_BOOT schema=1 seq=0005 phase=panic level=fatal code=KERNEL_PANIC"

pub data QemuExitCode : Type 0 where
  success contract_rejected panicked loader_failure kernel_returned : QemuExitCode

-- `code as u32`
unfoldable pub guest_value : QemuExitCode → ℕ
guest_value success = 0x10
guest_value contract_rejected = 0x20
guest_value panicked = 0x21
guest_value loader_failure = 0x22
guest_value kernel_returned = 0x23
