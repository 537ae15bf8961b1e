-- ===== src/Loader/Main/Examples.antt =====
-- A boot of a concrete machine up to the transfer, and the theorem on `main` at it.
use polytope_os.Base.{ℕ, ◌≡◌, refl, arith, List, [], ◌∷◌, some, ok}
use polytope_os.Loader.Scenario.{normal}
use polytope_os.Loader.Contract.{encode_contract}
use polytope_os.Loader.Contract.Handed.{written, encode_contract_iff}
use polytope_os.Loader.Contract.Sent.{sent_length}
use polytope_os.Loader.Examples.{uefi_types, memory_map, memory_map-IsTyped, memory_map-IsUsable}
use polytope_os.Loader.Firmware.{Machine, copy_nonoverlapping}
use polytope_os.Loader.Load.{usize_from}
use polytope_os.Loader.Prepare.Examples.{
  firmware, Owns, cold, firmware-KeepsPages, firmware-ReadsBytes, loaded_memory, prepared_machine,
  prepared,
}
use polytope_os.Loader.Main.{
  ExitServices, transferred, read_bytes, jump, transfer_to_kernel, after_encode, after_exit,
  after_prepare, main,
}
use polytope_os.Loader.Main
use polytope_os.Loader.Main.Boots.{KeepsAtExit, IsStarted, length-read_bytes, main_lem}

abbrev services : ExitServices ℕ
services = record {
  exit_boot_services = λ m. some (memory_map, m);
  sort = λ descriptors. descriptors;
}

services-KeepsAtExit : KeepsAtExit firmware services uefi_types Owns
services-KeepsAtExit = record {
  keeps = λ m m' descriptors e x owned. let same : m ≡ m' = cc in rw (← same) (owned, refl);
  typed = λ m m' descriptors e.
      let same : memory_map ≡ descriptors = cc in rw (← same) memory_map-IsTyped;
}

abbrev before : List ℕ
before = read_bytes loaded_memory 0x480_0000 8192

abbrev contract : List ℕ
contract = written uefi_types memory_map normal before

encoded : encode_contract uefi_types memory_map before normal ≡ ok (4176, contract)
unfolding sent_length
encoded =
    let size = length-read_bytes loaded_memory 0x480_0000 8192 in
    (encode_contract_iff uefi_types memory_map normal before memory_map-IsTyped 4176 contract).1
      (memory_map-IsUsable, omega (arith, size), refl, refl)

abbrev kernel_machine : Machine ℕ
kernel_machine = record prepared_machine {
  memory = copy_nonoverlapping contract 0x480_0000 loaded_memory;
}

transfers : main firmware services uefi_types cold ≡ record {
  records = Main.loader_start ∷ Main.elf_valid ∷ Main.handoff_ready ∷ [];
  ending = transferred 0x20_0000 0x480_0000 4176 kernel_machine;
}
unfolding main after_prepare after_exit after_encode transfer_to_kernel jump usize_from
transfers = rw (prepared, encoded) refl

main_lem_example :
    IsStarted firmware services uefi_types Owns
      (Main.loader_start ∷ Main.elf_valid ∷ Main.handoff_ready ∷ [])
      0x20_0000
      0x480_0000
      4176
      kernel_machine
main_lem_example =
    main_lem firmware services uefi_types Owns firmware-KeepsPages services-KeepsAtExit cold
      kernel_machine (Main.loader_start ∷ Main.elf_valid ∷ Main.handoff_ready ∷ []) 0x20_0000
      0x480_0000 4176 firmware-ReadsBytes (omega arith) transfers
