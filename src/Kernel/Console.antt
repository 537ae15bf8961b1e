-- ===== src/Kernel/Console.antt =====
-- crates/arch-x86_64/src/lib.rs: `write_record`, by the bytes that it sends to the debug console. The
-- serial port gets a copy.
use polytope_os.Base.{ℕ, List, [], ◌∷◌, ◌++◌, take}

abbrev pub max_record_bytes : ℕ
max_record_bytes = 256

unfoldable pub write_record : List ℕ → List ℕ
write_record record_bytes = take max_record_bytes record_bytes ++ (b'\n' ∷ [])
