-- ===== src/Kernel/Examples.antt =====
-- Concrete sequences of requests for the boot phases.
use polytope_os.Base.{◌≡◌, List, [], ◌∷◌}
use polytope_os.Kernel.Boot.{BootPhase, reset, early_architecture, memory_ready, new}
use polytope_os.Kernel.Boot.Order.{run, history, boot_order_kept}

-- The memory phase is asked for too early, and the first phase twice.
abbrev requests : List BootPhase
requests = memory_ready ∷ early_architecture ∷ early_architecture ∷ memory_ready ∷ reset ∷ []

boot_order_kept_example : (run requests new).0 ≡ history (run requests new).1.phase
boot_order_kept_example = boot_order_kept requests
