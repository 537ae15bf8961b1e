-- ===== src/Kernel/Boot/Order.antt =====
-- crates/kernel/src/lib.rs: sequences of requests for a transition.
use polytope_os.Base.{ℕ, ◌≡◌, List, [], ◌∷◌, ◌++◌, append-nil}
use polytope_os.Base.{ok, err, panic, take}
use polytope_os.Kernel.Boot.{
  BootPhase, reset, early_architecture, memory_ready, runtime_ready, BootState, new, transition,
}

-- The phases behind `reset`, in the order of a boot.
abbrev pub boot_order : List BootPhase
boot_order = early_architecture ∷ memory_ready ∷ runtime_ready ∷ []

-- The number of transitions that lead to a phase.
abbrev pub rank : BootPhase → ℕ
rank reset = 0
rank early_architecture = 1
rank memory_ready = 2
rank runtime_ready = 3

-- The phases that a sequence of requests enters, and the state behind it.
pub run : List BootPhase → BootState → List BootPhase × BootState
unfolding transition
run [] self = ([], self)
run (next ∷ more) self =
    let (result, self') = transition self next in
    let (entered, last) = run more self' in
    elim result [
      | ok done ↦ (next ∷ entered, last)
      | err refused ↦ (entered, last)
      | panic ↦ (entered, last)
    ]

-- The phases up to one.
abbrev pub history : BootPhase → List BootPhase
history phase = take (rank phase) boot_order

run-history :
    (requests : List BootPhase) (phase : BootPhase)
    → history phase ++ (run requests (record { phase = phase })).0
      ≡ history (run requests (record { phase = phase })).1.phase
unfolding run take
run-history [] phase = append-nil _
run-history (early_architecture ∷ more) reset = run-history more early_architecture
run-history (reset ∷ more) reset = run-history more reset
run-history (memory_ready ∷ more) reset = run-history more reset
run-history (runtime_ready ∷ more) reset = run-history more reset
run-history (memory_ready ∷ more) early_architecture = run-history more memory_ready
run-history (reset ∷ more) early_architecture = run-history more early_architecture
run-history (early_architecture ∷ more) early_architecture = run-history more early_architecture
run-history (runtime_ready ∷ more) early_architecture = run-history more early_architecture
run-history (runtime_ready ∷ more) memory_ready = run-history more runtime_ready
run-history (reset ∷ more) memory_ready = run-history more memory_ready
run-history (early_architecture ∷ more) memory_ready = run-history more memory_ready
run-history (memory_ready ∷ more) memory_ready = run-history more memory_ready
run-history (reset ∷ more) runtime_ready = run-history more runtime_ready
run-history (early_architecture ∷ more) runtime_ready = run-history more runtime_ready
run-history (memory_ready ∷ more) runtime_ready = run-history more runtime_ready
run-history (runtime_ready ∷ more) runtime_ready = run-history more runtime_ready

-- Whatever transitions are asked for from a new state, the phases that are entered are the beginning
-- of the boot order, in its order, up to the phase that is reached.
pub boot_order_kept :
    (requests : List BootPhase) → (run requests new).0 ≡ history (run requests new).1.phase
unfolding run take
boot_order_kept requests = run-history requests reset
