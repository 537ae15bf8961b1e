-- ===== src/Kernel/Boot.antt =====
-- crates/kernel/src/lib.rs: `BootPhase`, `BootError` and `BootState`.
pub mod Order
use polytope_os.Base.{Bool, true, false, not, if◌then◌else◌, Result, ok, err, List, [], ◌∷◌}

pub data BootPhase : Type 0 where
  reset early_architecture memory_ready runtime_ready : BootPhase

pub data BootError : Type 0 where
  invalid_transition : BootPhase → BootPhase → BootError

pub record BootState : Type 0 where
  pub phase : BootPhase

-- `BootState::new`
abbrev pub new : BootState
new = record { phase = reset }

-- The `matches!` of `transition`.
pub is_next : BootPhase → BootPhase → Bool
is_next reset early_architecture = true
is_next early_architecture memory_ready = true
is_next memory_ready runtime_ready = true
is_next from to = false

-- What `transition` returns, and the state behind it.
pub transition : BootState → BootPhase → Result BootError (Unit {0}) × BootState
unfolding is_next
transition self next =
    if not (is_next self.phase next)
    then (err (invalid_transition self.phase next), self)
    else (ok tt, record self { phase = next })
