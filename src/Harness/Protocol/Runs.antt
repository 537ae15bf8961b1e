-- ===== src/Harness/Protocol/Runs.antt =====
-- crates/xtask/src/qemu.rs: one line of a log.
use Prim.Native.String.{String}
use polytope_os.Base.{ℕ, ◌≡◌, ◌≢◌, ◌⊎◌, inl, inr, refl, arith, ltb}
use polytope_os.Base.{List, length, list_eq}
use polytope_os.Base.{Bool, true, Bool-cases, Option, none, some, Option-cases}
use polytope_os.Harness.Text.{codes, starts_with}
use polytope_os.Harness.Protocol
use polytope_os.Harness.Records

abbrev pub is_record : List ℕ → Bool
is_record line = starts_with line (codes "POLYTOPE_BOOT")

first_reason-ne-none : (o : Option String) (r : String) → Protocol.first_reason o r ≢ none
unfolding Protocol.first_reason
first_reason-ne-none none r e = cc
first_reason-ne-none (some x) r e = cc

pub data IsTransition (m : Protocol.MarkerEvidence)
    : Protocol.TraceState
      → Records.RecordKind
      → Protocol.TraceState
      → Protocol.MarkerEvidence
      → Type 0 where
  starts : IsTransition m Protocol.start Records.loader_start Protocol.loader_started m
  validates : IsTransition m Protocol.loader_started Records.elf_valid Protocol.elf_validated m
  hands_over : IsTransition m Protocol.elf_validated Records.handoff Protocol.handoff_ready m
  is_ready :
      {code : Option String}
      → IsTransition m Protocol.handoff_ready Records.ready_record Protocol.terminal
          (record m { ready = true; terminal_code = code })
  fails :
      {s : Protocol.TraceState} {kind : Records.RecordKind} {m' : Protocol.MarkerEvidence}
      → ¬ (s ≡ Protocol.terminal)
      → m'.ready ≡ m.ready
      → IsTransition m s kind Protocol.terminal m'

some_eq {ℓ} : {A : Type ℓ} {x y : A} → ◌≡◌ {A = Option A} (some x) (some y) → x ≡ y
some_eq e = cc

transition-IsTransition :
    (s : Protocol.TraceState) (kind : Records.RecordKind) (m : Protocol.MarkerEvidence)
    → (Protocol.transition s kind m ≡ none)
      ⊎ ((s' : Protocol.TraceState) × (m' : Protocol.MarkerEvidence) × (Protocol.transition s kind m
            ≡ some (s', m'))
          × IsTransition m s kind s' m')
unfolding Protocol.transition
transition-IsTransition Protocol.start Records.loader_start m = inr (_, _, refl, starts)
transition-IsTransition Protocol.loader_started Records.elf_valid m = inr (_, _, refl, validates)
transition-IsTransition Protocol.loader_started Records.loader_failure_sequence2 m =
    inr (_, _, refl, fails (λ e. cc) refl)
transition-IsTransition Protocol.elf_validated Records.loader_failure_sequence3 m =
    inr (_, _, refl, fails (λ e. cc) refl)
transition-IsTransition Protocol.handoff_ready Records.loader_failure_sequence4 m =
    inr (_, _, refl, fails (λ e. cc) refl)
transition-IsTransition Protocol.elf_validated Records.handoff m = inr (_, _, refl, hands_over)
transition-IsTransition Protocol.handoff_ready Records.ready_record m = inr (_, _, refl, is_ready)
transition-IsTransition Protocol.handoff_ready Records.abi_version m =
    inr (_, _, refl, fails (λ e. cc) refl)
transition-IsTransition Protocol.handoff_ready Records.contract_length m =
    inr (_, _, refl, fails (λ e. cc) refl)
transition-IsTransition Protocol.handoff_ready Records.contract_invalid m =
    inr (_, _, refl, fails (λ e. cc) refl)
transition-IsTransition Protocol.handoff_ready Records.panicked m =
    inr (_, _, refl, fails (λ e. cc) refl)
transition-IsTransition s kind m = inl refl

-- The record is the one of its kind, where only one record has the kind.
pub record_kind-marker :
    (line : List ℕ)
    → (Records.record_kind line ≡ some Records.loader_start
        → list_eq line Records.loader_start_marker ≡ true)
      × (Records.record_kind line ≡ some Records.elf_valid
          → list_eq line Records.elf_valid_marker ≡ true)
      × (Records.record_kind line ≡ some Records.handoff
          → list_eq line Records.handoff_ready_marker ≡ true)
      × (Records.record_kind line ≡ some Records.ready_record
          → list_eq line Records.ready_marker ≡ true)
unfolding Records.record_kind Records.loader_failure_kind
record_kind-marker line =
    (λ e. ground arith, λ e. ground arith, λ e. ground arith, λ e. ground arith)

-- What a record that is not refused did.
pub record Taken (line : List ℕ) (m m' : Protocol.Monitor) : Type 0 where
  pub kind : Records.RecordKind
  pub is_kind : Records.record_kind line ≡ some kind
  pub unviolated : m.trace.violation ≡ none
  pub moved : IsTransition m.trace.markers m.state kind m'.state m'.trace.markers

pub reject-violates :
    (reason : String) (m : Protocol.Monitor) → (Protocol.reject reason m).trace.violation ≢ none
unfolding Protocol.reject
reject-violates reason m = first_reason-ne-none m.trace.violation reason

take_record-Taken :
    (line : List ℕ) (kind : Records.RecordKind) (m : Protocol.Monitor) (sequence : ℕ)
    → Records.record_kind line ≡ some kind
    → (Protocol.take_record kind (record m { last_sequence = some sequence })).trace.violation
      ≡ none
    → Taken line m (Protocol.take_record kind (record m { last_sequence = some sequence }))
unfolding Protocol.take_record
take_record-Taken line kind m sequence k e =
    elim (transition-IsTransition m.state kind m.trace.markers) [
      | inl refused ↦
          absurd (reject-violates _ (record m { last_sequence = some sequence }) (rw refused at e))
      | inr (s', m', moved, is) ↦ record {
        kind = kind;
        is_kind = k;
        unviolated = rw moved at e;
        moved = rw moved is;
      }
    ]

pub process-Taken :
    (line : List ℕ) (m : Protocol.Monitor)
    → is_record line ≡ true
    → (Protocol.process_protocol_line line m).trace.violation ≡ none
    → Taken line m (Protocol.process_protocol_line line m)
unfolding Protocol.process_protocol_line
process-Taken line m r e = elim (Bool-cases (ltb 256 (length line))) [
  | inl long ↦ absurd (reject-violates _ m (rw (r, long) at e))
  | inr short ↦ elim (Bool-cases (Records.valid_record_grammar line)) [
    | inr malformed ↦ absurd (reject-violates _ m (rw (r, short, malformed) at e))
    | inl formed ↦ elim (Option-cases (Records.record_sequence line)) [
      | inl absent ↦ absurd (reject-violates _ m (rw (r, short, formed, absent) at e))
      | inr (sequence, seq) ↦
          elim (Bool-cases (Protocol.is_out_of_order m.last_sequence sequence)) [
            | inl behind ↦ absurd (reject-violates _ m (rw (r, short, formed, seq, behind) at e))
            | inr ahead ↦ elim (Option-cases (Records.record_kind line)) [
              | inl unknown ↦ absurd (
                  reject-violates _ (record m { last_sequence = some sequence })
                    (rw (r, short, formed, seq, ahead, unknown) at e))
              | inr (kind, k) ↦
                  rw (r, short, formed, seq, ahead, k)
                    (take_record-Taken line kind m sequence k
                      (rw (r, short, formed, seq, ahead, k) at e))
            ]
          ]
    ]
  ]
]
