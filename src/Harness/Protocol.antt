-- ===== src/Harness/Protocol.antt =====
-- crates/xtask/src/qemu.rs: the monitor of the diagnostic records, and `classify_boot`.
pub mod Runs
pub mod Ready
use Prim.Native.String.{String}
use polytope_os.Base.{ℕ, ltb, leb, ◌==◌, List, [], ◌∷◌, ◌++◌, length, drop, list_eq, get_elem?}
use polytope_os.Base.{Bool, true, false, not, ◌&&◌, ◌||◌, if◌then◌else◌, Option, none, some}
use polytope_os.Base.{match_option}
use polytope_os.Harness.Records.{
  RecordKind, max_diagnostic_record_bytes, valid_record_grammar, record_sequence, record_kind,
  loader_start, elf_valid, handoff, ready_record, abi_version, contract_length, contract_invalid,
  panicked, loader_failure_sequence2, loader_failure_sequence3, loader_failure_sequence4,
}
use polytope_os.Harness.Text.{
  codes, starts_with, strip_prefix, all, fields_of, is_digit, is_lowercase, is_uppercase, parse_u16,
  strip_return,
}

pub record MarkerEvidence : Type 0 where
  pub ready : Bool
  pub rejected : Bool
  pub panic : Bool
  pub terminal_code : Option String

pub record ProtocolTrace : Type 0 where
  pub markers : MarkerEvidence
  pub violation : Option String

pub data TraceState : Type 0 where
  start loader_started elf_validated handoff_ready terminal : TraceState

abbrev pub no_markers : MarkerEvidence
no_markers = record { ready = false; rejected = false; panic = false; terminal_code = none }

-- `ProtocolTrace::new`
abbrev pub new_trace : Bool → ProtocolTrace
new_trace log_truncated = record {
  markers = no_markers;
  violation =
      if log_truncated then some "debugcon exceeded the bounded protocol log size" else none;
}

-- The variables of the loop of `parse_protocol_stream`.
pub record Monitor : Type 0 where
  pub state : TraceState
  pub last_sequence : Option ℕ
  pub trace : ProtocolTrace

-- `ProtocolTrace::reject` keeps the first reason.
pub first_reason : Option String → String → Option String
first_reason none reason = some reason
first_reason (some earlier) reason = some earlier

pub reject : String → Monitor → Monitor
unfolding first_reason
reject reason m = record m {
  trace = record (m.trace) { violation = first_reason m.trace.violation reason };
}

-- The `match` on the state and the kind: the next state, and the markers.
pub transition : TraceState → RecordKind → MarkerEvidence → Option (TraceState × MarkerEvidence)
transition start loader_start m = some (loader_started, m)
transition loader_started elf_valid m = some (elf_validated, m)
transition loader_started loader_failure_sequence2 m = some (terminal, m)
transition elf_validated loader_failure_sequence3 m = some (terminal, m)
transition handoff_ready loader_failure_sequence4 m = some (terminal, m)
transition elf_validated handoff m = some (handoff_ready, m)
transition handoff_ready ready_record m =
    some (terminal, record m { ready = true; terminal_code = some "KERNEL_READY" })
transition handoff_ready abi_version m =
    some (terminal, record m { rejected = true; terminal_code = some "ABI_VERSION" })
transition handoff_ready contract_length m =
    some (terminal, record m { rejected = true; terminal_code = some "CONTRACT_LENGTH" })
transition handoff_ready contract_invalid m =
    some (terminal, record m { rejected = true; terminal_code = some "CONTRACT_INVALID" })
transition handoff_ready panicked m =
    some (terminal, record m { panic = true; terminal_code = some "KERNEL_PANIC" })
transition state kind m = none

-- `last_sequence.is_some_and(|previous| sequence <= previous)`
pub is_out_of_order : Option ℕ → ℕ → Bool
is_out_of_order none sequence = false
is_out_of_order (some previous) sequence = leb sequence previous

-- What a record of a kind does to the monitor.
pub take_record : RecordKind → Monitor → Monitor
unfolding transition reject
take_record kind m =
    match_option (reject "duplicate or out-of-order diagnostic record" m)
      (λ (state, markers). record m {
        state = state;
        trace = record (m.trace) { markers = markers };
      })
      (transition m.state kind m.trace.markers)

pub process_protocol_line : List ℕ → Monitor → Monitor
unfolding reject valid_record_grammar record_sequence record_kind is_out_of_order take_record
process_protocol_line line m =
    if not (starts_with line (codes "POLYTOPE_BOOT"))
    then m
    else if ltb max_diagnostic_record_bytes (length line)
    then reject "overlong diagnostic record" m
    else if not (valid_record_grammar line)
    then reject "malformed diagnostic record" m
    else match_option (reject "malformed diagnostic sequence" m)
        (λ sequence.
          let m' = record m { last_sequence = some sequence } in
          if is_out_of_order m.last_sequence sequence
          then reject "duplicate or out-of-order diagnostic sequence" m
          else match_option (reject "unknown schema-1 diagnostic record" m')
              (λ kind. take_record kind m') (record_kind line))
        (record_sequence line)

-- The loop over the bytes: `line` is what stands between `line_start` and the index.
pub scan : List ℕ → List ℕ → Monitor → Monitor
unfolding process_protocol_line reject
scan line [] m =
    if starts_with line (codes "POLYTOPE_BOOT") then reject "truncated diagnostic record" m else m
scan line (b ∷ bytes) m =
    let next : List ℕ × Monitor =
      if b == b'\n'
      then ([], process_protocol_line (strip_return line) m)
      else (line ++ (b ∷ []), m) in
    scan next.0 bytes next.1

unfoldable pub parse_protocol_stream : List ℕ → Bool → ProtocolTrace
unfolding scan
parse_protocol_stream bytes log_truncated =
    (scan [] bytes
      (record { state = start; last_sequence = none; trace = new_trace log_truncated })).trace

pub data BootClassification : Type 0 where
  ready rejected panic timeout unexpected_exit missing_marker loader_failure : BootClassification

-- `exit_status` in the arms of `classify_boot`
pub is_status : Option ℕ → ℕ → Bool
is_status none status = false
is_status (some exit_status) status = exit_status == status

abbrev pub ready_exit_status : ℕ
ready_exit_status = 33

abbrev pub reject_exit_status : ℕ
reject_exit_status = 65

abbrev pub panic_exit_status : ℕ
panic_exit_status = 67

-- The `match` of `classify_boot`.
pub classify_markers : MarkerEvidence → Option ℕ → BootClassification
unfolding is_status
classify_markers m exit_status =
    if m.ready && not m.rejected && not m.panic && is_status exit_status ready_exit_status
    then ready
    else if not m.ready && m.rejected && not m.panic && is_status exit_status reject_exit_status
    then rejected
    else if not m.ready && not m.rejected && m.panic && is_status exit_status panic_exit_status
    then panic
    else if not m.ready && not m.rejected && not m.panic && is_status exit_status 69
    then loader_failure
    else if not m.ready
        && not m.rejected
        && not m.panic
        && (is_status exit_status ready_exit_status
            || is_status exit_status reject_exit_status
            || is_status exit_status panic_exit_status)
    then missing_marker
    else unexpected_exit

unfoldable pub classify_boot : Bool → Option ℕ → ProtocolTrace → BootClassification
unfolding classify_markers
classify_boot timed_out exit_status trace =
    if timed_out
    then timeout
    else match_option (classify_markers trace.markers exit_status) (λ reason. unexpected_exit)
        trace.violation
