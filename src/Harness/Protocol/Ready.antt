-- ===== src/Harness/Protocol/Ready.antt =====
-- crates/xtask/src/qemu.rs: the logs of a boot that reached the kernel.
use Prim.Native.String.{String}
use polytope_os.Base.{ℕ, ◌≡◌, ◌≢◌, inl, inr, refl, sym, ap, ap₂, ◌∙◌, arith, ◌==◌}
use polytope_os.Base.{List, [], ◌∷◌, ◌++◌, list_eq_iff}
use polytope_os.Base.{
  Bool, true, false, Bool-cases, Option-cases, ==_iff, Option, none, some, if◌then◌else◌,
}
use polytope_os.Harness.Text.{strip_return}
use polytope_os.Harness.Protocol
use polytope_os.Harness.Records
use polytope_os.Harness.Protocol.Runs
use polytope_os.Harness.Protocol.Runs.{
  reject-violates, is_record, IsTransition, Taken, process-Taken, record_kind-marker,
}

-- The monitor over lines.
unfoldable pub run : List (List ℕ) → Protocol.Monitor → Protocol.Monitor
run [] m = m
run (line ∷ lines) m = run lines (Protocol.process_protocol_line line m)

-- The diagnostic records among the lines.
unfoldable pub records : List (List ℕ) → List (List ℕ)
records [] = []
records (line ∷ lines) = let rest = records lines in if is_record line then line ∷ rest else rest

-- What is left of a boot in a state.
abbrev pub remaining : Protocol.TraceState → List (List ℕ)
remaining Protocol.start =
    Records.loader_start_marker ∷ Records.elf_valid_marker ∷ Records.handoff_ready_marker
    ∷ Records.ready_marker ∷ []
remaining Protocol.loader_started =
    Records.elf_valid_marker ∷ Records.handoff_ready_marker ∷ Records.ready_marker ∷ []
remaining Protocol.elf_validated = Records.handoff_ready_marker ∷ Records.ready_marker ∷ []
remaining Protocol.handoff_ready = Records.ready_marker ∷ []
remaining Protocol.terminal = []

false_ne_true : false ≢ true
false_ne_true e = cc

unexpected_ne_ready : Protocol.unexpected_exit ≢ Protocol.ready
unexpected_ne_ready e = cc

stuck :
    {m m' : Protocol.MarkerEvidence} {s s' : Protocol.TraceState} {kind : Records.RecordKind}
    → IsTransition m s kind s' m'
    → s ≢ Protocol.terminal
stuck Runs.starts e = cc
stuck Runs.validates e = cc
stuck Runs.hands_over e = cc
stuck Runs.is_ready e = cc
stuck (Runs.fails n same) e = n e

-- One record on the way to a ready kernel.
step :
    (line : List ℕ) (rest : List (List ℕ)) {m m' : Protocol.MarkerEvidence}
    {s s' : Protocol.TraceState} {kind : Records.RecordKind}
    → Records.record_kind line ≡ some kind
    → IsTransition m s kind s' m'
    → m.ready ≡ false
    → (m'.ready ≡ false → rest ≡ remaining s')
    → (s' ≡ Protocol.terminal → (rest ≡ []) × (m'.ready ≡ true))
    → line ∷ rest ≡ remaining s
step line rest k Runs.starts n more end =
    ap₂ (λ x xs. x ∷ xs) ((list_eq_iff line _).0 ((record_kind-marker line).0 k)) (more n)
step line rest k Runs.validates n more end =
    ap₂ (λ x xs. x ∷ xs) ((list_eq_iff line _).0 ((record_kind-marker line).1 k)) (more n)
step line rest k Runs.hands_over n more end =
    ap₂ (λ x xs. x ∷ xs) ((list_eq_iff line _).0 ((record_kind-marker line).2 k)) (more n)
step line rest k Runs.is_ready n more end =
    ap₂ (λ x xs. x ∷ xs) ((list_eq_iff line _).0 ((record_kind-marker line).3 k)) ((end refl).0)
step line rest k (Runs.fails a same) n more end =
    absurd (false_ne_true (sym (same ∙ n) ∙ (end refl).1))

process_skip :
    (line : List ℕ) (m : Protocol.Monitor)
    → is_record line ≡ false
    → Protocol.process_protocol_line line m ≡ m
unfolding Protocol.process_protocol_line
process_skip line m r = rw r

run_skip :
    (line : List ℕ) (lines : List (List ℕ)) (m : Protocol.Monitor)
    → is_record line ≡ false
    → run lines m ≡ run (line ∷ lines) m
unfolding run
run_skip line lines m plain = ap (run lines) (sym (process_skip line m plain))

records_skip :
    (line : List ℕ) (lines : List (List ℕ))
    → is_record line ≡ false
    → records (line ∷ lines) ≡ records lines
unfolding records
records_skip line lines plain = rw plain

records_take :
    (line : List ℕ) (lines : List (List ℕ))
    → is_record line ≡ true
    → records (line ∷ lines) ≡ line ∷ records lines
unfolding records
records_take line lines is = rw is

abbrev violation : Protocol.Monitor → Option String
violation m = m.trace.violation

abbrev is_ready : Protocol.Monitor → Bool
is_ready m = m.trace.markers.ready

run_unviolated :
    (lines : List (List ℕ)) (m : Protocol.Monitor)
    → violation (run lines m) ≡ none
    → violation m ≡ none
unfolding run
run_unviolated [] m e = e
run_unviolated (line ∷ lines) m e = elim (Bool-cases (is_record line)) [
  | inr plain ↦ run_unviolated lines m (ap violation (run_skip line lines m plain) ∙ e)
  | inl r ↦
      (process-Taken line m r
        (run_unviolated lines (Protocol.process_protocol_line line m) e)).unviolated
]

-- Behind the end of a boot there is no record.
run_terminal :
    (lines : List (List ℕ)) (m : Protocol.Monitor)
    → m.state ≡ Protocol.terminal
    → violation (run lines m) ≡ none
    → (records lines ≡ []) × (run lines m ≡ m)
unfolding run records
run_terminal [] m s e = (refl, refl)
run_terminal (line ∷ lines) m s e = elim (Bool-cases (is_record line)) [
  | inr plain ↦
      let skip = run_skip line lines m plain in
      let (left, same) = run_terminal lines m s (ap violation skip ∙ e) in
      (records_skip line lines plain ∙ left, sym skip ∙ same)
  | inl r ↦
      let first = run_unviolated lines (Protocol.process_protocol_line line m) e in
      absurd (stuck (process-Taken line m r first).moved s)
]

run_ready :
    (lines : List (List ℕ)) (m : Protocol.Monitor)
    → is_ready m ≡ false
    → violation (run lines m) ≡ none
    → is_ready (run lines m) ≡ true
    → records lines ≡ remaining m.state
unfolding run records
run_ready [] m n e r = absurd (false_ne_true (sym n ∙ r))
run_ready (line ∷ lines) m n e r = elim (Bool-cases (is_record line)) [
  | inr plain ↦
      let skip = run_skip line lines m plain in
      records_skip line lines plain
      ∙ run_ready lines m n (ap violation skip ∙ e) (ap is_ready skip ∙ r)
  | inl is ↦
      let m' = Protocol.process_protocol_line line m in
      let taken = process-Taken line m is (run_unviolated lines m' e) in
      records_take line lines is
      ∙ step line (records lines) taken.is_kind taken.moved n (λ n'. run_ready lines m' n' e r)
          (λ s.
            ((run_terminal lines m' s e).0, ap is_ready (sym (run_terminal lines m' s e).1) ∙ r))
]

-- The lines that end in a newline, without their carriage return; `line` is the beginning of the first.
unfoldable pub lines_of : List ℕ → List ℕ → List (List ℕ)
lines_of line [] = []
lines_of line (b ∷ bytes) =
    let ended = lines_of [] bytes in
    let longer = lines_of (line ++ (b ∷ [])) bytes in
    if b == b'\n' then strip_return line ∷ ended else longer

scan_lines :
    (line bytes : List ℕ) (m : Protocol.Monitor)
    → violation (Protocol.scan line bytes m) ≡ none
    → (violation (run (lines_of line bytes) m) ≡ none)
      × (is_ready (run (lines_of line bytes) m) ≡ is_ready (Protocol.scan line bytes m))
unfolding Protocol.scan run lines_of
scan_lines line [] m e = elim (Bool-cases (is_record line)) [
  | inl partial ↦ absurd (reject-violates _ m (rw partial at e))
  | inr plain ↦ (rw plain at e, rw plain)
]
scan_lines line (b ∷ bytes) m e = elim (Bool-cases (b == b'\n')) [
  | inl ends ↦
      rw ends
        (scan_lines [] bytes (Protocol.process_protocol_line (strip_return line) m) (rw ends at e))
  | inr goes_on ↦ rw goes_on (scan_lines (line ++ (b ∷ [])) bytes m (rw goes_on at e))
]

ready_of_markers :
    (m : Protocol.MarkerEvidence) (exit_status : Option ℕ)
    → Protocol.classify_markers m exit_status ≡ Protocol.ready
    → (m.ready ≡ true) × (Protocol.is_status exit_status 33 ≡ true)
unfolding Protocol.classify_markers
ready_of_markers m exit_status e = ground arith

status_of :
    (exit_status : Option ℕ) (status : ℕ)
    → Protocol.is_status exit_status status ≡ true
    → exit_status ≡ some status
unfolding Protocol.is_status
status_of none status e = cc
status_of (some s) status e = ap some ((==_iff s status).0 e)

ready_of_classify :
    (timed_out : Bool) (exit_status : Option ℕ) (trace : Protocol.ProtocolTrace)
    → Protocol.classify_boot timed_out exit_status trace ≡ Protocol.ready
    → (timed_out ≡ false)
      × (trace.violation ≡ none)
      × (trace.markers.ready ≡ true)
      × (exit_status ≡ some 33)
unfolding Protocol.classify_boot
ready_of_classify true exit_status trace e = cc
ready_of_classify false exit_status trace e = elim (Option-cases trace.violation) [
  | inr (reason, violated) ↦ absurd (unexpected_ne_ready (rw violated at e))
  | inl unviolated ↦
      let (marked, status) = ready_of_markers trace.markers exit_status (rw unviolated at e) in
      (refl, unviolated, marked, status_of exit_status 33 status)
]

-- A boot is classified as ready only if it did not time out, the emulator exited with status 33, and
-- the diagnostic records among the lines of its log are the four of a boot that reached the kernel,
-- each once and in order.
pub classify_boot_ready :
    (timed_out : Bool) (exit_status : Option ℕ) (bytes : List ℕ) (log_truncated : Bool)
    → Protocol.classify_boot timed_out exit_status
        (Protocol.parse_protocol_stream bytes log_truncated)
      ≡ Protocol.ready
    → (timed_out ≡ false)
      × (exit_status ≡ some 33)
      × (records (lines_of [] bytes)
          ≡ Records.loader_start_marker ∷ Records.elf_valid_marker ∷ Records.handoff_ready_marker
            ∷ Records.ready_marker ∷ [])
unfolding Protocol.parse_protocol_stream
classify_boot_ready timed_out exit_status bytes log_truncated e =
    let (in_time, unviolated, marked, status) =
      ready_of_classify timed_out exit_status (Protocol.parse_protocol_stream bytes log_truncated)
        e in
    let first : Protocol.Monitor = record {
      state = Protocol.start;
      last_sequence = none;
      trace = Protocol.new_trace log_truncated;
    } in
    let (clean, same) = scan_lines [] bytes first unviolated in
    (in_time, status, run_ready (lines_of [] bytes) first refl clean (same ∙ marked))
