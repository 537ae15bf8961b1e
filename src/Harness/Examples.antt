-- ===== src/Harness/Examples.antt =====
-- A concrete log of a boot that reached the kernel.
use polytope_os.Base.{ℕ, ◌≡◌, refl, List, [], ◌∷◌, ◌++◌, Bool, false, Option, some, list_eq, drop}
use polytope_os.Harness.Text.{
  starts_with, strip_prefix, all, split_spaces, is_digit, is_lowercase, is_uppercase, parse_digits,
  parse_u16, strip_return,
}
use polytope_os.Harness.Records.{
  loader_start_marker, elf_valid_marker, handoff_ready_marker, ready_marker, valid_record_grammar,
  record_sequence, record_kind, loader_failure_kind,
}
use polytope_os.Harness.Protocol.{ready, parse_protocol_stream, classify_boot}
use polytope_os.Harness.Protocol.Ready.{records, lines_of, classify_boot_ready}

abbrev newline : List ℕ
newline = b'\n' ∷ []

abbrev log : List ℕ
log =
    loader_start_marker
    ++ (newline
        ++ (elf_valid_marker
            ++ (newline ++ (handoff_ready_marker ++ (newline ++ (ready_marker ++ newline))))))

log-classify_boot : classify_boot false (some 33) (parse_protocol_stream log false) ≡ ready
unfolding classify_boot parse_protocol_stream starts_with strip_prefix all split_spaces is_digit
    is_lowercase is_uppercase parse_digits parse_u16 strip_return valid_record_grammar
    record_sequence record_kind loader_failure_kind list_eq drop
log-classify_boot = refl

classify_boot_ready_example :
    (◌≡◌ {A = Bool} false false)
    × (◌≡◌ {A = Option ℕ} (some 33) (some 33))
    × (records (lines_of [] log)
        ≡ loader_start_marker ∷ elf_valid_marker ∷ handoff_ready_marker ∷ ready_marker ∷ [])
classify_boot_ready_example = classify_boot_ready false (some 33) log false log-classify_boot
