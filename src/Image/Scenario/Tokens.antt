-- ===== src/Image/Scenario/Tokens.antt =====
-- crates/xtask/src/image.rs and crates/uefi-loader/src/lib.rs: the scenario files of the image builder
-- and of the loader.
use polytope_os.Base.{
  ℕ, ◌≤◌, ◌==◌, ◌≡◌, ◌↔◌, refl, sym, ap, ◌∙◌, arith, List, [], ◌∷◌, ◌++◌, length, list_eq,
  list_eq_iff, true, false, ◌&&◌,
}
use polytope_os.Base.{ok, some, >>=-eq-ok, ok_or}
use polytope_os.Base.Utf8.{from_utf8}
use polytope_os.Base.Utf8.Ascii.{IsAscii, ascii_decoded}
use polytope_os.Inspect.Words.{lines, push_line}
use polytope_os.Image.Types.{ImageError, ensure}
use polytope_os.Image.Types
use polytope_os.Image.Scenario.{
  BootScenario, normal, bad_version, truncated, panic, as_str, from_str, ends_with_newline,
  trim_newlines, drop_newline, parse_scenario,
}
use polytope_os.Loader.Scenario
use polytope_os.Loader.Scenario.Tokens.{file_of, scenario_parse_iff}

-- The file that the builder writes for a scenario.
abbrev pub scenario_file : BootScenario → List ℕ
scenario_file s = as_str s ++ b'\n' ∷ []

from_str-eq-ok :
    (value : List ℕ) (s : BootScenario) → from_str value ≡ ok s → list_eq value (as_str s) ≡ true
unfolding from_str as_str
from_str-eq-ok value normal e = ground arith
from_str-eq-ok value bad_version e = ground arith
from_str-eq-ok value truncated e = ground arith
from_str-eq-ok value panic e = ground arith

some_lines : (c : ℕ) (cs : List ℕ) → 1 ≤ length (lines (c ∷ cs))
unfolding lines
some_lines c [] = ground arith
some_lines c (d ∷ cs) = ground (arith, some_lines d cs)

length-push_line :
    (c : ℕ) (ls : List (List ℕ)) → 1 ≤ length ls → length (push_line c ls) ≡ length ls
unfolding push_line
length-push_line c [] h = absurd (omega arith)
length-push_line c (l ∷ ls) h = refl

drop_other : (c : ℕ) (cs : List ℕ) → (c == b'\n') ≡ false → drop_newline c cs ≡ c ∷ cs
unfolding drop_newline
drop_other c [] h = rw h
drop_other c (d ∷ cs) h = refl

-- A text of one line that ends with a newline.
one_line :
    (text : List ℕ)
    → ends_with_newline text ≡ true
    → length (lines text) ≡ 1
    → text ≡ trim_newlines text ++ b'\n' ∷ []
unfolding ends_with_newline lines trim_newlines
one_line [] e h = cc
one_line (c ∷ []) e h = ground arith
one_line (c ∷ d ∷ cs) e h =
    let nonempty = some_lines d cs in
    let pushed = length-push_line c (lines (d ∷ cs)) nonempty in
    let other : (c == b'\n') ≡ false = ground (arith, nonempty) in
    let single : length (lines (d ∷ cs)) ≡ 1 = ground (arith, pushed, nonempty) in
    rw (drop_other c (trim_newlines (d ∷ cs)) other) (ap (λ x. c ∷ x) (one_line (d ∷ cs) e single))

file_of_text :
    (text : List ℕ) (s : BootScenario)
    → (ends_with_newline text && length (lines text) == 1) ≡ true
    → from_str (trim_newlines text) ≡ ok s
    → text ≡ scenario_file s
file_of_text text s shape e =
    let trimmed = (list_eq_iff (trim_newlines text) (as_str s)).0 (from_str-eq-ok _ s e) in
    one_line text (ground (arith, shape)) (ground (arith, shape))
    ∙ ap (λ x. x ++ b'\n' ∷ []) trimmed

scenario_file-IsAscii : (s : BootScenario) → IsAscii (scenario_file s)
unfolding as_str
scenario_file-IsAscii normal = omega arith
scenario_file-IsAscii bad_version = omega arith
scenario_file-IsAscii truncated = omega arith
scenario_file-IsAscii panic = omega arith

parse_scenario-file : (s : BootScenario) → parse_scenario (scenario_file s) ≡ ok s
unfolding parse_scenario as_str from_str ends_with_newline trim_newlines lines from_utf8 list_eq
parse_scenario-file normal = refl
parse_scenario-file bad_version = refl
parse_scenario-file truncated = refl
parse_scenario-file panic = refl

file-parse_scenario :
    (bytes : List ℕ) (s : BootScenario) → parse_scenario bytes ≡ ok s → bytes ≡ scenario_file s
unfolding parse_scenario
file-parse_scenario bytes s e =
    let (text, decoded, e1) = >>=-eq-ok (ok_or (from_utf8 bytes) Types.not_utf8) _ e in
    let (u, shape, e2) =
      >>=-eq-ok (ensure (ends_with_newline text && length (lines text) == 1) Types.not_one_token) _
        e1 in
    let is_file = file_of_text text s (ground (arith, shape)) e2 in
    let from_bytes : from_utf8 bytes ≡ some (scenario_file s) = ground (arith, decoded, is_file) in
    ascii_decoded bytes (scenario_file s) (scenario_file-IsAscii s) from_bytes

-- The scenario that the loader reads from the builder's file.
abbrev pub loader_scenario : BootScenario → Scenario.BootScenario
loader_scenario normal = Scenario.normal
loader_scenario bad_version = Scenario.incompatible_version
loader_scenario truncated = Scenario.truncated_contract
loader_scenario panic = Scenario.deliberate_panic

same_file : (s : BootScenario) → scenario_file s ≡ file_of (loader_scenario s)
unfolding as_str
same_file normal = refl
same_file bad_version = refl
same_file truncated = refl
same_file panic = refl

-- The image validator reads a scenario from a file just where the file is the one that the builder
-- writes for it, the name and one newline; and just where the loader's parser reads the corresponding
-- scenario from the same bytes.
pub scenario_file_iff :
    (bytes : List ℕ) (s : BootScenario)
    → ((parse_scenario bytes ≡ ok s) ↔ (bytes ≡ scenario_file s))
      × ((parse_scenario bytes ≡ ok s) ↔ (Scenario.parse bytes ≡ ok (loader_scenario s)))
scenario_file_iff bytes s =
    let to_file = file-parse_scenario bytes s in
    let from_file : bytes ≡ scenario_file s → parse_scenario bytes ≡ ok s =
      λ e. rw e (parse_scenario-file s) in
    (
      (to_file, from_file),
      (
        λ e. (scenario_parse_iff bytes (loader_scenario s)).1 (to_file e ∙ same_file s),
        λ e. from_file ((scenario_parse_iff bytes (loader_scenario s)).0 e ∙ sym (same_file s)),
      ),
    )
