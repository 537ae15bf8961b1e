-- ===== src/Image/Scenario.antt =====
-- crates/xtask/src/image.rs: `BootScenario` and `parse_scenario`.
pub mod Tokens
use polytope_os.Base.{
  ℕ, ◌+◌, ◌==◌, List, [], ◌∷◌, ◌++◌, length, list_eq, Bool, true, false, ◌&&◌, if◌then◌else◌,
}
use polytope_os.Base.{Result, ok, err, ◌>>=◌, ◌>>◌, ok_or}
use polytope_os.Base.Utf8.{from_utf8}
use polytope_os.Harness.Text.{codes}
use polytope_os.Inspect.Words.{lines}
use polytope_os.Image.Types.{ImageError, ensure}
use polytope_os.Image.Types

pub data BootScenario : Type 0 where
  normal bad_version truncated panic : BootScenario

unfoldable pub as_str : BootScenario → List ℕ
as_str normal = codes "normal"
as_str bad_version = codes "bad-version"
as_str truncated = codes "truncated"
as_str panic = codes "panic"

-- `BootScenario::from_str`
unfoldable pub from_str : List ℕ → Result ImageError BootScenario
from_str value =
    if list_eq value (codes "normal")
    then ok normal
    else if list_eq value (codes "bad-version")
    then ok bad_version
    else if list_eq value (codes "truncated")
    then ok truncated
    else if list_eq value (codes "panic")
    then ok panic
    else err Types.unknown_scenario

-- `ends_with('\n')`
unfoldable pub ends_with_newline : List ℕ → Bool
ends_with_newline [] = false
ends_with_newline (c ∷ []) = c == b'\n'
ends_with_newline (c ∷ d ∷ cs) = ends_with_newline (d ∷ cs)

unfoldable pub drop_newline : ℕ → List ℕ → List ℕ
drop_newline c [] = if c == b'\n' then [] else c ∷ []
drop_newline c (d ∷ cs) = c ∷ d ∷ cs

-- `trim_end_matches('\n')`
unfoldable pub trim_newlines : List ℕ → List ℕ
unfolding drop_newline
trim_newlines [] = []
trim_newlines (c ∷ cs) = drop_newline c (trim_newlines cs)

unfoldable pub parse_scenario : List ℕ → Result ImageError BootScenario
parse_scenario bytes = do
  text ← ok_or (from_utf8 bytes) Types.not_utf8
  ensure (ends_with_newline text && length (lines text) == 1) Types.not_one_token
  from_str (trim_newlines text)
