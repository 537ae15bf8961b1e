-- ===== src/Loader/Scenario.antt =====
-- crates/uefi-loader/src/lib.rs: `BootScenario` and `ScenarioError`.
pub mod Tokens
use polytope_os.Base.{ℕ, ltb, List, [], ◌∷◌, length, list_eq, Bool, true, not, ◌&&◌}
use polytope_os.Base.{if◌then◌else◌, Result, ok, err, ◌>>◌, ◌>>=◌, reject}

abbrev pub max_scenario_bytes : ℕ
max_scenario_bytes = 32

pub data BootScenario : Type 0 where
  normal incompatible_version truncated_contract deliberate_panic : BootScenario

pub data ScenarioError : Type 0 where
  empty too_long non_ascii unknown : ScenarioError

-- `is_ascii` of a byte slice
pub is_ascii : List ℕ → Bool
is_ascii [] = true
is_ascii (b ∷ bs) = ltb b 128 && is_ascii bs

abbrev pub normal_file : List ℕ
normal_file = b'n' ∷ b'o' ∷ b'r' ∷ b'm' ∷ b'a' ∷ b'l' ∷ b'\n' ∷ []

abbrev pub bad_version_file : List ℕ
bad_version_file =
    b'b' ∷ b'a' ∷ b'd' ∷ b'-' ∷ b'v' ∷ b'e' ∷ b'r' ∷ b's' ∷ b'i' ∷ b'o' ∷ b'n' ∷ b'\n' ∷ []

abbrev pub truncated_file : List ℕ
truncated_file = b't' ∷ b'r' ∷ b'u' ∷ b'n' ∷ b'c' ∷ b'a' ∷ b't' ∷ b'e' ∷ b'd' ∷ b'\n' ∷ []

abbrev pub panic_file : List ℕ
panic_file = b'p' ∷ b'a' ∷ b'n' ∷ b'i' ∷ b'c' ∷ b'\n' ∷ []

-- The `match` of `parse`.
pub match_token : List ℕ → Result ScenarioError BootScenario
match_token bytes =
    if list_eq bytes normal_file
    then ok normal
    else if list_eq bytes bad_version_file
    then ok incompatible_version
    else if list_eq bytes truncated_file
    then ok truncated_contract
    else if list_eq bytes panic_file
    then ok deliberate_panic
    else if list_eq bytes []
    then err empty
    else err unknown

-- `BootScenario::parse`
unfoldable pub parse : List ℕ → Result ScenarioError BootScenario
unfolding is_ascii match_token
parse bytes = do
  reject (ltb max_scenario_bytes (length bytes)) too_long
  reject (not (is_ascii bytes)) non_ascii
  match_token bytes
