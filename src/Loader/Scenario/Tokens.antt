-- ===== src/Loader/Scenario/Tokens.antt =====
-- crates/uefi-loader/src/lib.rs: the files that name a boot scenario.
use polytope_os.Base.{ℕ, ltb, ◌≡◌, ◌↔◌, refl, arith, List, length, list_eq}
use polytope_os.Base.{list_eq_iff, true, not, ok, reject}
use polytope_os.Base.{>>=-eq-ok}
use polytope_os.Loader.Scenario.{
  BootScenario, normal, incompatible_version, truncated_contract, deliberate_panic, normal_file,
  bad_version_file, truncated_file, panic_file, is_ascii, match_token, parse,
}

-- The file of a scenario: its token and one newline.
abbrev pub file_of : BootScenario → List ℕ
file_of normal = normal_file
file_of incompatible_version = bad_version_file
file_of truncated_contract = truncated_file
file_of deliberate_panic = panic_file

match_token-eq-ok :
    (bytes : List ℕ) (scenario : BootScenario)
    → match_token bytes ≡ ok scenario
    → list_eq bytes (file_of scenario) ≡ true
unfolding match_token
match_token-eq-ok bytes normal e = ground arith
match_token-eq-ok bytes incompatible_version e = ground arith
match_token-eq-ok bytes truncated_contract e = ground arith
match_token-eq-ok bytes deliberate_panic e = ground arith

parse-file_of : (scenario : BootScenario) → parse (file_of scenario) ≡ ok scenario
unfolding parse is_ascii match_token list_eq
parse-file_of normal = refl
parse-file_of incompatible_version = refl
parse-file_of truncated_contract = refl
parse-file_of deliberate_panic = refl

-- A configuration file is parsed as a scenario exactly when it is the token of the scenario and one
-- newline, and nothing else.
pub scenario_parse_iff :
    (bytes : List ℕ) (scenario : BootScenario)
    → (parse bytes ≡ ok scenario) ↔ (bytes ≡ file_of scenario)
unfolding parse
scenario_parse_iff bytes scenario = (
  λ e.
      let (_, _, e1) = >>=-eq-ok (reject (ltb 32 (length bytes)) _) _ e in
      let (_, _, e2) = >>=-eq-ok (reject (not (is_ascii bytes)) _) _ e1 in
      (list_eq_iff bytes (file_of scenario)).0 (match_token-eq-ok bytes scenario e2),
  λ e. rw e (parse-file_of scenario),
)
