-- ===== src/Image/Directory.antt =====
-- crates/xtask/src/image.rs: `validate_directory` and `ensure_fixed_timestamp`. A directory of the crate
-- fatfs is what its iterator yields; `none` is an error.
pub mod Correct
use polytope_os.Base.{ℕ, ◌+◌, leb, ◌==◌, List, [], ◌∷◌, length, list_eq, get_elem?}
use polytope_os.Base.{Bool, true, false, ◌&&◌, ◌||◌, not, if◌then◌else◌, Option, none, some}
use polytope_os.Base.{Result, ok, err, ◌>>=◌, ◌>>◌, ok_or}
use polytope_os.Harness.Text.{codes}
use polytope_os.Elf.Read.{checked_add}
use polytope_os.Image.Types.{ImageError, ensure}
use polytope_os.Image.Types

-- The `Date` and the `DateTime` of the crate.
pub record Date : Type 0 where
  pub year : ℕ
  pub month : ℕ
  pub day : ℕ

pub record DateTime : Type 0 where
  pub date : Date
  pub hour : ℕ
  pub min : ℕ
  pub sec : ℕ
  pub millis : ℕ

abbrev pub current_date : Date
current_date = record { year = 2000; month = 1; day = 1 }

abbrev pub current_date_time : DateTime
current_date_time = record { date = current_date; hour = 0; min = 0; sec = 0; millis = 0 }

unfoldable pub date_eq : Date → Date → Bool
date_eq a b = a.year == b.year && a.month == b.month && a.day == b.day

unfoldable pub date_time_eq : DateTime → DateTime → Bool
unfolding date_eq
date_time_eq a b =
    date_eq a.date b.date
    && a.hour == b.hour
    && a.min == b.min
    && a.sec == b.sec
    && a.millis == b.millis

pub record DirEntry : Type 0 where
  pub file_name : List ℕ
  pub is_dir : Bool
  pub created : DateTime
  pub modified : DateTime
  pub accessed : Date

unfoldable pub ensure_fixed_timestamp : DirEntry → Result ImageError (Unit {0})
unfolding date_eq date_time_eq
ensure_fixed_timestamp entry =
    ensure
      (date_time_eq entry.created current_date_time
        && date_time_eq entry.modified current_date_time
        && date_eq entry.accessed current_date)
      Types.directory_timestamp

-- `matches!(name.as_str(), "." | "..")`
unfoldable pub is_dot : List ℕ → Bool
is_dot name = list_eq name (codes ".") || list_eq name (codes "..")

-- `==` on `bool`
unfoldable pub bool_eq : Bool → Bool → Bool
bool_eq true b = b
bool_eq false b = not b

-- The body of the loop behind the bound on the entries. It returns `observed`.
unfoldable pub observe_entry : List (List ℕ × Bool) → DirEntry → ℕ → Result ImageError ℕ
observe_entry expected entry observed = if is_dot entry.file_name then ok observed else (do
  (name, is_directory) ← ok_or (get_elem? expected observed) Types.directory_extra
  ensure (list_eq entry.file_name name && bool_eq entry.is_dir is_directory) Types.directory_entry
  ensure_fixed_timestamp entry
  ok_or (checked_add observed 1) Types.directory_count_overflow)

unfoldable pub observe_entries :
    List (List ℕ × Bool) → ℕ → ℕ → List (Option DirEntry) → Result ImageError (Unit {0})
observe_entries expected raw_entries observed [] =
    ensure (observed == length expected) Types.directory_count
observe_entries expected raw_entries observed (none ∷ entries) = err Types.directory_read
observe_entries expected raw_entries observed (some entry ∷ entries) = do
  raw_entries' ← ok_or (checked_add raw_entries 1) Types.directory_count_overflow
  ensure (leb raw_entries' (length expected + 2)) Types.directory_bound
  observed' ← observe_entry expected entry observed
  observe_entries expected raw_entries' observed' entries

unfoldable pub validate_directory :
    List (Option DirEntry) → List (List ℕ × Bool) → Result ImageError (Unit {0})
validate_directory entries expected = observe_entries expected 0 0 entries
