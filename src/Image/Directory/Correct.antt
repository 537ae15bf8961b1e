-- ===== src/Image/Directory/Correct.antt =====
-- crates/xtask/src/image.rs: `validate_directory` against a plain description.
use polytope_os.Base.{
  ℕ, zero, suc, ◌+◌, ◌^◌, ◌≤◌, ◌<◌, ◌≡◌, ◌↔◌, ◌⊎◌, inl, inr, refl, sym, arith, List, [], ◌∷◌,
  length, drop, length-drop, get_elem?, leb, lt→ltb, le→leb, ◌≢◌, ◌∙◌, list_eq_iff,
}
use polytope_os.Base.{Bool, true, false, Bool-cases, Option, none, some, ok, >>=-eq-ok}
use polytope_os.Harness.Text.{codes}
use polytope_os.Image.Types.{ensure}
use polytope_os.Image.Types
use polytope_os.Image.Directory.{
  Date, DateTime, DirEntry, date_eq, date_time_eq, ensure_fixed_timestamp, is_dot, bool_eq,
  observe_entry, observe_entries, validate_directory,
}

abbrev IsDate : Date → Type 0
IsDate d = (d.year ≡ 2000) × (d.month ≡ 1) × (d.day ≡ 1)

abbrev IsMidnight : DateTime → Type 0
IsMidnight t = IsDate t.date × (t.hour ≡ 0) × (t.min ≡ 0) × (t.sec ≡ 0) × (t.millis ≡ 0)

-- The times of an entry are those of the first of January 2000.
pub record IsFixed (entry : DirEntry) : Type 0 where
  pub created : IsMidnight entry.created
  pub modified : IsMidnight entry.modified
  pub accessed : IsDate entry.accessed

-- The entries of the directory itself and of its parent.
abbrev pub IsDot : List ℕ → Type 0
IsDot name = (name ≡ codes ".") ⊎ (name ≡ codes "..")

-- Apart from these, the entries are the expected ones, in their order, with fixed times.
abbrev pub Shows : List (List ℕ × Bool) → List (Option DirEntry) → Type 0
Shows expected [] = expected ≡ []
Shows expected (none ∷ entries) = ⊥
Shows expected (some entry ∷ entries) =
    (IsDot entry.file_name × Shows expected entries)
    ⊎ ((rest : List (List ℕ × Bool)) × ¬ IsDot entry.file_name
        × (expected ≡ (entry.file_name, entry.is_dir) ∷ rest)
        × IsFixed entry
        × Shows rest entries)

-- A directory of the expected entries, with two more entries at most.
pub record IsDirectory (entries : List (Option DirEntry)) (expected : List (List ℕ × Bool))
    : Type 0 where
  pub shows : Shows expected entries
  pub bounded : length entries ≤ length expected + 2

is_dot_iff : (name : List ℕ) → (is_dot name ≡ true) ↔ IsDot name
unfolding is_dot
is_dot_iff name = ground (arith, list_eq_iff name (codes "."), list_eq_iff name (codes ".."))

plain_iff : (name : List ℕ) → (is_dot name ≡ false) ↔ ¬ IsDot name
plain_iff name = ground (arith, is_dot_iff name)

timestamp_iff : (entry : DirEntry) → (ensure_fixed_timestamp entry ≡ ok tt) ↔ IsFixed entry
unfolding ensure_fixed_timestamp date_time_eq date_eq
timestamp_iff entry = ground arith

bool_eq_iff : (a b : Bool) → (bool_eq a b ≡ true) ↔ (a ≡ b)
unfolding bool_eq
bool_eq_iff true true = ground arith
bool_eq_iff true false = ground arith
bool_eq_iff false true = ground arith
bool_eq_iff false false = ground arith

-- The element at an index, and what is behind it.
elem_cases {ℓ} :
    {A : Type ℓ} (xs : List A) (k : ℕ)
    → k ≤ length xs
    → ((get_elem? xs k ≡ none) × (drop k xs ≡ []))
      ⊎ ((x : A) × (get_elem? xs k ≡ some x) × (drop k xs ≡ x ∷ drop (suc k) xs) × (k < length xs))
unfolding drop
elem_cases [] zero h = inl (refl, refl)
elem_cases [] (suc k) h = absurd (omega arith)
elem_cases (x ∷ xs) zero h = inr (x, refl, refl, omega arith)
elem_cases (x ∷ xs) (suc k) h = elim (elem_cases xs k (omega arith)) [
  | inl (missing, empty) ↦ inl (missing, empty)
  | inr (y, found, behind, l) ↦ inr (y, found, behind, omega arith)
]

-- One entry that is not a dot, where an entry is expected, and where none is.
listed_at :
    (expected : List (List ℕ × Bool)) (entry : DirEntry) (k k' : ℕ) (name : List ℕ) (is_dir : Bool)
    → get_elem? expected k ≡ some (name, is_dir)
    → k + 1 < 2 ^ 64
    → is_dot entry.file_name ≡ false
    → (observe_entry expected entry k ≡ ok k')
      ↔ (k' ≡ suc k) × (entry.file_name ≡ name) × (entry.is_dir ≡ is_dir) × IsFixed entry
unfolding observe_entry
listed_at expected entry k k' name is_dir found small plain = ground (
  arith,
  found,
  plain,
  list_eq_iff entry.file_name name,
  bool_eq_iff entry.is_dir is_dir,
  timestamp_iff entry,
)

nothing_expected :
    (expected : List (List ℕ × Bool)) (entry : DirEntry) (k k' : ℕ)
    → get_elem? expected k ≡ none
    → is_dot entry.file_name ≡ false
    → observe_entry expected entry k ≢ ok k'
unfolding observe_entry
nothing_expected expected entry k k' missing plain e = ground (arith, missing, plain)

dot_passed :
    (expected : List (List ℕ × Bool)) (entry : DirEntry) (k k' : ℕ)
    → is_dot entry.file_name ≡ true
    → (observe_entry expected entry k ≡ ok k') ↔ (k' ≡ k)
unfolding observe_entry
dot_passed expected entry k k' dot = ground (arith, dot)

first_eq :
    {x y : List ℕ × Bool} {xs ys : List (List ℕ × Bool)}
    → ◌≡◌ {A = List (List ℕ × Bool)} (x ∷ xs) (y ∷ ys)
    → (x.0 ≡ y.0) × (x.1 ≡ y.1) × (xs ≡ ys)
first_eq e = (cc, cc, cc)

module _ (expected : List (List ℕ × Bool)) (small : length expected + 3 < 2 ^ 64) where
  observed_step :
      (raw k : ℕ) (entry : DirEntry) (entries : List (Option DirEntry))
      → raw ≤ length expected + 2
      → observe_entries expected raw k (some entry ∷ entries) ≡ ok tt
      → (raw + 1 ≤ length expected + 2)
        × (k' : ℕ) × (observe_entry expected entry k ≡ ok k')
        × (observe_entries expected (raw + 1) k' entries ≡ ok tt)
  unfolding observe_entries
  observed_step raw k entry entries at_most e =
      let e1 = rw (lt→ltb (raw + 1) (2 ^ 64) (omega arith)) at e in
      let (u, bound, e2) =
        >>=-eq-ok (ensure (leb (raw + 1) (length expected + 2)) Types.directory_bound) _ e1 in
      let (k', observed, e3) = >>=-eq-ok (observe_entry expected entry k) _ e2 in
      (ground arith, k', observed, e3)

  step_observed :
      (raw k k' : ℕ) (entry : DirEntry) (entries : List (Option DirEntry))
      → raw + 1 ≤ length expected + 2
      → observe_entry expected entry k ≡ ok k'
      → observe_entries expected (raw + 1) k' entries ≡ ok tt
      → observe_entries expected raw k (some entry ∷ entries) ≡ ok tt
  unfolding observe_entries
  step_observed raw k k' entry entries bound observed rest =
      rw
        (
          lt→ltb (raw + 1) (2 ^ 64) (omega arith),
          le→leb (raw + 1) (length expected + 2) bound,
          observed,
        )
        rest

  end_iff :
      (raw k : ℕ)
      → k ≤ length expected
      → (observe_entries expected raw k [] ≡ ok tt) ↔ (drop k expected ≡ [])
  unfolding observe_entries
  end_iff raw k h = elim (elem_cases expected k h) [
    | inl (missing, empty) ↦ ground (arith, empty, length-drop k expected)
    | inr (x, found, behind, l) ↦
        (λ e. absurd (ground arith), λ e. absurd (let never = rw behind at e in cc))
  ]

  no_entry :
      (raw k : ℕ) (entries : List (Option DirEntry))
      → observe_entries expected raw k (none ∷ entries) ≢ ok tt
  unfolding observe_entries
  no_entry raw k entries e = cc

  shown :
      (raw k : ℕ) (entries : List (Option DirEntry))
      → k ≤ length expected
      → raw ≤ length expected + 2
      → observe_entries expected raw k entries ≡ ok tt
      → Shows (drop k expected) entries × (raw + length entries ≤ length expected + 2)
  shown raw k [] h bound e = ((end_iff raw k h).0 e, omega arith)
  shown raw k (none ∷ entries) h bound e = absurd (no_entry raw k entries e)
  shown raw k (some entry ∷ entries) h bound e =
      let (counted, k', observed, rest) = observed_step raw k entry entries bound e in
      elim (Bool-cases (is_dot entry.file_name)) [
        | inl dot ↦
            let same = (dot_passed expected entry k k' dot).0 observed in
            let (shows, size) = shown (raw + 1) k entries h counted (rw same at rest) in
            (inl ((is_dot_iff entry.file_name).0 dot, shows), omega arith)
        | inr plain ↦ elim (elem_cases expected k h) [
          | inl (missing, empty) ↦
              absurd (nothing_expected expected entry k k' missing plain observed)
          | inr ((name, is_dir), found, behind, l) ↦
              let (same, names, kinds, fixed) =
                (listed_at expected entry k k' name is_dir found (omega arith) plain).0 observed in
              let (shows, size) =
                shown (raw + 1) (suc k) entries (omega arith) counted (rw same at rest) in
              (
                inr (
                  drop (suc k) expected,
                  (plain_iff entry.file_name).0 plain,
                  rw (names, kinds) behind,
                  fixed,
                  shows,
                ),
                omega arith,
              )
        ]
      ]

  observed :
      (raw k : ℕ) (entries : List (Option DirEntry))
      → k ≤ length expected
      → raw + length entries ≤ length expected + 2
      → Shows (drop k expected) entries
      → observe_entries expected raw k entries ≡ ok tt
  observed raw k [] h bound shows = (end_iff raw k h).1 shows
  observed raw k (none ∷ entries) h bound shows = absurd shows
  observed raw k (some entry ∷ entries) h bound (inl (dot, shows)) =
      step_observed raw k k entry entries (omega arith)
        ((dot_passed expected entry k k ((is_dot_iff entry.file_name).1 dot)).1 refl)
        (observed (raw + 1) k entries h (omega arith) shows)
  observed raw k (some entry ∷ entries) h bound (inr (rest, plain, first, fixed, shows)) =
      elim (elem_cases expected k h) [
        | inl (missing, empty) ↦ absurd (let never = rw empty at first in cc)
        | inr ((name, is_dir), found, behind, l) ↦
            let (names, kinds, same) = first_eq (sym behind ∙ first) in
            let not_dot = (plain_iff entry.file_name).1 plain in
            step_observed raw k (suc k) entry entries (omega arith)
              ((listed_at expected entry k (suc k) name is_dir found (omega arith) not_dot).1
                (refl, sym names, sym kinds, fixed))
              (observed (raw + 1) (suc k) entries (omega arith) (omega arith)
                (rw (← same) at shows))
      ]

  pub validate_directory_iff :
      (entries : List (Option DirEntry))
      → (validate_directory entries expected ≡ ok tt) ↔ IsDirectory entries expected
  unfolding validate_directory drop
  validate_directory_iff entries = (
    λ e.
        let (shows, bound) = shown 0 0 entries (omega arith) (omega arith) e in
        record { shows = shows; bounded = omega arith },
    λ d. observed 0 0 entries (omega arith) (omega (arith, d.bounded)) d.shows,
  )
