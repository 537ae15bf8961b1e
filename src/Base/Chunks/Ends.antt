-- ===== src/Base/Chunks/Ends.antt =====
-- The end of the loop that reads a file by chunks.
use Prim.Native.Nat.{ℕ, zero, suc, ◌+◌, ◌-◌, ◌≤◌, ◌<◌}
use mathlib.Core.Path.{◌≡◌, refl, ◌∙◌}
use mathlib.Core.Logic.{◌⊎◌, inl, inr}
use mathlib.Core.Option.{Option, none, some}
use mathlib.Core.List.{List, [], ◌∷◌, ◌++◌, append-nil, append_assoc}
use native.Mathlib.Omega.{arith}
use polytope_os.Base.Lists.{length, length-append}
use polytope_os.Base.Outcome.{Result, ok, err, panic, match_option, Result-cases}
use polytope_os.Base.Chunks.{Reads, returned, again, read_round, read_loop}

-- The bytes of `n` reads from the one with the number `at`.
abbrev pub contents : Reads → ℕ → ℕ → List ℕ
contents reads at zero = []
contents reads at (suc n) = match_option [] (λ chunk. chunk) (reads at) ++ contents reads (at + 1) n

-- What a result holds, if it is one: all bytes up to the first empty read, and no more than the maximum.
pub record IsWhole (reads : Reads) (maximum at : ℕ) (bytes out : List ℕ) : Type 0 where
  pub count : ℕ
  pub all_bytes : out ≡ bytes ++ contents reads at count
  pub not_before :
      (i : ℕ) → i < count → (b : ℕ) × (chunk : List ℕ) × (reads (at + i) ≡ some (b ∷ chunk))
  pub end_of_file : reads (at + count) ≡ some []
  pub bounded : length out ≤ maximum

same_bytes {ℓ} : {E : Type ℓ} {a b : List ℕ} → ◌≡◌ {A = Result E (List ℕ)} (ok a) (ok b) → b ≡ a
same_bytes e = cc

add_later : (at n : ℕ) → at + suc n ≡ at + 1 + n
add_later at n = omega arith

add-zero : (at : ℕ) → at + 0 ≡ at
add-zero at = omega arith

not_before_zero :
    (reads : Reads) (at i : ℕ)
    → i < 0
    → (b : ℕ) × (chunk : List ℕ) × (reads (at + i) ≡ some (b ∷ chunk))
not_before_zero reads at i l = absurd (omega arith)

not_before_suc :
    (reads : Reads) (at n : ℕ) {b : ℕ} {chunk : List ℕ}
    → reads at ≡ some (b ∷ chunk)
    → ((i : ℕ) → i < n → (b : ℕ) × (chunk : List ℕ) × (reads (at + 1 + i) ≡ some (b ∷ chunk)))
    → (i : ℕ) → i < suc n
    → (b : ℕ) × (chunk : List ℕ) × (reads (at + i) ≡ some (b ∷ chunk))
not_before_suc reads at n {b} {chunk} found later zero l = (b, chunk, rw (add-zero at) found)
not_before_suc reads at n found later (suc i) l =
    let (b, chunk, read) = later i (omega arith) in (b, chunk, rw (add_later at i) read)

-- A step that appends a chunk, up to a maximum.
module _ {ℓ} {E : Type ℓ} (take_chunk : List ℕ → List ℕ → Result E (List ℕ)) (read_error : E)
    (maximum : ℕ)
    (takes : (bytes chunk longer : List ℕ)
      → take_chunk bytes chunk ≡ ok longer
      → (longer ≡ bytes ++ chunk) × (length longer ≤ maximum))
    (reads : Reads) where
  -- The cases of a round.
  round_cases :
      (bytes : List ℕ) (read : Option (List ℕ))
      → ((e : Result E (List ℕ)) × (read_round take_chunk read_error bytes read ≡ returned e)
          × ((out : List ℕ) → e ≡ ok out → (out ≡ bytes) × (read ≡ some [])))
        ⊎ ((longer : List ℕ) × (b : ℕ) × (chunk : List ℕ) × (read_round take_chunk read_error bytes
                read
              ≡ again longer)
            × (read ≡ some (b ∷ chunk))
            × (longer ≡ bytes ++ (b ∷ chunk))
            × (length bytes < length longer)
            × (length longer ≤ maximum))
  unfolding read_round
  round_cases bytes none = inl (err read_error, refl, λ out e. cc)
  round_cases bytes (some []) = inl (ok bytes, refl, λ out e. (same_bytes e, refl))
  round_cases bytes (some (b ∷ chunk)) = elim (Result-cases (take_chunk bytes (b ∷ chunk))) [
    | inl (longer, taken) ↦
        let (joined, bounded) = takes bytes (b ∷ chunk) longer taken in
        let grown : length bytes < length longer =
          rw joined (omega (arith, length-append bytes (b ∷ chunk))) in
        inr (longer, b, chunk, rw taken, refl, joined, grown, bounded)
    | inr (inl (e, refused)) ↦ inl (err e, rw refused, λ out e. cc)
    | inr (inr panicked) ↦ inl (panic, rw panicked, λ out e. cc)
  ]

  joined_contents :
      (at : ℕ) (bytes longer chunk : List ℕ) (n : ℕ)
      → reads at ≡ some chunk
      → longer ≡ bytes ++ chunk
      → longer ++ contents reads (at + 1) n ≡ bytes ++ contents reads at (suc n)
  joined_contents at bytes longer chunk n found joined =
      rw (joined, found) (append_assoc bytes chunk (contents reads (at + 1) n))

  pub loop_ends :
      (fuel at : ℕ) (bytes : List ℕ)
      → length bytes ≤ maximum
      → maximum - length bytes < fuel
      → (result : Result E (List ℕ)) × (read_loop take_chunk read_error fuel reads at bytes
          ≡ some result)
        × ((out : List ℕ) → result ≡ ok out → IsWhole reads maximum at bytes out)
  unfolding read_loop
  loop_ends zero at bytes small enough = absurd (omega arith)
  loop_ends (suc fuel) at bytes small enough = elim (round_cases bytes (reads at)) [
    | inl (result, stops, whole) ↦ (
      result,
      rw stops,
      λ out e. record {
        count = 0;
        all_bytes = rw append-nil (whole out e).0;
        not_before = not_before_zero reads at;
        end_of_file = rw (add-zero at) (whole out e).1;
        bounded = rw (whole out e).0 small;
      },
    )
    | inr (longer, b, chunk, goes_on, found, joined, grown, bounded) ↦
        let (result, runs, whole) = loop_ends fuel (at + 1) longer bounded (omega arith) in
        (
          result,
          rw goes_on runs,
          λ out e.
              let w = whole out e in
              record {
                count = suc w.count;
                all_bytes =
                    w.all_bytes ∙ joined_contents at bytes longer (b ∷ chunk) w.count found joined;
                not_before = not_before_suc reads at w.count found w.not_before;
                end_of_file = rw (add_later at w.count) w.end_of_file;
                bounded = w.bounded;
              },
        )
  ]
