-- ===== src/Base/Chunks.antt =====
-- The loop that reads a file by chunks into a vector, of crates/xtask/src/image.rs (`read_fat_file`) and
-- crates/uefi-loader/src/main.rs (`read_bounded_file`). A file is what its reads return, one after the
-- other; `none` is an error.
pub mod Ends
pub mod Whole
use Prim.Native.Nat.{ℕ, zero, suc, ◌+◌, ◌^◌}
use mathlib.Core.Bool.{Bool}
use mathlib.Core.Option.{Option, none, some}
use mathlib.Core.List.{List, [], ◌∷◌}
use polytope_os.Base.Tests.{ltb, if◌then◌else◌}
use polytope_os.Base.Outcome.{Result, ok, err, panic}

abbrev pub Reads : Type 0
Reads = ℕ → Option (List ℕ)

-- `checked_add` on lengths
abbrev pub new_length_of : ℕ → ℕ → Option ℕ
new_length_of size read = if ltb (size + read) (2 ^ 64) then some (size + read) else none

-- What is left to do after a round: a result, or another round with a longer vector.
pub data Round {ℓ} (E : Type ℓ) : Type ℓ where
  returned : Result E (List ℕ) → Round E
  again : List ℕ → Round E

abbrev pub match_round {ℓ κ} :
    {E : Type ℓ} {A : Type κ} → (Result E (List ℕ) → A) → (List ℕ → A) → Round E → A
match_round stop go (returned result) = stop result
match_round stop go (again bytes) = go bytes

unfoldable pub after_chunk {ℓ} : {E : Type ℓ} → Result E (List ℕ) → Round E
after_chunk (ok bytes) = again bytes
after_chunk (err e) = returned (err e)
after_chunk panic = returned panic

-- The loop, by what it does with a chunk that is not empty and by its error of a read.
module _ {ℓ} {E : Type ℓ} (take_chunk : List ℕ → List ℕ → Result E (List ℕ)) (read_error : E) where
  unfoldable pub read_round : List ℕ → Option (List ℕ) → Round E
  unfolding after_chunk
  read_round bytes none = returned (err read_error)
  read_round bytes (some []) = returned (ok bytes)
  read_round bytes (some (b ∷ chunk)) = after_chunk (take_chunk bytes (b ∷ chunk))

  -- With fuel, from the read `at`. `none` is a loop that goes on.
  unfoldable pub read_loop : ℕ → Reads → ℕ → List ℕ → Option (Result E (List ℕ))
  read_loop zero reads at bytes = none
  read_loop (suc fuel) reads at bytes =
      match_round (λ result. some result) (λ longer. read_loop fuel reads (at + 1) longer)
        (read_round bytes (reads at))
