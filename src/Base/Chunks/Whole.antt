-- ===== src/Base/Chunks/Whole.antt =====
-- The loop that reads a file by chunks, on a file that it reads to its end.
use Prim.Native.Nat.{ℕ, zero, suc, ◌+◌, ◌≤◌, ◌<◌}
use mathlib.Core.Path.{◌≡◌, refl, sym, ap, ◌∙◌}
use mathlib.Core.Option.{some}
use mathlib.Core.List.{List, [], ◌∷◌, ◌++◌, append-nil, append_assoc}
use native.Mathlib.Omega.{arith}
use polytope_os.Base.Lists.{length, length-append}
use polytope_os.Base.Outcome.{Result, ok}
use polytope_os.Base.Chunks.{Reads, after_chunk, read_round, read_loop}
use polytope_os.Base.Chunks.Ends.{contents, IsWhole}

-- The reads from the one with the number `at` on, `n` of them, are not empty.
abbrev GoesOn : Reads → ℕ → ℕ → Type 0
GoesOn reads at n =
    (i : ℕ) → i < n → (b : ℕ) × (chunk : List ℕ) × (reads (at + i) ≡ some (b ∷ chunk))

at_first : (at : ℕ) → at + 0 ≡ at
at_first at = omega arith

at_later : (at i : ℕ) → at + suc i ≡ at + 1 + i
at_later at i = omega arith

GoesOn-later : (reads : Reads) (at n : ℕ) → GoesOn reads at (suc n) → GoesOn reads (at + 1) n
GoesOn-later reads at n h i l = rw (at_later at i) at (h (suc i) (omega arith))

-- A read that is not empty has a byte.
count_le : (reads : Reads) (at n : ℕ) → GoesOn reads at n → n ≤ length (contents reads at n)
count_le reads at zero h = omega arith
count_le reads at (suc n) h =
    let (b, chunk, read) = h 0 (omega arith) in
    let found : reads at ≡ some (b ∷ chunk) = rw (at_first at) at read in
    let later = count_le reads (at + 1) n (GoesOn-later reads at n h) in
    rw found (omega (arith, length-append chunk (contents reads (at + 1) n), later))

contents_later :
    (reads : Reads) (at n : ℕ) (bytes chunk : List ℕ)
    → reads at ≡ some chunk
    → bytes ++ contents reads at (suc n) ≡ (bytes ++ chunk) ++ contents reads (at + 1) n
contents_later reads at n bytes chunk found =
    rw found (sym (append_assoc bytes chunk (contents reads (at + 1) n)))

fits_le :
    (bytes chunk rest out : List ℕ) (maximum : ℕ)
    → out ≡ (bytes ++ chunk) ++ rest
    → length out ≤ maximum
    → length bytes + length chunk ≤ maximum
fits_le bytes chunk rest out maximum joined small =
    let size : length out ≡ length ((bytes ++ chunk) ++ rest) = ap length joined in
    omega (arith, size, length-append (bytes ++ chunk) rest, length-append bytes chunk, small)

module _ {ℓ} {E : Type ℓ} (take_chunk : List ℕ → List ℕ → Result E (List ℕ)) (read_error : E)
    (maximum : ℕ) (reads : Reads)
    (takes : (at : ℕ) (bytes chunk : List ℕ)
      → reads at ≡ some chunk
      → length bytes + length chunk ≤ maximum
      → take_chunk bytes chunk ≡ ok (bytes ++ chunk)) where
  loop_reads :
      (n fuel at : ℕ) (bytes out : List ℕ)
      → n < fuel
      → out ≡ bytes ++ contents reads at n
      → length out ≤ maximum
      → GoesOn reads at n
      → reads (at + n) ≡ some []
      → read_loop take_chunk read_error fuel reads at bytes ≡ some (ok out)
  unfolding read_loop read_round after_chunk
  loop_reads n zero at bytes out l e small on end = absurd (omega arith)
  loop_reads zero (suc fuel) at bytes out l e small on end =
      let found : reads at ≡ some [] = rw (at_first at) at end in
      rw found (ap (λ o. some (ok o)) (rw e (rw append-nil refl)))
  loop_reads (suc n) (suc fuel) at bytes out l e small on end =
      let (b, chunk, read) = on 0 (omega arith) in
      let found : reads at ≡ some (b ∷ chunk) = rw (at_first at) at read in
      let joined = e ∙ contents_later reads at n bytes (b ∷ chunk) found in
      let fits = fits_le bytes (b ∷ chunk) (contents reads (at + 1) n) out maximum joined small in
      let taken = takes at bytes (b ∷ chunk) found fits in
      rw (found, taken)
        (loop_reads n fuel (at + 1) (bytes ++ (b ∷ chunk)) out (omega arith) joined small
          (GoesOn-later reads at n on) (rw (at_later at n) at end))

  pub loop_whole :
      (out : List ℕ)
      → IsWhole reads maximum 0 [] out
      → read_loop take_chunk read_error (maximum + 2) reads 0 [] ≡ some (ok out)
  loop_whole out w =
      let enough = count_le reads 0 w.count w.not_before in
      let size : length out ≡ length (contents reads 0 w.count) = ap length w.all_bytes in
      let bounded = w.bounded in
      loop_reads w.count (maximum + 2) 0 [] out (omega arith) w.all_bytes w.bounded w.not_before
        w.end_of_file
