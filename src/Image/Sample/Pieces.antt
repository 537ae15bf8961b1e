-- ===== src/Image/Sample/Pieces.antt =====
-- Ranges of the sample image, by its pieces.
use polytope_os.Base.{
  ℕ, zero, suc, ◌+◌, ◌-◌, ◌≤◌, ◌≡◌, refl, ap, arith, List, [], ◌∷◌, ◌++◌, length, take, drop,
  take-append,
}

drop_skip :
    (front rest : List ℕ) (m : ℕ)
    → length front ≤ m
    → drop m (front ++ rest) ≡ drop (m - length front) rest
unfolding drop
drop_skip [] rest m h = let same : m - 0 ≡ m = omega arith in rw same refl
drop_skip (b ∷ front) rest zero h = absurd (omega arith)
drop_skip (b ∷ front) rest (suc m) h =
    let same : suc m - suc (length front) ≡ m - length front = omega arith in
    rw same (drop_skip front rest m (omega arith))

-- What is behind the first piece.
pub drop_to :
    (front rest : List ℕ) (k m : ℕ)
    → length front ≡ k
    → k ≤ m
    → drop m (front ++ rest) ≡ drop (m - k) rest
drop_to front rest k m e h = rw (← e) (drop_skip front rest m (rw e h))

-- A range behind the first piece.
pub skip :
    (front rest : List ℕ) (k m n : ℕ)
    → length front ≡ k
    → k ≤ m
    → take n (drop m (front ++ rest)) ≡ take n (drop (m - k) rest)
skip front rest k m n e h = ap (take n) (drop_to front rest k m e h)

pub drop_none : (bytes : List ℕ) → drop 0 bytes ≡ bytes
unfolding drop
drop_none bytes = refl

-- The first piece.
pub here : (body back : List ℕ) (n : ℕ) → length body ≡ n → take n (drop 0 (body ++ back)) ≡ body
unfolding drop
here body back n e = take-append body back n (rw e refl)

-- A range inside the first piece.
pub within :
    (front rest : List ℕ) (m n : ℕ)
    → m + n ≤ length front
    → take n (drop m (front ++ rest)) ≡ take n (drop m front)
unfolding take drop
within front rest zero zero h = refl
within [] rest zero (suc n) h = absurd (omega arith)
within (b ∷ front) rest zero (suc n) h = ap (λ bs. b ∷ bs) (within front rest zero n (omega arith))
within [] rest (suc m) zero h = absurd (omega arith)
within [] rest (suc m) (suc n) h = absurd (omega arith)
within (b ∷ front) rest (suc m) n h = within front rest m n (omega arith)
