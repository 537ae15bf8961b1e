-- ===== src/Compiler/Chars/Offsets.antt =====
-- crates/compiler/src/lib.rs: offsets that are the length of a beginning of the text.
use polytope_os.Base.{ℕ, ◌+◌, ◌-◌, ◌≤◌, ◌≡◌, refl, arith, List, [], ◌∷◌, ◌++◌}
use polytope_os.Base.{some, le→leb, ne→==}
use polytope_os.Compiler.Chars.{len_utf8, bytes_of, rest_at, front_to}

pub len_utf8_pos : (c : ℕ) → 1 ≤ len_utf8 c
unfolding len_utf8
len_utf8_pos c = ground arith

pub bytes_of-append : (xs ys : List ℕ) → bytes_of (xs ++ ys) ≡ bytes_of xs + bytes_of ys
unfolding bytes_of
bytes_of-append [] ys = omega arith
bytes_of-append (x ∷ xs) ys = omega (arith, bytes_of-append xs ys)

pub rest_at-append : (xs ys : List ℕ) → rest_at (xs ++ ys) (bytes_of xs) ≡ some ys
unfolding rest_at bytes_of
rest_at-append [] [] = refl
rest_at-append [] (y ∷ ys) = refl
rest_at-append (x ∷ xs) ys =
    let back : len_utf8 x + bytes_of xs - len_utf8 x ≡ bytes_of xs = omega arith in
    rw
      (
        ne→== (len_utf8 x + bytes_of xs) 0 (omega (arith, len_utf8_pos x)),
        le→leb (len_utf8 x) (len_utf8 x + bytes_of xs) (omega arith),
        back,
      )
      (rest_at-append xs ys)

pub front_to-append : (xs ys : List ℕ) → front_to (xs ++ ys) (bytes_of xs) ≡ some xs
unfolding front_to bytes_of
front_to-append [] [] = refl
front_to-append [] (y ∷ ys) = refl
front_to-append (x ∷ xs) ys =
    let back : len_utf8 x + bytes_of xs - len_utf8 x ≡ bytes_of xs = omega arith in
    rw (
      ne→== (len_utf8 x + bytes_of xs) 0 (omega (arith, len_utf8_pos x)),
      le→leb (len_utf8 x) (len_utf8 x + bytes_of xs) (omega arith),
      back,
      front_to-append xs ys,
    )
