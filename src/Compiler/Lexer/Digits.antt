-- ===== src/Compiler/Lexer/Digits.antt =====
-- crates/compiler/src/lib.rs: the loop over the digits of an integer.
use polytope_os.Base.{ℕ, zero, suc, ◌+◌, ◌-◌, ◌*◌, ◌^◌, ◌≤◌, ◌<◌, ◌≡◌, inl, inr, refl, ap}
use polytope_os.Base.{arith, List, [], ◌∷◌, ◌++◌, append-nil, append_assoc, length}
use polytope_os.Base.{true, false, Bool-cases, Result, ok, err, some, none}
use native.Mathlib.Decide.{dec_lt}
use polytope_os.Compiler.Chars.{is_ascii_digit, to_digit}
use polytope_os.Compiler.Lexer.{Lexer, LexError, push_digit, read_digits, advance}
use polytope_os.Compiler.Lexer.Spec.{Passes, Stops, decimal}
use polytope_os.Compiler.Lexer.Loops.{IsAt, peek-first, advance-IsAt}

to_digit_of : (c : ℕ) → is_ascii_digit c ≡ true → to_digit c ≡ some (c - b'0')
unfolding to_digit
to_digit_of c h = rw h

to_digit-none : (c : ℕ) → is_ascii_digit c ≡ false → to_digit c ≡ none
unfolding to_digit
to_digit-none c h = rw h

push_digit_fits :
    (value digit : ℕ)
    → value * 10 + digit < 2 ^ 64
    → push_digit value digit ≡ some (value * 10 + digit)
unfolding push_digit
push_digit_fits value digit h = ground arith

push_digit_overflows :
    (value digit : ℕ) → 2 ^ 64 ≤ value * 10 + digit → push_digit value digit ≡ none
unfolding push_digit
push_digit_overflows value digit h = ground arith

-- How the loop ends: before a character that is no digit, or at a digit that does not fit.
pub data IsEnd (value : ℕ) (text : List ℕ) (offset : ℕ) : List ℕ → Result LexError ℕ → Type 0 where
  fits :
      {more : List ℕ}
      → Stops is_ascii_digit more
      → IsEnd value text offset more (ok (decimal value text))
  overflows :
      {c : ℕ} {more : List ℕ}
      → is_ascii_digit c ≡ true
      → 2 ^ 64 ≤ decimal value (text ++ (c ∷ []))
      → IsEnd value text offset (c ∷ more) (err (record { character = c; offset = offset }))

-- Where the loop ends.
pub record Digits (value : ℕ) (before rest : List ℕ)
    (result : Result (Unit {0}) (Result LexError ℕ × Lexer)) : Type 0 where
  pub text : List ℕ
  pub more : List ℕ
  pub self : Lexer
  pub out : Result LexError ℕ
  pub returns : result ≡ ok (out, self)
  pub joined : rest ≡ text ++ more
  pub passes : Passes is_ascii_digit text
  pub small : decimal value text < 2 ^ 64
  pub ends : IsEnd value text self.offset more out
  pub at : IsAt self (before ++ text) more

Digits-none :
    {value : ℕ} {before rest : List ℕ} {self : Lexer} {out : Result LexError ℕ}
    {result : Result (Unit {0}) (Result LexError ℕ × Lexer)}
    → result ≡ ok (out, self)
    → value < 2 ^ 64
    → IsEnd value [] self.offset rest out
    → IsAt self before rest
    → Digits value before rest result
Digits-none {before = before} {rest = rest} {self = self} {out = out} e h s a = record {
  text = [];
  more = rest;
  self = self;
  out = out;
  returns = e;
  joined = refl;
  passes = tt;
  small = h;
  ends = s;
  at = rw (append-nil before) a;
}

IsEnd-step :
    {value c : ℕ} {text more : List ℕ} {offset : ℕ} {out : Result LexError ℕ}
    → IsEnd (value * 10 + (c - b'0')) text offset more out
    → IsEnd value (c ∷ text) offset more out
IsEnd-step (fits s) = fits s
IsEnd-step (overflows d h) = overflows d h

pub read_digits-Digits :
    (rounds value : ℕ) (before rest : List ℕ) (self : Lexer)
    → IsAt self before rest
    → length rest ≤ rounds
    → value < 2 ^ 64
    → Digits value before rest (read_digits rounds value self)
unfolding read_digits
read_digits-Digits zero value before [] self a h v = Digits-none refl v (fits tt) a
read_digits-Digits zero value before (c ∷ rest) self a h v = absurd (omega arith)
read_digits-Digits (suc rounds) value before [] self a h v =
    Digits-none (rw (peek-first a)) v (fits tt) a
read_digits-Digits (suc rounds) value before (c ∷ rest) self a h v =
    elim (Bool-cases (is_ascii_digit c)) [
      | inr other ↦ Digits-none (rw (peek-first a, to_digit-none c other)) v (fits other) a
      | inl digit ↦ elim (dec_lt (value * 10 + (c - b'0')) (2 ^ 64)) [
        | no large ↦
            Digits-none
              (rw (
                peek-first a,
                to_digit_of c digit,
                push_digit_overflows value (c - b'0') (omega arith),
              ))
              v (overflows digit (omega arith)) a
        | yes small ↦
            let next =
              read_digits-Digits rounds (value * 10 + (c - b'0')) (before ++ (c ∷ [])) rest
                (advance self c) (advance-IsAt a) (omega arith) small in
            record {
              text = c ∷ next.text;
              more = next.more;
              self = next.self;
              out = next.out;
              returns =
                  rw (peek-first a, to_digit_of c digit, push_digit_fits value (c - b'0') small)
                    next.returns;
              joined = ap (λ x. c ∷ x) next.joined;
              passes = (digit, next.passes);
              small = next.small;
              ends = IsEnd-step next.ends;
              at = rw (append_assoc before (c ∷ []) next.text) at next.at;
            }
      ]
    ]
