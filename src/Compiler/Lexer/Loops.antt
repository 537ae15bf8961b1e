-- ===== src/Compiler/Lexer/Loops.antt =====
-- crates/compiler/src/lib.rs: the loops of the lexer at a position of the source.
use polytope_os.Base.{ℕ, zero, suc, ◌≤◌, ◌≡◌, inl, inr, refl, sym, ap, ◌∙◌}
use polytope_os.Base.{arith, List, [], ◌∷◌, ◌++◌, append-nil, append_assoc, length, length-append}
use polytope_os.Base.{Bool, Bool-cases, Result, ok, or_panic}
use polytope_os.Compiler.Chars.{bytes_of, rest_at}
use polytope_os.Compiler.Chars.Offsets.{bytes_of-append, rest_at-append}
use polytope_os.Compiler.Lexer.{Lexer, first, peek, advance, advance_while}
use polytope_os.Compiler.Lexer.Spec.{Passes, Stops}

-- The offset is behind `before`, and `rest` follows.
pub record IsAt (self : Lexer) (before rest : List ℕ) : Type 0 where
  pub source : self.source ≡ before ++ rest
  pub offset : self.offset ≡ bytes_of before

pub IsAt-rest_at :
    {self : Lexer} {before rest : List ℕ}
    → IsAt self before rest
    → or_panic {E = Unit {0}} (rest_at self.source self.offset) ≡ ok rest
IsAt-rest_at {before = before} {rest = rest} a =
    rw (a.source, a.offset) (ap or_panic (rest_at-append before rest))

pub peek-first :
    {self : Lexer} {before rest : List ℕ} → IsAt self before rest → peek self ≡ ok (first rest)
unfolding peek
peek-first a = rw (IsAt-rest_at a)

pub advance-IsAt :
    {self : Lexer} {before rest : List ℕ} {c : ℕ}
    → IsAt self before (c ∷ rest)
    → IsAt (advance self c) (before ++ (c ∷ [])) rest
unfolding bytes_of
advance-IsAt {before = before} {rest = rest} {c = c} a = record {
  source = a.source ∙ sym (append_assoc before (c ∷ []) rest);
  offset = omega (arith, a.offset, bytes_of-append before (c ∷ []));
}

-- Where a loop over the characters of a test ends.
pub record Advanced (test : ℕ → Bool) (before rest : List ℕ) (result : Result (Unit {0}) Lexer)
    : Type 0 where
  pub text : List ℕ
  pub more : List ℕ
  pub self : Lexer
  pub returns : result ≡ ok self
  pub joined : rest ≡ text ++ more
  pub passes : Passes test text
  pub stops : Stops test more
  pub at : IsAt self (before ++ text) more

Advanced-none :
    {test : ℕ → Bool} {before rest : List ℕ} {self : Lexer} {result : Result (Unit {0}) Lexer}
    → result ≡ ok self
    → Stops test rest
    → IsAt self before rest
    → Advanced test before rest result
Advanced-none {before = before} {rest = rest} {self = self} e s a = record {
  text = [];
  more = rest;
  self = self;
  returns = e;
  joined = refl;
  passes = tt;
  stops = s;
  at = rw (append-nil before) a;
}

pub advance_while-Advanced :
    (test : ℕ → Bool) (rounds : ℕ) (before rest : List ℕ) (self : Lexer)
    → IsAt self before rest
    → length rest ≤ rounds
    → Advanced test before rest (advance_while test rounds self)
unfolding advance_while
advance_while-Advanced test zero before [] self a h = Advanced-none refl tt a
advance_while-Advanced test zero before (c ∷ rest) self a h = absurd (omega arith)
advance_while-Advanced test (suc rounds) before [] self a h = Advanced-none (rw (peek-first a)) tt a
advance_while-Advanced test (suc rounds) before (c ∷ rest) self a h = elim (Bool-cases (test c)) [
  | inl passed ↦
      let next =
        advance_while-Advanced test rounds (before ++ (c ∷ [])) rest (advance self c)
          (advance-IsAt a) (omega arith) in
      record {
        text = c ∷ next.text;
        more = next.more;
        self = next.self;
        returns = rw (peek-first a, passed) next.returns;
        joined = ap (λ x. c ∷ x) next.joined;
        passes = (passed, next.passes);
        stops = next.stops;
        at = rw (append_assoc before (c ∷ []) next.text) at next.at;
      }
  | inr failed ↦ Advanced-none (rw (peek-first a, failed)) failed a
]

-- There are as many rounds as characters, which is enough.
pub IsAt-rounds :
    {self : Lexer} {before rest : List ℕ} → IsAt self before rest → length rest ≤ length self.source
IsAt-rounds {before = before} {rest = rest} a =
    rw a.source (omega (arith, length-append before rest))
