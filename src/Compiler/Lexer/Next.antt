-- ===== src/Compiler/Lexer/Next.antt =====
-- crates/compiler/src/lib.rs: one call of the lexer behind the whitespace.
use polytope_os.Base.{ℕ, ◌+◌, ◌-◌, ◌^◌, ◌<◌, ◌≡◌, ◌≢◌, inl, inr, refl, sym, ap, ◌∙◌}
use polytope_os.Base.{arith, List, [], ◌∷◌, ◌++◌, append_assoc, length}
use polytope_os.Base.{true, false, Bool-cases, Result, ok, err, some, or_panic}
use polytope_os.Base.{if◌then◌else◌, list_eq, list_eq_iff}
use polytope_os.Compiler.Chars.{
  len_utf8, bytes_of, is_whitespace, is_ascii_digit, rest_at, front_to,
}
use polytope_os.Compiler.Chars.Offsets.{bytes_of-append, front_to-append}
use polytope_os.Compiler.Lexer.{
  Lexer, TokenKind, function, identifier, integer, LexError, token, advance, advance_while, is_name,
  is_name_start, read_digits, read_name, read_integer, next_at,
}
use polytope_os.Compiler.Lexer.Spec
use polytope_os.Compiler.Lexer.Spec.{
  Passes, Stops, decimal, IsPunctuation, IsName, IsItem, token_of,
}
use polytope_os.Compiler.Lexer.Loops.{
  IsAt, IsAt-rest_at, IsAt-rounds, advance-IsAt, Advanced, advance_while-Advanced,
}
use polytope_os.Compiler.Lexer.Digits
use polytope_os.Compiler.Lexer.Digits.{Digits, IsEnd, read_digits-Digits}
use polytope_os.Compiler.Lexer.Found.{
  Found, token-token_of, punctuation_cases, no_punctuation, head_eq, true_ne_false, keyword-IsItem,
}

module _ (before : List ℕ) (c : ℕ) (rest : List ℕ) (self : Lexer) (start : ℕ)
    (a : IsAt self before (c ∷ rest)) (s : start ≡ bytes_of before) where
  Found-punctuation :
      (kind : TokenKind)
      → IsPunctuation c kind
      → len_utf8 c ≡ 1
      → Found start before
          (c ∷ rest)
          (ok (token kind start (record self { offset = self.offset + 1 })))
  Found-punctuation kind p one =
      let self' : Lexer = record self { offset = self.offset + 1 } in
      let at : IsAt self' (before ++ (c ∷ [])) rest = rw one at (advance-IsAt a) in
      record {
        text = c ∷ [];
        more = rest;
        self = self';
        found = token_of kind start (c ∷ []);
        returns = ap ok (token-token_of kind start before (c ∷ []) rest self' s at);
        joined = refl;
        is_item = Spec.punctuation p;
        at = at;
      }

  Found-unexpected :
      ((kind : TokenKind) → ¬ IsPunctuation c kind)
      → is_name_start c ≡ false
      → is_ascii_digit c ≡ false
      → is_whitespace c ≡ false
      → Found start before
          (c ∷ rest)
          (ok (some (err (record { character = c; offset = start })), advance self c))
  Found-unexpected p n d w = record {
    text = c ∷ [];
    more = rest;
    self = advance self c;
    found = err (record { character = c; offset = start });
    returns = refl;
    joined = refl;
    is_item = Spec.unexpected p n d w;
    at = advance-IsAt a;
  }

  -- What is needed of the characters behind the first, where the loop over a name has ended.
  module _ (named : is_name_start c ≡ true)
      (w : Advanced is_name
        (before ++ (c ∷ []))
        rest
        (advance_while is_name (length self.source) (advance self c))) where
    rest_here : or_panic {E = Unit {0}} (rest_at self.source start) ≡ ok (c ∷ rest)
    rest_here = rw (s ∙ sym a.offset) (IsAt-rest_at a)

    name_at : IsAt w.self (before ++ (c ∷ w.text)) w.more
    name_at = rw (append_assoc before (c ∷ []) w.text) at w.at

    IsName-longest : IsName (c ∷ w.text) w.more
    IsName-longest = record {
      head = c;
      tail = w.text;
      text_eq = refl;
      starts = named;
      goes_on = w.passes;
      stops = w.stops;
    }

    front_of_name : front_to (c ∷ rest) (w.self.offset - start) ≡ some (c ∷ w.text)
    front_of_name =
        let size : w.self.offset - start ≡ bytes_of (c ∷ w.text) =
          omega (arith, name_at.offset, bytes_of-append before (c ∷ w.text)) in
        rw (size, w.joined) (front_to-append (c ∷ w.text) w.more)

    read_name-token :
        read_name start c self
        ≡ ok (
          some (
              token_of
                (if list_eq (c ∷ w.text) (b'f' ∷ b'n' ∷ [])
                  then function
                  else identifier (c ∷ w.text))
                start
                (c ∷ w.text)),
          w.self,
        )
    unfolding read_name
    read_name-token =
        rw (w.returns, rest_here, front_of_name)
          (ap ok (token-token_of _ start before (c ∷ w.text) w.more w.self s name_at))

    name-IsItem : IsItem start (c ∷ w.text) w.more (
        token_of
          (if list_eq (c ∷ w.text) (b'f' ∷ b'n' ∷ []) then function else identifier (c ∷ w.text))
          start
          (c ∷ w.text))
    name-IsItem = elim (Bool-cases (list_eq (c ∷ w.text) (b'f' ∷ b'n' ∷ []))) [
      | inl same ↦ rw same (
          keyword-IsItem start (c ∷ w.text) w.more
            ((list_eq_iff (c ∷ w.text) (b'f' ∷ b'n' ∷ [])).0 same) IsName-longest)
      | inr other ↦ rw other (
          Spec.name IsName-longest
            (λ e. true_ne_false (sym ((list_eq_iff (c ∷ w.text) (b'f' ∷ b'n' ∷ [])).1 e) ∙ other)))
    ]

    Found-name : Found start before (c ∷ rest) (read_name start c self)
    Found-name = record {
      text = c ∷ w.text;
      more = w.more;
      self = w.self;
      found = _;
      returns = read_name-token;
      joined = ap (λ x. c ∷ x) w.joined;
      is_item = name-IsItem;
      at = name_at;
    }

  Found-integer_end :
      (text more : List ℕ) (self' : Lexer) (out : Result LexError ℕ)
      → IsEnd 0 text self'.offset more out
      → read_digits (length self.source) 0 self ≡ ok (out, self')
      → c ∷ rest ≡ text ++ more
      → text ≢ []
      → Passes is_ascii_digit text
      → decimal 0 text < 2 ^ 64
      → IsAt self' (before ++ text) more
      → Found start before (c ∷ rest) (read_integer start self)
  unfolding read_integer
  Found-integer_end text more self' _ (Digits.fits stops) e j n p small at = record {
    text = text;
    more = more;
    self = self';
    found = token_of (integer (decimal 0 text)) start text;
    returns =
        rw e (ap ok (token-token_of (integer (decimal 0 text)) start before text more self' s at));
    joined = j;
    is_item = Spec.number n p stops small;
    at = at;
  }
  Found-integer_end text _ self' _ (Digits.overflows {c = x} {more = more} d large) e j n p small
        at =
      let o : self'.offset ≡ start + bytes_of text =
        omega (arith, at.offset, bytes_of-append before text) in
      record {
        text = text;
        more = x ∷ more;
        self = self';
        found = err (record { character = x; offset = start + bytes_of text });
        returns = rw e (ap (λ n. ok (some (err (record { character = x; offset = n })), self')) o);
        joined = j;
        is_item = Spec.overflow n p small d large;
        at = at;
      }

  first_digit_taken :
      (more : List ℕ) (offset : ℕ) (out : Result LexError ℕ)
      → is_ascii_digit c ≡ true
      → c ∷ rest ≡ more
      → ¬ IsEnd 0 [] offset more out
  unfolding is_ascii_digit
  first_digit_taken [] offset out digit e end = cc
  first_digit_taken (x ∷ more) offset _ digit e (Digits.fits stops) =
      true_ne_false (sym digit ∙ ap is_ascii_digit (head_eq e) ∙ stops)
  first_digit_taken (x ∷ more) offset _ digit e (Digits.overflows d large) = ground arith

  Found-integer : is_ascii_digit c ≡ true → Found start before (c ∷ rest) (read_integer start self)
  Found-integer digit =
      let d =
        read_digits-Digits (length self.source) 0 before (c ∷ rest) self a (IsAt-rounds a)
          (omega arith) in
      Found-integer_end d.text d.more d.self d.out d.ends d.returns d.joined
        (λ e.
          first_digit_taken d.more d.self.offset d.out digit (rw e at d.joined) (rw e at d.ends))
        d.passes d.small d.at

  pub next_at-Found : is_whitespace c ≡ false → Found start before (c ∷ rest) (next_at start c self)
  unfolding next_at
  next_at-Found w = elim (punctuation_cases c) [
    | inr (kind, e, p, one) ↦ rw e (Found-punctuation kind p one)
    | inl plain ↦ elim (Bool-cases (is_name_start c)) [
      | inl named ↦
          rw (plain, named)
            (Found-name named (
              advance_while-Advanced is_name (length self.source) (before ++ (c ∷ [])) rest
                (advance self c) (advance-IsAt a) (omega (arith, IsAt-rounds a))))
      | inr unnamed ↦ elim (Bool-cases (is_ascii_digit c)) [
        | inl digit ↦ rw (plain, unnamed, digit) (Found-integer digit)
        | inr other ↦
            rw (plain, unnamed, other) (Found-unexpected (no_punctuation c plain) unnamed other w)
      ]
    ]
  ]
