-- ===== src/Compiler/Lexer/Correct.antt =====
-- crates/compiler/src/lib.rs: the items of a source.
use polytope_os.Base.{ℕ, zero, suc, ◌+◌, ◌≤◌, ◌<◌, ◌≡◌, ◌⊎◌, inl, inr, refl, ap, ◌∙◌}
use polytope_os.Base.{arith, List, [], ◌∷◌, ◌++◌, append-nil, length, length-append}
use polytope_os.Base.{Result, ok, none}
use polytope_os.Compiler.Chars.{bytes_of, is_whitespace}
use polytope_os.Compiler.Chars.Offsets.{bytes_of-append}
use polytope_os.Compiler.Lexer.{
  Lexer, Token, LexError, Item, advance_while, next, collect_loop, lex, new,
}
use polytope_os.Compiler.Lexer.Spec
use polytope_os.Compiler.Lexer.Spec.{Passes, IsItem, IsLexing}
use polytope_os.Compiler.Lexer.Loops.{IsAt, IsAt-rounds, peek-first, advance_while-Advanced}
use polytope_os.Compiler.Lexer.Found.{Found}
use polytope_os.Compiler.Lexer.Next.{next_at-Found}

-- Every item takes a character.
IsItem-length :
    {start : ℕ} {text more : List ℕ} {found : Result LexError Token}
    → IsItem start text more found
    → 1 ≤ length text
IsItem-length (Spec.punctuation p) = omega arith
IsItem-length (Spec.keyword n) = omega arith
IsItem-length (Spec.name n other) = rw n.text_eq (omega arith)
IsItem-length (Spec.number {text = []} n p s small) = absurd (n refl)
IsItem-length (Spec.number {text = c ∷ text} n p s small) = omega arith
IsItem-length (Spec.overflow {text = []} n p small d large) = absurd (n refl)
IsItem-length (Spec.overflow {text = c ∷ text} n p small d large) = omega arith
IsItem-length (Spec.unexpected p n d w) = omega arith

item_at :
    {m n : ℕ} {text more : List ℕ} {found : Result LexError Token}
    → m ≡ n
    → IsItem m text more found
    → IsItem n text more found
item_at e i = rw e at i

IsLexing-at :
    {m n : ℕ} {rest : List ℕ} {items : List (Result LexError Token)}
    → m ≡ n
    → IsLexing m rest items
    → IsLexing n rest items
IsLexing-at e i = rw e at i

end_of :
    (before white text : List ℕ)
    → bytes_of ((before ++ white) ++ text) ≡ bytes_of before + bytes_of white + bytes_of text
end_of before white text =
    omega (arith, bytes_of-append (before ++ white) text, bytes_of-append before white)

-- The two ways in which `next` returns.
NextCases : List ℕ → List ℕ → Result (Unit {0}) Item → Type 0
NextCases before rest result =
    (self : Lexer) × (white : List ℕ) × (tail : List ℕ) × (rest ≡ white ++ tail)
    × Passes is_whitespace white
    × IsAt self (before ++ white) tail
    × ((tail ≡ []) × (result ≡ ok (none, self)) ⊎ Found self.offset (before ++ white) tail result)

next_behind :
    (before white tail : List ℕ) (self self' : Lexer)
    → advance_while is_whitespace (length self.source) self ≡ ok self'
    → IsAt self' (before ++ white) tail
    → Spec.Stops is_whitespace tail
    → (tail ≡ []) × (next self ≡ ok (none, self'))
      ⊎ Found self'.offset (before ++ white) tail (next self)
unfolding next
next_behind before white [] self self' e a stops = inl (refl, rw (e, peek-first a))
next_behind before white (c ∷ rest) self self' e a stops = inr (
    rw (e, peek-first a)
      (next_at-Found (before ++ white) c rest self' self'.offset a a.offset stops))

next-NextCases :
    (before rest : List ℕ) (self : Lexer)
    → IsAt self before rest
    → NextCases before rest (next self)
unfolding NextCases
next-NextCases before rest self a =
    let w =
      advance_while-Advanced is_whitespace (length self.source) before rest self a
        (IsAt-rounds a) in
    (
      w.self,
      w.text,
      w.more,
      w.joined,
      w.passes,
      w.at,
      next_behind before w.text w.more self w.self w.returns w.at w.stops,
    )

collect_loop-IsLexing :
    (calls : ℕ) (before rest : List ℕ) (self : Lexer)
    → IsAt self before rest
    → length rest < calls
    → (items : List (Result LexError Token)) × (collect_loop calls self ≡ ok items)
      × IsLexing (bytes_of before) rest items
unfolding collect_loop NextCases
collect_loop-IsLexing zero before rest self a h = absurd (omega arith)
collect_loop-IsLexing (suc calls) before rest self a h =
    let (self', white, tail, joined, passes, at, cases) = next-NextCases before rest self a in
    elim cases [
      | inl (empty, e) ↦ (
        [],
        rw e,
        Spec.finish (rw (joined ∙ ap (λ t. white ++ t) empty ∙ append-nil white) passes),
      )
      | inr found ↦
          let text = found.text in
          let size : length rest ≡ length white + (length text + length found.more) = omega (
            arith,
            ap length (joined ∙ ap (λ t. white ++ t) found.joined),
            length-append white (text ++ found.more),
            length-append text found.more,
          ) in
          let (items, e, lexing) =
            collect_loop-IsLexing calls ((before ++ white) ++ text) found.more found.self found.at
              (omega (arith, size, IsItem-length found.is_item)) in
          (
            found.found ∷ items,
            rw (found.returns, e),
            Spec.item white text found.more (joined ∙ ap (λ t. white ++ t) found.joined) passes
                (item_at (at.offset ∙ bytes_of-append before white) found.is_item)
                (IsLexing-at (end_of before white text) lexing),
          )
    ]

-- For every source, an iteration over the lexer ends, with no panic, and the items that it yields are
-- those of the source: between them lies whitespace alone, and each is a parenthesis or brace, the
-- keyword, a longest name, a longest number below 2 ^ 64, a number with the first digit that does not
-- fit as an error, or a character that begins no token (no punctuation, letter, underscore, digit or
-- whitespace) as an error, with its place in bytes.
pub lex-IsLexing :
    (source : List ℕ)
    → (items : List (Result LexError Token)) × (lex source ≡ ok items) × IsLexing 0 source items
unfolding lex bytes_of
lex-IsLexing source =
    collect_loop-IsLexing (length source + 1) [] source (new source)
      (record { source = refl; offset = refl }) (omega arith)
