-- ===== src/Scanner/RoundTrip.antt =====
-- What scan_for_statements() of src/parsestatements/scanner.c makes of a script of printed statements.
use slony1_engine.Base.{
  ℕ, ◌+◌, ◌≡◌, ap, ◌∙◌, Bool, true, List, ◌∷◌, ◌++◌, arith, length, length-append, append_assoc,
}
use slony1_engine.Scanner.{
  QuoteState, normal_state, dashing_state, ccomment, double_quoting, single_quoting, Bracket, paren,
  broket, squiggle, Scan, scan_from,
}
use slony1_engine.Scanner.Lexemes.{
  Sql, end, plain, minus, single, double, line, block, group, open_char, close_char, print,
  IsContent, IsSql,
}
use slony1_engine.Scanner.Steps.{
  place, scan-content, open_single, close_single, open_double, close_double, open_line, close_line,
  open_block, close_block, opened, open_bracket, before_closing, close_bracket, IsDeep, plain-step,
  not_dash, dash-step,
}

module _ (w : List ℕ) (s : Scan) where
  -- At the end of a text the position is what counts.
  at_end :
      (rest : List ℕ) (m n x y z : ℕ)
      → m ≡ n
      → scan_from w rest (place normal_state m x y z s)
        ≡ scan_from w rest (place normal_state n x y z s)
  at_end rest m n x y z e = ap (λ k. scan_from w rest (place normal_state k x y z s)) e

  scan-enclosed :
      (st : QuoteState) (cs tail rest : List ℕ) (p x y z : ℕ)
      → IsContent st cs
      → scan_from w ((cs ++ tail) ++ rest) (place st p x y z s)
        ≡ scan_from w (tail ++ rest) (place st (p + length cs) x y z s)
  scan-enclosed st cs tail rest p x y z h =
      ap (λ t. scan_from w t (place st p x y z s)) (append_assoc cs tail rest)
      ∙ scan-content w s st cs (tail ++ rest) p x y z h

  scan-bracketed :
      (inner tail rest : List ℕ) (b : Bracket) (p x y z : ℕ)
      → ((rest : List ℕ)
          → scan_from w (inner ++ rest) (opened w s (inner ++ rest) p x y z b)
            ≡ scan_from w rest (before_closing w s rest (p + 1 + length inner) x y z b))
      → scan_from w
          ((open_char b ∷ (inner ++ (close_char b ∷ tail))) ++ rest)
          (place normal_state p x y z s)
        ≡ scan_from w (tail ++ rest) (place normal_state (p + 1 + length inner + 1) x y z s)
  scan-bracketed inner tail rest b p x y z f =
      open_bracket w s ((inner ++ (close_char b ∷ tail)) ++ rest) p x y z b
      ∙ ap (λ t. scan_from w t (opened w s rest p x y z b))
          (append_assoc inner (close_char b ∷ tail) rest)
      ∙ f (close_char b ∷ (tail ++ rest))
      ∙ close_bracket w s (tail ++ rest) (p + 1 + length inner) x y z b

  pub scan-sql :
      (nested : Bool) (q : Sql) (rest : List ℕ) (p x y z : ℕ)
      → IsSql nested q
      → IsDeep w s nested (x + y + z)
      → scan_from w (print q ++ rest) (place normal_state p x y z s)
        ≡ scan_from w rest (place normal_state (p + length (print q)) x y z s)
  unfolding print
  scan-sql nested end rest p x y z h d = at_end rest p (p + 0) x y z (omega arith)
  scan-sql nested (plain c q) rest p x y z (k, h) d =
      plain-step w s nested c (print q ++ rest) p x y z k d
      ∙ scan-sql nested q rest (p + 1) x y z h d
      ∙ at_end rest _ _ x y z (omega arith)
  scan-sql nested (minus c q) rest p x y z (k, h) d =
      dash-step w s c (print q ++ rest) p x y z (not_dash w s nested c k)
      ∙ plain-step w s nested c (print q ++ rest) (p + 1) x y z k d
      ∙ scan-sql nested q rest (p + 1 + 1) x y z h d
      ∙ at_end rest _ _ x y z (omega arith)
  scan-sql nested (single cs q) rest p x y z (k, h) d =
      open_single w s ((cs ++ (39 ∷ print q)) ++ rest) p x y z
      ∙ scan-enclosed single_quoting cs (39 ∷ print q) rest (p + 1) x y z k
      ∙ close_single w s (print q ++ rest) (p + 1 + length cs) x y z
      ∙ scan-sql nested q rest (p + 1 + length cs + 1) x y z h d
      ∙ at_end rest _ _ x y z (omega (arith, length-append cs (39 ∷ print q)))
  scan-sql nested (double cs q) rest p x y z (k, h) d =
      open_double w s ((cs ++ (34 ∷ print q)) ++ rest) p x y z
      ∙ scan-enclosed double_quoting cs (34 ∷ print q) rest (p + 1) x y z k
      ∙ close_double w s (print q ++ rest) (p + 1 + length cs) x y z
      ∙ scan-sql nested q rest (p + 1 + length cs + 1) x y z h d
      ∙ at_end rest _ _ x y z (omega (arith, length-append cs (34 ∷ print q)))
  scan-sql nested (line cs q) rest p x y z (k, h) d =
      open_line w s ((cs ++ (10 ∷ print q)) ++ rest) p x y z
      ∙ scan-enclosed dashing_state cs (10 ∷ print q) rest (p + 1 + 1) x y z k
      ∙ close_line w s (print q ++ rest) (p + 1 + 1 + length cs) x y z
      ∙ scan-sql nested q rest (p + 1 + 1 + length cs + 1) x y z h d
      ∙ at_end rest _ _ x y z (omega (arith, length-append cs (10 ∷ print q)))
  scan-sql nested (block cs q) rest p x y z (k, h) d =
      open_block w s ((cs ++ (b'*' ∷ b'/' ∷ print q)) ++ rest) p x y z
      ∙ scan-enclosed ccomment cs (b'*' ∷ b'/' ∷ print q) rest (p + 1 + 1) x y z k
      ∙ close_block w s (print q ++ rest) (p + 1 + 1 + length cs) x y z
      ∙ scan-sql nested q rest (p + 1 + 1 + length cs + 1 + 1) x y z h d
      ∙ at_end rest _ _ x y z (omega (arith, length-append cs (b'*' ∷ b'/' ∷ print q)))
  scan-sql nested (group paren inner q) rest p x y z (k, h) d =
      scan-bracketed (print inner) (print q) rest paren p x y z
        (λ r. scan-sql true inner r (p + 1) (x + 1) y z k (omega arith))
      ∙ scan-sql nested q rest (p + 1 + length (print inner) + 1) x y z h d
      ∙ at_end rest _ _ x y z
          (omega (arith, length-append (print inner) (close_char paren ∷ print q)))
  scan-sql nested (group broket inner q) rest p x y z (k, h) d =
      scan-bracketed (print inner) (print q) rest broket p x y z
        (λ r. scan-sql true inner r (p + 1) x (y + 1) z k (omega arith))
      ∙ scan-sql nested q rest (p + 1 + length (print inner) + 1) x y z h d
      ∙ at_end rest _ _ x y z
          (omega (arith, length-append (print inner) (close_char broket ∷ print q)))
  scan-sql nested (group squiggle inner q) rest p x y z (k, h) d =
      scan-bracketed (print inner) (print q) rest squiggle p x y z
        (λ r. scan-sql true inner r (p + 1) x y (z + 1) k (omega arith))
      ∙ scan-sql nested q rest (p + 1 + length (print inner) + 1) x y z h d
      ∙ at_end rest _ _ x y z
          (omega (arith, length-append (print inner) (close_char squiggle ∷ print q)))
