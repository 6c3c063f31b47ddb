-- ===== src/Scanner/Lexemes.antt =====
-- SQL text that src/parsestatements/scanner.c reads as it is meant: quotes without backslashes,
-- comments, balanced brackets and plain characters. Dollar quotes and the slash are left out.
use slony1_engine.Base.{ℕ, ◌≡◌, Bool, true, false, List, [], ◌∷◌, ◌++◌, All}
use slony1_engine.Scanner.{
  QuoteState, double_quoting, single_quoting, dashing_state, hope_to_ccomment, ccomment, Bracket,
  paren, broket, squiggle, CharClass, nul, star, backslash, double_quote, single_quote, newline,
  blank, semicolon, other, classify,
}

-- A statement, without its semicolon. `minus` is a single dash and the character behind it.
pub data Sql : Type 0 where
  end : Sql
  plain minus : ℕ → Sql → Sql
  single double line block : List ℕ → Sql → Sql
  group : Bracket → Sql → Sql → Sql

abbrev pub open_char : Bracket → ℕ
open_char paren = b'('
open_char broket = b'['
open_char squiggle = b'{'

abbrev pub close_char : Bracket → ℕ
close_char paren = b')'
close_char broket = b']'
close_char squiggle = b'}'

unfoldable pub print : Sql → List ℕ
print end = []
print (plain c q) = c ∷ print q
print (minus c q) = b'-' ∷ c ∷ print q
print (single cs q) = 39 ∷ (cs ++ (39 ∷ print q))
print (double cs q) = 34 ∷ (cs ++ (34 ∷ print q))
print (line cs q) = b'-' ∷ b'-' ∷ (cs ++ (10 ∷ print q))
print (block cs q) = b'/' ∷ b'*' ∷ (cs ++ (b'*' ∷ b'/' ∷ print q))
print (group b inner q) = open_char b ∷ (print inner ++ (close_char b ∷ print q))

-- A semicolon is plain within brackets only.
abbrev pub is_plain : Bool → CharClass → Bool
is_plain nested star = true
is_plain nested backslash = true
is_plain nested newline = true
is_plain nested blank = true
is_plain nested other = true
is_plain nested semicolon = nested
is_plain nested _ = false

-- The characters over which a quote, a comment or the hope for one goes on.
abbrev pub stays : QuoteState → CharClass → Bool
stays single_quoting nul = false
stays single_quoting backslash = false
stays single_quoting single_quote = false
stays single_quoting _ = true
stays double_quoting nul = false
stays double_quoting backslash = false
stays double_quoting double_quote = false
stays double_quoting _ = true
stays dashing_state nul = false
stays dashing_state newline = false
stays dashing_state _ = true
stays ccomment nul = false
stays ccomment star = false
stays ccomment _ = true
stays hope_to_ccomment nul = false
stays hope_to_ccomment star = false
stays hope_to_ccomment _ = true
stays _ _ = false

abbrev pub IsContent : QuoteState → List ℕ → Type 0
IsContent st cs = All (λ c. stays st (classify c) ≡ true) cs

abbrev pub IsSql : Bool → Sql → Type 0
IsSql nested end = Unit
IsSql nested (plain c q) = (is_plain nested (classify c) ≡ true) × IsSql nested q
IsSql nested (minus c q) = (is_plain nested (classify c) ≡ true) × IsSql nested q
IsSql nested (single cs q) = IsContent single_quoting cs × IsSql nested q
IsSql nested (double cs q) = IsContent double_quoting cs × IsSql nested q
IsSql nested (line cs q) = IsContent dashing_state cs × IsSql nested q
IsSql nested (block cs q) = IsContent ccomment cs × IsSql nested q
IsSql nested (group b inner q) = IsSql true inner × IsSql nested q
