-- ===== src/Scanner.antt =====
-- scan_for_statements() of src/parsestatements/scanner.c, by which slonik and slon cut an SQL script
-- into statements. A text is the list of its bytes; its end, or a zero byte, is the '\0'. STMTS is the
-- list of the positions that are stored, in their order, and the return value is its length.
pub mod Boundaries
pub mod Lexemes
pub mod Steps
pub mod RoundTrip
pub mod Split
pub mod Statements
pub mod Whole
pub mod Stuck
mod Examples
use slony1_engine.Base.{
  ℕ, zero, suc, ◌+◌, ◌-◌, Bool, true, false, ◌&&◌, List, [], ◌∷◌, ◌==◌, leb, if◌then◌else◌,
}
use slony1_engine.Base.Int.{ℤ, pos, ◌+ℤ◌, ◌-ℤ◌, ◌==ℤ◌}

-- quote_states
pub data QuoteState : Type 0 where
  normal_state hope_to_dash dashing_state hope_to_ccomment ccomment hope_cend : QuoteState
  double_quoting single_quoting dollar_quoting dollar_building dollar_unbuilding : QuoteState

pub data Bracket : Type 0 where
  paren broket squiggle : Bracket

-- The cases of the switch.
pub data CharClass : Type 0 where
  nul : CharClass
  opening closing : Bracket → CharClass
  slash star backslash dollar double_quote single_quote dash newline blank semicolon : CharClass
  other : CharClass

pub classify : ℕ → CharClass
classify c =
    if c == 0
    then nul
    else if c == b'('
    then opening paren
    else if c == b')'
    then closing paren
    else if c == b'['
    then opening broket
    else if c == b']'
    then closing broket
    else if c == b'{'
    then opening squiggle
    else if c == b'}'
    then closing squiggle
    else if c == b'/'
    then slash
    else if c == b'*'
    then star
    else if c == 92
    then backslash
    else if c == b'$'
    then dollar
    else if c == 34
    then double_quote
    else if c == 39
    then single_quote
    else if c == b'-'
    then dash
    else if c == 10
    then newline
    else if c == 13
    then newline
    else if c == b' '
    then blank
    else if c == b';'
    then semicolon
    else other

-- MAXSTATEMENTS
abbrev pub maxstatements : ℕ
maxstatements = 1000

-- The variables of the loop, less d2end, which is the position of the character at hand.
pub record Scan : Type 0 where
  pub cpos : ℕ
  pub statements : ℕ
  pub bquote : Bool
  pub bpos : ℕ
  pub state : QuoteState
  pub d1start : ℕ
  pub d1end : ℕ
  pub d2start : ℕ
  pub nparens : ℤ
  pub nbrokets : ℤ
  pub nsquigb : ℤ

pub initial : Scan
initial = record {
  cpos = 0;
  statements = 0;
  bquote = false;
  bpos = 0;
  state = normal_state;
  d1start = 0;
  d1end = 0;
  d2start = 0;
  nparens = pos 0;
  nbrokets = pos 0;
  nsquigb = pos 0;
}

-- extended_statement[i]
pub char_at : List ℕ → ℕ → ℕ
char_at [] i = 0
char_at (c ∷ cs) zero = c
char_at (c ∷ cs) (suc i) = char_at cs i

-- The first of what is left.
abbrev pub head_char : List ℕ → ℕ
head_char [] = 0
head_char (c ∷ cs) = c

-- "Compare strings": n characters of the text from two positions.
pub same_text : List ℕ → ℕ → ℕ → ℕ → Bool
unfolding char_at
same_text w zero i j = true
same_text w (suc n) i j = char_at w i == char_at w j && same_text w n (i + 1) (j + 1)

-- Any character but a slash or a star takes back the hope for the end of a comment.
pub leave_hope : QuoteState → QuoteState
leave_hope hope_cend = ccomment
leave_hope st = st

pub count_bracket : Bracket → ℤ → Scan → Scan
unfolding ◌+ℤ◌
count_bracket paren d s = record s { nparens = s.nparens +ℤ d }
count_bracket broket d s = record s { nbrokets = s.nbrokets +ℤ d }
count_bracket squiggle d s = record s { nsquigb = s.nsquigb +ℤ d }

-- The cases of the brackets fall through to that of the slash, where nothing is left to do.
pub read_bracket : Bracket → ℤ → Scan → Scan
unfolding count_bracket leave_hope
read_bracket b d s = elim s.state [
  | normal_state ↦ count_bracket b d s
  | _ ↦ record s { state = leave_hope s.state }
]

pub read_slash : QuoteState → QuoteState
read_slash normal_state = hope_to_ccomment
read_slash hope_cend = normal_state
read_slash st = st

pub read_star : QuoteState → QuoteState
read_star hope_to_ccomment = ccomment
read_star ccomment = hope_cend
read_star st = st

pub hide_quote : Scan → Scan
hide_quote s = if s.bquote then s else record s { bquote = true; bpos = s.cpos }

pub read_backslash : Scan → Scan
unfolding hide_quote leave_hope
read_backslash s = elim s.state [
  | double_quoting ↦ hide_quote s
  | single_quoting ↦ hide_quote s
  | _ ↦ record s { state = leave_hope s.state }
]

-- Whether the second delimiter, which ends here, is the first one.
pub ends_dollar : List ℕ → Scan → Bool
unfolding same_text
ends_dollar w s =
    s.d1end - s.d1start == s.cpos - s.d2start
    && same_text w (s.d1end - s.d1start) s.d1start s.d2start

-- The comparison also moves d2start, which is set again before it is read.
pub read_dollar : List ℕ → Scan → Scan
unfolding ends_dollar leave_hope
read_dollar w s = elim s.state [
  | normal_state ↦ record s { state = dollar_building; d1start = s.cpos }
  | dollar_building ↦ record s { state = dollar_quoting; d1end = s.cpos }
  | dollar_quoting ↦ record s { state = dollar_unbuilding; d2start = s.cpos }
  | dollar_unbuilding ↦ record s {
    state = if ends_dollar w s then normal_state else dollar_quoting;
  }
  | _ ↦ record s { state = leave_hope s.state }
]

-- "But a backquote hides this!"
pub is_hidden : Scan → Bool
is_hidden s = s.bquote && s.bpos + 1 == s.cpos

pub read_double_quote : Scan → Scan
unfolding is_hidden leave_hope
read_double_quote s = elim s.state [
  | normal_state ↦ record s { state = double_quoting }
  | double_quoting ↦ if is_hidden s then s else record s { state = normal_state }
  | _ ↦ record s { state = leave_hope s.state }
]

pub read_single_quote : Scan → Scan
unfolding is_hidden leave_hope
read_single_quote s = elim s.state [
  | normal_state ↦ record s { state = single_quoting }
  | single_quoting ↦ if is_hidden s then s else record s { state = normal_state }
  | _ ↦ record s { state = leave_hope s.state }
]

-- By whether another dash follows.
pub read_dash : QuoteState → Bool → QuoteState
unfolding leave_hope
read_dash normal_state b = if b then hope_to_dash else normal_state
read_dash hope_to_dash b = dashing_state
read_dash st b = leave_hope st

pub read_newline : QuoteState → QuoteState
unfolding leave_hope
read_newline dashing_state = normal_state
read_newline dollar_building = normal_state
read_newline dollar_unbuilding = dollar_quoting
read_newline st = leave_hope st

pub read_blank : QuoteState → QuoteState
unfolding leave_hope
read_blank dollar_building = normal_state
read_blank dollar_unbuilding = dollar_quoting
read_blank st = leave_hope st

-- Outside of quotes, comments and brackets.
pub is_top : Scan → Bool
is_top s = elim s.state [
  | normal_state ↦ s.nparens ==ℤ pos 0 && s.nbrokets ==ℤ pos 0 && s.nsquigb ==ℤ pos 0
  | _ ↦ false
]

pub read_semicolon : Scan → Scan
unfolding is_top leave_hope
read_semicolon s =
    if is_top s
    then record s { statements = s.statements + 1 }
    else record s { state = leave_hope s.state }

-- One turn of the switch, with the text and the next character; the end of the text is not read here.
pub read_char : List ℕ → ℕ → CharClass → Scan → Scan
unfolding read_bracket read_slash read_star read_backslash read_dollar read_double_quote
    read_single_quote read_dash read_newline read_blank read_semicolon leave_hope ◌-ℤ◌
read_char w nx nul s = s
read_char w nx (opening b) s = read_bracket b (pos 1) s
read_char w nx (closing b) s = read_bracket b (pos 0 -ℤ pos 1) s
read_char w nx slash s = record s { state = read_slash s.state }
read_char w nx star s = record s { state = read_star s.state }
read_char w nx backslash s = read_backslash s
read_char w nx dollar s = read_dollar w s
read_char w nx double_quote s = read_double_quote s
read_char w nx single_quote s = read_single_quote s
read_char w nx dash s = record s { state = read_dash s.state (nx == b'-') }
read_char w nx newline s = record s { state = read_newline s.state }
read_char w nx blank s = record s { state = read_blank s.state }
read_char w nx semicolon s = read_semicolon s
read_char w nx other s = record s { state = leave_hope s.state }

-- cpos++
abbrev pub step : Scan → Scan
step s = record s { cpos = s.cpos + 1 }

-- A statement ends behind this character.
pub is_boundary : CharClass → Scan → Bool
unfolding is_top
is_boundary semicolon s = is_top s
is_boundary _ s = false

-- The loop, over what is left of the text `w`.
pub scan_from : List ℕ → List ℕ → Scan → List ℕ
unfolding classify read_char is_boundary
scan_from w [] s = s.cpos ∷ []
scan_from w (c ∷ cs) s =
    let more = scan_from w cs (step (read_char w (head_char cs) (classify c) s)) in
    elim (c == 0) [
      | true ↦ s.cpos ∷ []
      | false ↦ elim (is_boundary (classify c) s) [
        | true ↦ (s.cpos + 1) ∷ (if leb maxstatements (s.statements + 1) then [] else more)
        | false ↦ more
      ]
    ]

pub scan_for_statements : List ℕ → List ℕ
unfolding scan_from initial
scan_for_statements extended_statement = scan_from extended_statement extended_statement initial
