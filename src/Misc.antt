-- ===== src/Misc.antt =====
-- slon_scanint64() and write_syslog() of src/slon/misc.c.
pub mod Integers
pub mod Printing
pub mod Chunks
mod Examples
use slony1_engine.Base.{
  ℕ, zero, suc, ◌+◌, ◌-◌, ◌*◌, ◌/◌, ◌%◌, Bool, true, false, not, ◌&&◌, Option, none, some, List, [],
  ◌∷◌, ◌++◌, if◌then◌else◌, length, leb, ltb, ◌==◌, take, drop,
}
use slony1_engine.Base.Int.{ℤ, pos, negsuc, ◌+ℤ◌, ◌*ℤ◌, ◌==ℤ◌}

-- isspace() and isdigit() of the C locale.
abbrev pub is_space : ℕ → Bool
is_space c = if c == 32 then true else leb 9 c && leb c 13

abbrev pub is_digit : ℕ → Bool
is_digit c = leb b'0' c && leb c b'9'

-- 2 ^ 63 and 2 ^ 64
abbrev pub sign_bit : ℕ
sign_bit = 9223372036854775808

abbrev pub word : ℕ
word = 18446744073709551616

-- An int64 takes the value modulo 2 ^ 64.
unfoldable pub wrap_int64 : ℤ → ℤ
wrap_int64 (pos n) =
    if ltb (n % word) sign_bit then pos (n % word) else negsuc (word - 1 - n % word)
wrap_int64 (negsuc n) =
    if ltb (n % word) sign_bit then negsuc (n % word) else pos (word - 1 - n % word)

abbrev pub negate : ℤ → ℤ
negate (pos zero) = pos 0
negate (pos (suc n)) = negsuc n
negate (negsuc n) = pos (suc n)

-- C division by 10, which cuts towards 0.
unfoldable pub quot_10 : ℤ → ℤ
quot_10 (pos n) = pos (n / 10)
quot_10 (negsuc n) = negate (pos (suc n / 10))

unfoldable pub skip_spaces : List ℕ → List ℕ
skip_spaces [] = []
skip_spaces (c ∷ cs) = if is_space c then skip_spaces cs else c ∷ cs

-- strcmp() == 0
unfoldable pub strcmp_eq : List ℕ → List ℕ → Bool
strcmp_eq [] [] = true
strcmp_eq [] (b ∷ bs) = false
strcmp_eq (a ∷ cs) [] = false
strcmp_eq (a ∷ cs) (b ∷ bs) = a == b && strcmp_eq cs bs

-- The loop "process digits" with its overflow check, and "trailing junk?".
unfoldable pub scan_digits : List ℕ → ℤ → Option ℤ
unfolding wrap_int64 quot_10 ◌+ℤ◌ ◌*ℤ◌
scan_digits [] tmp = some tmp
scan_digits (c ∷ cs) tmp = elim (is_digit c) [
  | false ↦ none
  | true ↦
      let newtmp = wrap_int64 (tmp *ℤ pos 10 +ℤ pos (c - b'0')) in
      elim (quot_10 newtmp ==ℤ tmp) [ true ↦ scan_digits cs newtmp | false ↦ none ]
]

-- "require at least one digit"
unfoldable pub scan_number : List ℕ → Option ℤ
unfolding scan_digits
scan_number [] = none
scan_number (c ∷ cs) = if is_digit c then scan_digits (c ∷ cs) (pos 0) else none

-- "9223372036854775808"
abbrev pub min_digits : List ℕ
min_digits =
    b'9' ∷ b'2' ∷ b'2' ∷ b'3' ∷ b'3' ∷ b'7' ∷ b'2' ∷ b'0' ∷ b'3' ∷ b'6' ∷ b'8' ∷ b'5' ∷ b'4' ∷ b'7'
    ∷ b'7' ∷ b'5' ∷ b'8' ∷ b'0' ∷ b'8' ∷ []

abbrev pub min_int64 : ℤ
min_int64 = negsuc 9223372036854775807

abbrev pub negated : Option ℤ → Option ℤ
negated none = none
negated (some n) = some (negate n)

unfoldable pub scan_signed : List ℕ → Option ℤ
unfolding strcmp_eq scan_number
scan_signed [] = none
scan_signed (c ∷ cs) =
    if c == b'-'
    then (if strcmp_eq cs min_digits then some min_int64 else negated (scan_number cs))
    else if c == b'+'
    then scan_number cs
    else scan_number (c ∷ cs)

unfoldable pub slon_scanint64 : List ℕ → Option ℤ
unfolding skip_spaces scan_signed
slon_scanint64 str = scan_signed (skip_spaces str)

-- What syslog() is given: the sequence number, the number of the chunk if the line is divided, and
-- the text.
pub record SyslogMessage : Type 0 where
  pub seq : ℕ
  pub chunk_nr : Option ℕ
  pub text : List ℕ

-- SLON_SYSLOG_LIMIT
abbrev pub syslog_limit : ℕ
syslog_limit = 128

-- strncpy() of at most n characters, cut at the first newline.
unfoldable pub line_start : ℕ → List ℕ → List ℕ
line_start zero line = []
line_start (suc n) [] = []
line_start (suc n) (c ∷ cs) = if c == 10 then [] else c ∷ line_start n cs

-- A character by its index, 0 at the end.
unfoldable pub char_at : ℕ → List ℕ → ℕ
char_at i [] = 0
char_at zero (c ∷ cs) = c
char_at (suc i) (c ∷ cs) = char_at i cs

-- "try to divide at word boundary"
unfoldable pub last_space : ℕ → List ℕ → ℕ
unfolding char_at
last_space zero buf = 0
last_space (suc i) buf = if is_space (char_at (suc i) buf) then suc i else last_space i buf

-- The length of the chunk that is taken off the line.
unfoldable pub chunk_length : List ℕ → List ℕ → ℕ
unfolding last_space char_at
chunk_length buf line =
    let next = char_at (length buf) line in
    let i = last_space (length buf - 1) buf in
    if not (is_space next) && not (next == 0) && ltb 0 i then i else length buf

-- The loop, for a line of no more than `fuel` characters.
unfoldable pub syslog_chunks : ℕ → ℕ → ℕ → List ℕ → List SyslogMessage
unfolding line_start chunk_length
syslog_chunks zero seq chunk_nr line = []
syslog_chunks (suc fuel) seq chunk_nr [] = []
syslog_chunks (suc fuel) seq chunk_nr (c ∷ cs) = elim (c == 10) [
  | true ↦ syslog_chunks fuel seq chunk_nr cs
  | false ↦
      let buf = line_start syslog_limit (c ∷ cs) in
      let n = chunk_length buf (c ∷ cs) in
      record { seq = seq; chunk_nr = some (suc chunk_nr); text = take n buf }
      ∷ syslog_chunks fuel seq (suc chunk_nr) (drop n (c ∷ cs))
]

unfoldable pub has_newline : List ℕ → Bool
has_newline [] = false
has_newline (c ∷ cs) = if c == 10 then true else has_newline cs

-- The sequence number after the call, and the calls of syslog() that it makes.
unfoldable pub write_syslog : Bool → List ℕ → ℕ → ℕ × List SyslogMessage
unfolding syslog_chunks has_newline
write_syslog use_syslog line seq =
    if use_syslog
    then (
      suc seq,
      (if ltb syslog_limit (length line)
          then syslog_chunks (length line) (suc seq) 0 line
          else if has_newline line
          then syslog_chunks (length line) (suc seq) 0 line
          else record { seq = suc seq; chunk_nr = none; text = line } ∷ []),
    )
    else (seq, [])
