-- ===== src/Compress.antt =====
-- compress_actionseq() of src/slon/remote_worker.c: the list of action sequence numbers of a SYNC
-- becomes a filter of ranges. A text is the list of its bytes, its end (or a zero byte) the '\0'. The
-- numbers are int64 and wrap; the query is the sequence of what slon_appendquery() appends.
pub mod Folding
pub mod Text
pub mod Query
mod Examples
use slony1_engine.Base.{
  ℕ, ◌+◌, ◌-◌, ◌*◌, Bool, true, false, not, ◌&&◌, ◌||◌, List, [], ◌∷◌, ◌++◌, ◌==◌, ltb, leb,
  if◌then◌else◌,
}
use slony1_engine.Base.Int.{ℤ, pos, negsuc, ◌+ℤ◌, ◌-ℤ◌, ◌*ℤ◌, ◌==ℤ◌, ltb_ℤ}
use slony1_engine.Misc.{wrap_int64}

pub data CompressState : Type 0 where
  start_state collecting_digits between_numbers : CompressState

-- " and ", " log_actionseq <> '%L' " and " log_actionseq not between '%L' and '%L' ".
pub data Piece : Type 0 where
  and_also : Piece
  differs : ℤ → Piece
  not_between : ℤ → ℤ → Piece

-- MINMAXINITIAL
abbrev pub minmaxinitial : ℤ
minmaxinitial = negsuc 0

-- The range that is being built, and the query so far.
pub record Ranges : Type 0 where
  pub curr_min : ℤ
  pub curr_max : ℤ
  pub first_subquery : Bool
  pub query : List Piece

unfoldable pub condition : ℤ → ℤ → Piece
condition lo hi = if hi ==ℤ lo then differs hi else not_between lo hi

-- "generate a subquery based on the range": one condition, behind an "and" unless it is the first.
unfoldable pub emit_range : Ranges → Ranges
unfolding condition
emit_range r = record r {
  first_subquery = false;
  query =
      r.query
      ++ (if r.first_subquery
          then condition r.curr_min r.curr_max ∷ []
          else and_also ∷ condition r.curr_min r.curr_max ∷ []);
}

-- n - 1 and n + 1 of an int64.
unfoldable pub before : ℤ → ℤ
unfolding wrap_int64 ◌-ℤ◌
before n = wrap_int64 (n -ℤ pos 1)

unfoldable pub behind : ℤ → ℤ
unfolding wrap_int64 ◌+ℤ◌
behind n = wrap_int64 (n +ℤ pos 1)

-- The start of a range, if there is none.
unfoldable pub start_range : ℤ → Ranges → Ranges
start_range n r = record r {
  curr_min = if r.curr_min ==ℤ minmaxinitial then n else r.curr_min;
  curr_max = if r.curr_max ==ℤ minmaxinitial then n else r.curr_max;
}

-- "If the number pushes the range outwards by 1, then shift the range by 1".
unfoldable pub widen_range : ℤ → Ranges → Ranges
unfolding before behind
widen_range n r = record r {
  curr_min = if n ==ℤ before r.curr_min then before r.curr_min else r.curr_min;
  curr_max = if n ==ℤ behind r.curr_max then behind r.curr_max else r.curr_max;
}

-- A number outside the range closes it and starts the next one.
unfoldable pub close_range : ℤ → Ranges → Ranges
unfolding before behind emit_range
close_range n r =
    if ltb_ℤ n (before r.curr_min) || ltb_ℤ (behind r.curr_max) n
    then record (emit_range r) { curr_min = n; curr_max = n }
    else r

-- "Finished another number... Fold it into the ranges..."
unfoldable pub fold_number : ℤ → Ranges → Ranges
unfolding start_range widen_range close_range
fold_number n r = close_range n (widen_range n (start_range n r))

pub record Scan : Type 0 where
  pub state : CompressState
  pub curr_number : ℤ
  pub ranges : Ranges

abbrev pub is_digit : ℕ → Bool
is_digit c = leb b'0' c && leb c b'9'

abbrev pub is_separator : ℕ → Bool
is_separator c = c == 39 || c == b','

-- The ten cases of the digits, which differ in `curr_digit` only.
unfoldable pub read_digit : ℕ → Scan → Scan
unfolding wrap_int64 ◌+ℤ◌ ◌*ℤ◌
read_digit curr_digit s = elim s.state [
  | collecting_digits ↦ record s {
    curr_number = wrap_int64 (s.curr_number *ℤ pos 10 +ℤ pos curr_digit);
  }
  | _ ↦ record s { state = collecting_digits; curr_number = pos curr_digit }
]

-- The case of a quote or a comma.
unfoldable pub read_separator : Scan → Scan
unfolding fold_number
read_separator s = record {
  state = between_numbers;
  curr_number = pos 0;
  ranges = elim s.state [ collecting_digits ↦ fold_number s.curr_number s.ranges | _ ↦ s.ranges ];
}

unfoldable pub read_char : ℕ → Scan → Scan
unfolding read_digit read_separator
read_char c s =
    if is_digit c then read_digit (c - b'0') s else if is_separator c then read_separator s else s

unfoldable pub scan : List ℕ → Scan → Scan
unfolding read_char
scan [] s = s
scan (c ∷ cs) s = let rest = scan cs (read_char c s) in if c == 0 then s else rest

unfoldable pub initial : Scan
initial = record {
  state = start_state;
  curr_number = pos 0;
  ranges = record {
    curr_min = minmaxinitial;
    curr_max = minmaxinitial;
    first_subquery = true;
    query = [];
  };
}

-- "process last range, if it exists"
unfoldable pub last_range : Ranges → List Piece
unfolding emit_range
last_range r =
    if not (r.curr_min ==ℤ pos 0) || not (r.curr_max ==ℤ pos 0)
    then (emit_range r).query
    else r.query

unfoldable pub compress_actionseq : List ℕ → List Piece
unfolding scan initial last_range
compress_actionseq ssy_actionlist = last_range (scan ssy_actionlist initial).ranges
