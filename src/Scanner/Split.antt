-- ===== src/Scanner/Split.antt =====
-- How src/slonik/slonik.c cuts the SQL script of an EXECUTE SCRIPT into the statements that it submits.
use slony1_engine.Base.{
  ℕ, ◌-◌, Option, none, some, List, [], ◌∷◌, leb, if◌then◌else◌, length, take, drop,
}
use slony1_engine.Scanner.{maxstatements, scan_for_statements}

-- Each statement reaches from the position before to its own: strncpy() into `dest`.
unfoldable pub pieces : List ℕ → ℕ → List ℕ → List (List ℕ)
unfolding take drop
pieces w startpos [] = []
pieces w startpos (endpos ∷ ps) = take (endpos - startpos) (drop startpos w) ∷ pieces w endpos ps

-- "OOPS!  Something went wrong !!!": a full array is refused.
unfoldable pub split_script : List ℕ → Option (List (List ℕ))
unfolding pieces scan_for_statements
split_script w =
    if leb maxstatements (length (scan_for_statements w))
    then none
    else some (pieces w 0 (scan_for_statements w))
