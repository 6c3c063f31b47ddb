-- ===== src/Scanner/Examples.antt =====
-- Scripts cut by src/parsestatements/scanner.c.
use slony1_engine.Base.{◌≤◌, ◌<◌, ◌≡◌, refl, false, some, [], ◌∷◌, ◌++◌, map, arith, length}
use slony1_engine.Scanner.{paren, classify, maxstatements, scan_for_statements}
use slony1_engine.Scanner.Boundaries.{IsAscending, scan_for_statements_bounds}
use slony1_engine.Scanner.Lexemes.{Sql, end, plain, single, group, print, IsSql}
use slony1_engine.Scanner.Split.{split_script}
use slony1_engine.Scanner.Statements.{script_text, statement, split_script-script_text}
use slony1_engine.Scanner.Whole.{concat, concat-split_script}

-- a(';') and b
abbrev call : Sql
call = plain b'a' (group paren (single (b';' ∷ []) end) end)

abbrev word : Sql
word = plain b'b' end

call-IsSql : IsSql false call
unfolding classify
call-IsSql = (refl, (((refl, tt), tt), tt))

word-IsSql : IsSql false word
unfolding classify
word-IsSql = (refl, tt)

scan_for_statements_bounds_example :
    IsAscending 0 2 (scan_for_statements (b'a' ∷ b';' ∷ []))
    × (0 < length (scan_for_statements (b'a' ∷ b';' ∷ [])))
    × (length (scan_for_statements (b'a' ∷ b';' ∷ [])) ≤ maxstatements)
scan_for_statements_bounds_example = scan_for_statements_bounds (b'a' ∷ b';' ∷ [])

split_script-script_text_example :
    split_script (script_text (call ∷ []) word)
    ≡ some (map statement (call ∷ []) ++ (print word ∷ []))
split_script-script_text_example =
    split_script-script_text (call ∷ []) word (call-IsSql, tt) word-IsSql (omega arith)

concat-split_script_example :
    concat ((b'a' ∷ b';' ∷ []) ∷ (b'b' ∷ []) ∷ []) ≡ b'a' ∷ b';' ∷ b'b' ∷ []
unfolding split_script
concat-split_script_example =
    concat-split_script (b'a' ∷ b';' ∷ b'b' ∷ []) ((b'a' ∷ b';' ∷ []) ∷ (b'b' ∷ []) ∷ [])
      (refl, (refl, (refl, tt))) refl
