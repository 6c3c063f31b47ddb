-- ===== src/Query/Examples.antt =====
-- A query with a hostile text, src/slon/dbutils.c.
use slony1_engine.Base.{ℕ, ◌≡◌, refl, some, List, [], ◌∷◌, arith}
use slony1_engine.Base.Int.{pos}
use slony1_engine.Query.{SlonDString, Arg, string, int, slon_appendquery, format_char}
use slony1_engine.Query.Buffers.{Extends, formatted, slon_appendquery-Extends}
use slony1_engine.Query.Quoting.{EndsInLiteral, quoted_format, slon_appendquery-EndsInLiteral}

abbrev hostile : List ℕ
hostile = b'a' ∷ 39 ∷ 59 ∷ 92 ∷ []

abbrev full : SlonDString
full = record { n_alloc = 2; chars = b'x' ∷ [] }

abbrev args : List Arg
args = int (pos 42) ∷ []

-- , %d
abbrev rest : List ℕ
rest = b',' ∷ b'%' ∷ b'd' ∷ []

slon_appendquery-Extends_example :
    Extends (formatted rest args) full (slon_appendquery rest args full)
slon_appendquery-Extends_example = slon_appendquery-Extends rest args full (omega arith)

rest_text : formatted (b',' ∷ []) [] ≡ some (b',' ∷ [])
unfolding formatted format_char
rest_text = refl

slon_appendquery-EndsInLiteral_example :
    EndsInLiteral hostile
      (b',' ∷ [])
      full
      (slon_appendquery (quoted_format (b',' ∷ [])) (string (some hostile) ∷ []) full)
slon_appendquery-EndsInLiteral_example =
    slon_appendquery-EndsInLiteral hostile (b',' ∷ []) [] (b',' ∷ []) full (omega arith) rest_text
      (λ e. cc)
