-- ===== src/Tokens/Examples.antt =====
-- A script with one token, src/slonik/slonik.c.
use slony1_engine.Base.{ℕ, List, [], ◌∷◌, arith}
use slony1_engine.Query.{SlonDString}
use slony1_engine.Tokens.{Token, replace_tokens}
use slony1_engine.Tokens.Rewriting.{EndsRewritten, replace_tokens-EndsRewritten}

-- @N@ stands for "_c".
abbrev namespace_token : Token
namespace_token = record { old_str = b'@' ∷ b'N' ∷ b'@' ∷ []; new_str = 34 ∷ b'_' ∷ b'c' ∷ 34 ∷ [] }

abbrev script : List ℕ
script = b'x' ∷ b'@' ∷ b'N' ∷ b'@' ∷ b'y' ∷ []

abbrev dest : SlonDString
dest = record { n_alloc = 1; chars = [] }

replace_tokens-EndsRewritten_example :
    EndsRewritten
      (namespace_token ∷ [])
      script
      dest
      (replace_tokens dest script (namespace_token ∷ []))
replace_tokens-EndsRewritten_example =
    replace_tokens-EndsRewritten script (namespace_token ∷ []) dest (omega arith, tt) (omega arith)
