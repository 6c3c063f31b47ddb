-- ===== src/Tokens.antt =====
-- replace_tokens() of src/slonik/slonik.c, which puts names into an SQL script. A position in the
-- script is what is left of it, and old_len is the length of old_str.
pub mod Rewriting
mod Examples
use slony1_engine.Base.{
  ℕ, zero, suc, Bool, true, false, ◌&&◌, Option, none, some, List, [], ◌∷◌, if◌then◌else◌, length,
  ◌==◌, drop,
}
use slony1_engine.Query.{SlonDString, ◌>>=◌, dstring_append, dstring_addchar, dstring_terminate}

-- replacement_token
pub record Token : Type 0 where
  pub old_str : List ℕ
  pub new_str : List ℕ

-- strncmp(src_cp, old_str, old_len) == 0
unfoldable pub starts_with : List ℕ → List ℕ → Bool
starts_with [] src = true
starts_with (c ∷ cs) [] = false
starts_with (c ∷ cs) (d ∷ ds) = c == d && starts_with cs ds

-- The first token that stands here.
unfoldable pub find_token : List Token → List ℕ → Option Token
unfolding starts_with
find_token [] src = none
find_token (t ∷ ts) src = if starts_with t.old_str src then some t else find_token ts src

-- The loop; a script that is longer than the fuel has no result.
unfoldable pub replace_from : ℕ → List Token → List ℕ → SlonDString → Option SlonDString
unfolding find_token dstring_append dstring_addchar
replace_from fuel ts [] dest = some dest
replace_from zero ts (c ∷ cs) dest = none
replace_from (suc fuel) ts (c ∷ cs) dest = elim (find_token ts (c ∷ cs)) [
  | some t ↦ dstring_append t.new_str dest >>= λ d.
      replace_from fuel ts (drop (length t.old_str) (c ∷ cs)) d
  | none ↦ dstring_addchar c dest >>= λ d. replace_from fuel ts cs d
]

unfoldable pub replace_tokens : SlonDString → List ℕ → List Token → Option SlonDString
unfolding replace_from dstring_terminate
replace_tokens dest src replacements =
    replace_from (length src) replacements src dest >>= λ d. dstring_terminate d
