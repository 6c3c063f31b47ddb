-- ===== src/Compress/Examples.antt =====
-- A run of compress_actionseq() of src/slon/remote_worker.c.
use slony1_engine.Base.{◌⊎◌, ℕ, ◌≡◌, true, All, List, [], ◌∷◌, arith}
use slony1_engine.Compress.{compress_actionseq}
use slony1_engine.Compress.Folding.{excluded, mem}
use slony1_engine.Compress.Query.{is_joined, is_joined-compress_actionseq}
use slony1_engine.Compress.Text.{IsNumeral, list_text, excluded-compress_actionseq}

-- '10','9','12'
abbrev three_numerals : List (List ℕ)
three_numerals = (1 ∷ 0 ∷ []) ∷ (9 ∷ []) ∷ (1 ∷ 2 ∷ []) ∷ []

three_numerals-IsNumeral : All IsNumeral three_numerals
three_numerals-IsNumeral = omega arith

excluded-compress_actionseq_example :
    excluded 12 (compress_actionseq (list_text three_numerals)) ≡ true
unfolding mem
excluded-compress_actionseq_example =
    excluded-compress_actionseq 12 three_numerals three_numerals-IsNumeral

is_joined-compress_actionseq_example :
    (compress_actionseq (list_text three_numerals) ≡ [])
    ⊎ (is_joined true (compress_actionseq (list_text three_numerals)) ≡ true)
is_joined-compress_actionseq_example = is_joined-compress_actionseq (list_text three_numerals)
