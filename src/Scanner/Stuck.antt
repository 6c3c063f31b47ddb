-- ===== src/Scanner/Stuck.antt =====
-- A slash that starts no comment, in src/parsestatements/scanner.c.
use slony1_engine.Base.{
  ℕ, ◌+◌, ◌≡◌, refl, sym, ap, ◌∙◌, false, List, [], ◌∷◌, ◌++◌, arith, length, append-nil,
}
use slony1_engine.Scanner.{
  normal_state, hope_to_ccomment, Scan, initial, scan_from, scan_for_statements,
}
use slony1_engine.Scanner.Lexemes.{Sql, print, IsContent, IsSql}
use slony1_engine.Scanner.Steps.{place, scan-content}
use slony1_engine.Scanner.RoundTrip.{scan-sql}

module _ (w : List ℕ) (s : Scan) where
  scan-slash :
      (cs : List ℕ) (p : ℕ)
      → scan_from w (b'/' ∷ cs) (place normal_state p 0 0 0 s)
        ≡ scan_from w cs (place hope_to_ccomment (p + 1) 0 0 0 s)
  unfolding scan_from
  scan-slash cs p = refl

  scan-hope_end : (p : ℕ) → scan_from w [] (place hope_to_ccomment p 0 0 0 s) ≡ p ∷ []
  unfolding scan_from
  scan-hope_end p = refl

  scan-hope :
      (cs : List ℕ) (p : ℕ)
      → IsContent hope_to_ccomment cs
      → scan_from w cs (place hope_to_ccomment p 0 0 0 s) ≡ (p + length cs) ∷ []
  scan-hope cs p h =
      ap (λ t. scan_from w t (place hope_to_ccomment p 0 0 0 s)) (sym (append-nil cs))
      ∙ scan-content w s hope_to_ccomment cs [] p 0 0 0 h
      ∙ scan-hope_end (p + length cs)

-- After a statement, as far as it was printed, and a slash, a text without a star and without a zero
-- byte is not cut any more, whatever semicolons it holds: the whole is one statement.
pub scan_for_statements-slash :
    (r : Sql) (rest : List ℕ)
    → IsSql false r
    → IsContent hope_to_ccomment rest
    → scan_for_statements (print r ++ (b'/' ∷ rest)) ≡ (length (print r) + 1 + length rest) ∷ []
unfolding scan_for_statements initial
scan_for_statements-slash r rest h k =
    let w = print r ++ (b'/' ∷ rest) in
    scan-sql w initial false r (b'/' ∷ rest) 0 0 0 0 h tt
    ∙ scan-slash w initial rest (0 + length (print r))
    ∙ scan-hope w initial rest (0 + length (print r) + 1) k
    ∙ ap (λ n. n ∷ []) (omega arith)
