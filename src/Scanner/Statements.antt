-- ===== src/Scanner/Statements.antt =====
-- Scripts of printed statements, cut by src/parsestatements/scanner.c and src/slonik/slonik.c.
use slony1_engine.Base.{
  ℕ, ◌+◌, ◌-◌, ◌<◌, ◌≡◌, refl, sym, ap, ap₂, ◌∙◌, false, some, List, [], ◌∷◌, ◌++◌, leb,
  if◌then◌else◌, arith, length, take, drop, take-append, drop-append, length-append, All,
  append_assoc, append-nil, map,
}
use slony1_engine.Scanner.{
  normal_state, Scan, initial, maxstatements, scan_from, scan_for_statements,
}
use slony1_engine.Scanner.Lexemes.{Sql, print, IsSql}
use slony1_engine.Scanner.Steps.{place}
use slony1_engine.Scanner.RoundTrip.{scan-sql}
use slony1_engine.Scanner.Split.{pieces, split_script}

-- Statements with a semicolon behind each, and what follows the last one.
abbrev pub script_text : List Sql → Sql → List ℕ
script_text [] q = print q
script_text (r ∷ rs) q = print r ++ (b';' ∷ script_text rs q)

-- Where the script is to be cut.
abbrev pub cuts : ℕ → List Sql → Sql → List ℕ
cuts p [] q = (p + length (print q)) ∷ []
cuts p (r ∷ rs) q = (p + length (print r) + 1) ∷ cuts (p + length (print r) + 1) rs q

abbrev counted : Scan → Scan
counted s = record s { statements = s.statements + 1 }

scan-semicolon :
    (w cs : List ℕ) (p : ℕ) (s : Scan)
    → scan_from w (b';' ∷ cs) (place normal_state p 0 0 0 s)
      ≡ (p + 1)
        ∷ (if leb maxstatements (s.statements + 1)
            then []
            else scan_from w cs (place normal_state (p + 1) 0 0 0 (counted s)))
unfolding scan_from
scan-semicolon w cs p s = refl

room : (n : ℕ) → n + 1 < maxstatements → leb maxstatements (n + 1) ≡ false
room n h = ground arith

scan-end : (w : List ℕ) (p : ℕ) (s : Scan) → scan_from w [] (place normal_state p 0 0 0 s) ≡ p ∷ []
unfolding scan_from
scan-end w p s = refl

scan-script :
    (w : List ℕ) (rs : List Sql) (q : Sql) (p : ℕ) (s : Scan)
    → All (IsSql false) rs
    → IsSql false q
    → s.statements + length rs < maxstatements
    → scan_from w (script_text rs q) (place normal_state p 0 0 0 s) ≡ cuts p rs q
scan-script w [] q p s h k n =
    ap (λ t. scan_from w t (place normal_state p 0 0 0 s)) (sym (append-nil (print q)))
    ∙ scan-sql w s false q [] p 0 0 0 k tt
    ∙ scan-end w (p + length (print q)) s
scan-script w (r ∷ rs) q p s h k n =
    scan-sql w s false r (b';' ∷ script_text rs q) p 0 0 0 h.0 tt
    ∙ scan-semicolon w (script_text rs q) (p + length (print r)) s
    ∙ rw (room s.statements (omega arith)) (
        ap (λ (t : List ℕ). (p + length (print r) + 1) ∷ t)
          (scan-script w rs q (p + length (print r) + 1) (counted s) h.1 k (omega arith)))

-- A script of fewer than MAXSTATEMENTS statements with semicolons, made of plain characters, quotes
-- without backslashes, comments and balanced brackets, is cut behind each of these semicolons and at
-- its end, and at no other semicolon.
scan_for_statements-script_text :
    (rs : List Sql) (q : Sql)
    → All (IsSql false) rs
    → IsSql false q
    → length rs < maxstatements
    → scan_for_statements (script_text rs q) ≡ cuts 0 rs q
unfolding scan_for_statements initial
scan_for_statements-script_text rs q h k n =
    scan-script (script_text rs q) rs q 0 initial h k (omega arith)

-- From the end of `pre` on, as much as `xs` is long.
slice :
    (pre xs ys w : List ℕ) (n : ℕ)
    → w ≡ pre ++ (xs ++ ys)
    → n ≡ length pre + length xs
    → take (n - length pre) (drop (length pre) w) ≡ xs
slice pre xs ys w n e k =
    ap (λ t. take (n - length pre) (drop (length pre) t)) e
    ∙ ap (take (n - length pre)) (drop-append pre (xs ++ ys))
    ∙ ap (λ m. take m (xs ++ ys)) (omega arith)
    ∙ take-append xs ys

-- A statement with its semicolon.
abbrev pub statement : Sql → List ℕ
statement r = print r ++ b';' ∷ []

pieces-cuts :
    (pre : List ℕ) (rs : List Sql) (q : Sql) (w : List ℕ)
    → w ≡ pre ++ script_text rs q
    → pieces w (length pre) (cuts (length pre) rs q) ≡ map statement rs ++ (print q ∷ [])
unfolding pieces
pieces-cuts pre [] q w e =
    ap (λ (t : List ℕ). t ∷ [])
      (slice pre (print q) [] w (length pre + length (print q))
        (e ∙ ap (λ t. pre ++ t) (sym (append-nil (print q)))) refl)
pieces-cuts pre (r ∷ rs) q w e =
    let n = length pre + length (print r) + 1 in
    let f : w ≡ pre ++ (statement r ++ script_text rs q) =
      e ∙ ap (λ t. pre ++ t) (sym (append_assoc (print r) (b';' ∷ []) (script_text rs q))) in
    let m : n ≡ length (pre ++ statement r) =
      omega (arith, length-append pre (statement r), length-append (print r) (b';' ∷ [])) in
    ap₂ (λ (t : List ℕ) (ts : List (List ℕ)). t ∷ ts)
      (slice pre (statement r) (script_text rs q) w n f
        (omega (arith, length-append (print r) (b';' ∷ []))))
      (ap (λ k. pieces w k (cuts k rs q)) m
        ∙ pieces-cuts (pre ++ statement r) rs q w
            (f ∙ sym (append_assoc pre (statement r) (script_text rs q))))

length-cuts : (p : ℕ) (rs : List Sql) (q : Sql) → length (cuts p rs q) ≡ length rs + 1
length-cuts p [] q = omega arith
length-cuts p (r ∷ rs) q = omega (arith, length-cuts (p + length (print r) + 1) rs q)

-- Such a script, of fewer than MAXSTATEMENTS - 1 statements with semicolons, is submitted statement by
-- statement, each with its semicolon, and what follows the last one at the end.
pub split_script-script_text :
    (rs : List Sql) (q : Sql)
    → All (IsSql false) rs
    → IsSql false q
    → length rs + 1 < maxstatements
    → split_script (script_text rs q) ≡ some (map statement rs ++ (print q ∷ []))
unfolding split_script
split_script-script_text rs q h k n =
    rw
      (
        scan_for_statements-script_text rs q h k (omega arith),
        length-cuts 0 rs q,
        room (length rs) n,
      )
      (ap some (pieces-cuts [] rs q (script_text rs q) refl))
