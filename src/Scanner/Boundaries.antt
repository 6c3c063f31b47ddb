-- ===== src/Scanner/Boundaries.antt =====
-- Where scan_for_statements() of src/parsestatements/scanner.c cuts a text: the store into STMTS stays
-- within it, and the positions within the text.
use slony1_engine.Base.{
  ℕ, ◌+◌, ◌≤◌, ◌<◌, ◌≡◌, ap, List, [], ◌∷◌, ◌==◌, leb, if◌then◌else◌, arith, length, Bool-cases,
  inl, inr,
}
use slony1_engine.Scanner.{
  CharClass, opening, closing, paren, broket, squiggle, Scan, initial, classify, read_char,
  is_boundary, step, head_char, maxstatements, scan_from, scan_for_statements,
}

-- In ascending order from `low` on, and not above `high`.
abbrev pub IsAscending : ℕ → ℕ → List ℕ → Type 0
IsAscending low high [] = Unit
IsAscending low high (p ∷ ps) = (low ≤ p) × (p ≤ high) × IsAscending p high ps

IsAscending-mono :
    (k low high : ℕ) (ps : List ℕ) → k ≤ low → IsAscending low high ps → IsAscending k high ps
IsAscending-mono k low high [] h a = tt
IsAscending-mono k low high (p ∷ ps) h a = (omega arith, a.1, a.2)

-- The switch leaves the position alone, and counts a statement at a boundary.
pub cpos-read_char :
    (w : List ℕ) (nx : ℕ) (c : CharClass) (s : Scan) → (read_char w nx c s).cpos ≡ s.cpos
unfolding read_char
cpos-read_char w nx (opening paren) s = ground arith
cpos-read_char w nx (opening broket) s = ground arith
cpos-read_char w nx (opening squiggle) s = ground arith
cpos-read_char w nx (closing paren) s = ground arith
cpos-read_char w nx (closing broket) s = ground arith
cpos-read_char w nx (closing squiggle) s = ground arith
cpos-read_char w nx c s = ground arith

pub statements-read_char :
    (w : List ℕ) (nx : ℕ) (c : CharClass) (s : Scan)
    → (read_char w nx c s).statements ≡ (if is_boundary c s then s.statements + 1 else s.statements)
unfolding read_char is_boundary
statements-read_char w nx (opening paren) s = ground arith
statements-read_char w nx (opening broket) s = ground arith
statements-read_char w nx (opening squiggle) s = ground arith
statements-read_char w nx (closing paren) s = ground arith
statements-read_char w nx (closing broket) s = ground arith
statements-read_char w nx (closing squiggle) s = ground arith
statements-read_char w nx c s = ground arith

-- What is stored while the rest of a text that ends at `high` is read.
abbrev IsStored : ℕ → Scan → List ℕ → Type 0
IsStored high s ps =
    IsAscending s.cpos high ps × (0 < length ps) × (length ps + s.statements ≤ maxstatements)

pass-IsStored :
    (high : ℕ) (s t : Scan) (ps : List ℕ)
    → t.cpos ≡ s.cpos + 1
    → t.statements ≡ s.statements
    → IsStored high t ps
    → IsStored high s ps
pass-IsStored high s t ps p q h =
    (IsAscending-mono s.cpos t.cpos high ps (omega arith) h.0, h.1, omega arith)

-- A stored boundary, after which the loop goes on or, with the array full, stops.
cut-IsStored :
    (high : ℕ) (s t : Scan) (ps : List ℕ)
    → t.cpos ≡ s.cpos + 1
    → t.statements ≡ s.statements + 1
    → s.cpos + 1 ≤ high
    → s.statements < maxstatements
    → (t.statements < maxstatements → IsStored high t ps)
    → IsStored high s ((s.cpos + 1) ∷ (if leb maxstatements (s.statements + 1) then [] else ps))
cut-IsStored high s t ps p q h k f = elim (Bool-cases (leb maxstatements (s.statements + 1))) [
  | inl full ↦ rw (full) (omega arith)
  | inr room ↦
      let g = f (ground arith) in
      rw (room) ((omega arith, h, rw (p) at g.0), omega arith, omega arith)
]

scan_from-IsStored :
    (high : ℕ) (w cs : List ℕ) (s : Scan)
    → s.cpos + length cs ≡ high
    → s.statements < maxstatements
    → IsStored high s (scan_from w cs s)
unfolding scan_from
scan_from-IsStored high w [] s e h = omega arith
scan_from-IsStored high w (c ∷ cs) s e h =
    let u = read_char w (head_char cs) (classify c) s in
    let t = step u in
    let p : t.cpos ≡ s.cpos + 1 =
      ap (λ n. n + 1) (cpos-read_char w (head_char cs) (classify c) s) in
    let q = statements-read_char w (head_char cs) (classify c) s in
    elim (Bool-cases (c == 0)) [
      | inl stop ↦ rw (stop, scan_from) (omega arith)
      | inr more ↦ elim (Bool-cases (is_boundary (classify c) s)) [
        | inl cut ↦
            rw (more, cut, scan_from)
              (cut-IsStored high s t (scan_from w cs t) p (rw (cut) at q) (omega arith) h
                (λ k. scan_from-IsStored high w cs t (omega arith) k))
        | inr pass ↦
            rw (more, pass, scan_from)
              (pass-IsStored high s t (scan_from w cs t) p (rw (pass) at q)
                (scan_from-IsStored high w cs t (omega arith) (omega (arith, rw (pass) at q))))
      ]
    ]

-- Whatever the text is, STMTS gets at least one position and never more than MAXSTATEMENTS, and the
-- positions ascend and lie within the text.
pub scan_for_statements_bounds :
    (text : List ℕ)
    → IsAscending 0 (length text) (scan_for_statements text)
      × (0 < length (scan_for_statements text))
      × (length (scan_for_statements text) ≤ maxstatements)
unfolding scan_for_statements initial
scan_for_statements_bounds text =
    let k = scan_from-IsStored (length text) text text initial (omega arith) (omega arith) in
    (k.0, k.1, omega arith)
