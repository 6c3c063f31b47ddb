-- ===== src/Scanner/Whole.antt =====
-- The pieces that src/slonik/slonik.c cuts a script into are the whole script.
use slony1_engine.Base.{
  ℕ, zero, suc, ◌+◌, ◌-◌, ◌≤◌, ◌≡◌, refl, sym, ap, ◌∙◌, ◌⊎◌, inl, inr, false, some, List, [], ◌∷◌,
  ◌++◌, ◌==◌, leb, if◌then◌else◌, arith, length, take, drop, All, Bool-cases,
}
use slony1_engine.Scanner.{
  Scan, initial, classify, read_char, is_boundary, step, head_char, maxstatements, scan_from,
  scan_for_statements,
}
use slony1_engine.Scanner.Boundaries.{
  IsAscending, cpos-read_char, statements-read_char, scan_for_statements_bounds,
}
use slony1_engine.Scanner.Split.{pieces, split_script}

-- The last position is `high`.
abbrev LastIs : ℕ → List ℕ → Type 0
LastIs high [] = ⊥
LastIs high (p ∷ []) = p ≡ high
LastIs high (p ∷ q ∷ ps) = LastIs high (q ∷ ps)

LastIs-cons : (high p : ℕ) (ps : List ℕ) → LastIs high ps → LastIs high (p ∷ ps)
LastIs-cons high p [] h = absurd h
LastIs-cons high p (q ∷ ps) h = h

-- The array is full, or the text was read to its end.
abbrev IsRead : ℕ → Scan → List ℕ → Type 0
IsRead high s ps = (maxstatements ≤ length ps + s.statements) ⊎ LastIs high ps

pass-IsRead :
    (high : ℕ) (s t : Scan) (ps : List ℕ)
    → t.statements ≡ s.statements
    → IsRead high t ps
    → IsRead high s ps
pass-IsRead high s t ps q (inl h) = inl (omega arith)
pass-IsRead high s t ps q (inr h) = inr h

cut-IsRead :
    (high : ℕ) (s t : Scan) (p : ℕ) (ps : List ℕ)
    → t.statements ≡ s.statements + 1
    → IsRead high t ps
    → IsRead high s (p ∷ (if leb maxstatements (s.statements + 1) then [] else ps))
cut-IsRead high s t p ps q h = elim (Bool-cases (leb maxstatements (s.statements + 1))) [
  | inl full ↦ rw (full) (inl (ground arith))
  | inr room ↦ rw (room) (go h)
]
  where
    go : IsRead high t ps → IsRead high s (p ∷ ps)
    go (inl h) = inl (omega arith)
    go (inr h) = inr (LastIs-cons high p ps h)

scan_from-IsRead :
    (high : ℕ) (w cs : List ℕ) (s : Scan)
    → All (λ c. (c == 0) ≡ false) cs
    → s.cpos + length cs ≡ high
    → IsRead high s (scan_from w cs s)
unfolding scan_from
scan_from-IsRead high w [] s z e = inr (omega arith)
scan_from-IsRead high w (c ∷ cs) s z e =
    let t = step (read_char w (head_char cs) (classify c) s) in
    let p : t.cpos ≡ s.cpos + 1 =
      ap (λ n. n + 1) (cpos-read_char w (head_char cs) (classify c) s) in
    let q = statements-read_char w (head_char cs) (classify c) s in
    let r = scan_from-IsRead high w cs t z.1 (omega arith) in
    elim (Bool-cases (is_boundary (classify c) s)) [
      | inl cut ↦
          rw (z.0, cut, scan_from)
            (cut-IsRead high s t (s.cpos + 1) (scan_from w cs t) (rw (cut) at q) r)
      | inr pass ↦
          rw (z.0, pass, scan_from) (pass-IsRead high s t (scan_from w cs t) (rw (pass) at q) r)
    ]

abbrev pub concat : List (List ℕ) → List ℕ
concat [] = []
concat (xs ∷ xss) = xs ++ concat xss

take-nil : (n : ℕ) → take {A = ℕ} n [] ≡ []
unfolding take
take-nil zero = refl
take-nil (suc n) = refl

take-drop_whole : (n : ℕ) (w : List ℕ) → take n w ++ drop n w ≡ w
unfolding take drop
take-drop_whole zero w = refl
take-drop_whole (suc n) [] = refl
take-drop_whole (suc n) (c ∷ w) = ap (λ (t : List ℕ). c ∷ t) (take-drop_whole n w)

take-drop : (m n : ℕ) (w : List ℕ) → m ≤ n → take (n - m) (drop m w) ++ drop n w ≡ drop m w
unfolding drop
take-drop zero n w h = ap (λ k. take k w ++ drop n w) (omega arith) ∙ take-drop_whole n w
take-drop (suc m) zero w h = absurd (omega arith)
take-drop (suc m) (suc n) [] h = ap (λ t. t ++ []) (take-nil (suc n - suc m))
take-drop (suc m) (suc n) (c ∷ w) h =
    ap (λ k. take k (drop m w) ++ drop n w) (omega arith) ∙ take-drop m n w (omega arith)

drop-length : (w : List ℕ) → drop (length w) w ≡ []
unfolding drop
drop-length [] = refl
drop-length (c ∷ w) = drop-length w

concat-pieces :
    (w : List ℕ) (low : ℕ) (ps : List ℕ)
    → IsAscending low (length w) ps
    → LastIs (length w) ps
    → concat (pieces w low ps) ≡ drop low w
unfolding pieces
concat-pieces w low [] a l = absurd l
concat-pieces w low (p ∷ []) a l =
    ap (λ t. take (p - low) (drop low w) ++ t) (sym (ap (λ n. drop n w) l ∙ drop-length w))
    ∙ take-drop low p w a.0
concat-pieces w low (p ∷ q ∷ ps) a l =
    ap (λ t. take (p - low) (drop low w) ++ t) (concat-pieces w p (q ∷ ps) a.2 l)
    ∙ take-drop low p w a.0

scan_for_statements-LastIs :
    (w : List ℕ)
    → All (λ c. (c == 0) ≡ false) w
    → leb maxstatements (length (scan_for_statements w)) ≡ false
    → LastIs (length w) (scan_for_statements w)
unfolding scan_for_statements initial
scan_for_statements-LastIs w z room =
    elim (scan_from-IsRead (length w) w w initial z (omega arith)) [
      | inl full ↦ absurd (ground arith)
      | inr l ↦ l
    ]

-- Whatever a script is, without a zero byte, if it is not refused it is cut into pieces that are, one
-- after another, the whole script.
pub concat-split_script :
    (w : List ℕ) (ps : List (List ℕ))
    → All (λ c. (c == 0) ≡ false) w
    → split_script w ≡ some ps
    → concat ps ≡ w
unfolding split_script
concat-split_script w ps z h =
    elim (Bool-cases (leb maxstatements (length (scan_for_statements w)))) [
      | inl full ↦ let g = rw (full) at h in cc
      | inr room ↦
          let g : some (pieces w 0 (scan_for_statements w)) ≡ some ps = rw (room) at h in
          let k : pieces w 0 (scan_for_statements w) ≡ ps = cc in
          ap concat (sym k)
          ∙ concat-pieces w 0 (scan_for_statements w) (scan_for_statements_bounds w).0
              (scan_for_statements-LastIs w z room)
    ]
