-- ===== src/Compress/Query.antt =====
-- The query text that compress_actionseq() of src/slon/remote_worker.c appends: conditions with an
-- "and" between any two.
use slony1_engine.Base.{
  ℕ, ◌≡◌, ◌⊎◌, inl, inr, refl, Bool, true, false, not, ◌||◌, List, [], ◌∷◌, ◌++◌, ◌==◌, arith,
  Bool-cases,
}
use slony1_engine.Base.Int.{ℤ, pos, ◌==ℤ◌, ltb_ℤ}
use slony1_engine.Compress.{
  before, behind, Piece, and_also, differs, not_between, Ranges, condition, emit_range, start_range,
  widen_range, close_range, fold_number, Scan, read_digit, read_separator, read_char, scan, initial,
  last_range, compress_actionseq,
}

-- Whether the pieces are conditions with an "and" between any two; `due` says that a condition is
-- the next piece.
unfoldable pub is_joined : Bool → List Piece → Bool
is_joined true [] = false
is_joined true (and_also ∷ ps) = false
is_joined true (differs a ∷ ps) = is_joined false ps
is_joined true (not_between a b ∷ ps) = is_joined false ps
is_joined false [] = true
is_joined false (and_also ∷ ps) = is_joined true ps
is_joined false (differs a ∷ ps) = false
is_joined false (not_between a b ∷ ps) = false

-- A query that is being built: empty before the first condition, and joined from there on.
abbrev IsBuilding : Ranges → Type 0
IsBuilding r =
    ((r.first_subquery ≡ true) × (r.query ≡ []))
    ⊎ ((r.first_subquery ≡ false) × (is_joined true r.query ≡ true))

is_joined-condition : (lo hi : ℤ) → is_joined true (condition lo hi ∷ []) ≡ true
unfolding is_joined condition
is_joined-condition lo hi = ground arith

is_joined-append :
    (due : Bool) (ps : List Piece) (lo hi : ℤ)
    → is_joined due ps ≡ true
    → is_joined due (ps ++ and_also ∷ condition lo hi ∷ []) ≡ true
unfolding is_joined
is_joined-append false [] lo hi h = is_joined-condition lo hi
is_joined-append true [] lo hi h = cc
is_joined-append true (and_also ∷ ps) lo hi h = cc
is_joined-append true (differs a ∷ ps) lo hi h = is_joined-append false ps lo hi h
is_joined-append true (not_between a b ∷ ps) lo hi h = is_joined-append false ps lo hi h
is_joined-append false (and_also ∷ ps) lo hi h = is_joined-append true ps lo hi h
is_joined-append false (differs a ∷ ps) lo hi h = cc
is_joined-append false (not_between a b ∷ ps) lo hi h = cc

emit_range-IsBuilding : (r : Ranges) → IsBuilding r → is_joined true (emit_range r).query ≡ true
unfolding emit_range
emit_range-IsBuilding r (inl (p, q)) = ground (arith, is_joined-condition r.curr_min r.curr_max)
emit_range-IsBuilding r (inr (p, q)) =
    ground (arith, is_joined-append true r.query r.curr_min r.curr_max q)

close_range-IsBuilding : (n : ℤ) (r : Ranges) → IsBuilding r → IsBuilding (close_range n r)
unfolding close_range
close_range-IsBuilding n r h =
    elim (Bool-cases (ltb_ℤ n (before r.curr_min) || ltb_ℤ (behind r.curr_max) n)) [
      | inl away ↦ rw (away) (inr (unfold emit_range in refl, emit_range-IsBuilding r h))
      | inr near ↦ rw (near) h
    ]

fold_number-IsBuilding : (n : ℤ) (r : Ranges) → IsBuilding r → IsBuilding (fold_number n r)
unfolding fold_number
fold_number-IsBuilding n r h =
    close_range-IsBuilding n (widen_range n (start_range n r)) (unfold widen_range start_range in h)

read_char-IsBuilding : (c : ℕ) (s : Scan) → IsBuilding s.ranges → IsBuilding (read_char c s).ranges
unfolding read_char read_digit read_separator
read_char-IsBuilding c s h = ground (arith, fold_number-IsBuilding s.curr_number s.ranges h)

scan-IsBuilding : (cs : List ℕ) (s : Scan) → IsBuilding s.ranges → IsBuilding (scan cs s).ranges
unfolding scan
scan-IsBuilding [] s h = h
scan-IsBuilding (c ∷ cs) s h = elim (Bool-cases (c == 0)) [
  | inl end ↦ rw (end) h
  | inr more ↦ rw (more) (scan-IsBuilding cs (read_char c s) (read_char-IsBuilding c s h))
]

-- Whatever the bytes of the action list are, the query is empty, or a sequence of conditions with an
-- "and" between any two and none before the first or after the last.
pub is_joined-compress_actionseq :
    (cs : List ℕ) → (compress_actionseq cs ≡ []) ⊎ (is_joined true (compress_actionseq cs) ≡ true)
unfolding compress_actionseq last_range initial
is_joined-compress_actionseq cs =
    let r = (scan cs initial).ranges in
    let h = scan-IsBuilding cs initial (inl (refl, refl)) in
    elim (Bool-cases (not (r.curr_min ==ℤ pos 0) || not (r.curr_max ==ℤ pos 0))) [
      | inl kept ↦ inr (rw (kept) (emit_range-IsBuilding r h))
      | inr dropped ↦ elim h [
        | inl (p, q) ↦ inl (rw (dropped) q)
        | inr (p, q) ↦ inr (rw (dropped) q)
      ]
    ]
