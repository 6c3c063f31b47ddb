-- ===== src/Compress/Folding.antt =====
-- Folding numbers into ranges, src/slon/remote_worker.c: the filter excludes these numbers and no
-- others.
use slony1_engine.Base.{
  ℕ, ◌+◌, ◌-◌, ◌≤◌, ◌<◌, ◌≡◌, refl, sym, ap, ◌∙◌, subst, ◌⊎◌, inl, inr, Bool, false, not, ◌&&◌,
  ◌||◌, List, [], ◌∷◌, ◌++◌, ◌==◌, ltb, if◌then◌else◌, arith, All, Bool-cases,
}
use slony1_engine.Base.Int.{ℤ, pos, ◌+ℤ◌, ◌-ℤ◌, ◌==ℤ◌, ltb_ℤ}
use slony1_engine.Misc.{sign_bit, wrap_int64}
use slony1_engine.Compress.{
  before, behind, Piece, and_also, differs, not_between, Ranges, condition, emit_range, start_range,
  widen_range, close_range, fold_number, last_range, minmaxinitial,
}

abbrev leb_ℤ : ℤ → ℤ → Bool
leb_ℤ a b = not (ltb_ℤ b a)

-- Whether a piece of the filter turns the row with this number away.
abbrev pub rejects : ℕ → Piece → Bool
rejects x and_also = false
rejects x (differs a) = pos x ==ℤ a
rejects x (not_between a b) = leb_ℤ a (pos x) && leb_ℤ (pos x) b

-- Whether the filter turns the row away.
unfoldable pub excluded : ℕ → List Piece → Bool
excluded x [] = false
excluded x (p ∷ ps) = rejects x p || excluded x ps

unfoldable pub mem : ℕ → List ℕ → Bool
mem x [] = false
mem x (n ∷ ns) = x == n || mem x ns

unfoldable pub fold_all : List ℕ → Ranges → Ranges
fold_all [] r = r
fold_all (n ∷ ns) r = fold_all ns (fold_number (pos n) r)

-- A positive number with a successor in int64.
abbrev pub IsInside : ℕ → Type 0
IsInside n = (0 < n) × (n + 1 < sign_bit)

-- No range yet, or one of positive numbers below 2 ^ 63 - 1.
abbrev pub IsRange : Ranges → Type 0
IsRange r =
    ((r.curr_min ≡ minmaxinitial) × (r.curr_max ≡ minmaxinitial))
    ⊎ ((a : ℕ) × (b : ℕ) × (r.curr_min ≡ pos a)
        × (r.curr_max ≡ pos b)
        × (a ≤ b)
        × (0 < a)
        × (b + 1 < sign_bit))

-- In the query or in the open range.
abbrev covered : ℕ → Ranges → Bool
covered x r = (leb_ℤ r.curr_min (pos x) && leb_ℤ (pos x) r.curr_max) || excluded x r.query

excluded-append :
    (x : ℕ) (ps qs : List Piece) → excluded x (ps ++ qs) ≡ (excluded x ps || excluded x qs)
unfolding excluded
excluded-append x [] qs = refl
excluded-append x (p ∷ ps) qs = ground (arith, excluded-append x ps qs)

-- A condition turns away what its range holds.
rejects-condition :
    (x : ℕ) (lo hi : ℤ) → rejects x (condition lo hi) ≡ (leb_ℤ lo (pos x) && leb_ℤ (pos x) hi)
unfolding condition
rejects-condition x lo hi = ground arith

excluded-emit_range : (x : ℕ) (r : Ranges) → excluded x (emit_range r).query ≡ covered x r
unfolding emit_range excluded
excluded-emit_range x r = elim (Bool-cases r.first_subquery) [
  | inl q ↦ ground (
    arith,
    excluded-append x r.query (condition r.curr_min r.curr_max ∷ []),
    rejects-condition x r.curr_min r.curr_max,
  )
  | inr q ↦ ground (
    arith,
    excluded-append x r.query (and_also ∷ condition r.curr_min r.curr_max ∷ []),
    rejects-condition x r.curr_min r.curr_max,
  )
]

-- Without overflow.
before-pos : (n : ℕ) → 0 < n → n < sign_bit → before (pos n) ≡ pos (n - 1)
unfolding before wrap_int64 ◌-ℤ◌
before-pos n z h = ground arith

behind-pos : (n : ℕ) → n + 1 < sign_bit → behind (pos n) ≡ pos (n + 1)
unfolding behind wrap_int64 ◌+ℤ◌
behind-pos n h = ground arith

-- The three stages of a number, on a range of known ends.
start_fresh :
    (n : ℕ) (r : Ranges)
    → r.curr_min ≡ minmaxinitial
    → r.curr_max ≡ minmaxinitial
    → start_range (pos n) r ≡ record r { curr_min = pos n; curr_max = pos n }
unfolding start_range
start_fresh n r p q = ground arith

start_kept :
    (n a b : ℕ) (r : Ranges) → r.curr_min ≡ pos a → r.curr_max ≡ pos b → start_range (pos n) r ≡ r
unfolding start_range
start_kept n a b r p q = ground arith

-- A range by its ends.
abbrev with_ends : ℕ → ℕ → Ranges → Ranges
with_ends a b r = record r { curr_min = pos a; curr_max = pos b }

ends_lem : (a b : ℕ) (r : Ranges) → r.curr_min ≡ pos a → r.curr_max ≡ pos b → with_ends a b r ≡ r
ends_lem a b r p q = ground arith

widen-with_ends :
    (n a b : ℕ) (r : Ranges)
    → a ≤ b
    → 0 < a
    → b + 1 < sign_bit
    → widen_range (pos n) (with_ends a b r)
      ≡ with_ends (if n == a - 1 then a - 1 else a) (if n == b + 1 then b + 1 else b) r
unfolding widen_range
widen-with_ends n a b r le z h = rw (before-pos a z (omega arith), behind-pos b h) (ground arith)

close-with_ends :
    (n a b : ℕ) (r : Ranges)
    → a ≤ b
    → 0 < a
    → b + 1 < sign_bit
    → close_range (pos n) (with_ends a b r) ≡ (
        if ltb n (a - 1) || ltb (b + 1) n
        then with_ends n n (emit_range (with_ends a b r))
        else with_ends a b r)
unfolding close_range
close-with_ends n a b r le z h = rw (before-pos a z (omega arith), behind-pos b h) (ground arith)

fold-with_ends :
    (n a b : ℕ) (r : Ranges)
    → a ≤ b
    → 0 < a
    → b + 1 < sign_bit
    → n + 1 < sign_bit
    → 0 < n
    → fold_number (pos n) (with_ends a b r) ≡ (
        if ltb n (a - 1) || ltb (b + 1) n
        then with_ends n n (emit_range (with_ends a b r))
        else with_ends (if n == a - 1 then n else a) (if n == b + 1 then n else b) r)
unfolding fold_number
fold-with_ends n a b r le z h k y =
    let lo = if n == a - 1 then a - 1 else a in
    let hi = if n == b + 1 then b + 1 else b in
    ap (λ s. close_range (pos n) (widen_range (pos n) s))
      (start_kept n a b (with_ends a b r) refl refl)
    ∙ ap (close_range (pos n)) (widen-with_ends n a b r le z h)
    ∙ close-with_ends n lo hi r (ground arith) (ground arith) (ground arith)
    ∙ ground arith

fold_fresh :
    (n : ℕ) (r : Ranges)
    → 0 < n
    → n + 1 < sign_bit
    → r.curr_min ≡ minmaxinitial
    → r.curr_max ≡ minmaxinitial
    → fold_number (pos n) r ≡ with_ends n n r
unfolding fold_number
fold_fresh n r z h p q =
    let same : with_ends (if n == n - 1 then n - 1 else n) (if n == n + 1 then n + 1 else n) r
        ≡ with_ends n n r =
      ground arith in
    ap (λ s. close_range (pos n) (widen_range (pos n) s)) (start_fresh n r p q)
    ∙ ap (close_range (pos n)) (widen-with_ends n n n r (omega arith) z h)
    ∙ ap (close_range (pos n)) same
    ∙ close-with_ends n n n r (omega arith) z h
    ∙ ground arith

-- A range stays a range, and the number is what it gains.
abbrev FoldedTo : ℕ → Ranges → Ranges → Type 0
FoldedTo n r s = IsRange s × ((x : ℕ) → covered x s ≡ (x == n || covered x r))

outside-FoldedTo : (n : ℕ) (r : Ranges) → IsInside n → FoldedTo n r (with_ends n n (emit_range r))
outside-FoldedTo n r (z, k) =
    (inr (n, n, refl, refl, omega arith, z, k), λ x. ground (arith, excluded-emit_range x r))

wider-FoldedTo :
    (n a b : ℕ) (r : Ranges)
    → IsInside n
    → a ≤ b
    → 0 < a
    → b + 1 < sign_bit
    → (ltb n (a - 1) || ltb (b + 1) n) ≡ false
    → FoldedTo n
        (with_ends a b r)
        (with_ends (if n == a - 1 then n else a) (if n == b + 1 then n else b) r)
wider-FoldedTo n a b r (z, k) le y h e = (
  inr (
    (if n == a - 1 then n else a),
    (if n == b + 1 then n else b),
    refl,
    refl,
    ground arith,
    ground arith,
    ground arith,
  ),
  λ x. ground arith,
)

ends-FoldedTo :
    (n a b : ℕ) (r : Ranges)
    → IsInside n
    → a ≤ b
    → 0 < a
    → b + 1 < sign_bit
    → FoldedTo n (with_ends a b r) (fold_number (pos n) (with_ends a b r))
ends-FoldedTo n a b r i le z h =
    subst (FoldedTo n (with_ends a b r)) (sym (fold-with_ends n a b r le z h i.1 i.0))
      (elim (Bool-cases (ltb n (a - 1) || ltb (b + 1) n)) [
        | inl far ↦ rw far (outside-FoldedTo n (with_ends a b r) i)
        | inr near ↦ rw near (wider-FoldedTo n a b r i le z h near)
      ])

fresh-FoldedTo :
    (n : ℕ) (r : Ranges)
    → IsInside n
    → r.curr_min ≡ minmaxinitial
    → r.curr_max ≡ minmaxinitial
    → FoldedTo n r (with_ends n n r)
fresh-FoldedTo n r (z, k) p q = (inr (n, n, refl, refl, omega arith, z, k), λ x. ground arith)

fold_number-FoldedTo :
    (n : ℕ) (r : Ranges) → IsInside n → IsRange r → FoldedTo n r (fold_number (pos n) r)
fold_number-FoldedTo n r i (inl (p, q)) =
    subst (FoldedTo n r) (sym (fold_fresh n r i.0 i.1 p q)) (fresh-FoldedTo n r i p q)
fold_number-FoldedTo n r i (inr (a, b, p, q, le, y, h)) =
    subst (λ s. FoldedTo n s (fold_number (pos n) s)) (ends_lem a b r p q)
      (ends-FoldedTo n a b r i le y h)

pub fold_all-IsRange :
    (ns : List ℕ) (r : Ranges) → All IsInside ns → IsRange r → IsRange (fold_all ns r)
unfolding fold_all
fold_all-IsRange [] r h i = i
fold_all-IsRange (n ∷ ns) r (z, h) i =
    fold_all-IsRange ns (fold_number (pos n) r) h (fold_number-FoldedTo n r z i).0

pub covered-fold_all :
    (x : ℕ) (ns : List ℕ) (r : Ranges)
    → All IsInside ns
    → IsRange r
    → covered x (fold_all ns r) ≡ (mem x ns || covered x r)
unfolding fold_all mem
covered-fold_all x [] r h i = refl
covered-fold_all x (n ∷ ns) r (z, h) i = ground (
  arith,
  covered-fold_all x ns (fold_number (pos n) r) h (fold_number-FoldedTo n r z i).0,
  (fold_number-FoldedTo n r z i).1 x,
)

-- The last range is written out too, as its ends are not 0.
pub excluded-last_range : (x : ℕ) (r : Ranges) → IsRange r → excluded x (last_range r) ≡ covered x r
unfolding last_range
excluded-last_range x r (inl (p, q)) = ground (arith, excluded-emit_range x r)
excluded-last_range x r (inr (a, b, p, q, le, z, h)) = ground (arith, excluded-emit_range x r)
