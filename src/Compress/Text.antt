-- ===== src/Compress/Text.antt =====
-- The text of an action list, `'1','2'`, as src/backend writes it into sl_seqlog and
-- src/slon/remote_worker.c reads it: compress_actionseq() makes of it a filter of the same numbers.
use slony1_engine.Base.{
  ℕ, ◌+◌, ◌*◌, ◌<◌, ◌≤◌, ◌==◌, false, ◌≡◌, refl, ap, sym, ◌∙◌, inl, List, [], ◌∷◌, ◌++◌, map, arith,
  All,
}
use slony1_engine.Base.Int.{pos, ◌+ℤ◌, ◌*ℤ◌}
use slony1_engine.Misc.{sign_bit, wrap_int64}
use slony1_engine.Compress.{
  collecting_digits, between_numbers, Ranges, fold_number, Scan, read_char, read_digit,
  read_separator, scan, initial, last_range, compress_actionseq,
}
use slony1_engine.Compress.Folding.{
  excluded, IsInside, mem, fold_all, fold_all-IsRange, covered-fold_all, excluded-last_range,
}

-- A number's digits, the highest first, and its value.
abbrev pub value_from : ℕ → List ℕ → ℕ
value_from a [] = a
value_from a (d ∷ ds) = value_from (a * 10 + d) ds

abbrev pub value : List ℕ → ℕ
value ds = value_from 0 ds

-- Digits, at least one, of a number above 0 and below 2 ^ 63 - 1.
abbrev pub IsNumeral : List ℕ → Type 0
IsNumeral ds = All (λ d. d < 10) ds × IsInside (value ds)

abbrev digits : List ℕ → List ℕ
digits [] = []
digits (d ∷ ds) = (b'0' + d) ∷ digits ds

-- The numerals that follow the first, each behind a comma and in quotes.
abbrev rest_text : List (List ℕ) → List ℕ
rest_text [] = []
rest_text (n ∷ ns) = b',' ∷ 39 ∷ (digits n ++ (39 ∷ rest_text ns))

abbrev pub list_text : List (List ℕ) → List ℕ
list_text [] = []
list_text (n ∷ ns) = 39 ∷ (digits n ++ (39 ∷ rest_text ns))

-- Between two numbers.
abbrev between : Ranges → Scan
between r = record { state = between_numbers; curr_number = pos 0; ranges = r }

-- Within one.
abbrev within : ℕ → Ranges → Scan
within a r = record { state = collecting_digits; curr_number = pos a; ranges = r }

value_from_mono : (a : ℕ) (ds : List ℕ) → a ≤ value_from a ds
value_from_mono a [] = omega arith
value_from_mono a (d ∷ ds) = omega (arith, value_from_mono (a * 10 + d) ds)

-- A digit more, without overflow.
read_digit-within :
    (d a : ℕ) (r : Ranges)
    → a * 10 + d < sign_bit
    → read_digit d (within a r) ≡ within (a * 10 + d) r
unfolding read_digit wrap_int64 ◌+ℤ◌ ◌*ℤ◌
read_digit-within d a r h = ground arith

read_char-digit :
    (d : ℕ) (s : Scan)
    → d < 10
    → (((b'0' + d) == 0) ≡ false) × (read_char (b'0' + d) s ≡ read_digit d s)
unfolding read_char
read_char-digit d s h = ground arith

scan-digit :
    (d : ℕ) (cs : List ℕ) (s : Scan) → d < 10 → scan ((b'0' + d) ∷ cs) s ≡ scan cs (read_digit d s)
unfolding scan
scan-digit d cs s h = let x = read_char-digit d s h in rw (x.0) (ap (scan cs) x.1)

scan-within :
    (ds cs : List ℕ) (a : ℕ) (r : Ranges)
    → All (λ d. d < 10) ds
    → value_from a ds < sign_bit
    → scan (digits ds ++ cs) (within a r) ≡ scan cs (within (value_from a ds) r)
scan-within [] cs a r h l = refl
scan-within (d ∷ ds) cs a r (z, h) l =
    let small : a * 10 + d < sign_bit = omega (arith, value_from_mono (a * 10 + d) ds) in
    scan-digit d (digits ds ++ cs) (within a r) z
    ∙ ap (scan (digits ds ++ cs)) (read_digit-within d a r small)
    ∙ scan-within ds cs (a * 10 + d) r h l

scan-digits :
    (ds cs : List ℕ) (r : Ranges)
    → IsNumeral ds
    → scan (digits ds ++ cs) (between r) ≡ scan cs (within (value ds) r)
unfolding read_digit
scan-digits [] cs r h = absurd (omega (arith, h.1.0))
scan-digits (d ∷ ds) cs r ((k, h), (z, l)) =
    let first : value (d ∷ ds) ≡ value_from d ds = ap (λ a. value_from a ds) (omega arith) in
    let small : value_from d ds < sign_bit = omega (arith, l, first) in
    scan-digit d (digits ds ++ cs) (between r) k
    ∙ scan-within ds cs d r h small
    ∙ ap (λ a. scan cs (within a r)) (sym first)

-- The closing quote folds the number.
scan-close :
    (cs : List ℕ) (a : ℕ) (r : Ranges)
    → scan (39 ∷ cs) (within a r) ≡ scan cs (between (fold_number (pos a) r))
unfolding scan read_char read_separator
scan-close cs a r = refl

scan-quoted :
    (ds cs : List ℕ) (r : Ranges)
    → IsNumeral ds
    → scan (digits ds ++ (39 ∷ cs)) (between r) ≡ scan cs (between (fold_number (pos (value ds)) r))
scan-quoted ds cs r h = scan-digits ds (39 ∷ cs) r h ∙ scan-close cs (value ds) r

scan-rest_text :
    (ns : List (List ℕ)) (r : Ranges)
    → All IsNumeral ns
    → scan (rest_text ns) (between r) ≡ between (fold_all (map value ns) r)
unfolding scan read_char read_separator fold_all
scan-rest_text [] r h = refl
scan-rest_text (n ∷ ns) r (z, h) =
    scan-quoted n (rest_text ns) r z ∙ scan-rest_text ns (fold_number (pos (value n)) r) h

scan-list_text :
    (ns : List (List ℕ))
    → All IsNumeral ns
    → (scan (list_text ns) initial).ranges ≡ fold_all (map value ns) initial.ranges
unfolding scan read_char read_separator fold_all initial
scan-list_text [] h = refl
scan-list_text (n ∷ ns) (z, h) =
    ap (λ s. s.ranges)
      (scan-quoted n (rest_text ns) initial.ranges z
        ∙ scan-rest_text ns (fold_number (pos (value n)) initial.ranges) h)

value-positive : (ns : List (List ℕ)) → All IsNumeral ns → All IsInside (map value ns)
value-positive [] h = tt
value-positive (n ∷ ns) ((k, z), h) = (z, value-positive ns h)

-- Of the text of a list of decimal numbers from 1 to 2 ^ 63 - 2, each in quotes and with a comma
-- between any two, the filter turns away the rows with just these action sequence numbers: no number
-- is lost and none is added, whatever their order, gaps and repetitions, and no int64 overflows.
pub excluded-compress_actionseq :
    (x : ℕ) (ns : List (List ℕ))
    → All IsNumeral ns
    → excluded x (compress_actionseq (list_text ns)) ≡ mem x (map value ns)
unfolding compress_actionseq initial excluded
excluded-compress_actionseq x ns h =
    let r = fold_all (map value ns) initial.ranges in
    let i =
      fold_all-IsRange (map value ns) initial.ranges (value-positive ns h) (inl (refl, refl)) in
    ap (λ s. excluded x (last_range s)) (scan-list_text ns h)
    ∙ excluded-last_range x r i
    ∙ covered-fold_all x (map value ns) initial.ranges (value-positive ns h) (inl (refl, refl))
    ∙ ground arith
