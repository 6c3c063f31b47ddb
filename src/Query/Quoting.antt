-- ===== src/Query/Quoting.antt =====
-- A text that src/slon/dbutils.c puts into a query by '%q' is a literal with just that text.
use slony1_engine.Base.{
  ℕ, ◌≡◌, ◌≢◌, refl, true, false, Option, none, some, List, [], ◌∷◌, ◌++◌, if◌then◌else◌, ◌==◌,
  arith, Bool-cases, inl, inr,
}
use slony1_engine.Query.{SlonDString, Arg, string, is_special, slon_appendquery, format_char}
use slony1_engine.Query.Buffers.{
  IsRoomy, Extends, quoted, converted, formatted, slon_appendquery-Extends,
}

abbrev pub add_char : ℕ → Option (List ℕ × List ℕ) → Option (List ℕ × List ℕ)
add_char c none = none
add_char c (some r) = some (c ∷ r.0, r.1)

-- A literal of SQL, behind its first quote, with standard_conforming_strings off: its text and what
-- follows it. Of the escapes only those of a backslash and a quote are read.
unfoldable pub read_literal : List ℕ → Option (List ℕ × List ℕ)
read_literal [] = none
read_literal (c ∷ []) = if c == 39 then some ([], []) else none
read_literal (c ∷ x ∷ cs) = elim (c == 39) [
  | true ↦ elim (x == 39) [ true ↦ add_char 39 (read_literal cs) | false ↦ some ([], x ∷ cs) ]
  | false ↦ elim (c == 92) [
    | true ↦ elim (is_special x) [ true ↦ add_char x (read_literal cs) | false ↦ none ]
    | false ↦ add_char c (read_literal (x ∷ cs))
  ]
]

read_literal_plain :
    (c : ℕ) (cs : List ℕ)
    → is_special c ≡ false
    → read_literal (c ∷ cs) ≡ add_char c (read_literal cs)
unfolding read_literal
read_literal_plain c [] h = ground arith
read_literal_plain c (x ∷ cs) h = ground arith

read_literal_special :
    (c : ℕ) (cs : List ℕ)
    → is_special c ≡ true
    → read_literal (c ∷ c ∷ cs) ≡ add_char c (read_literal cs)
unfolding read_literal
read_literal_special c cs h = ground arith

-- The text does not begin with a quote.
abbrev pub IsSeparate : List ℕ → Type 0
IsSeparate [] = Unit
IsSeparate (c ∷ cs) = c ≢ 39

read_literal_end : (cs : List ℕ) → IsSeparate cs → read_literal (39 ∷ cs) ≡ some ([], cs)
unfolding read_literal
read_literal_end [] h = refl
read_literal_end (c ∷ cs) h = ground arith

read_literal-quoted :
    (s cs : List ℕ) → IsSeparate cs → read_literal (quoted s ++ 39 ∷ cs) ≡ some (s, cs)
unfolding quoted
read_literal-quoted [] cs h = read_literal_end cs h
read_literal-quoted (c ∷ s) cs h = elim (Bool-cases (is_special c)) [
  | inl special ↦
      rw special
        (rw (read_literal_special c (quoted s ++ 39 ∷ cs) special, read_literal-quoted s cs h) refl)
  | inr ordinary ↦
      rw ordinary
        (rw (read_literal_plain c (quoted s ++ 39 ∷ cs) ordinary, read_literal-quoted s cs h) refl)
]

-- The buffer's text is followed by a literal of the text s, and that by the text t.
abbrev pub EndsInLiteral : List ℕ → List ℕ → SlonDString → Option SlonDString → Type 0
EndsInLiteral s t d none = ⊥
EndsInLiteral s t d (some e) =
    (u : List ℕ) × (e.chars ≡ d.chars ++ 39 ∷ u) × (read_literal u ≡ some (s, t))

-- '%q'
abbrev pub quoted_format : List ℕ → List ℕ
quoted_format fmt = 39 ∷ b'%' ∷ b'q' ∷ 39 ∷ fmt

formatted-quoted_format :
    (s fmt : List ℕ) (args : List Arg) (t : List ℕ)
    → formatted fmt args ≡ some t
    → formatted (quoted_format fmt) (string (some s) ∷ args) ≡ some (39 ∷ (quoted s ++ 39 ∷ t))
unfolding formatted format_char converted
formatted-quoted_format s [] args t h = ground arith
formatted-quoted_format s (c ∷ fmt) args t h = rw h refl

-- For any text s, and any rest of the format that stands for a text t not beginning with a quote:
-- the format '%q' and that rest put into the query a literal that reads back as s, followed by t.
-- No text can end its literal early or reach into what follows. The buffer has room for a NUL.
pub slon_appendquery-EndsInLiteral :
    (s fmt : List ℕ) (args : List Arg) (t : List ℕ) (d : SlonDString)
    → IsRoomy d
    → formatted fmt args ≡ some t
    → IsSeparate t
    → EndsInLiteral s t d (slon_appendquery (quoted_format fmt) (string (some s) ∷ args) d)
slon_appendquery-EndsInLiteral s fmt args t d h f a =
    ends (slon_appendquery (quoted_format fmt) (string (some s) ∷ args) d) (
      rw (formatted-quoted_format s fmt args t f) at
        (slon_appendquery-Extends (quoted_format fmt) (string (some s) ∷ args) d h))
  where
    ends :
        (r : Option SlonDString)
        → Extends (some (39 ∷ (quoted s ++ 39 ∷ t))) d r
        → EndsInLiteral s t d r
    ends none x = x
    ends (some e) x = (quoted s ++ 39 ∷ t, x.0, read_literal-quoted s t a)
