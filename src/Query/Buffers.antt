-- ===== src/Query/Buffers.antt =====
-- The queries of src/slon/dbutils.c in the buffer of src/slon/slon.h: what is written, and that it
-- is written within the buffer.
use slony1_engine.Base.{
  ℕ, zero, suc, ◌+◌, ◌*◌, ◌<◌, ◌≡◌, refl, sym, Option, none, some, List, [], ◌∷◌, ◌++◌,
  if◌then◌else◌, length, length-append, lt→ltb, arith, Bool-cases, Option-cases, inl, inr,
  append_assoc, append-nil,
}
use slony1_engine.Base.Decimal.{decimal_ℤ}
use slony1_engine.Query.{
  SlonDString, ◌>>=◌, n_used, dstring_reset, store, grow, dstring_nappend, dstring_append,
  dstring_addchar, dstring_terminate, Arg, string, int, int64, percent, backslash, plain,
  format_char, Conversion, as_string, as_quoted, as_int, as_int64, as_is, conversion, is_special,
  append_quoted, convert, slon_appendquery_int, slon_mkquery, slon_appendquery,
}

-- There is room for the NUL.
abbrev pub IsRoomy : SlonDString → Type 0
IsRoomy d = n_used d < d.n_alloc

-- The result ends in the text and has room for a NUL behind it; without a text there is no result.
abbrev pub Extends : Option (List ℕ) → SlonDString → Option SlonDString → Type 0
Extends (some s) d (some e) = (e.chars ≡ d.chars ++ s) × (n_used e < e.n_alloc)
Extends (some s) d none = ⊥
Extends none d r = r ≡ none

-- A literal's text, with a character before each quote and backslash.
unfoldable pub quoted : List ℕ → List ℕ
quoted [] = []
quoted (c ∷ s) = (if is_special c then c ∷ c ∷ [] else c ∷ []) ++ quoted s

-- The text of one conversion, and the arguments that it leaves.
unfoldable pub converted : Conversion → ℕ → List Arg → Option (List Arg × List ℕ)
unfolding quoted decimal_ℤ
converted as_string c (string (some s) ∷ args) = some (args, s)
converted as_quoted c (string (some s) ∷ args) = some (args, quoted s)
converted as_quoted c (string none ∷ args) = some (args, [])
converted as_int c (int n ∷ args) = some (args, decimal_ℤ n)
converted as_int64 c (int64 n ∷ args) = some (args, decimal_ℤ n)
converted as_is c args = some (args, b'%' ∷ c ∷ [])
converted k c args = none

abbrev pub prefixed : List ℕ → Option (List ℕ) → Option (List ℕ)
prefixed s none = none
prefixed s (some t) = some (s ++ t)

-- The text that a format and its arguments stand for, if they fit.
unfoldable pub formatted : List ℕ → List Arg → Option (List ℕ)
unfolding converted format_char
formatted [] args = some []
formatted (c ∷ []) args = elim (format_char c) [
  | plain ↦ some (c ∷ [])
  | percent ↦ none
  | backslash ↦ none
]
formatted (c ∷ x ∷ fmt) args = elim (format_char c) [
  | percent ↦ elim (converted (conversion x) x args) [
    | none ↦ none
    | some r ↦ prefixed r.1 (formatted fmt r.0)
  ]
  | backslash ↦ prefixed (x ∷ []) (formatted fmt args)
  | plain ↦ prefixed (c ∷ []) (formatted (x ∷ fmt) args)
]

-- The doubling ends behind what is needed.
pub grow_lem : (fuel need n : ℕ) → 0 < n → need < n + fuel → need < grow fuel need n
unfolding grow
grow_lem zero need n p h = omega arith
grow_lem (suc fuel) need n p h = ground (arith, grow_lem fuel need (n * 2))

pub dstring_append-Extends :
    (s : List ℕ) (d : SlonDString) → IsRoomy d → Extends (some s) d (dstring_append s d)
unfolding dstring_append dstring_nappend store
dstring_append-Extends s d h = ground (
  arith,
  length-append d.chars s,
  grow_lem (suc (n_used d + length s)) (n_used d + length s) d.n_alloc,
)

pub dstring_addchar-Extends :
    (c : ℕ) (d : SlonDString) → IsRoomy d → Extends (some (c ∷ [])) d (dstring_addchar c d)
unfolding dstring_addchar store
dstring_addchar-Extends c d h = ground (arith, length-append d.chars (c ∷ []))

pub dstring_terminate-Extends :
    (d : SlonDString) → IsRoomy d → Extends (some []) d (dstring_terminate d)
unfolding dstring_terminate
dstring_terminate-Extends d h = ground (arith, append-nil d.chars)

-- One piece of text, and then another.
pub Extends-join :
    (s : List ℕ) (t : Option (List ℕ)) (d e : SlonDString) (r : Option SlonDString)
    → Extends (some s) d (some e)
    → Extends t e r
    → Extends (prefixed s t) d r
Extends-join s none d e r h x = x
Extends-join s (some u) d e none h x = x
Extends-join s (some u) d e (some f) h x = (rw (x.0, h.0) (append_assoc d.chars s u), x.1)

-- One piece of text, and then the rest.
Extends-bind :
    (s : List ℕ) (t : Option (List ℕ)) (d : SlonDString) (m : Option SlonDString)
    (k : SlonDString → Option SlonDString)
    → Extends (some s) d m
    → ((e : SlonDString) → IsRoomy e → Extends t e (k e))
    → Extends (prefixed s t) d (m >>= k)
Extends-bind s t d none k h g = elim h [ ]
Extends-bind s t d (some e) k h g = Extends-join s t d e (k e) h (g e h.1)

-- One character, and then the rest.
char_then :
    (c : ℕ) (t : Option (List ℕ)) (d : SlonDString) (k : SlonDString → Option SlonDString)
    → IsRoomy d
    → ((e : SlonDString) → IsRoomy e → Extends t e (k e))
    → Extends (prefixed (c ∷ []) t) d (dstring_addchar c d >>= k)
char_then c t d k h g =
    Extends-bind (c ∷ []) t d (dstring_addchar c d) k (dstring_addchar-Extends c d h) g

pub Extends-refl : (d : SlonDString) → IsRoomy d → Extends (some []) d (some d)
Extends-refl d h = (sym (append-nil d.chars), h)

append_quoted-Extends :
    (s : List ℕ) (d : SlonDString) → IsRoomy d → Extends (some (quoted s)) d (append_quoted s d)
unfolding append_quoted quoted
append_quoted-Extends [] d h = Extends-refl d h
append_quoted-Extends (c ∷ s) d h =
    let rest : (e : SlonDString)
        → IsRoomy e
        → Extends (some (c ∷ quoted s)) e (dstring_addchar c e >>= λ f. append_quoted s f) =
      λ e r.
        char_then c (some (quoted s)) e (λ f. append_quoted s f) r
          (λ f q. append_quoted-Extends s f q) in
    elim (Bool-cases (is_special c)) [
      | inl special ↦ rw special (
          char_then c (some (c ∷ quoted s)) d (λ e. dstring_addchar c e >>= λ f. append_quoted s f)
            h rest)
      | inr ordinary ↦ rw ordinary (rest d h)
    ]

-- The arguments are left that the conversion leaves, and its text is written.
abbrev Converts :
    Option (List Arg × List ℕ) → SlonDString → Option (List Arg × SlonDString) → Type 0
Converts (some r) d (some q) = (q.0 ≡ r.0) × Extends (some r.1) d (some q.1)
Converts (some r) d none = ⊥
Converts none d q = q ≡ none

Converts-bind :
    (args : List Arg) (s : List ℕ) (d : SlonDString) (m : Option SlonDString)
    → Extends (some s) d m
    → Converts (some (args, s)) d (m >>= λ e. some (args, e))
Converts-bind args s d none h = h
Converts-bind args s d (some e) h = (refl, h)

convert_text :
    (args : List Arg) (s : List ℕ) (d : SlonDString)
    → IsRoomy d
    → Converts (some (args, s)) d (dstring_append s d >>= λ e. some (args, e))
convert_text args s d h = Converts-bind args s d (dstring_append s d) (dstring_append-Extends s d h)

convert_as_is :
    (args : List Arg) (c : ℕ) (d : SlonDString)
    → IsRoomy d
    → Converts (some (args, b'%' ∷ c ∷ [])) d (convert as_is c args d)
unfolding convert
convert_as_is args c d h = elim (Option-cases (dstring_addchar b'%' d)) [
  | inl bad ↦ elim (rw bad at (dstring_addchar-Extends b'%' d h)) [ ]
  | inr (e, ok) ↦
      let first : Extends (some (b'%' ∷ [])) d (some e) =
        rw ok at (dstring_addchar-Extends b'%' d h) in
      rw ok (
        Converts-bind args (b'%' ∷ c ∷ []) d (dstring_addchar c e) (
          Extends-bind (b'%' ∷ []) (some (c ∷ [])) d (some e) (λ f. dstring_addchar c f) first
            (λ f q. dstring_addchar-Extends c f q)))
]

convert-Converts :
    (k : Conversion) (c : ℕ) (args : List Arg) (d : SlonDString)
    → IsRoomy d
    → Converts (converted k c args) d (convert k c args d)
unfolding converted convert
convert-Converts as_string c [] d h = refl
convert-Converts as_string c (string none ∷ args) d h = refl
convert-Converts as_string c (string (some s) ∷ args) d h = convert_text args s d h
convert-Converts as_string c (int n ∷ args) d h = refl
convert-Converts as_string c (int64 n ∷ args) d h = refl
convert-Converts as_quoted c [] d h = refl
convert-Converts as_quoted c (string none ∷ args) d h = (refl, Extends-refl d h)
convert-Converts as_quoted c (string (some s) ∷ args) d h =
    Converts-bind args (quoted s) d (append_quoted s d) (append_quoted-Extends s d h)
convert-Converts as_quoted c (int n ∷ args) d h = refl
convert-Converts as_quoted c (int64 n ∷ args) d h = refl
convert-Converts as_int c [] d h = refl
convert-Converts as_int c (string s ∷ args) d h = refl
convert-Converts as_int c (int n ∷ args) d h = convert_text args (decimal_ℤ n) d h
convert-Converts as_int c (int64 n ∷ args) d h = refl
convert-Converts as_int64 c [] d h = refl
convert-Converts as_int64 c (string s ∷ args) d h = refl
convert-Converts as_int64 c (int n ∷ args) d h = refl
convert-Converts as_int64 c (int64 n ∷ args) d h = convert_text args (decimal_ℤ n) d h
convert-Converts as_is c args d h = convert_as_is args c d h

-- A conversion, and then the rest of the format with the arguments that are left.
convert_then :
    (k : Conversion) (c : ℕ) (args : List Arg) (t : List Arg → Option (List ℕ)) (d : SlonDString)
    (g : List Arg → SlonDString → Option SlonDString)
    → IsRoomy d
    → ((rest : List Arg) (e : SlonDString) → IsRoomy e → Extends (t rest) e (g rest e))
    → Extends
        (elim (converted k c args) [ none ↦ none | some r ↦ prefixed r.1 (t r.0) ])
        d
        (convert k c args d >>= λ r. g r.0 r.1)
convert_then k c args t d g h step =
    join (converted k c args) (convert k c args d) (convert-Converts k c args d h)
  where
    join :
        (r : Option (List Arg × List ℕ)) (q : Option (List Arg × SlonDString))
        → Converts r d q
        → Extends (elim r [ none ↦ none | some r ↦ prefixed r.1 (t r.0) ]) d (q >>= λ r. g r.0 r.1)
    join none q x = rw x refl
    join (some r) none x = elim x [ ]
    join (some r) (some q) x =
        Extends-bind r.1 (t r.0) d (some q.1) (λ e. g q.0 e) x.1
          (λ e y. rw (sym x.0) (step q.0 e y))

-- For a buffer with room for a NUL: where the format and its arguments fit, their text is written
-- behind the buffer's, never out of bounds, and there is room for a NUL; and where they do not fit,
-- the call reads past the format or takes an argument that is missing or of another type.
pub slon_appendquery_int-Extends :
    (fmt : List ℕ) (args : List Arg) (d : SlonDString)
    → IsRoomy d
    → Extends (formatted fmt args) d (slon_appendquery_int fmt args d)
unfolding formatted slon_appendquery_int
slon_appendquery_int-Extends [] args d h = dstring_terminate-Extends d h
slon_appendquery_int-Extends (c ∷ []) args d h =
    elim (format_char c)
      as (λ k.
        Extends (elim k [ plain ↦ some (c ∷ []) | percent ↦ none | backslash ↦ none ]) d
          (elim k [
            | percent ↦ none
            | backslash ↦ none
            | plain ↦ dstring_addchar c d >>= λ e. dstring_terminate e
          ])) [
            | percent ↦ refl
            | backslash ↦ refl
            | plain ↦
                char_then c (some []) d (λ f. dstring_terminate f) h
                  (λ f q. dstring_terminate-Extends f q)
          ]
slon_appendquery_int-Extends (c ∷ x ∷ fmt) args d h =
    elim (format_char c)
      as (λ k.
        Extends
          (elim k [
            | percent ↦ elim (converted (conversion x) x args) [
              | none ↦ none
              | some r ↦ prefixed r.1 (formatted fmt r.0)
            ]
            | backslash ↦ prefixed (x ∷ []) (formatted fmt args)
            | plain ↦ prefixed (c ∷ []) (formatted (x ∷ fmt) args)
          ])
          d
          (elim k [
            | percent ↦ convert (conversion x) x args d >>= λ r. slon_appendquery_int fmt r.0 r.1
            | backslash ↦ dstring_addchar x d >>= λ e. slon_appendquery_int fmt args e
            | plain ↦ dstring_addchar c d >>= λ e. slon_appendquery_int (x ∷ fmt) args e
          ])) [
            | percent ↦
                convert_then (conversion x) x args (λ rest. formatted fmt rest) d
                  (λ rest f. slon_appendquery_int fmt rest f) h
                  (λ rest f q. slon_appendquery_int-Extends fmt rest f q)
            | backslash ↦
                char_then x (formatted fmt args) d (λ f. slon_appendquery_int fmt args f) h
                  (λ f q. slon_appendquery_int-Extends fmt args f q)
            | plain ↦
                char_then c (formatted (x ∷ fmt) args) d
                  (λ f. slon_appendquery_int (x ∷ fmt) args f) h
                  (λ f q. slon_appendquery_int-Extends (x ∷ fmt) args f q)
          ]

pub Extends-terminate :
    (t : Option (List ℕ)) (d : SlonDString) (m : Option SlonDString)
    → Extends t d m
    → Extends t d (m >>= λ e. dstring_terminate e)
unfolding dstring_terminate
Extends-terminate none d m h = rw h refl
Extends-terminate (some s) d none h = h
Extends-terminate (some s) d (some e) h = rw (lt→ltb (n_used e) e.n_alloc h.1) h

-- slon_appendquery() writes the text that the format and its arguments stand for behind the buffer's
-- text, without an access out of bounds and with room for the NUL, if they fit; if they do not, the
-- call reads past the format, or takes an argument that is missing, of another type or, for %s, NULL,
-- and has no result. The buffer has room for a NUL at the call.
pub slon_appendquery-Extends :
    (fmt : List ℕ) (args : List Arg) (d : SlonDString)
    → IsRoomy d
    → Extends (formatted fmt args) d (slon_appendquery fmt args d)
unfolding slon_appendquery
slon_appendquery-Extends fmt args d h =
    Extends-terminate (formatted fmt args) d (slon_appendquery_int fmt args d)
      (slon_appendquery_int-Extends fmt args d h)

-- slon_mkquery() does the same in an emptied buffer of at least one byte.
pub slon_mkquery-Extends :
    (fmt : List ℕ) (args : List Arg) (d : SlonDString)
    → 0 < d.n_alloc
    → Extends (formatted fmt args) (record d { chars = [] }) (slon_mkquery fmt args d)
unfolding slon_mkquery dstring_reset slon_appendquery
slon_mkquery-Extends fmt args d h =
    rw (lt→ltb 0 d.n_alloc h) (slon_appendquery-Extends fmt args (record d { chars = [] }) h)
