-- ===== src/Query.antt =====
-- Building a query: the SlonDString of src/slon/slon.h, and slon_mkquery() and slon_appendquery() of
-- src/slon/dbutils.c. Characters are numbers, and a C string is the list of those before its NUL.
-- A read or a write out of bounds and a read of a missing argument end in `none`.
pub mod Buffers
pub mod Quoting
mod Examples
use slony1_engine.Base.{
  ℕ, zero, suc, ◌+◌, ◌*◌, Bool, true, false, Option, none, some, List, [], ◌∷◌, ◌++◌, if◌then◌else◌,
  length, leb, ltb, ◌==◌,
}
use slony1_engine.Base.Int.{ℤ}
use slony1_engine.Base.Decimal.{decimal_ℤ}

-- A block of `n_alloc` bytes, of which `chars` are used.
pub record SlonDString : Type 0 where
  pub n_alloc : ℕ
  pub chars : List ℕ

infixl 5 ◌>>=◌
abbrev pub ◌>>=◌ {ℓ κ} : {A : Type ℓ} {B : Type κ} → Option A → (A → Option B) → Option B
m >>= f = elim m [ none ↦ none | some a ↦ f a ]

abbrev pub n_used : SlonDString → ℕ
n_used d = length d.chars

-- malloc() and realloc() succeed: otherwise slon ends.
unfoldable pub dstring_init : SlonDString
dstring_init = record { n_alloc = 256; chars = [] }

-- Writes a NUL to the first byte.
unfoldable pub dstring_reset : SlonDString → Option SlonDString
dstring_reset d = if ltb 0 d.n_alloc then some (record d { chars = [] }) else none

-- memcpy() to the end of the used bytes.
unfoldable pub store : List ℕ → SlonDString → Option SlonDString
store s d =
    if leb (n_used d + length s) d.n_alloc then some (record d { chars = d.chars ++ s }) else none

-- while (need >= n_alloc) n_alloc *= SLON_DSTRING_SIZE_INC;
unfoldable pub grow : ℕ → ℕ → ℕ → ℕ
grow zero need n_alloc = n_alloc
grow (suc fuel) need n_alloc = elim (leb n_alloc need) [
  | true ↦ grow fuel need (n_alloc * 2)
  | false ↦ n_alloc
]

-- The loop runs at most once for each byte that is needed, and once more.
unfoldable pub dstring_nappend : List ℕ → SlonDString → Option SlonDString
unfolding grow store
dstring_nappend s d =
    let need = n_used d + length s in
    store s (record d { n_alloc = grow (suc need) need d.n_alloc })

-- dstring_append() measures the string by strlen().
unfoldable pub dstring_append : List ℕ → SlonDString → Option SlonDString
unfolding dstring_nappend
dstring_append s d = dstring_nappend s d

unfoldable pub dstring_addchar : ℕ → SlonDString → Option SlonDString
unfolding store
dstring_addchar c d =
    store (c ∷ [])
      (if leb d.n_alloc (n_used d + 1) then record d { n_alloc = d.n_alloc * 2 } else d)

-- Writes a NUL behind the used bytes.
unfoldable pub dstring_terminate : SlonDString → Option SlonDString
dstring_terminate d = if ltb (n_used d) d.n_alloc then some d else none

-- What va_arg() finds: a `char *`, an `int` or an `int64`.
pub data Arg : Type 0 where
  string : Option (List ℕ) → Arg
  int int64 : ℤ → Arg

pub data FormatChar : Type 0 where
  percent backslash plain : FormatChar

unfoldable pub format_char : ℕ → FormatChar
format_char c = if c == b'%' then percent else if c == 92 then backslash else plain

pub data Conversion : Type 0 where
  as_string as_quoted as_int as_int64 as_is : Conversion

abbrev pub conversion : ℕ → Conversion
conversion c =
    if c == b's'
    then as_string
    else if c == b'q'
    then as_quoted
    else if c == b'd'
    then as_int
    else if c == b'L'
    then as_int64
    else as_is

abbrev pub is_special : ℕ → Bool
is_special c = if c == 39 then true else c == 92

-- The loop of `%q`.
unfoldable pub append_quoted : List ℕ → SlonDString → Option SlonDString
unfolding dstring_addchar
append_quoted [] d = some d
append_quoted (c ∷ s) d = (if is_special c then dstring_addchar c d else some d) >>= λ e.
    dstring_addchar c e >>= λ f. append_quoted s f

-- One conversion, behind its `%`: the arguments that are left, and the string.
unfoldable pub convert : Conversion → ℕ → List Arg → SlonDString → Option (List Arg × SlonDString)
unfolding dstring_append append_quoted dstring_addchar decimal_ℤ
convert as_string c (string (some s) ∷ args) d = dstring_append s d >>= λ e. some (args, e)
convert as_quoted c (string (some s) ∷ args) d = append_quoted s d >>= λ e. some (args, e)
convert as_quoted c (string none ∷ args) d = some (args, d)
convert as_int c (int n ∷ args) d = dstring_append (decimal_ℤ n) d >>= λ e. some (args, e)
convert as_int64 c (int64 n ∷ args) d = dstring_append (decimal_ℤ n) d >>= λ e. some (args, e)
convert as_is c args d = dstring_addchar b'%' d >>= λ e. dstring_addchar c e >>= λ f. some (args, f)
convert k c args d = none

-- A `%` or `\` at the end of the format takes the NUL for its character and reads on behind it.
unfoldable pub slon_appendquery_int : List ℕ → List Arg → SlonDString → Option SlonDString
unfolding convert dstring_addchar dstring_terminate format_char
slon_appendquery_int [] args d = dstring_terminate d
slon_appendquery_int (c ∷ []) args d = elim (format_char c) [
  | percent ↦ none
  | backslash ↦ none
  | plain ↦ dstring_addchar c d >>= λ e. dstring_terminate e
]
slon_appendquery_int (c ∷ x ∷ fmt) args d = elim (format_char c) [
  | percent ↦ convert (conversion x) x args d >>= λ r. slon_appendquery_int fmt r.0 r.1
  | backslash ↦ dstring_addchar x d >>= λ e. slon_appendquery_int fmt args e
  | plain ↦ dstring_addchar c d >>= λ e. slon_appendquery_int (x ∷ fmt) args e
]

unfoldable pub slon_mkquery : List ℕ → List Arg → SlonDString → Option SlonDString
unfolding dstring_reset slon_appendquery_int dstring_terminate
slon_mkquery fmt args d =
    dstring_reset d >>= λ e. slon_appendquery_int fmt args e >>= λ f. dstring_terminate f

unfoldable pub slon_appendquery : List ℕ → List Arg → SlonDString → Option SlonDString
unfolding slon_appendquery_int dstring_terminate
slon_appendquery fmt args d = slon_appendquery_int fmt args d >>= λ f. dstring_terminate f
