-- ===== src/Shipper/Statements/Texts.antt =====
-- The SQL texts of the statements, src/slony_logshipper/slony_logshipper.c.
use slony1_engine.Base.{
  ℕ, ◌≡◌, ap, ◌∙◌, subst, Option, none, some, List, [], ◌∷◌, ◌++◌, append_assoc, append-nil,
}
use slony1_engine.Base.Bytes.{bytes}
use slony1_engine.Query.{
  ◌>>=◌, SlonDString, dstring_addchar, dstring_terminate, string, slon_appendquery,
}
use slony1_engine.Query.Buffers.{
  IsRoomy, Extends, formatted, Extends-join, Extends-refl, slon_appendquery-Extends,
  dstring_addchar-Extends, dstring_terminate-Extends,
}
use slony1_engine.Shipper.Statements.{
  AttElem, append_names, append_values, append_pairs, end_statement,
}

-- `text` goes to the end of whatever string has room, and room is left.
abbrev pub Writes : List ℕ → (SlonDString → Option SlonDString) → Type 0
Writes text f = (d : SlonDString) → IsRoomy d → Extends (some text) d (f d)

pub after :
    (s t : List ℕ) (d : SlonDString) (m : Option SlonDString) (f : SlonDString → Option SlonDString)
    → Extends (some s) d m
    → Writes t f
    → Extends (some (s ++ t)) d (m >>= f)
after s t d none f h w = absurd h
after s t d (some e) f h w = Extends-join s (some t) d e (f e) h (w e h.1)

same_text :
    (s t : List ℕ) (d : SlonDString) (m : Option SlonDString)
    → s ≡ t
    → Extends (some s) d m
    → Extends (some t) d m
same_text s t d m e h = subst (λ x. Extends (some x) d m) e h

-- The texts of the lists: names, values, and pairs of both with what is said of a NULL.
unfoldable pub names_text : List ℕ → List AttElem → List ℕ
unfolding bytes
names_text glue [] = []
names_text glue (a ∷ attrs) = glue ++ (a.attname ++ names_text (bytes ", ") attrs)

unfoldable pub value_text : Option (List ℕ) → List ℕ
unfolding bytes
value_text none = bytes "NULL"
value_text (some v) = 39 ∷ v ++ 39 ∷ []

unfoldable pub values_text : List ℕ → List AttElem → List ℕ
unfolding bytes value_text
values_text glue [] = []
values_text glue (a ∷ attrs) = glue ++ (value_text a.attvalue ++ values_text (bytes ", ") attrs)

pub append_names-Writes :
    (glue : List ℕ) (attrs : List AttElem)
    → Writes (names_text glue attrs) (append_names glue attrs)
unfolding append_names names_text formatted bytes
append_names-Writes glue [] d r = Extends-refl d r
append_names-Writes glue (a ∷ attrs) d r =
    same_text ((glue ++ (a.attname ++ [])) ++ names_text (bytes ", ") attrs)
      (glue ++ (a.attname ++ names_text (bytes ", ") attrs)) d (append_names glue (a ∷ attrs) d)
      (append_assoc glue (a.attname ++ []) (names_text (bytes ", ") attrs)
        ∙ ap (λ x. glue ++ (x ++ names_text (bytes ", ") attrs)) (append-nil a.attname))
      (after (glue ++ (a.attname ++ [])) (names_text (bytes ", ") attrs) d
        (slon_appendquery (bytes "%s%s") (string (some glue) ∷ string (some a.attname) ∷ []) d)
        (append_names (bytes ", ") attrs)
        (slon_appendquery-Extends (bytes "%s%s") (string (some glue) ∷ string (some a.attname) ∷ [])
          d r)
        (append_names-Writes (bytes ", ") attrs))

value_query : List ℕ → Option (List ℕ) → SlonDString → Option SlonDString
value_query glue v d = elim v [
  | none ↦ slon_appendquery (bytes "%sNULL") (string (some glue) ∷ []) d
  | some t ↦ slon_appendquery (bytes "%s'%s'") (string (some glue) ∷ string (some t) ∷ []) d
]

value-Writes :
    (glue : List ℕ) (v : Option (List ℕ)) → Writes (glue ++ value_text v) (value_query glue v)
unfolding value_query value_text formatted bytes
value-Writes glue none d r = slon_appendquery-Extends (bytes "%sNULL") (string (some glue) ∷ []) d r
value-Writes glue (some t) d r =
    slon_appendquery-Extends (bytes "%s'%s'") (string (some glue) ∷ string (some t) ∷ []) d r

pub append_values-Writes :
    (glue : List ℕ) (attrs : List AttElem)
    → Writes (values_text glue attrs) (append_values glue attrs)
unfolding append_values values_text value_query
append_values-Writes glue [] d r = Extends-refl d r
append_values-Writes glue (a ∷ attrs) d r =
    same_text ((glue ++ value_text a.attvalue) ++ values_text (bytes ", ") attrs)
      (glue ++ (value_text a.attvalue ++ values_text (bytes ", ") attrs)) d
      (append_values glue (a ∷ attrs) d)
      (append_assoc glue (value_text a.attvalue) (values_text (bytes ", ") attrs))
      (after (glue ++ value_text a.attvalue) (values_text (bytes ", ") attrs) d
        (value_query glue a.attvalue d) (append_values (bytes ", ") attrs)
        (value-Writes glue a.attvalue d r) (append_values-Writes (bytes ", ") attrs))

-- `name='value'`, or `name` and `null` for a NULL.
unfoldable pub pair_text : List ℕ → AttElem → List ℕ
unfolding bytes
pair_text null a =
    a.attname ++ elim a.attvalue [ none ↦ null | some v ↦ bytes "='" ++ (v ++ 39 ∷ []) ]

unfoldable pub pairs_text : List ℕ → List ℕ → List ℕ → List AttElem → List ℕ
unfolding pair_text
pairs_text null glue next [] = []
pairs_text null glue next (a ∷ attrs) =
    glue ++ (32 ∷ (pair_text null a ++ pairs_text null next next attrs))

pair_query : List ℕ → List ℕ → List ℕ → Option (List ℕ) → SlonDString → Option SlonDString
pair_query null_format glue name v d = elim v [
  | none ↦ slon_appendquery null_format (string (some glue) ∷ string (some name) ∷ []) d
  | some t ↦
      slon_appendquery (bytes "%s %s='%s'")
        (string (some glue) ∷ string (some name) ∷ string (some t) ∷ []) d
]

module _ (null null_format : List ℕ)
    (is_null_format : (glue name : List ℕ)
      → formatted null_format (string (some glue) ∷ string (some name) ∷ [])
        ≡ some (glue ++ (32 ∷ (name ++ null)))) where
  pair-Writes :
      (glue name : List ℕ) (v : Option (List ℕ))
      → Writes
          (glue ++ (32 ∷ (name ++ elim v [ none ↦ null | some t ↦ bytes "='" ++ (t ++ 39 ∷ []) ])))
          (pair_query null_format glue name v)
  unfolding pair_query formatted bytes
  pair-Writes glue name none d r =
      subst
        (λ o.
          Extends o d
            (slon_appendquery null_format (string (some glue) ∷ string (some name) ∷ []) d))
        (is_null_format glue name)
        (slon_appendquery-Extends null_format (string (some glue) ∷ string (some name) ∷ []) d r)
  pair-Writes glue name (some t) d r =
      slon_appendquery-Extends (bytes "%s %s='%s'")
        (string (some glue) ∷ string (some name) ∷ string (some t) ∷ []) d r

  pub append_pairs-Writes :
      (glue next : List ℕ) (attrs : List AttElem)
      → Writes (pairs_text null glue next attrs) (append_pairs null_format glue next attrs)
  unfolding append_pairs pairs_text pair_text pair_query
  append_pairs-Writes glue next [] d r = Extends-refl d r
  append_pairs-Writes glue next (a ∷ attrs) d r =
      same_text ((glue ++ (32 ∷ pair_text null a)) ++ pairs_text null next next attrs)
        (glue ++ (32 ∷ (pair_text null a ++ pairs_text null next next attrs))) d
        (append_pairs null_format glue next (a ∷ attrs) d)
        (append_assoc glue (32 ∷ pair_text null a) (pairs_text null next next attrs))
        (after (glue ++ (32 ∷ pair_text null a)) (pairs_text null next next attrs) d
          (pair_query null_format glue a.attname a.attvalue d)
          (append_pairs null_format next next attrs) (pair-Writes glue a.attname a.attvalue d r)
          (append_pairs-Writes next next attrs))

pub end_statement-Writes : Writes (b';' ∷ []) end_statement
end_statement-Writes d r =
    after (b';' ∷ []) [] d (dstring_addchar b';' d) dstring_terminate
      (dstring_addchar-Extends b';' d r) dstring_terminate-Extends
