-- ===== src/Shipper/Statements/Queries.antt =====
-- The SQL texts that process_insert() and the others of src/slony_logshipper/slony_logshipper.c send.
use slony1_engine.Base.{
  ℕ, ◌≡◌, refl, ap, ◌∙◌, subst, Bool, true, Option, none, some, List, [], ◌∷◌, ◌++◌, if◌then◌else◌,
  arith,
}
use slony1_engine.Base.Bytes.{bytes}
use slony1_engine.Query.{
  ◌>>=◌, SlonDString, dstring_init, dstring_addchar, Arg, string, slon_mkquery, slon_appendquery,
}
use slony1_engine.Query.Buffers.{
  Extends, formatted, slon_appendquery-Extends, slon_mkquery-Extends, dstring_addchar-Extends,
}
use slony1_engine.Shipper.Queue.{Yields}
use slony1_engine.Shipper.Renames.{RenameObject, lookup_rename}
use slony1_engine.Shipper.Statements.{
  AttElem, Names, names_args, append_names, append_values, append_pairs, end_statement,
  insert_query, update_query, delete_query, Outcomes, Session, process_exec_sql, process_renamed,
  process_insert, process_update, process_delete,
}
use slony1_engine.Shipper.Statements.Texts.{
  names_text, values_text, pairs_text, Writes, after, append_names-Writes, append_values-Writes,
  append_pairs-Writes, end_statement-Writes,
}

-- A query that was begun in an empty string.
begun :
    (fmt text rest : List ℕ) (args : List Arg) (f : SlonDString → Option SlonDString)
    → formatted fmt args ≡ some text
    → Writes rest f
    → Yields (λ d. d.chars ≡ text ++ rest) (slon_mkquery fmt args dstring_init >>= f)
unfolding dstring_init
begun fmt text rest args f e w =
    let d : SlonDString = record dstring_init { chars = [] } in
    let m = slon_mkquery fmt args dstring_init in
    let mk : Extends (some text) d m =
      subst (λ o. Extends o d m) e (slon_mkquery-Extends fmt args dstring_init (ground arith)) in
    chars_of (text ++ rest) (m >>= f) (after text rest d m f mk w)
  where
    chars_of :
        (t : List ℕ) (r : Option SlonDString)
        → Extends (some t) (record dstring_init { chars = [] }) r
        → Yields (λ x. x.chars ≡ t) r
    chars_of t none h = absurd h
    chars_of t (some x) h = h.0

chain :
    (s t : List ℕ) (g f : SlonDString → Option SlonDString)
    → Writes s g
    → Writes t f
    → Writes (s ++ t) (λ d. g d >>= f)
chain s t g f v w d r = after s t d (g d) f (v d r) w

module _ (ns name : List ℕ) where
  abbrev names : Names
  names = (ns, some name)

  where_Writes :
      (attrs : List AttElem)
      → Writes
          (pairs_text (bytes " IS NULL") (bytes " where") (bytes " and") attrs)
          (append_pairs (bytes "%s %s IS NULL") (bytes " where") (bytes " and") attrs)
  unfolding formatted bytes
  where_Writes attrs =
      append_pairs-Writes (bytes " IS NULL") (bytes "%s %s IS NULL") (λ g n. refl) (bytes " where")
        (bytes " and") attrs

  unfoldable pub insert_text : List AttElem → List ℕ
  insert_text attrs =
      (bytes "insert into " ++ (ns ++ (b'.' ∷ (name ++ bytes " "))))
      ++ (names_text (bytes "(") attrs
          ++ (bytes ") values " ++ (values_text (bytes "(") attrs ++ bytes ");")))

  insert_query_lem :
      (attrs : List AttElem) → Yields (λ d. d.chars ≡ insert_text attrs) (insert_query names attrs)
  unfolding insert_query formatted bytes insert_text
  insert_query_lem attrs =
      begun (bytes "insert into %s.%s ")
        (bytes "insert into " ++ (ns ++ (b'.' ∷ (name ++ bytes " "))))
        (names_text (bytes "(") attrs
          ++ (bytes ") values " ++ (values_text (bytes "(") attrs ++ bytes ");")))
        (names_args names)
        (λ a. append_names (bytes "(") attrs a >>= λ b.
          slon_appendquery (bytes ") values ") [] b >>= λ c.
          append_values (bytes "(") attrs c >>= λ d.
          dstring_addchar b')' d >>= λ e. end_statement e)
        refl
        (chain (names_text (bytes "(") attrs)
          (bytes ") values " ++ (values_text (bytes "(") attrs ++ bytes ");"))
          (append_names (bytes "(") attrs)
          (λ b. slon_appendquery (bytes ") values ") [] b >>= λ c.
            append_values (bytes "(") attrs c >>= λ d.
            dstring_addchar b')' d >>= λ e. end_statement e)
          (append_names-Writes (bytes "(") attrs)
          (chain (bytes ") values ") (values_text (bytes "(") attrs ++ bytes ");")
            (slon_appendquery (bytes ") values ") [])
            (λ c. append_values (bytes "(") attrs c >>= λ d.
              dstring_addchar b')' d >>= λ e. end_statement e)
            (slon_appendquery-Extends (bytes ") values ") [])
            (chain (values_text (bytes "(") attrs) (bytes ");") (append_values (bytes "(") attrs)
              (λ d. dstring_addchar b')' d >>= λ e. end_statement e)
              (append_values-Writes (bytes "(") attrs)
              (chain (b')' ∷ []) (b';' ∷ []) (dstring_addchar b')') end_statement
                (dstring_addchar-Extends b')') end_statement-Writes))))

  unfoldable pub update_text : List AttElem → List AttElem → List ℕ
  update_text changes qualification =
      (bytes "update only " ++ (ns ++ (b'.' ∷ (name ++ bytes " "))))
      ++ (pairs_text (bytes "=NULL") (bytes "set") (bytes ",") changes
          ++ (pairs_text (bytes " IS NULL") (bytes " where") (bytes " and") qualification
              ++ bytes ";"))

  update_query_lem :
      (changes qualification : List AttElem)
      → Yields
          (λ d. d.chars ≡ update_text changes qualification)
          (update_query names changes qualification)
  unfolding update_query formatted bytes update_text
  update_query_lem changes qualification =
      let wheres = pairs_text (bytes " IS NULL") (bytes " where") (bytes " and") qualification in
      let add =
        append_pairs (bytes "%s %s IS NULL") (bytes " where") (bytes " and") qualification in
      begun (bytes "update only %s.%s ")
        (bytes "update only " ++ (ns ++ (b'.' ∷ (name ++ bytes " "))))
        (pairs_text (bytes "=NULL") (bytes "set") (bytes ",") changes ++ (wheres ++ bytes ";"))
        (names_args names)
        (λ a. append_pairs (bytes "%s %s=NULL") (bytes "set") (bytes ",") changes a >>= λ b.
          add b >>= λ c. end_statement c)
        refl
        (chain (pairs_text (bytes "=NULL") (bytes "set") (bytes ",") changes) (wheres ++ bytes ";")
          (append_pairs (bytes "%s %s=NULL") (bytes "set") (bytes ",") changes)
          (λ b. add b >>= λ c. end_statement c)
          (append_pairs-Writes (bytes "=NULL") (bytes "%s %s=NULL") (λ g n. refl) (bytes "set")
            (bytes ",") changes)
          (chain wheres (bytes ";") add end_statement (where_Writes qualification)
            end_statement-Writes))

  unfoldable pub delete_text : Bool → List AttElem → List ℕ
  delete_text only qualification =
      (bytes "delete from "
        ++ ((if only then bytes "only " else []) ++ (ns ++ (b'.' ∷ (name ++ [])))))
      ++ (pairs_text (bytes " IS NULL") (bytes " where") (bytes " and") qualification ++ bytes ";")

  delete_query_lem :
      (only : Bool) (qualification : List AttElem)
      → Yields
          (λ d. d.chars ≡ delete_text only qualification)
          (delete_query names only qualification)
  unfolding delete_query formatted bytes delete_text
  delete_query_lem only qualification =
      let wheres = pairs_text (bytes " IS NULL") (bytes " where") (bytes " and") qualification in
      let add =
        append_pairs (bytes "%s %s IS NULL") (bytes " where") (bytes " and") qualification in
      begun (bytes "delete from %s%s.%s")
        (bytes "delete from "
          ++ ((if only then bytes "only " else []) ++ (ns ++ (b'.' ∷ (name ++ [])))))
        (wheres ++ bytes ";")
        (string (some (if only then bytes "only " else [])) ∷ names_args names)
        (λ a. add a >>= λ b. end_statement b) refl
        (chain wheres (bytes ";") add end_statement (where_Writes qualification)
          end_statement-Writes)

sent :
    (k : Outcomes) (t : Session) (text : List ℕ) (q : Option SlonDString)
    → Yields (λ d. d.chars ≡ text) q
    → (q >>= λ d. some (process_exec_sql k d.chars t)) ≡ some (process_exec_sql k text t)
sent k t text none h = cc
sent k t text (some d) h = ap (λ x. some (process_exec_sql k x t)) h

-- An insert, an update or a delete goes to the database and to the file as one text, under the names
-- that lookup_rename() gives; where it gives none, nothing happens. In the text each value stands
-- in quotes as the archive has it, and a NULL is NULL, `=NULL` or ` IS NULL`.
pub statements_lem :
    (k : Outcomes) (rules : List RenameObject) (namespace tablename ns name : List ℕ) (only : Bool)
    (attrs qualification : List AttElem) (t : Session)
    → (lookup_rename namespace tablename rules ≡ some (ns, some name)
        → (process_insert k rules namespace tablename attrs t
            ≡ some (process_exec_sql k (insert_text ns name attrs) t))
          × (process_update k rules namespace tablename attrs qualification t
              ≡ some (process_exec_sql k (update_text ns name attrs qualification) t))
          × (process_delete k rules namespace tablename only qualification t
              ≡ some (process_exec_sql k (delete_text ns name only qualification) t)))
      × (lookup_rename namespace tablename rules ≡ none
          → (process_insert k rules namespace tablename attrs t ≡ some (true, t))
            × (process_update k rules namespace tablename attrs qualification t ≡ some (true, t))
            × (process_delete k rules namespace tablename only qualification t ≡ some (true, t)))
unfolding process_insert process_update process_delete
statements_lem k rules namespace tablename ns name only attrs qualification t = (
  λ e. (
    ap (λ r. process_renamed k r (λ n. insert_query n attrs) t) e
        ∙ sent k t (insert_text ns name attrs) (insert_query (ns, some name) attrs)
            (insert_query_lem ns name attrs),
    ap (λ r. process_renamed k r (λ n. update_query n attrs qualification) t) e
        ∙ sent k t (update_text ns name attrs qualification)
            (update_query (ns, some name) attrs qualification)
            (update_query_lem ns name attrs qualification),
    ap (λ r. process_renamed k r (λ n. delete_query n only qualification) t) e
        ∙ sent k t (delete_text ns name only qualification)
            (delete_query (ns, some name) only qualification)
            (delete_query_lem ns name only qualification),
  ),
  λ e. (
    ap (λ r. process_renamed k r (λ n. insert_query n attrs) t) e,
    ap (λ r. process_renamed k r (λ n. update_query n attrs qualification) t) e,
    ap (λ r. process_renamed k r (λ n. delete_query n only qualification) t) e,
  ),
)
