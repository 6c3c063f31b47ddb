-- ===== src/Shipper/Statements.antt =====
-- The statements of an archive, src/slony_logshipper/slony_logshipper.c: process_insert() and the others
-- make an SQL text of each for the database and for a file. What PQexec() and fputs() answer is an
-- argument; the parser, which calls these functions, is generated and not modelled.
pub mod Texts
pub mod Queries
pub mod Transactions
use slony1_engine.Base.{
  ℕ, Bool, true, false, not, ◌&&◌, Option, none, some, List, [], ◌∷◌, ◌++◌, if◌then◌else◌, ltb,
  length,
}
use slony1_engine.Base.Bytes.{bytes}
use slony1_engine.Query.{
  ◌>>=◌, SlonDString, dstring_init, dstring_addchar, dstring_terminate, Arg, string, slon_mkquery,
  slon_appendquery,
}
use slony1_engine.Shipper.Renames.{RenameObject, lookup_rename, Renamed}
use slony1_engine.Shipper.Counters.{
  CounterAnswers, Reading, unconnected, closed, get_current_at_counter, Check, unreadable, skip,
  apply, process_check_at_counter,
}

pub record AttElem : Type 0 where
  pub attname : List ℕ
  pub attvalue : Option (List ℕ)

-- A namespace and a name; the name is NULL where a rule for a table has none.
abbrev pub Names : Type 0
Names = List ℕ × Option (List ℕ)

abbrev pub names_args : Names → List Arg
names_args n = string (some n.0) ∷ string n.1 ∷ []

-- "%s%s" for each attribute, with a glue that is ", " behind the first.
unfoldable pub append_names : List ℕ → List AttElem → SlonDString → Option SlonDString
unfolding slon_appendquery bytes
append_names glue [] d = some d
append_names glue (a ∷ attrs) d =
    slon_appendquery (bytes "%s%s") (string (some glue) ∷ string (some a.attname) ∷ []) d >>= λ e.
    append_names (bytes ", ") attrs e

-- The values of an insert: NULL, or a text in quotes.
unfoldable pub append_values : List ℕ → List AttElem → SlonDString → Option SlonDString
unfolding slon_appendquery bytes
append_values glue [] d = some d
append_values glue (a ∷ attrs) d =
    elim a.attvalue [
      | none ↦ slon_appendquery (bytes "%sNULL") (string (some glue) ∷ []) d
      | some v ↦ slon_appendquery (bytes "%s'%s'") (string (some glue) ∷ string (some v) ∷ []) d
    ]
    >>= λ e. append_values (bytes ", ") attrs e

-- `name='value'` for each, or `name` and what is said of a NULL.
unfoldable pub append_pairs :
    List ℕ → List ℕ → List ℕ → List AttElem → SlonDString → Option SlonDString
unfolding slon_appendquery bytes
append_pairs null_format glue next [] d = some d
append_pairs null_format glue next (a ∷ attrs) d =
    elim a.attvalue [
      | none ↦ slon_appendquery null_format (string (some glue) ∷ string (some a.attname) ∷ []) d
      | some v ↦
          slon_appendquery (bytes "%s %s='%s'")
            (string (some glue) ∷ string (some a.attname) ∷ string (some v) ∷ []) d
    ]
    >>= λ e. append_pairs null_format next next attrs e

-- dstring_addchar(&ds, ';'); dstring_terminate(&ds);
abbrev pub end_statement : SlonDString → Option SlonDString
end_statement d = dstring_addchar b';' d >>= λ e. dstring_terminate e

unfoldable pub insert_query : Names → List AttElem → Option SlonDString
unfolding slon_mkquery slon_appendquery append_names append_values bytes
insert_query n attrs =
    slon_mkquery (bytes "insert into %s.%s ") (names_args n) dstring_init >>= λ a.
    append_names (bytes "(") attrs a >>= λ b. slon_appendquery (bytes ") values ") [] b >>= λ c.
    append_values (bytes "(") attrs c >>= λ d. dstring_addchar b')' d >>= λ e. end_statement e

unfoldable pub update_query : Names → List AttElem → List AttElem → Option SlonDString
unfolding slon_mkquery append_pairs bytes
update_query n changes qualification =
    slon_mkquery (bytes "update only %s.%s ") (names_args n) dstring_init >>= λ a.
    append_pairs (bytes "%s %s=NULL") (bytes "set") (bytes ",") changes a >>= λ b.
    append_pairs (bytes "%s %s IS NULL") (bytes " where") (bytes " and") qualification b >>= λ c.
    end_statement c

-- No qualification is NULL, which is as one with no element.
unfoldable pub delete_query : Names → Bool → List AttElem → Option SlonDString
unfolding slon_mkquery append_pairs bytes
delete_query n only qualification =
    slon_mkquery (bytes "delete from %s%s.%s")
      (string (some (if only then bytes "only " else [])) ∷ names_args n) dstring_init
    >>= λ a.
        append_pairs (bytes "%s %s IS NULL") (bytes " where") (bytes " and") qualification a
        >>= λ b. end_statement b

unfoldable pub truncate_query : Names → Option SlonDString
unfolding slon_mkquery dstring_terminate bytes
truncate_query n =
    slon_mkquery (bytes "truncate only %s.%s cascade;") (names_args n) dstring_init >>= λ a.
    dstring_terminate a

unfoldable pub copy_query : Names → List AttElem → List ℕ → Option SlonDString
unfolding slon_mkquery slon_appendquery append_names bytes
copy_query n attrs source = slon_mkquery (bytes "copy %s.%s ") (names_args n) dstring_init >>= λ a.
    append_names (bytes "(") attrs a >>= λ b.
    slon_appendquery (bytes ") from %s;") (string (some source) ∷ []) b

-- What the database and the file answer: to a statement, to a COPY, to its lines and its end, and to
-- a text for the file.
pub record Outcomes : Type 0 where
  pub accepts : List ℕ → Bool
  pub copies : List ℕ → Bool
  pub takes_line : List ℕ → Bool
  pub takes_end : Bool
  pub puts : List ℕ → Bool

-- The flags of the source, whether dbconn and destinationfp are there, whether PQfinish() has freed
-- dbconn without setting it to NULL and ipc_finish(true) was called, what the database accepted, and
-- what is in the file.
pub record Session : Type 0 where
  pub process_in_transaction : Bool
  pub suppress_copy : Bool
  pub has_dbconn : Bool
  pub dbconn_freed : Bool
  pub ipc_finished : Bool
  pub has_file : Bool
  pub executed : List (List ℕ)
  pub written : List ℕ

abbrev pub put_text : Outcomes → List ℕ → Session → Bool × Session
put_text k text t =
    if not t.has_file
    then (true, t)
    else if k.puts text
    then (true, record t { written = t.written ++ text })
    else (false, t)

-- A text and a newline, by fputs() and fputc().
abbrev pub put_line : Outcomes → List ℕ → Session → Bool × Session
put_line k text t = let r = put_text k text t in if r.0 then put_text k (10 ∷ []) r.1 else r

-- To the database, if there is one, by a call that accepts the text or not.
abbrev pub execute : (List ℕ → Bool) → List ℕ → Session → Bool × Session
execute accepts text t =
    if not t.has_dbconn
    then (true, t)
    else if accepts text
    then (true, record t { executed = t.executed ++ text ∷ [] })
    else (false, t)

unfoldable pub process_exec_sql : Outcomes → List ℕ → Session → Bool × Session
process_exec_sql k sql t = let r = execute k.accepts sql t in if r.0 then put_line k sql r.1 else r

unfoldable pub process_start_transaction : Outcomes → List ℕ → Session → Bool × Session
unfolding process_exec_sql
process_start_transaction k sql t =
    if t.process_in_transaction
    then (false, t)
    else process_exec_sql k sql (record t { process_in_transaction = true })

unfoldable pub process_end_transaction : Outcomes → List ℕ → Session → Bool × Session
unfolding process_exec_sql
process_end_transaction k sql t =
    if t.process_in_transaction
    then process_exec_sql k sql (record t { process_in_transaction = false })
    else (false, t)

-- What get_current_at_counter() does to the session.
abbrev pub after_reading : Reading → Session → Session
after_reading unconnected t = record t { ipc_finished = true }
after_reading closed t = record t { has_dbconn = true; dbconn_freed = true; ipc_finished = true }
after_reading _ t = record t { has_dbconn = true }

-- process_check_at_counter() with its effects: the reading, where the counter of the archive is not too
-- long, and the rollback for an archive that is skipped.
unfoldable pub check_at_counter :
    Outcomes → Bool → List ℕ → CounterAnswers → Session → Check × Session
unfolding get_current_at_counter process_check_at_counter process_end_transaction bytes
check_at_counter k has_database at_counter q t =
    let reading = get_current_at_counter q t.has_dbconn in
    let u =
      if has_database && not (ltb 20 (length at_counter)) then after_reading reading t else t in
    elim (process_check_at_counter has_database at_counter reading) [
      | skip ↦ (
        skip,
        if u.process_in_transaction then (process_end_transaction k (bytes "rollback;") u).1 else u,
      )
      | c ↦ (c, u)
    ]

-- A statement of a table: nothing is done where a rule says so.
abbrev pub process_renamed :
    Outcomes → Renamed → (Names → Option SlonDString) → Session → Option (Bool × Session)
process_renamed k renamed query t = elim renamed [
  | none ↦ some (true, t)
  | some n ↦ query n >>= λ d. some (process_exec_sql k d.chars t)
]

module _ (k : Outcomes) (rename_list : List RenameObject) (namespace tablename : List ℕ) where
  unfoldable pub process_insert : List AttElem → Session → Option (Bool × Session)
  unfolding lookup_rename insert_query process_exec_sql
  process_insert attributes t =
      process_renamed k (lookup_rename namespace tablename rename_list)
        (λ n. insert_query n attributes) t

  unfoldable pub process_update : List AttElem → List AttElem → Session → Option (Bool × Session)
  unfolding lookup_rename update_query process_exec_sql
  process_update changes qualification t =
      process_renamed k (lookup_rename namespace tablename rename_list)
        (λ n. update_query n changes qualification) t

  unfoldable pub process_delete : Bool → List AttElem → Session → Option (Bool × Session)
  unfolding lookup_rename delete_query process_exec_sql
  process_delete only qualification t =
      process_renamed k (lookup_rename namespace tablename rename_list)
        (λ n. delete_query n only qualification) t

  unfoldable pub process_truncate : Session → Option (Bool × Session)
  unfolding lookup_rename truncate_query process_exec_sql
  process_truncate t =
      process_renamed k (lookup_rename namespace tablename rename_list) truncate_query t

  unfoldable pub process_copy : List AttElem → List ℕ → Session → Option (Bool × Session)
  unfolding lookup_rename copy_query
  process_copy attributes source t = elim (lookup_rename namespace tablename rename_list) [
    | none ↦ some (true, record t { suppress_copy = true })
    | some n ↦ copy_query n attributes source >>= λ d.
        let r = execute k.copies d.chars (record t { suppress_copy = false }) in
        some (if r.0 then put_line k d.chars r.1 else r)
  ]

unfoldable pub process_copydata : Outcomes → List ℕ → Session → Bool × Session
process_copydata k line t =
    if t.suppress_copy
    then (true, t)
    else let r = execute k.takes_line line t in if r.0 then put_text k line r.1 else r

unfoldable pub process_copyend : Outcomes → Session → Bool × Session
unfolding bytes
process_copyend k t =
    if t.suppress_copy
    then (true, t)
    else if t.has_dbconn && not k.takes_end
    then (false, t)
    else put_text k (bytes "\\.\n") t
