-- ===== src/Shipper/Daemon.antt =====
-- The daemon of src/slony_logshipper/slony_logshipper.c: process_archive(), process_command() and what
-- the loop of main() does with an archive. The parser and what the system answers are arguments.
pub mod Attempt
pub mod Requeue
use slony1_engine.Base.{
  ℕ, suc, ◌+◌, Bool, true, false, not, ◌&&◌, ◌||◌, Option, none, some, List, [], ◌∷◌, ◌++◌,
  if◌then◌else◌, leb, ◌==◌,
}
use slony1_engine.Base.Bytes.{bytes}
use slony1_engine.Query.{◌>>=◌, SlonDString, dstring_init, Arg, string, slon_mkquery}
use slony1_engine.Shipper.{Shipper, Finishing, ipc_finish, ipc_send_path}
use slony1_engine.Shipper.Archives.{base_name}
use slony1_engine.Shipper.Statements.{Session, Outcomes, process_end_transaction}

-- The text for system().
unfoldable pub command_query : List ℕ → Option (List ℕ) → List ℕ → Option SlonDString
unfolding slon_mkquery bytes
command_query inarchive outarchive command =
    slon_mkquery (bytes "inarchive='%q'; outarchive='%q'; %s")
      (string (some inarchive)
        ∷ string (some (elim outarchive [ none ↦ [] | some o ↦ o ]))
        ∷ string (some command)
        ∷ [])
      dstring_init

-- A command, whose failure is ignored behind an '@'; `runs` says that system() returns 0.
unfoldable pub process_command : (List ℕ → Bool) → List ℕ → List ℕ → Option (List ℕ) → Option Bool
unfolding command_query
process_command runs [] inarchive outarchive =
    command_query inarchive outarchive [] >>= λ cmd. some (runs cmd.chars)
process_command runs (c ∷ s) inarchive outarchive =
    let errorignore = c == b'@' in
    command_query inarchive outarchive (if errorignore then s else c ∷ s) >>= λ cmd.
    some (errorignore || runs cmd.chars)

-- The loops over the commands end at the first that fails.
unfoldable pub process_commands :
    (List ℕ → Bool) → List (List ℕ) → List ℕ → Option (List ℕ) → Option Bool
unfolding process_command
process_commands runs [] inarchive outarchive = some true
process_commands runs (c ∷ cs) inarchive outarchive =
    process_command runs c inarchive outarchive >>= λ ok.
    if ok then process_commands runs cs inarchive outarchive else some false

-- The configuration: -w, MSGMAX, the destination directory and the commands.
pub record Configuration : Type 0 where
  pub opt_nowait : Bool
  pub msgmax : ℕ
  pub max_archives : ℕ
  pub destination_dir : Option (List ℕ)
  pub pre_processing_commands : List (List ℕ)
  pub post_processing_commands : List (List ℕ)

-- What the system answers while an archive is processed; the connection is good or not behind it.
pub record System : Type 0 where
  pub opens_archive : List ℕ → Bool
  pub opens_destination : List ℕ → Bool
  pub runs : List ℕ → Bool
  pub parse : List ℕ → Session → Bool × Session
  pub answers : Outcomes
  pub connection_ok : Bool
  pub finishing : Finishing
  pub sends : Bool

pub record Daemon : Type 0 where
  pub shipper : Shipper
  pub session : Session
  pub archive_count : ℕ

abbrev pub destination : Configuration → List ℕ → Option (List ℕ)
destination c fname = elim c.destination_dir [
  | none ↦ none
  | some dir ↦ some (dir ++ b'/' ∷ base_name fname)
]

-- fopen() of the destination's file, if there is to be one, and whether it is there.
abbrev pub opened : System → Option (List ℕ) → Bool
opened k none = true
opened k (some f) = k.opens_destination f

abbrev pub is_there : Option (List ℕ) → Bool
is_there none = false
is_there (some f) = true

-- scan_new_input_file() and yyparse(), with the destination's file, which is removed behind an error.
-- The parser may call ipc_finish(true).
unfoldable pub parse_archive : System → List ℕ → Option (List ℕ) → Daemon → Option (Bool × Daemon)
unfolding ipc_finish
parse_archive k fname dest d =
    let r = k.parse fname (record (d.session) { has_file = is_there dest; written = [] }) in
    let session = record (r.1) { has_file = false; written = if r.0 then r.1.written else [] } in
    if session.ipc_finished
    then (ipc_finish true k.finishing d.shipper >>= λ f.
        some (r.0, record d { session = session; shipper = f.1 }))
    else some (r.0, record d { session = session })

-- The commands behind them.
abbrev pub post_process :
    Configuration → System → List ℕ → Option (List ℕ) → Bool × Daemon → Option (Bool × Daemon)
post_process c k fname dest r =
    if r.0
    then (process_commands k.runs c.post_processing_commands fname dest >>= λ ok. some (ok, r.1))
    else some r

-- Whether process_archive() returns 0.
unfoldable pub process_archive : Configuration → System → List ℕ → Daemon → Option (Bool × Daemon)
unfolding process_commands parse_archive base_name
process_archive c k fname d =
    let count = d.archive_count + 1 in
    let last = leb c.max_archives count in
    let e = record d {
      archive_count = count;
      shipper = if last then record (d.shipper) { shutdown_smart_requested = true } else d.shipper;
    } in
    let dest = destination c fname in
    if not (k.opens_archive fname)
    then some (false, e)
    else (process_commands k.runs c.pre_processing_commands fname dest >>= λ ok.
        if not ok
        then some (false, e)
        else if opened k dest
        then (parse_archive k fname dest e >>= λ r. post_process c k fname dest r)
        else some (false, e))

-- "If it left a transaction in progress, roll it back."
abbrev pub after_rollback : System → Session → Session
after_rollback k t =
    if t.process_in_transaction
    then (process_end_transaction k.answers (bytes "rollback;") t).1
    else t

-- "Reinsert the logfile into the processing queue", and wait for a resume command unless the
-- connection is bad.
abbrev pub reinserted : System → Session → Daemon → Bool × Shipper → Bool × Daemon
reinserted k session d r = (
  r.0,
  record d {
    session = session;
    shipper =
        if r.0 && (not session.has_dbconn || k.connection_ok)
        then record (r.1) { wait_for_resume = true }
        else r.1;
  },
)

-- dbconn points to a connection that was freed; a use of it is undefined, a result `none`.
abbrev pub is_dangling : Session → Bool
is_dangling t = t.has_dbconn && t.dbconn_freed

-- "Stop everything if we are in nowait mode anyway"
abbrev pub stop_everything : System → Session → Daemon → Option (Bool × Daemon)
stop_everything k session d =
    if is_dangling session
    then none
    else (ipc_finish true k.finishing d.shipper >>= λ f. some (
      false,
      record d {
        session = record session { dbconn_freed = session.has_dbconn; ipc_finished = true };
        shipper = f.1;
      },
    ))

-- What main() does behind an archive that failed: the loop goes on or ends. The commands for an error
-- have no effect on it.
unfoldable pub archive_failed : Configuration → System → List ℕ → Daemon → Option (Bool × Daemon)
unfolding process_end_transaction ipc_send_path ipc_finish bytes
archive_failed c k path d =
    let session = after_rollback k d.session in
    if d.session.process_in_transaction && is_dangling d.session
    then none
    else if c.opt_nowait
    then stop_everything k session d
    else (ipc_send_path c.msgmax k.sends path d.shipper >>= λ r.
        if r.0 && is_dangling session then none else some (reinserted k session d r))

-- A turn of the loop with the path that ipc_recv_path() has returned; false where the daemon ends.
unfoldable pub next_archive : Configuration → System → List ℕ → Daemon → Option (Bool × Daemon)
unfolding process_archive archive_failed
next_archive c k path d = process_archive c k path d >>= λ r.
    if r.0 then some (true, r.1) else archive_failed c k path r.1
