-- ===== src/Shipper/Examples.antt =====
-- The log shipper at work on three archives, src/slony_logshipper.
use slony1_engine.Base.{
  ℕ, ◌+◌, ◌≡◌, refl, true, false, not, ◌&&◌, none, some, List, [], ◌∷◌, ◌++◌, filter, leb,
  if◌then◌else◌, arith,
}
use slony1_engine.Base.Bytes.{bytes}
use slony1_engine.Base.Strings.{strcmp, is_before}
use slony1_engine.Shipper.{
  terminate_smart, archive, Shipper, Finishing, Turn, no_message, without_first,
}
use slony1_engine.Shipper.Sorted.{occurs}
use slony1_engine.Shipper.Queue.{IsGood, Yields}
use slony1_engine.Shipper.Renames.{
  RenameObject, matches_table, matches_namespace, use_names, config_add_rename, lookup_rename,
}
use slony1_engine.Shipper.Renames.Rules.{any_table, any_namespace, lookup_rename-config_add_rename}
use slony1_engine.Shipper.Counters.{number, counter_done}
use slony1_engine.Shipper.Archives.{archscan, is_applied}
use slony1_engine.Shipper.Archives.Trees.{is_wanted}
use slony1_engine.Shipper.Archives.Wanted.{name_in_dir, occurs_name, archscan_lem}
use slony1_engine.Shipper.Archives.Applied.{is_applied-number}
use slony1_engine.Shipper.Statements.{
  AttElem, Outcomes, Session, process_exec_sql, process_insert, process_update, process_delete,
}
use slony1_engine.Shipper.Statements.Texts.{pairs_text, pair_text}
use slony1_engine.Shipper.Statements.Queries.{insert_text, update_text, delete_text, statements_lem}
use slony1_engine.Shipper.Daemon.{Configuration, System, Daemon, process_archive, next_archive}
use slony1_engine.Shipper.Daemon.Requeue.{IsNext, next_archive_lem}

abbrev queue : List (List ℕ)
queue = (b'a' ∷ []) ∷ (b'c' ∷ []) ∷ []

abbrev shipper : Shipper
shipper = record {
  archive_queue = queue;
  archive_queue_tail = 2;
  ipc_creator = true;
  msg_exists = true;
  sem_exists = true;
  shutdown_smart_requested = false;
  shutdown_immed_requested = false;
  wait_for_resume = false;
  logfile_switch_requested = false;
  sent = [];
}

shipper-IsGood : IsGood shipper
unfolding is_before strcmp
shipper-IsGood = record { sorted = ((refl, tt), (tt, tt)); tail_last = refl }

abbrev finishing : Finishing
finishing = record {
  locks = true;
  drained = record { messages = archive (b'b' ∷ []) ∷ []; ends = true };
  unlocks = true;
  msgctl_removes = true;
  semctl_removes = true;
}

-- A request to end the daemon, with another archive behind it.
abbrev turns : List Turn
turns =
    record {
      polled = record { messages = terminate_smart ∷ archive (b'd' ∷ []) ∷ []; ends = true };
      finishing = finishing;
      single = no_message;
    }
    ∷ []

abbrev names : List (List ℕ)
names =
    bytes "slony1_log_1_00000000000000000007.sql"
    ∷ bytes "slony1_log_1_00000000000000000005.sql"
    ∷ bytes "README"
    ∷ []

abbrev done : List ℕ
done = counter_done true (b'5' ∷ [])

archscan_lem_example :
    Yields
      (λ r.
        (r.0 ≡ true)
        × IsGood r.1
        × ((x : List ℕ)
            → occurs x r.1.archive_queue
              ≡ occurs x shipper.archive_queue
                + occurs_name (name_in_dir (b'd' ∷ []) x) (filter (is_wanted done []) names)))
      (archscan 8192 true (b'd' ∷ []) done [] (some names) shipper)
unfolding bytes
archscan_lem_example =
    archscan_lem 8192 true (b'd' ∷ []) done [] names shipper shipper-IsGood refl
      (ground arith, (ground arith, (ground arith, tt)))

abbrev counter : List ℕ
counter = bytes "00000000000000000007"

is_applied-number_example :
    is_applied (counter_done true (b'5' ∷ [])) (bytes "slony1_log_1_" ++ (counter ++ bytes ".sql"))
    ≡ leb (number 0 counter) (number 0 (b'5' ∷ []))
unfolding bytes
is_applied-number_example =
    is_applied-number (bytes "slony1_log_1_") counter (b'5' ∷ []) (ground arith) refl (ground arith)
      (ground arith) (ground arith)

abbrev rule : RenameObject
rule = record {
  old_namespace = some (b'p' ∷ []);
  old_name = some (b't' ∷ []);
  new_namespace = some (b'q' ∷ []);
  new_name = some (b'u' ∷ []);
}

abbrev ignore : RenameObject
ignore = record {
  old_namespace = some (b'P' ∷ []);
  old_name = none;
  new_namespace = none;
  new_name = none;
}

lookup_rename-config_add_rename_example :
    lookup_rename (b'p' ∷ []) (b't' ∷ []) (config_add_rename rule (ignore ∷ [])) ≡ (
      if any_table (b'p' ∷ []) (b't' ∷ []) (ignore ∷ [])
      then lookup_rename (b'p' ∷ []) (b't' ∷ []) (ignore ∷ [])
      else if matches_table (b'p' ∷ []) (b't' ∷ []) rule
      then use_names rule.new_namespace rule.new_name
      else if not (any_namespace (b'p' ∷ []) (b't' ∷ []) (ignore ∷ []))
          && matches_namespace (b'p' ∷ []) (b't' ∷ []) rule
      then use_names rule.new_namespace (some (b't' ∷ []))
      else lookup_rename (b'p' ∷ []) (b't' ∷ []) (ignore ∷ []))
lookup_rename-config_add_rename_example =
    lookup_rename-config_add_rename (b'p' ∷ []) (b't' ∷ []) (ignore ∷ []) rule

abbrev answers : Outcomes
answers = record {
  accepts = λ sql. true;
  copies = λ sql. true;
  takes_line = λ line. true;
  takes_end = true;
  puts = λ text. true;
}

abbrev session : Session
session = record {
  process_in_transaction = true;
  suppress_copy = false;
  has_dbconn = true;
  dbconn_freed = false;
  ipc_finished = false;
  has_file = true;
  executed = [];
  written = [];
}

abbrev attrs : List AttElem
attrs =
    record { attname = b'x' ∷ []; attvalue = some (b'1' ∷ []) }
    ∷ record { attname = b'y' ∷ []; attvalue = none }
    ∷ []

abbrev rules : List RenameObject
rules = rule ∷ ignore ∷ []

statements_lem_example :
    (lookup_rename (b'p' ∷ []) (b't' ∷ []) rules ≡ some (b'q' ∷ [], some (b'u' ∷ []))
      → (process_insert answers rules (b'p' ∷ []) (b't' ∷ []) attrs session
          ≡ some (process_exec_sql answers (insert_text (b'q' ∷ []) (b'u' ∷ []) attrs) session))
        × (process_update answers rules (b'p' ∷ []) (b't' ∷ []) attrs attrs session
            ≡ some (
                process_exec_sql answers (update_text (b'q' ∷ []) (b'u' ∷ []) attrs attrs) session))
        × (process_delete answers rules (b'p' ∷ []) (b't' ∷ []) true attrs session
            ≡ some (
                process_exec_sql answers (delete_text (b'q' ∷ []) (b'u' ∷ []) true attrs) session)))
    × (lookup_rename (b'p' ∷ []) (b't' ∷ []) rules ≡ none
        → (process_insert answers rules (b'p' ∷ []) (b't' ∷ []) attrs session
            ≡ some (true, session))
          × (process_update answers rules (b'p' ∷ []) (b't' ∷ []) attrs attrs session
              ≡ some (true, session))
          × (process_delete answers rules (b'p' ∷ []) (b't' ∷ []) true attrs session
              ≡ some (true, session)))
statements_lem_example =
    statements_lem answers rules (b'p' ∷ []) (b't' ∷ []) (b'q' ∷ []) (b'u' ∷ []) true attrs attrs
      session

-- Both answers are met: the rule for the table comes first, and another table is ignored.
lookup_rename_runs :
    (lookup_rename (b'p' ∷ []) (b't' ∷ []) rules ≡ some (b'q' ∷ [], some (b'u' ∷ [])))
    × (lookup_rename (b'p' ∷ []) (b'z' ∷ []) rules ≡ none)
unfolding lookup_rename
lookup_rename_runs = (refl, refl)

delete_text_runs :
    delete_text (b'q' ∷ []) (b'u' ∷ []) true attrs
    ≡ bytes "delete from only q.u where x='1' and y IS NULL;"
unfolding delete_text bytes pairs_text pair_text
delete_text_runs = refl

abbrev configuration : Configuration
configuration = record {
  opt_nowait = false;
  msgmax = 8192;
  max_archives = 100;
  destination_dir = none;
  pre_processing_commands = [];
  post_processing_commands = [];
}

-- The parser fails inside a transaction.
abbrev system : System
system = record {
  opens_archive = λ f. true;
  opens_destination = λ f. true;
  runs = λ c. true;
  parse = λ f t. (false, record t { process_in_transaction = true });
  answers = answers;
  connection_ok = true;
  finishing = finishing;
  sends = true;
}

abbrev daemon : Daemon
daemon = record {
  shipper = without_first ((b'c' ∷ []) ∷ []) shipper;
  session = session;
  archive_count = 0;
}

next_archive_lem_example :
    Yields
      (λ a.
        Yields
          (IsNext configuration system (b'a' ∷ []) ((b'c' ∷ []) ∷ []) false (a.0))
          (next_archive configuration system (b'a' ∷ []) daemon))
      (process_archive configuration system (b'a' ∷ []) daemon)
next_archive_lem_example =
    next_archive_lem configuration system (b'a' ∷ []) (λ f t h. h) ((b'c' ∷ []) ∷ []) shipper
      session 0 shipper-IsGood refl refl (ground arith) refl
