-- ===== src/Shipper/Daemon/Attempt.antt =====
-- process_archive() of src/slony_logshipper/slony_logshipper.c leaves the queue alone.
use slony1_engine.Base.{
  ℕ, ◌+◌, ◌≡◌, refl, ◌∙◌, Bool, true, false, not, ◌||◌, Option, none, some, List, [], ◌∷◌,
  if◌then◌else◌, leb, ◌==◌, arith,
}
use slony1_engine.Base.Bytes.{bytes}
use slony1_engine.Query.{◌>>=◌, SlonDString, dstring_init, string, slon_mkquery}
use slony1_engine.Query.Buffers.{formatted, Extends, slon_mkquery-Extends}
use slony1_engine.Shipper.{Shipper, Finishing, finished, destroy, ipc_finish}
use slony1_engine.Shipper.Statements.{Session}
use slony1_engine.Shipper.Queue.{Yields, Yields-bind, Yields-if}
use slony1_engine.Shipper.Daemon.{
  command_query, process_command, process_commands, Configuration, System, Daemon, destination,
  opened, is_there, parse_archive, post_process, process_archive,
}

Extends-Yields :
    (t : Option (List ℕ)) (d : SlonDString) (r : Option SlonDString)
    → Yields (λ s. Unit {0}) t
    → Extends t d r
    → Yields (λ e. Unit {0}) r
Extends-Yields none d r y h = cc
Extends-Yields (some s) d none y h = absurd h
Extends-Yields (some s) d (some e) y h = tt

command_query-Yields :
    (inarchive : List ℕ) (out : Option (List ℕ)) (command : List ℕ)
    → Yields (λ e. Unit {0}) (command_query inarchive out command)
unfolding command_query formatted bytes dstring_init
command_query-Yields inarchive out command =
    let fmt = bytes "inarchive='%q'; outarchive='%q'; %s" in
    let args =
      string (some inarchive)
      ∷ string (some (elim out as (λ x. List ℕ) [ none ↦ [] | some o ↦ o ]))
      ∷ string (some command)
      ∷ [] in
    Extends-Yields (formatted fmt args) (record dstring_init { chars = [] })
      (slon_mkquery fmt args dstring_init) tt
      (slon_mkquery-Extends fmt args dstring_init (ground arith))

process_command-Yields :
    (runs : List ℕ → Bool) (command inarchive : List ℕ) (out : Option (List ℕ))
    → Yields (λ b. Unit {0}) (process_command runs command inarchive out)
unfolding process_command
process_command-Yields runs [] inarchive out =
    Yields-bind (λ e. Unit {0}) (λ b. Unit {0}) (command_query inarchive out [])
      (λ cmd. some (runs cmd.chars)) (command_query-Yields inarchive out []) (λ cmd u. tt)
process_command-Yields runs (c ∷ s) inarchive out =
    let text = if c == b'@' then s else c ∷ s in
    Yields-bind (λ e. Unit {0}) (λ b. Unit {0}) (command_query inarchive out text)
      (λ cmd. some (c == b'@' || runs cmd.chars)) (command_query-Yields inarchive out text)
      (λ cmd u. tt)

process_commands-Yields :
    (runs : List ℕ → Bool) (cs : List (List ℕ)) (inarchive : List ℕ) (out : Option (List ℕ))
    → Yields (λ b. Unit {0}) (process_commands runs cs inarchive out)
unfolding process_commands
process_commands-Yields runs [] inarchive out = tt
process_commands-Yields runs (c ∷ cs) inarchive out =
    Yields-bind (λ b. Unit {0}) (λ b. Unit {0}) (process_command runs c inarchive out)
      (λ ok. if ok then process_commands runs cs inarchive out else some false)
      (process_command-Yields runs c inarchive out)
      (λ ok u.
        Yields-if (λ b. Unit {0}) ok (process_commands runs cs inarchive out) (some false)
          (process_commands-Yields runs cs inarchive out) tt)

-- The queue is as it was.
abbrev pub IsSame : Shipper → Shipper → Type 0
IsSame s t =
    (t.archive_queue ≡ s.archive_queue)
    × (t.archive_queue_tail ≡ s.archive_queue_tail)
    × (t.ipc_creator ≡ s.ipc_creator)

if-IsSame : (b : Bool) (s t u : Shipper) → IsSame s t → IsSame s u → IsSame s (if b then t else u)
if-IsSame true s t u h k = h
if-IsSame false s t u h k = k

IsSame-trans : (s t u : Shipper) → IsSame s t → IsSame t u → IsSame s u
IsSame-trans s t u h k = (k.0 ∙ h.0, k.1 ∙ h.1, k.2 ∙ h.2)

pub ipc_finish_forced-IsSame :
    (k : Finishing) (s : Shipper) → Yields (λ f. IsSame s f.1) (ipc_finish true k s)
unfolding ipc_finish
ipc_finish_forced-IsSame k s =
    Yields-if (λ f. IsSame s f.1) (not s.ipc_creator) (some (finished, s)) (some (destroy k s))
      (refl, refl, refl) (refl, refl, refl)

-- A parser that leaves no connection freed where it finds none.
abbrev pub KeepsConnection : System → Type 0
KeepsConnection k =
    (f : List ℕ) (t : Session) → t.dbconn_freed ≡ false → (k.parse f t).1.dbconn_freed ≡ false

-- The queue is as it was, and the connection is not freed.
abbrev pub IsKept : Shipper → Bool × Daemon → Type 0
IsKept s a = IsSame s a.1.shipper × (a.1.session.dbconn_freed ≡ false)

module _ (c : Configuration) (k : System) (path : List ℕ) (keeps : KeepsConnection k) where
  post_process-IsKept :
      (s : Shipper) (dest : Option (List ℕ)) (r : Bool × Daemon)
      → IsKept s r
      → Yields (IsKept s) (post_process c k path dest r)
  post_process-IsKept s dest r h =
      let run = process_commands k.runs c.post_processing_commands path dest in
      Yields-if (IsKept s) (r.0) (run >>= λ ok. some (ok, r.1)) (some r)
        (Yields-bind (λ b. Unit {0}) (IsKept s) run (λ ok. some (ok, r.1))
          (process_commands-Yields k.runs c.post_processing_commands path dest) (λ ok u. h))
        h

  parse_archive-IsKept :
      (s : Shipper) (dest : Option (List ℕ)) (d : Daemon)
      → IsKept s (true, d)
      → Yields (IsKept s) (parse_archive k path dest d)
  unfolding parse_archive
  parse_archive-IsKept s dest d h =
      let r = k.parse path (record (d.session) { has_file = is_there dest; written = [] }) in
      let session : Session = record (r.1) {
        has_file = false;
        written = if r.0 then r.1.written else [];
      } in
      let freed = keeps path (record (d.session) { has_file = is_there dest; written = [] }) h.1 in
      Yields-if (IsKept s) session.ipc_finished
        (ipc_finish true k.finishing d.shipper >>= λ f.
          some (r.0, record d { session = session; shipper = f.1 }))
        (some (r.0, record d { session = session }))
        (Yields-bind (λ f. IsSame d.shipper f.1) (IsKept s) (ipc_finish true k.finishing d.shipper)
          (λ f. some (r.0, record d { session = session; shipper = f.1 }))
          (ipc_finish_forced-IsSame k.finishing d.shipper)
          (λ f x. (IsSame-trans s d.shipper f.1 h.0 x, freed)))
        (h.0, freed)

  pub process_archive-IsKept :
      (d : Daemon)
      → d.session.dbconn_freed ≡ false
      → Yields (IsKept d.shipper) (process_archive c k path d)
  unfolding process_archive
  process_archive-IsKept d free =
      let last = leb c.max_archives (d.archive_count + 1) in
      let s : Shipper =
        if last then record (d.shipper) { shutdown_smart_requested = true } else d.shipper in
      let e : Daemon = record d { archive_count = d.archive_count + 1; shipper = s } in
      let dest = destination c path in
      let P : Bool × Daemon → Type 0 = IsKept d.shipper in
      let same : IsSame d.shipper s =
        if-IsSame last d.shipper (record (d.shipper) { shutdown_smart_requested = true }) d.shipper
          (refl, refl, refl) (refl, refl, refl) in
      let h : P (false, e) = (same, free) in
      let run = process_commands k.runs c.pre_processing_commands path dest in
      let parsed = parse_archive k path dest e >>= λ r. post_process c k path dest r in
      let rest = if opened k dest then parsed else some (false, e) in
      Yields-if P (not (k.opens_archive path)) (some (false, e))
        (run >>= λ ok. if not ok then some (false, e) else rest) h
        (Yields-bind (λ b. Unit {0}) P run (λ ok. if not ok then some (false, e) else rest)
          (process_commands-Yields k.runs c.pre_processing_commands path dest)
          (λ ok u. Yields-if P (not ok) (some (false, e)) rest h (
            Yields-if P (opened k dest) parsed (some (false, e))
              (Yields-bind P P (parse_archive k path dest e) (λ r. post_process c k path dest r)
                (parse_archive-IsKept d.shipper dest e (same, free))
                (λ r x. post_process-IsKept d.shipper dest r x))
              h)))
