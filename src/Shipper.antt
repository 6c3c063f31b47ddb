-- ===== src/Shipper.antt =====
-- The log shipper's daemon, src/slony_logshipper: the archive queue and the messages of ipcutil.c.
-- malloc() succeeds. A semaphore set and a message queue are the kernel's: what their calls return is
-- an argument. A use of an archive_queue_tail that is NULL ends in `none`.
pub mod Sorted
pub mod Queue
pub mod Returns
pub mod Receiving
pub mod Renames
pub mod Counters
pub mod Archives
pub mod Statements
pub mod Daemon
mod Examples
use slony1_engine.Base.{
  ℕ, zero, suc, ◌+◌, ◌-◌, Bool, true, false, not, ◌&&◌, Option, none, some, List, [], ◌∷◌, ◌++◌,
  if◌then◌else◌, length, take, leb, ltb, ◌==◌,
}
use slony1_engine.Base.Strings.{is_before}
use slony1_engine.Query.{◌>>=◌}

-- What arrives by the message queue, by its mtype; all but 2 to 5 are paths.
pub data Message : Type 0 where
  terminate_smart terminate_immed resume logswitch : Message
  archive : List ℕ → Message

-- The queue, with the number of elements up to the tail's (0 is a NULL), and the flags. `sent` are the
-- paths that were given to another daemon; the message queue and the semaphores exist until removed.
pub record Shipper : Type 0 where
  pub archive_queue : List (List ℕ)
  pub archive_queue_tail : ℕ
  pub ipc_creator : Bool
  pub msg_exists : Bool
  pub sem_exists : Bool
  pub shutdown_smart_requested : Bool
  pub shutdown_immed_requested : Bool
  pub wait_for_resume : Bool
  pub logfile_switch_requested : Bool
  pub sent : List (List ℕ)

-- The loop of ipc_add_path(): in front of the first path that comes behind this one.
unfoldable pub insert_in_front : List ℕ → List (List ℕ) → Option (List (List ℕ))
unfolding is_before
insert_in_front path [] = none
insert_in_front path (p ∷ ps) =
    let rest = insert_in_front path ps in
    if is_before path p then some (path ∷ p ∷ ps) else rest >>= λ q. some (p ∷ q)

-- Behind the loop.
abbrev pub append_path : List ℕ → Shipper → Option Shipper
append_path path s = elim s.archive_queue [
  | [] ↦ some (record s { archive_queue = path ∷ []; archive_queue_tail = 1 })
  | _ ∷ _ ↦ elim s.archive_queue_tail [
    | zero ↦ none
    | suc n ↦ some (record s {
      archive_queue = take (suc n) s.archive_queue ++ path ∷ [];
      archive_queue_tail = suc (suc n);
    })
  ]
]

unfoldable pub ipc_add_path : List ℕ → Shipper → Option Shipper
unfolding insert_in_front
ipc_add_path path s = elim (insert_in_front path s.archive_queue) [
  | some q ↦ some (record s { archive_queue = q; archive_queue_tail = s.archive_queue_tail + 1 })
  | none ↦ append_path path s
]

-- What the two loops that receive messages do with one.
unfoldable pub receive : Message → Shipper → Option Shipper
unfolding ipc_add_path
receive terminate_smart s = some (record s { shutdown_smart_requested = true })
receive terminate_immed s = some (record s { shutdown_immed_requested = true })
receive resume s = some (record s { wait_for_resume = false })
receive logswitch s = some (record s { logfile_switch_requested = true })
receive (archive path) s = ipc_add_path path s

unfoldable pub receive_all : List Message → Shipper → Option Shipper
unfolding receive
receive_all [] s = some s
receive_all (m ∷ ms) s = receive m s >>= λ t. receive_all ms t

-- ipc_poll(false): the messages that are there, and whether msgrcv() then says that there are no more.
pub record Batch : Type 0 where
  pub messages : List Message
  pub ends : Bool

unfoldable pub ipc_poll : Batch → Shipper → Option (Bool × Shipper)
unfolding receive_all
ipc_poll b s = receive_all b.messages s >>= λ t. some (b.ends, t)

-- The calls of ipc_finish(), which succeed or fail.
pub record Finishing : Type 0 where
  pub locks : Bool
  pub drained : Batch
  pub unlocks : Bool
  pub msgctl_removes : Bool
  pub semctl_removes : Bool

-- Its returns: 0, 1 and -1.
pub data Finish : Type 0 where
  finished busy broken : Finish

-- msgctl() and semctl(), which is called also behind a msgctl() that fails.
abbrev pub destroy : Finishing → Shipper → Finish × Shipper
destroy k s = (
  if k.msgctl_removes && k.semctl_removes then finished else broken,
  record s {
    msg_exists = s.msg_exists && not k.msgctl_removes;
    sem_exists = s.sem_exists && not k.semctl_removes;
  },
)

-- Behind the poll of the message queue, which is locked.
abbrev pub finish_drained : Finishing → Bool × Shipper → Option (Finish × Shipper)
finish_drained k r =
    if r.0
    then elim r.1.archive_queue [
      | [] ↦ some (destroy k r.1)
      | _ ∷ _ ↦ some (if k.unlocks then busy else broken, r.1)
    ]
    else some (broken, r.1)

unfoldable pub ipc_finish : Bool → Finishing → Shipper → Option (Finish × Shipper)
unfolding ipc_poll
ipc_finish force k s =
    if not s.ipc_creator
    then some (finished, s)
    else if force
    then some (destroy k s)
    else if k.locks
    then (ipc_poll k.drained s >>= λ r. finish_drained k r)
    else some (broken, s)

-- ipc_send_path(), with MSGMAX and what msgsnd() does.
unfoldable pub ipc_send_path : ℕ → Bool → List ℕ → Shipper → Option (Bool × Shipper)
unfolding ipc_add_path
ipc_send_path msgmax sends path s =
    if ltb (msgmax - 1) (length path)
    then some (false, s)
    else if s.ipc_creator
    then (ipc_add_path path s >>= λ t. some (true, t))
    else some (if sends then (true, record s { sent = s.sent ++ path ∷ [] }) else (false, s))

-- The second msgrcv() of ipc_recv_path(): a message, ENOMSG, EINTR or another error.
pub data Single : Type 0 where
  one : Message → Single
  no_message interrupted broken : Single

-- What a turn of its loop finds.
pub record Turn : Type 0 where
  pub polled : Batch
  pub finishing : Finishing
  pub single : Single

-- Its returns: 1 with a path, 0, -2 and -1; or its loop has not ended with these turns.
pub data Received : Type 0 where
  next_path : List ℕ → Received
  stopped rescan unusable running : Received

abbrev pub forced : Received → Finishing → Shipper → Option (Received × Shipper)
forced r k s = ipc_finish true k s >>= λ f. some (r, f.1)

-- The queue's first path, and the queue without it.
abbrev pub without_first : List (List ℕ) → Shipper → Shipper
without_first ps s = record s {
  archive_queue = ps;
  archive_queue_tail = elim ps [ [] ↦ 0 | _ ∷ _ ↦ s.archive_queue_tail - 1 ];
}

abbrev pub take_path : List (List ℕ) → Shipper → Option (List ℕ × Shipper)
take_path [] s = none
take_path (p ∷ ps) s = some (p, without_first ps s)

-- The end of a turn; `again` is the next one.
abbrev pub recv_single :
    (Shipper → Option (Received × Shipper)) → Single → Turn → Shipper → Option (Received × Shipper)
recv_single again (one m) t s = receive m s >>= λ u. again u
recv_single again no_message t s = some (rescan, s)
recv_single again interrupted t s = again s
recv_single again Single.broken t s = forced unusable t.finishing s

-- The rest of a turn, where no shutdown ends the loop.
abbrev pub recv_next :
    (Shipper → Option (Received × Shipper)) → Turn → Shipper → Option (Received × Shipper)
recv_next again t s = elim (take_path s.archive_queue s) [
  | some r ↦ some (next_path r.0, r.1)
  | none ↦ recv_single again t.single t s
]

-- Behind the poll: the flags, and then the queue.
abbrev pub recv_polled :
    (Shipper → Option (Received × Shipper)) → Turn → Bool × Shipper → Option (Received × Shipper)
recv_polled again t r =
    if not r.0
    then forced unusable t.finishing r.1
    else if r.1.shutdown_immed_requested
    then forced stopped t.finishing r.1
    else if r.1.shutdown_smart_requested
    then (ipc_finish false t.finishing r.1 >>= λ f. elim (f.0) [
      | finished ↦ some (stopped, f.1)
      | Finish.broken ↦ forced unusable t.finishing f.1
      | busy ↦ recv_next again t f.1
    ])
    else recv_next again t r.1

unfoldable pub ipc_recv_path : List Turn → Shipper → Option (Received × Shipper)
unfolding ipc_poll
ipc_recv_path [] s = some (running, s)
ipc_recv_path (t ∷ ts) s = ipc_poll t.polled s >>= λ r. recv_polled (λ u. ipc_recv_path ts u) t r
