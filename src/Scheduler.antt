-- ===== src/Scheduler.antt =====
-- The scheduler thread of src/slon/scheduler.c: sched_wait_conn(), sched_wait_time() and the parts of
-- sched_mainloop() before and behind its select(), with the descriptor sets. What select() and the
-- pipe return is an argument. A connection's socket stays the same while it waits; it is negative
-- where there is none.
pub mod Descriptors
pub mod Selection
pub mod Soundness
pub mod Reachable
pub mod Timeouts
pub mod Wakeups
pub mod Timers
mod Examples
use slony1_engine.Base.{
  ℕ, zero, suc, ◌+◌, ◌-◌, ◌*◌, ◌/◌, ◌%◌, Bool, true, false, not, ◌&&◌, ◌||◌, Option, none, some,
  List, [], ◌∷◌, ◌++◌, if◌then◌else◌, ltb, leb, ◌==◌, map,
}
use slony1_engine.Base.Int.{ℤ, pos, negsuc, ◌+ℤ◌, ◌-ℤ◌, ◌==ℤ◌, ltb_ℤ, is_negative, sub_ℕ, neg_part}
use slony1_engine.Slon.{SchedStatus, ok, shutdown, cancel, error}

-- struct timeval
pub record TimeVal : Type 0 where
  pub tv_sec : ℤ
  pub tv_usec : ℤ

-- SlonConn_s as the scheduler sees it: the bits of `condition`, the socket and the time it ends.
pub record Waiter : Type 0 where
  pub conn_id : ℕ
  pub socket : ℤ
  pub wait_read : Bool
  pub wait_write : Bool
  pub wait_timeout : Bool
  pub wait_cancel : Bool
  pub timeout : TimeVal

-- The static data, with an fd_set as the test of its bits; `signalled` are the connections whose
-- threads were signalled, and `wakeuppipe` is the reading end of the pipe.
pub record Scheduler : Type 0 where
  pub sched_status : SchedStatus
  pub sched_numfd : ℕ
  pub fdset_read : ℕ → Bool
  pub fdset_write : ℕ → Bool
  pub waitqueue : List Waiter
  pub signalled : List ℕ
  pub wakeuppipe : ℕ

-- FD_SET() and FD_CLR()
abbrev pub set_bit : ℕ → Bool → (ℕ → Bool) → ℕ → Bool
set_bit n b fds m = if m == n then b else fds m

unfoldable pub sched_add_read : ℤ → Scheduler → Scheduler
sched_add_read (negsuc n) s = s
sched_add_read (pos n) s = record s {
  fdset_read = set_bit n true s.fdset_read;
  sched_numfd = if leb s.sched_numfd n then suc n else s.sched_numfd;
}

unfoldable pub sched_add_write : ℤ → Scheduler → Scheduler
sched_add_write (negsuc n) s = s
sched_add_write (pos n) s = record s {
  fdset_write = set_bit n true s.fdset_write;
  sched_numfd = if leb s.sched_numfd n then suc n else s.sched_numfd;
}

-- while (sched_numfd > 0), down to a descriptor that is in use.
unfoldable pub lower_numfd : (ℕ → Bool) → (ℕ → Bool) → ℕ → ℕ
lower_numfd r w zero = zero
lower_numfd r w (suc n) = elim (r n || w n) [ true ↦ suc n | false ↦ lower_numfd r w n ]

abbrev pub numfd_without : ℕ → (ℕ → Bool) → (ℕ → Bool) → ℕ → ℕ
numfd_without n r w numfd = if numfd == suc n then lower_numfd r w numfd else numfd

unfoldable pub sched_remove_read : ℤ → Scheduler → Scheduler
unfolding lower_numfd
sched_remove_read (negsuc n) s = s
sched_remove_read (pos n) s = record s {
  fdset_read = set_bit n false s.fdset_read;
  sched_numfd = numfd_without n (set_bit n false s.fdset_read) s.fdset_write s.sched_numfd;
}

unfoldable pub sched_remove_write : ℤ → Scheduler → Scheduler
unfolding lower_numfd
sched_remove_write (negsuc n) s = s
sched_remove_write (pos n) s = record s {
  fdset_write = set_bit n false s.fdset_write;
  sched_numfd = numfd_without n s.fdset_read (set_bit n false s.fdset_write) s.sched_numfd;
}

-- sched_wait_conn() up to its wait; in another runmode it returns -1.
unfoldable pub sched_wait_conn : Waiter → Scheduler → Option Scheduler
unfolding sched_add_read sched_add_write
sched_wait_conn c s = elim s.sched_status [
  | ok ↦
      let t = if c.wait_read then sched_add_read c.socket s else s in
      let u = if c.wait_write then sched_add_write c.socket t else t in
      some (record u { waitqueue = c ∷ s.waitqueue })
  | _ ↦ none
]

-- What sched_wait_conn() returns, woken up, from the runmode and the condition.
unfoldable pub wait_result : Waiter → Scheduler → SchedStatus
wait_result c s = elim s.sched_status [
  | ok ↦ if c.wait_cancel then SchedStatus.cancel else SchedStatus.ok
  | st ↦ st
]

-- sched_wait_time(): the end of `msec` milliseconds from now.
unfoldable pub end_time : ℕ → ℕ → ℕ → ℕ × ℕ
end_time sec usec msec = (
  sec + (msec / 1000 + (msec % 1000 * 1000 + usec) / 1000000),
  (usec + msec % 1000 * 1000) % 1000000,
)

unfoldable pub borrow_second : TimeVal → TimeVal
unfolding ◌+ℤ◌ ◌-ℤ◌
borrow_second t = record { tv_sec = t.tv_sec -ℤ pos 1; tv_usec = t.tv_usec +ℤ pos 1000000 }

-- while (timeout.tv_usec < 0)
unfoldable pub carry_usec : ℕ → TimeVal → TimeVal
unfolding borrow_second
carry_usec zero t = t
carry_usec (suc fuel) t = elim (is_negative t.tv_usec) [
  | false ↦ t
  | true ↦ carry_usec fuel (borrow_second t)
]

-- "Calculate the time until that."
unfoldable pub time_left : TimeVal → TimeVal → TimeVal
unfolding carry_usec ◌-ℤ◌
time_left now t =
    let usec = t.tv_usec -ℤ now.tv_usec in
    carry_usec (neg_part usec) (record { tv_sec = t.tv_sec -ℤ now.tv_sec; tv_usec = usec })

-- "We consider everything closer than 20 msec being elapsed".
abbrev pub is_elapsed : TimeVal → Bool
is_elapsed t = is_negative t.tv_sec || t.tv_sec ==ℤ pos 0 && ltb_ℤ t.tv_usec (pos 20000)

abbrev pub is_sooner : TimeVal → TimeVal → Bool
is_sooner t u = ltb_ℤ t.tv_sec u.tv_sec || t.tv_sec ==ℤ u.tv_sec && ltb_ℤ t.tv_usec u.tv_usec

-- "Remember the nearest."
unfoldable pub nearest : TimeVal → Option TimeVal → Option TimeVal
nearest t none = some t
nearest t (some u) = if is_sooner t u then some t else some u

-- A connection leaves the queue: its thread is signalled, and its socket taken out of the sets.
unfoldable pub release : Waiter → Scheduler → Scheduler
unfolding sched_remove_read sched_remove_write
release c s =
    let t = if c.wait_read then sched_remove_read c.socket s else s in
    let u = if c.wait_write then sched_remove_write c.socket t else t in
    record u { signalled = s.signalled ++ c.conn_id ∷ [] }

-- Whether the scan before select() takes the connection off the queue.
unfoldable pub is_due : TimeVal → Waiter → Bool
unfolding time_left
is_due now c = c.wait_cancel || c.wait_timeout && is_elapsed (time_left now c.timeout)

-- What the scan leaves: the queue, the nearest timeout and the rest of the state.
pub record Scan : Type 0 where
  pub queue : List Waiter
  pub tv : Option TimeVal
  pub sched : Scheduler

unfoldable pub scan_timeouts : TimeVal → List Waiter → Option TimeVal → Scheduler → Scan
unfolding is_due release nearest time_left
scan_timeouts now [] tv s = record { queue = []; tv = tv; sched = s }
scan_timeouts now (c ∷ cs) tv s =
    let due = is_due now c in
    let rest =
      scan_timeouts now cs
        (if due then tv else if c.wait_timeout then nearest (time_left now c.timeout) tv else tv)
        (if due then release c s else s) in
    record rest { queue = if due then rest.queue else c ∷ rest.queue }

-- One turn up to select(), which waits for the sets of the scheduler and `tv`.
unfoldable pub before_select : TimeVal → Scheduler → Scan
unfolding scan_timeouts
before_select now s =
    let r = scan_timeouts now s.waitqueue none s in
    record r { sched = record (r.sched) { waitqueue = r.queue } }

-- "Make copies of the file descriptor sets for select(2)", up to sched_numfd.
abbrev pub copy_of_set : ℕ → (ℕ → Bool) → ℕ → Bool
copy_of_set numfd fds i = ltb i numfd && fds i

abbrev pub has_bit : ℤ → (ℕ → Bool) → Bool
has_bit (pos n) fds = fds n
has_bit (negsuc n) fds = false

unfoldable pub is_ready : (ℕ → Bool) → (ℕ → Bool) → Waiter → Bool
is_ready rfds wfds c = c.wait_read && has_bit c.socket rfds || c.wait_write && has_bit c.socket wfds

-- while (rc > 0 && conn)
unfoldable pub scan_ready :
    (ℕ → Bool) → (ℕ → Bool) → ℕ → List Waiter → Scheduler → List Waiter × Scheduler
unfolding is_ready release
scan_ready rfds wfds rc [] s = ([], s)
scan_ready rfds wfds rc (c ∷ cs) s =
    let ready = ltb 0 rc && is_ready rfds wfds c in
    let rest =
      scan_ready rfds wfds (if ready then rc - 1 else rc) cs (if ready then release c s else s) in
    (if ready then rest.0 else c ∷ rest.0, rest.1)

-- What select() returns: an error, or the number of bits and the sets; and what a read of the pipe
-- returns, unless it fails.
pub data Selected : Type 0 where
  failed : Selected
  selected : ℕ → (ℕ → Bool) → (ℕ → Bool) → Option ℕ → Selected

-- "Check the special pipe for a heads up", by a 'p' for a shutdown, and then the connections.
-- What a byte of the pipe makes of the turn.
abbrev pub heads_up : ℕ → Bool → Bool → Scheduler → Option (ℕ × Scheduler)
heads_up rc is_set is_p s =
    if is_set
    then some (rc - 1, if is_p then record s { sched_status = SchedStatus.shutdown } else s)
    else some (rc, s)

unfoldable pub check_pipe : ℕ → (ℕ → Bool) → Option ℕ → Scheduler → Option (ℕ × Scheduler)
check_pipe rc rfds none s = if rfds s.wakeuppipe then none else some (rc, s)
check_pipe rc rfds (some ch) s = heads_up rc (rfds s.wakeuppipe) (ch == b'p') s

-- The rest of the turn, with what is left to find and the state behind the pipe.
abbrev pub check_connections :
    (ℕ → Bool) → (ℕ → Bool) → Scheduler → Option (ℕ × Scheduler) → Scheduler
check_connections rfds wfds s none = record s { sched_status = SchedStatus.error }
check_connections rfds wfds s (some r) =
    let scanned = scan_ready rfds wfds r.0 s.waitqueue r.1 in
    record (scanned.1) { waitqueue = scanned.0 }

unfoldable pub after_select : Selected → Scheduler → Scheduler
unfolding check_pipe
after_select failed s = record s { sched_status = SchedStatus.error }
after_select (selected rc rfds wfds buf) s =
    check_connections rfds wfds s (check_pipe rc rfds buf s)

unfoldable pub release_all : List Waiter → Scheduler → Scheduler
unfolding release
release_all [] s = s
release_all (c ∷ cs) s = release_all cs (release c s)

-- Behind the loop: "we cond_signal all connections that are in the queue".
unfoldable pub end_mainloop : Scheduler → Scheduler
unfolding release_all
end_mainloop s = record (release_all s.waitqueue s) { waitqueue = [] }

-- sched_wakeup_node(), which marks the waiting connections of a node or of all.
unfoldable pub cancel_waits : (Waiter → Bool) → Scheduler → Scheduler
cancel_waits woken s = record s {
  waitqueue = map (λ c. if woken c then record c { wait_cancel = true } else c) s.waitqueue;
}

-- The static data as sched_mainloop() begins.
unfoldable pub start_mainloop : ℕ → Scheduler
unfolding sched_add_read
start_mainloop wakeuppipe = sched_add_read (pos wakeuppipe) (record {
  sched_status = SchedStatus.ok;
  sched_numfd = 0;
  fdset_read = λ n. false;
  fdset_write = λ n. false;
  waitqueue = [];
  signalled = [];
  wakeuppipe = wakeuppipe;
})
