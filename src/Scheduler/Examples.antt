-- ===== src/Scheduler/Examples.antt =====
-- Turns of sched_mainloop(), src/slon/scheduler.c, with three connections: one waits to read from
-- socket 5, one to write to socket 7 until a time, and one for a time only.
use slony1_engine.Base.{
  ℕ, suc, ◌+◌, ◌*◌, ◌<◌, ◌≡◌, ◌↔◌, refl, Bool, true, false, not, ◌&&◌, ◌||◌, some, [], ◌∷◌, ◌++◌,
  map, filter, All, if◌then◌else◌, ◌==◌, arith,
}
use slony1_engine.Base.Int.{pos, negsuc}
use slony1_engine.Slon.{SchedStatus}
use slony1_engine.Scheduler.{
  TimeVal, Waiter, Scheduler, sched_add_read, sched_add_write, sched_wait_conn, before_select,
  copy_of_set, selected, after_select, start_mainloop, is_due, time_left, end_time, is_elapsed,
  is_ready,
}
use slony1_engine.Scheduler.Soundness.{wants_read, wants_write}
use slony1_engine.Scheduler.Reachable.{Reaches, starts, waits, selects, any_wants, select_sets}
use slony1_engine.Scheduler.Timeouts.{IsBy, IsEndOf, before_select_wakes}
use slony1_engine.Scheduler.Wakeups.{IsTurn, after_select_wakes}
use slony1_engine.Scheduler.Timers.{is_elapsed-end_time}

abbrev time : ℕ → ℕ → TimeVal
time sec usec = record { tv_sec = pos sec; tv_usec = pos usec }

abbrev reader : Waiter
reader = record {
  conn_id = 1;
  socket = pos 5;
  wait_read = true;
  wait_write = false;
  wait_timeout = false;
  wait_cancel = false;
  timeout = time 0 0;
}

abbrev writer : Waiter
writer = record {
  conn_id = 2;
  socket = pos 7;
  wait_read = false;
  wait_write = true;
  wait_timeout = true;
  wait_cancel = false;
  timeout = time 109 500000;
}

abbrev sleeper : Waiter
sleeper = record {
  conn_id = 3;
  socket = negsuc 0;
  wait_read = false;
  wait_write = false;
  wait_timeout = true;
  wait_cancel = false;
  timeout = time 100 15000;
}

abbrev with_reader : Scheduler
with_reader = record {
  sched_status = SchedStatus.ok;
  sched_numfd = 6;
  fdset_read = λ m. if m == 5 then true else if m == 3 then true else false;
  fdset_write = λ m. false;
  waitqueue = reader ∷ [];
  signalled = [];
  wakeuppipe = 3;
}

abbrev with_writer : Scheduler
with_writer = record with_reader {
  sched_numfd = 8;
  fdset_write = λ m. if m == 7 then true else false;
  waitqueue = writer ∷ reader ∷ [];
}

abbrev with_sleeper : Scheduler
with_sleeper = record with_writer { waitqueue = sleeper ∷ writer ∷ reader ∷ [] }

reader_waits : Reaches 3 with_reader
unfolding start_mainloop sched_wait_conn sched_add_read
reader_waits =
    waits reader (start_mainloop 3) with_reader starts (λ n h. ground arith) (λ n h. refl) refl

sleeper_waits : Reaches 3 with_sleeper
unfolding sched_wait_conn sched_add_write
sleeper_waits =
    waits sleeper with_writer with_sleeper
      (waits writer with_reader with_writer reader_waits (λ n h. ground arith) (λ n h. refl) refl)
      (λ n h. ground arith) (λ n h. ground arith) refl

abbrev turn : Scheduler
turn = (before_select (time 100 0) with_sleeper).sched

select_sets_example :
    ((n : ℕ)
      → copy_of_set turn.sched_numfd turn.fdset_read n
        ≡ (n == 3 || any_wants wants_read turn.waitqueue n))
    × ((n : ℕ)
        → copy_of_set turn.sched_numfd turn.fdset_write n ≡ any_wants wants_write turn.waitqueue n)
    × ((n : ℕ) → turn.sched_numfd ≡ suc n → (turn.fdset_read n || turn.fdset_write n) ≡ true)
select_sets_example = select_sets 3 turn (selects (time 100 0) with_sleeper sleeper_waits)

before_select_wakes_example :
    let r = before_select (time 100 0) with_sleeper in
    (r.sched.waitqueue ≡ filter (λ c. not (is_due (time 100 0) c)) with_sleeper.waitqueue)
    × (r.sched.signalled
        ≡ [] ++ map (λ c. c.conn_id) (filter (is_due (time 100 0)) with_sleeper.waitqueue))
    × All
        (λ c. c.wait_timeout ≡ true → IsBy (time_left (time 100 0) c.timeout) r.tv)
        r.sched.waitqueue
    × ((u : TimeVal) → r.tv ≡ some u → IsEndOf (time 100 0) u r.sched.waitqueue)
before_select_wakes_example = before_select_wakes (time 100 0) with_sleeper

-- The sleeper has 15 ms left and is woken up.
before_select_runs :
    ((before_select (time 100 0) with_sleeper).sched.signalled ≡ 3 ∷ [])
    × ((before_select (time 100 0) with_sleeper).tv ≡ some (time 9 500000))
unfolding before_select
before_select_runs = (refl, refl)

abbrev readable : ℕ → Bool
readable n = n == 3 || n == 5

after_select_wakes_example :
    IsTurn readable
      (λ n. false)
      with_sleeper
      (if readable 3 && b'p' == b'p' then SchedStatus.shutdown else SchedStatus.ok)
      (after_select (selected 2 readable (λ n. false) (some b'p')) with_sleeper)
unfolding is_ready
after_select_wakes_example =
    after_select_wakes 2 readable (λ n. false) b'p' with_sleeper (ground arith)

is_elapsed-end_time_example :
    (is_elapsed (
        time_left (time 12 490000) (record {
          tv_sec = pos (end_time 10 400000 2100).0;
          tv_usec = pos (end_time 10 400000 2100).1;
        }))
      ≡ true)
    ↔ (10 * 1000000 + 400000 + 2100 * 1000 < 12 * 1000000 + 490000 + 20000)
is_elapsed-end_time_example = is_elapsed-end_time 10 400000 2100 12 490000 (ground arith)
