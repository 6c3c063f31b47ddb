-- ===== src/Scheduler/Soundness.antt =====
-- Every call and turn of src/slon/scheduler.c keeps the descriptor sets in step with the queue.
use slony1_engine.Base.{
  ℕ, ◌≡◌, refl, sym, ap, subst, Bool, true, false, ◌&&◌, ◌||◌, Option, none, some, List, [], ◌∷◌,
  if◌then◌else◌, map, ◌-◌, ◌==◌, arith,
}
use slony1_engine.Slon.{SchedStatus}
use slony1_engine.Scheduler.{
  TimeVal, Waiter, Scheduler, sched_add_read, sched_wait_conn, scan_timeouts, before_select,
  scan_ready, Selected, failed, selected, heads_up, check_connections, after_select, release_all,
  end_mainloop, cancel_waits, start_mainloop,
}
use slony1_engine.Scheduler.Descriptors.{
  IsFit, is_fd, release_bits, release-IsFit, with_waiter, with_waiter_bits, with_waiter-IsFit,
}
use slony1_engine.Scheduler.Selection.{
  scan_timeouts-kept, scan_ready-kept, release_all-kept, Reflects, Reflects-added,
  scan_timeouts-Reflects, scan_ready-Reflects, release_all-Reflects,
}

-- Whether the connection waits to read from the descriptor, or to write to it.
abbrev pub wants_read : Waiter → ℕ → Bool
wants_read c n = c.wait_read && is_fd n c.socket

abbrev pub wants_write : Waiter → ℕ → Bool
wants_write c n = c.wait_write && is_fd n c.socket

-- The sets and their number fit the connections that wait and the pipe.
pub record IsSound (pipe : ℕ) (s : Scheduler) : Type 0 where
  pub fit : IsFit s
  pub reads : Reflects wants_read (λ n. n == pipe) s.waitqueue s.fdset_read
  pub writes : Reflects wants_write (λ n. false) s.waitqueue s.fdset_write

-- The number and the sets have nothing to do with the queue.
IsFit-requeued : (q : List Waiter) (s : Scheduler) → IsFit s → IsFit (record s { waitqueue = q })
IsFit-requeued q s h = record { bound = h.bound; tight = h.tight }

IsFit-status : (st : SchedStatus) (s : Scheduler) → IsFit s → IsFit (record s { sched_status = st })
IsFit-status st s h = record { bound = h.bound; tight = h.tight }

abbrev cancelled : (Waiter → Bool) → Waiter → Waiter
cancelled woken c = if woken c then record c { wait_cancel = true } else c

-- A cancelled connection still wants its bits.
module _ (want : Waiter → ℕ → Bool)
    (same : (c : Waiter) → want (record c { wait_cancel = true }) ≡ want c) where
  want-cancelled : (woken : Waiter → Bool) (c : Waiter) → want (cancelled woken c) ≡ want c
  want-cancelled woken c =
      elim (woken c) as (λ b. want (if b then record c { wait_cancel = true } else c) ≡ want c) [
        | true ↦ same c
        | false ↦ refl
      ]

  Reflects-cancelled :
      (woken : Waiter → Bool) (base fds : ℕ → Bool) (cs : List Waiter)
      → Reflects want base cs fds
      → Reflects want base (map (cancelled woken) cs) fds
  Reflects-cancelled woken base fds [] h = h
  Reflects-cancelled woken base fds (c ∷ cs) h =
      subst
        (λ w.
          ((n : ℕ) → w n ≡ true → base n ≡ false)
          × Reflects want (λ n. base n || w n) (map (cancelled woken) cs) fds)
        (sym (want-cancelled woken c))
        (h.0, Reflects-cancelled woken (λ n. base n || want c n) fds cs h.1)

module _ (pipe : ℕ) where
  pub start_mainloop-IsSound : IsSound pipe (start_mainloop pipe)
  unfolding start_mainloop sched_add_read
  start_mainloop-IsSound = record {
    fit = record { bound = λ n h. ground arith; tight = λ n h. ground arith };
    reads = λ n. ground arith;
    writes = λ n. refl;
  }

  added-IsSound :
      (c : Waiter) (s : Scheduler)
      → IsSound pipe s
      → ((n : ℕ) → wants_read c n ≡ true → s.fdset_read n ≡ false)
      → ((n : ℕ) → wants_write c n ≡ true → s.fdset_write n ≡ false)
      → IsSound pipe (record (with_waiter c s) { waitqueue = c ∷ s.waitqueue })
  added-IsSound c s h r w = record {
    fit = IsFit-requeued (c ∷ s.waitqueue) (with_waiter c s) (with_waiter-IsFit c s h.fit);
    reads =
        Reflects-added wants_read c (λ n. n == pipe) s.fdset_read (with_waiter c s).fdset_read
          s.waitqueue (λ n. (with_waiter_bits n c s).0) r h.reads;
    writes =
        Reflects-added wants_write c (λ n. false) s.fdset_write (with_waiter c s).fdset_write
          s.waitqueue (λ n. (with_waiter_bits n c s).1) w h.writes;
  }

  pub sched_wait_conn-IsSound :
      (c : Waiter) (s t : Scheduler)
      → IsSound pipe s
      → ((n : ℕ) → wants_read c n ≡ true → s.fdset_read n ≡ false)
      → ((n : ℕ) → wants_write c n ≡ true → s.fdset_write n ≡ false)
      → sched_wait_conn c s ≡ some t
      → IsSound pipe t
  unfolding sched_wait_conn
  sched_wait_conn-IsSound c s t h r w =
      elim s.sched_status
        as (λ st.
          elim st as (λ x. Option Scheduler) [
            | SchedStatus.ok ↦ some (record (with_waiter c s) { waitqueue = c ∷ s.waitqueue })
            | _ ↦ none
          ]
            ≡ some t
          → IsSound pipe t) [
            | SchedStatus.ok ↦ λ e.
                subst (λ u. IsSound pipe u) (ap (λ o. elim o [ none ↦ t | some u ↦ u ]) e)
                  (added-IsSound c s h r w)
            | _ ↦ λ e. cc
          ]

  pub cancel_waits-IsSound :
      (woken : Waiter → Bool) (s : Scheduler) → IsSound pipe s → IsSound pipe (cancel_waits woken s)
  unfolding cancel_waits
  cancel_waits-IsSound woken s h = record {
    fit = IsFit-requeued (map (cancelled woken) s.waitqueue) s h.fit;
    reads =
        Reflects-cancelled wants_read (λ c. refl) woken (λ n. n == pipe) s.fdset_read s.waitqueue
          h.reads;
    writes =
        Reflects-cancelled wants_write (λ c. refl) woken (λ n. false) s.fdset_write s.waitqueue
          h.writes;
  }

  pub before_select-IsSound :
      (now : TimeVal) (s : Scheduler) → IsSound pipe s → IsSound pipe (before_select now s).sched
  unfolding before_select
  before_select-IsSound now s h =
      let r = scan_timeouts now s.waitqueue none s in
      record {
        fit =
            IsFit-requeued r.queue r.sched
              (scan_timeouts-kept IsFit release-IsFit now s.waitqueue none s h.fit);
        reads =
            scan_timeouts-Reflects wants_read (λ u. u.fdset_read) (λ c u n. (release_bits n c u).0)
              now s.waitqueue none (λ n. n == pipe) s h.reads;
        writes =
            scan_timeouts-Reflects wants_write (λ u. u.fdset_write)
              (λ c u n. (release_bits n c u).1) now s.waitqueue none (λ n. false) s h.writes;
      }

  scan_ready-IsSound :
      (rfds wfds : ℕ → Bool) (rc : ℕ) (s : Scheduler)
      → IsSound pipe s
      → IsSound pipe (record ((scan_ready rfds wfds rc s.waitqueue s).1) {
        waitqueue = (scan_ready rfds wfds rc s.waitqueue s).0;
      })
  scan_ready-IsSound rfds wfds rc s h =
      let r = scan_ready rfds wfds rc s.waitqueue s in
      record {
        fit =
            IsFit-requeued r.0 r.1
              (scan_ready-kept IsFit release-IsFit rfds wfds rc s.waitqueue s h.fit);
        reads =
            scan_ready-Reflects wants_read (λ u. u.fdset_read) (λ c u n. (release_bits n c u).0)
              rfds wfds rc s.waitqueue (λ n. n == pipe) s h.reads;
        writes =
            scan_ready-Reflects wants_write (λ u. u.fdset_write) (λ c u n. (release_bits n c u).1)
              rfds wfds rc s.waitqueue (λ n. false) s h.writes;
      }

  status-IsSound :
      (st : SchedStatus) (s : Scheduler)
      → IsSound pipe s
      → IsSound pipe (record s { sched_status = st })
  status-IsSound st s h = record {
    fit = IsFit-status st s h.fit;
    reads = h.reads;
    writes = h.writes;
  }

  heads_up-IsSound :
      (rc : ℕ) (r w : ℕ → Bool) (is_set is_p : Bool) (s : Scheduler)
      → IsSound pipe s
      → IsSound pipe (check_connections r w s (heads_up rc is_set is_p s))
  heads_up-IsSound rc r w true true s h =
      scan_ready-IsSound r w (rc - 1) (record s { sched_status = SchedStatus.shutdown })
        (status-IsSound SchedStatus.shutdown s h)
  heads_up-IsSound rc r w true false s h = scan_ready-IsSound r w (rc - 1) s h
  heads_up-IsSound rc r w false is_p s h = scan_ready-IsSound r w rc s h

  pub after_select-IsSound :
      (r : Selected) (s : Scheduler) → IsSound pipe s → IsSound pipe (after_select r s)
  unfolding after_select
  after_select-IsSound failed s h = status-IsSound SchedStatus.error s h
  after_select-IsSound (selected rc rfds wfds none) s h =
      elim (rfds s.wakeuppipe)
        as (λ b. IsSound pipe (check_connections rfds wfds s (if b then none else some (rc, s)))) [
          | true ↦ status-IsSound SchedStatus.error s h
          | false ↦ scan_ready-IsSound rfds wfds rc s h
        ]
  after_select-IsSound (selected rc rfds wfds (some ch)) s h =
      heads_up-IsSound rc rfds wfds (rfds s.wakeuppipe) (ch == b'p') s h

  pub end_mainloop-IsSound : (s : Scheduler) → IsSound pipe s → IsSound pipe (end_mainloop s)
  unfolding end_mainloop
  end_mainloop-IsSound s h =
      let t = release_all s.waitqueue s in
      record {
        fit = IsFit-requeued [] t (release_all-kept IsFit release-IsFit s.waitqueue s h.fit);
        reads =
            release_all-Reflects wants_read (λ u. u.fdset_read) (λ c u n. (release_bits n c u).0)
              s.waitqueue (λ n. n == pipe) s h.reads;
        writes =
            release_all-Reflects wants_write (λ u. u.fdset_write) (λ c u n. (release_bits n c u).1)
              s.waitqueue (λ n. false) s h.writes;
      }
