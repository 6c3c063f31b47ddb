-- ===== src/Scheduler/Reachable.antt =====
-- The states that the calls and turns of src/slon/scheduler.c lead to, in every order of the threads.
use slony1_engine.Base.{ℕ, suc, ◌≡◌, ◌∙◌, Bool, true, false, ◌||◌, some, List, [], ◌∷◌, ◌==◌, arith}
use slony1_engine.Scheduler.{
  TimeVal, Waiter, Scheduler, sched_wait_conn, before_select, Selected, copy_of_set, after_select,
  end_mainloop, cancel_waits, start_mainloop,
}
use slony1_engine.Scheduler.Descriptors.{IsFit}
use slony1_engine.Scheduler.Selection.{Reflects}
use slony1_engine.Scheduler.Soundness.{
  wants_read, wants_write, IsSound, start_mainloop-IsSound, sched_wait_conn-IsSound,
  cancel_waits-IsSound, before_select-IsSound, after_select-IsSound, end_mainloop-IsSound,
}

-- A call, or a part of a turn of the main loop, between which the master lock is released. A
-- connection that starts to wait has a socket on which none does yet.
pub data Reaches (pipe : ℕ) : Scheduler → Type 0 where
  starts : Reaches pipe (start_mainloop pipe)
  waits :
      (c : Waiter) (s t : Scheduler)
      → Reaches pipe s
      → ((n : ℕ) → wants_read c n ≡ true → s.fdset_read n ≡ false)
      → ((n : ℕ) → wants_write c n ≡ true → s.fdset_write n ≡ false)
      → sched_wait_conn c s ≡ some t
      → Reaches pipe t
  cancels :
      (woken : Waiter → Bool) (s : Scheduler) → Reaches pipe s → Reaches pipe (cancel_waits woken s)
  selects :
      (now : TimeVal) (s : Scheduler) → Reaches pipe s → Reaches pipe (before_select now s).sched
  returns : (r : Selected) (s : Scheduler) → Reaches pipe s → Reaches pipe (after_select r s)
  ends : (s : Scheduler) → Reaches pipe s → Reaches pipe (end_mainloop s)

pub Reaches-IsSound : (pipe : ℕ) (s : Scheduler) → Reaches pipe s → IsSound pipe s
Reaches-IsSound pipe _ starts = start_mainloop-IsSound pipe
Reaches-IsSound pipe _ (waits c s t h r w e) =
    sched_wait_conn-IsSound pipe c s t (Reaches-IsSound pipe s h) r w e
Reaches-IsSound pipe _ (cancels woken s h) =
    cancel_waits-IsSound pipe woken s (Reaches-IsSound pipe s h)
Reaches-IsSound pipe _ (selects now s h) =
    before_select-IsSound pipe now s (Reaches-IsSound pipe s h)
Reaches-IsSound pipe _ (returns r s h) = after_select-IsSound pipe r s (Reaches-IsSound pipe s h)
Reaches-IsSound pipe _ (ends s h) = end_mainloop-IsSound pipe s (Reaches-IsSound pipe s h)

-- Whether some connection of the queue wants the bit.
abbrev pub any_wants : (Waiter → ℕ → Bool) → List Waiter → ℕ → Bool
any_wants want [] n = false
any_wants want (c ∷ cs) n = want c n || any_wants want cs n

Reflects-any :
    (want : Waiter → ℕ → Bool) (base fds : ℕ → Bool) (cs : List Waiter)
    → Reflects want base cs fds
    → (n : ℕ) → fds n ≡ (base n || any_wants want cs n)
Reflects-any want base fds [] h n = ground (arith, h n)
Reflects-any want base fds (c ∷ cs) h n =
    ground (arith, Reflects-any want (λ m. base m || want c m) fds cs h.1 n)

-- Below sched_numfd are all the bits.
copy_of_set-IsFit :
    (s : Scheduler)
    → IsFit s
    → (n : ℕ)
    → (copy_of_set s.sched_numfd s.fdset_read n ≡ s.fdset_read n)
      × (copy_of_set s.sched_numfd s.fdset_write n ≡ s.fdset_write n)
copy_of_set-IsFit s h n = ground (arith, h.bound n)

-- In every state that the calls and turns lead to, where a connection that starts to wait has a
-- socket on which none waits yet, the copies of the sets for select() are exact: a descriptor is in
-- the reading set where it is the pipe's or a connection of the queue waits to read from it, in the
-- writing set where one waits to write to it, and nowhere else; and the last descriptor below
-- sched_numfd is in one of the sets.
pub select_sets :
    (pipe : ℕ) (s : Scheduler)
    → Reaches pipe s
    → ((n : ℕ)
        → copy_of_set s.sched_numfd s.fdset_read n
          ≡ (n == pipe || any_wants wants_read s.waitqueue n))
      × ((n : ℕ) → copy_of_set s.sched_numfd s.fdset_write n ≡ any_wants wants_write s.waitqueue n)
      × ((n : ℕ) → s.sched_numfd ≡ suc n → (s.fdset_read n || s.fdset_write n) ≡ true)
select_sets pipe s h =
    let x = Reaches-IsSound pipe s h in
    (
      λ n.
          (copy_of_set-IsFit s x.fit n).0
          ∙ Reflects-any wants_read (λ m. m == pipe) s.fdset_read s.waitqueue x.reads n,
      λ n.
          (copy_of_set-IsFit s x.fit n).1
          ∙ Reflects-any wants_write (λ m. false) s.fdset_write s.waitqueue x.writes n,
      x.fit.tight,
    )
