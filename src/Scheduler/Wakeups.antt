-- ===== src/Scheduler/Wakeups.antt =====
-- Whose threads sched_mainloop(), src/slon/scheduler.c, wakes up behind its select() and its loop.
use slony1_engine.Base.{
  ℕ, suc, ◌+◌, ◌-◌, ◌≤◌, ◌≡◌, refl, sym, ap, ◌∙◌, Bool, true, false, not, ◌&&◌, some, List, [], ◌∷◌,
  ◌++◌, append-nil, if◌then◌else◌, filter, ltb, ◌==◌, arith,
}
use slony1_engine.Base.Int.{ℤ, pos, negsuc}
use slony1_engine.Slon.{SchedStatus}
use slony1_engine.Scheduler.Selection.{scan_ready-kept}
use slony1_engine.Scheduler.{
  Waiter, Scheduler, sched_remove_read, sched_remove_write, release, is_ready, scan_ready, selected,
  heads_up, check_connections, after_select, release_all, end_mainloop,
}
use slony1_engine.Scheduler.Timeouts.{ids, signalled_next}

-- How many connections are ready for what they wait for.
abbrev pub count_ready : (ℕ → Bool) → (ℕ → Bool) → List Waiter → ℕ
count_ready r w [] = 0
count_ready r w (c ∷ cs) = let n = count_ready r w cs in if is_ready r w c then suc n else n

abbrev is_idle : (ℕ → Bool) → (ℕ → Bool) → Waiter → Bool
is_idle r w c = not (is_ready r w c)

count_head :
    (r w : ℕ → Bool) (rc : ℕ) (c : Waiter) (cs : List Waiter)
    → count_ready r w (c ∷ cs) ≤ rc
    → ((ltb 0 rc && is_ready r w c) ≡ is_ready r w c)
      × (count_ready r w cs ≤ (if is_ready r w c then rc - 1 else rc))
count_head r w rc c cs h = ground arith

scan_ready-lists :
    (r w : ℕ → Bool) (rc : ℕ) (cs : List Waiter) (s : Scheduler)
    → count_ready r w cs ≤ rc
    → ((scan_ready r w rc cs s).0 ≡ filter (is_idle r w) cs)
      × ((scan_ready r w rc cs s).1.signalled ≡ s.signalled ++ ids (filter (is_ready r w) cs))
unfolding scan_ready filter
scan_ready-lists r w rc [] s h = (refl, sym (append-nil s.signalled))
scan_ready-lists r w rc (c ∷ cs) s h =
    let head = count_head r w rc c cs h in
    rw head.0 (
      elim (is_ready r w c)
          as (λ b.
            count_ready r w cs ≤ (if b then rc - 1 else rc)
            → let x = scan_ready r w (if b then rc - 1 else rc) cs (if b then release c s else s) in
              ((if b then x.0 else c ∷ x.0)
                ≡ (if not b then c ∷ filter (is_idle r w) cs else filter (is_idle r w) cs))
              × (x.1.signalled
                  ≡ s.signalled
                    ++ ids
                        (if b then c ∷ filter (is_ready r w) cs else filter (is_ready r w) cs))) [
                          | true ↦ λ l.
                              let x = scan_ready-lists r w (rc - 1) cs (release c s) l in
                              (
                                x.0,
                                signalled_next c s (scan_ready r w (rc - 1) cs (release c s)).1
                                    (ids (filter (is_ready r w) cs)) x.1,
                              )
                          | false ↦ λ l.
                              let x = scan_ready-lists r w rc cs s l in (ap (λ y. c ∷ y) x.0, x.1)
                        ]
        head.1)

-- The thread's own fields, which releasing a connection leaves alone.
abbrev settings : Scheduler → SchedStatus × ℕ
settings s = (s.sched_status, s.wakeuppipe)

remove-settings :
    (fd : ℤ) (s : Scheduler)
    → (settings (sched_remove_read fd s) ≡ settings s)
      × (settings (sched_remove_write fd s) ≡ settings s)
unfolding sched_remove_read sched_remove_write
remove-settings (pos n) s = (refl, refl)
remove-settings (negsuc n) s = (refl, refl)

if-settings :
    (b : Bool) (s t : Scheduler)
    → settings t ≡ settings s
    → settings (if b then t else s) ≡ settings s
if-settings true s t h = h
if-settings false s t h = refl

release-settings : (c : Waiter) (s : Scheduler) → settings (release c s) ≡ settings s
unfolding release
release-settings c s =
    let t = if c.wait_read then sched_remove_read c.socket s else s in
    if-settings c.wait_write t (sched_remove_write c.socket t) (remove-settings c.socket t).1
    ∙ if-settings c.wait_read s (sched_remove_read c.socket s) (remove-settings c.socket s).0

scan_ready-status :
    (r w : ℕ → Bool) (rc : ℕ) (cs : List Waiter) (s : Scheduler)
    → (scan_ready r w rc cs s).1.sched_status ≡ s.sched_status
scan_ready-status r w rc cs s =
    ap (λ x. x.0)
      (scan_ready-kept (λ u. settings u ≡ settings s) (λ c u e. release-settings c u ∙ e) r w rc cs
        s refl)

-- What a turn leaves behind select(): the queue, the signals and the status.
abbrev pub IsTurn : (ℕ → Bool) → (ℕ → Bool) → Scheduler → SchedStatus → Scheduler → Type 0
IsTurn r w s status t =
    (t.waitqueue ≡ filter (is_idle r w) s.waitqueue)
    × (t.signalled ≡ s.signalled ++ ids (filter (is_ready r w) s.waitqueue))
    × (t.sched_status ≡ status)

check_connections-IsTurn :
    (rc : ℕ) (r w : ℕ → Bool) (s : Scheduler) (status : SchedStatus)
    → count_ready r w s.waitqueue ≤ rc
    → IsTurn r w s status (check_connections r w s (some (rc, record s { sched_status = status })))
check_connections-IsTurn rc r w s status h =
    let u = record s { sched_status = status } in
    let x = scan_ready-lists r w rc s.waitqueue u h in
    (x.0, x.1, scan_ready-status r w rc s.waitqueue u)

heads_up-IsTurn :
    (rc : ℕ) (r w : ℕ → Bool) (is_set is_p : Bool) (s : Scheduler)
    → count_ready r w s.waitqueue + (if is_set then 1 else 0) ≤ rc
    → IsTurn r w s
        (if is_set && is_p then SchedStatus.shutdown else s.sched_status)
        (check_connections r w s (heads_up rc is_set is_p s))
heads_up-IsTurn rc r w true true s h =
    check_connections-IsTurn (rc - 1) r w s SchedStatus.shutdown (omega (arith, h))
heads_up-IsTurn rc r w true false s h =
    check_connections-IsTurn (rc - 1) r w s s.sched_status (omega (arith, h))
heads_up-IsTurn rc r w false is_p s h =
    check_connections-IsTurn rc r w s s.sched_status (omega (arith, h))

-- Where select() counts at least each ready connection, and the pipe in addition where that is
-- ready and gives a byte, a turn takes from the queue just the ready connections and signals just
-- these, in the order of the queue; the others stay. A 'p' from the pipe, and no other byte, ends
-- the loop.
pub after_select_wakes :
    (rc : ℕ) (r w : ℕ → Bool) (ch : ℕ) (s : Scheduler)
    → count_ready r w s.waitqueue + (if r s.wakeuppipe then 1 else 0) ≤ rc
    → IsTurn r w s
        (if r s.wakeuppipe && ch == b'p' then SchedStatus.shutdown else s.sched_status)
        (after_select (selected rc r w (some ch)) s)
unfolding after_select
after_select_wakes rc r w ch s h = heads_up-IsTurn rc r w (r s.wakeuppipe) (ch == b'p') s h

release_all-signalled :
    (cs : List Waiter) (s : Scheduler) → (release_all cs s).signalled ≡ s.signalled ++ ids cs
unfolding release_all
release_all-signalled [] s = sym (append-nil s.signalled)
release_all-signalled (c ∷ cs) s =
    signalled_next c s (release_all cs (release c s)) (ids cs)
      (release_all-signalled cs (release c s))

-- When the loop ends every connection of the queue is signalled, and none waits.
pub end_mainloop_wakes :
    (s : Scheduler)
    → ((end_mainloop s).waitqueue ≡ [])
      × ((end_mainloop s).signalled ≡ s.signalled ++ ids s.waitqueue)
unfolding end_mainloop
end_mainloop_wakes s = (refl, release_all-signalled s.waitqueue s)
