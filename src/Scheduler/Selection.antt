-- ===== src/Scheduler/Selection.antt =====
-- The sets that select() is given, in every order of the calls and turns of src/slon/scheduler.c.
use slony1_engine.Base.{
  ℕ, ◌≡◌, refl, sym, ◌∙◌, Bool, true, false, ◌&&◌, ◌||◌, Option, List, [], ◌∷◌, if◌then◌else◌, ltb,
  ◌-◌, arith,
}
use slony1_engine.Scheduler.{
  TimeVal, Waiter, Scheduler, release, is_due, nearest, time_left, scan_timeouts, is_ready,
  scan_ready, release_all,
}

-- A set has the bits of `base` and those that the waiting connections want, each once.
abbrev pub Reflects : (Waiter → ℕ → Bool) → (ℕ → Bool) → List Waiter → (ℕ → Bool) → Type 0
Reflects want base [] fds = (n : ℕ) → fds n ≡ base n
Reflects want base (c ∷ cs) fds =
    ((n : ℕ) → want c n ≡ true → base n ≡ false) × Reflects want (λ n. base n || want c n) cs fds

module _ (want : Waiter → ℕ → Bool) where
  pub Reflects-same :
      (base base' fds fds' : ℕ → Bool) (cs : List Waiter)
      → ((n : ℕ) → base n ≡ base' n)
      → ((n : ℕ) → fds n ≡ fds' n)
      → Reflects want base cs fds
      → Reflects want base' cs fds'
  Reflects-same base base' fds fds' [] p q h = λ n. sym (q n) ∙ h n ∙ p n
  Reflects-same base base' fds fds' (c ∷ cs) p q h = (
    λ n w. sym (p n) ∙ h.0 n w,
    Reflects-same (λ n. base n || want c n) (λ n. base' n || want c n) fds fds' cs
        (λ n. ground (arith, p n)) q h.1,
  )

  base_in_set :
      (base fds : ℕ → Bool) (cs : List Waiter)
      → Reflects want base cs fds
      → (n : ℕ) → base n ≡ true
      → fds n ≡ true
  base_in_set base fds [] h n e = h n ∙ e
  base_in_set base fds (c ∷ cs) h n e =
      base_in_set (λ m. base m || want c m) fds cs h.1 n (ground arith)

  -- The bits of one more connection, which had none of them.
  pub Reflects-added :
      (c : Waiter) (base fds fds' : ℕ → Bool) (cs : List Waiter)
      → ((n : ℕ) → fds' n ≡ (if want c n then true else fds n))
      → ((n : ℕ) → want c n ≡ true → fds n ≡ false)
      → Reflects want base cs fds
      → Reflects want base (c ∷ cs) fds'
  Reflects-added c base fds fds' [] q f h =
      (λ n w. sym (h n) ∙ f n w, λ n. ground (arith, q n, h n))
  Reflects-added c base fds fds' (d ∷ cs) q f h =
      let rest = Reflects-added c (λ n. base n || want d n) fds fds' cs q f h.1 in
      (
        λ n w. ground (arith, rest.0 n w),
        (
          λ n w. ground (arith, rest.0 n, h.0 n w),
          Reflects-same (λ n. base n || want d n || want c n) (λ n. base n || want c n || want d n)
              fds' fds' cs (λ n. ground arith) (λ n. refl) rest.1,
        ),
      )

  -- Without the bits of a connection.
  pub Reflects-removed :
      (c : Waiter) (base base' fds fds' : ℕ → Bool) (cs : List Waiter)
      → ((n : ℕ) → base' n ≡ (base n || want c n))
      → ((n : ℕ) → want c n ≡ true → base n ≡ false)
      → ((n : ℕ) → fds' n ≡ (if want c n then false else fds n))
      → Reflects want base' cs fds
      → Reflects want base cs fds'
  Reflects-removed c base base' fds fds' [] p f q h = λ n. ground (arith, p n, f n, q n, h n)
  Reflects-removed c base base' fds fds' (d ∷ cs) p f q h = (
    λ n w. ground (arith, p n, h.0 n w),
    Reflects-removed c (λ n. base n || want d n) (λ n. base' n || want d n) fds fds' cs
        (λ n. ground (arith, p n)) (λ n w. ground (arith, p n, f n w, h.0 n)) q h.1,
  )

module _ (want : Waiter → ℕ → Bool) (fds : Scheduler → ℕ → Bool)
    (clears : (c : Waiter) (s : Scheduler) (n : ℕ)
      → fds (release c s) n ≡ (if want c n then false else fds s n)) where
  release-Reflects :
      (c : Waiter) (cs : List Waiter) (base : ℕ → Bool) (s : Scheduler)
      → Reflects want base (c ∷ cs) (fds s)
      → Reflects want base cs (fds (release c s))
  release-Reflects c cs base s h =
      Reflects-removed want c base (λ n. base n || want c n) (fds s) (fds (release c s)) cs
        (λ n. refl) h.0 (clears c s) h.1

  pub scan_timeouts-Reflects :
      (now : TimeVal) (cs : List Waiter) (tv : Option TimeVal) (base : ℕ → Bool) (s : Scheduler)
      → Reflects want base cs (fds s)
      → Reflects want base (scan_timeouts now cs tv s).queue (fds (scan_timeouts now cs tv s).sched)
  unfolding scan_timeouts
  scan_timeouts-Reflects now [] tv base s h = h
  scan_timeouts-Reflects now (c ∷ cs) tv base s h =
      elim (is_due now c)
        as (λ b.
          let r =
            scan_timeouts now cs
              (if b
                then tv
                else if c.wait_timeout
                then nearest (time_left now c.timeout) tv
                else tv)
              (if b then release c s else s) in
          Reflects want base (if b then r.queue else c ∷ r.queue) (fds r.sched)) [
            | true ↦
                scan_timeouts-Reflects now cs tv base (release c s) (release-Reflects c cs base s h)
            | false ↦ (
              h.0,
              scan_timeouts-Reflects now cs
                  (if c.wait_timeout then nearest (time_left now c.timeout) tv else tv)
                  (λ n. base n || want c n) s h.1,
            )
          ]

  pub scan_ready-Reflects :
      (r w : ℕ → Bool) (rc : ℕ) (cs : List Waiter) (base : ℕ → Bool) (s : Scheduler)
      → Reflects want base cs (fds s)
      → Reflects want base (scan_ready r w rc cs s).0 (fds (scan_ready r w rc cs s).1)
  unfolding scan_ready
  scan_ready-Reflects r w rc [] base s h = h
  scan_ready-Reflects r w rc (c ∷ cs) base s h =
      elim (ltb 0 rc && is_ready r w c)
        as (λ b.
          let x = scan_ready r w (if b then rc - 1 else rc) cs (if b then release c s else s) in
          Reflects want base (if b then x.0 else c ∷ x.0) (fds x.1)) [
            | true ↦
                scan_ready-Reflects r w (rc - 1) cs base (release c s)
                  (release-Reflects c cs base s h)
            | false ↦ (h.0, scan_ready-Reflects r w rc cs (λ n. base n || want c n) s h.1)
          ]

  pub release_all-Reflects :
      (cs : List Waiter) (base : ℕ → Bool) (s : Scheduler)
      → Reflects want base cs (fds s)
      → Reflects want base [] (fds (release_all cs s))
  unfolding release_all
  release_all-Reflects [] base s h = h
  release_all-Reflects (c ∷ cs) base s h =
      release_all-Reflects cs base (release c s) (release-Reflects c cs base s h)

-- What releasing a connection preserves, the scans preserve.
module _ {ℓ} (P : Scheduler → Type ℓ)
    (kept : (c : Waiter) (s : Scheduler) → P s → P (release c s)) where
  if_release : (b : Bool) (c : Waiter) (s : Scheduler) → P s → P (if b then release c s else s)
  if_release true c s h = kept c s h
  if_release false c s h = h

  pub scan_timeouts-kept :
      (now : TimeVal) (cs : List Waiter) (tv : Option TimeVal) (s : Scheduler)
      → P s
      → P (scan_timeouts now cs tv s).sched
  unfolding scan_timeouts
  scan_timeouts-kept now [] tv s h = h
  scan_timeouts-kept now (c ∷ cs) tv s h =
      scan_timeouts-kept now cs
        (if is_due now c
          then tv
          else if c.wait_timeout
          then nearest (time_left now c.timeout) tv
          else tv)
        (if is_due now c then release c s else s) (if_release (is_due now c) c s h)

  pub scan_ready-kept :
      (r w : ℕ → Bool) (rc : ℕ) (cs : List Waiter) (s : Scheduler)
      → P s
      → P (scan_ready r w rc cs s).1
  unfolding scan_ready
  scan_ready-kept r w rc [] s h = h
  scan_ready-kept r w rc (c ∷ cs) s h =
      let b = ltb 0 rc && is_ready r w c in
      scan_ready-kept r w (if b then rc - 1 else rc) cs (if b then release c s else s)
        (if_release b c s h)

  pub release_all-kept : (cs : List Waiter) (s : Scheduler) → P s → P (release_all cs s)
  unfolding release_all
  release_all-kept [] s h = h
  release_all-kept (c ∷ cs) s h = release_all-kept cs (release c s) (kept c s h)
