-- ===== src/Scheduler/Timeouts.antt =====
-- Whose threads sched_mainloop(), src/slon/scheduler.c, wakes up in front of its select().
use slony1_engine.Base.{
  ℕ, ◌≡◌, refl, sym, ap, ◌∙◌, Bool, true, false, not, Option, none, some, List, [], ◌∷◌, ◌++◌,
  append_assoc, append-nil, if◌then◌else◌, map, filter, All, arith, Bool-cases, ◌⊎◌, inl, inr,
}
use slony1_engine.Scheduler.{
  TimeVal, Waiter, Scheduler, release, is_due, is_sooner, nearest, time_left, scan_timeouts,
  before_select,
}

abbrev pub ids : List Waiter → List ℕ
ids cs = map (λ c. c.conn_id) cs

abbrev is_kept : TimeVal → Waiter → Bool
is_kept now c = not (is_due now c)

scan_timeouts_queue :
    (now : TimeVal) (cs : List Waiter) (tv : Option TimeVal) (s : Scheduler)
    → (scan_timeouts now cs tv s).queue ≡ filter (is_kept now) cs
unfolding scan_timeouts filter
scan_timeouts_queue now [] tv s = refl
scan_timeouts_queue now (c ∷ cs) tv s =
    elim (is_due now c)
      as (λ b.
        let r =
          scan_timeouts now cs
            (if b then tv else if c.wait_timeout then nearest (time_left now c.timeout) tv else tv)
            (if b then release c s else s) in
        (if b then r.queue else c ∷ r.queue)
        ≡ (if not b then c ∷ filter (is_kept now) cs else filter (is_kept now) cs)) [
          | true ↦ scan_timeouts_queue now cs tv (release c s)
          | false ↦
              ap (λ x. c ∷ x)
                (scan_timeouts_queue now cs
                  (if c.wait_timeout then nearest (time_left now c.timeout) tv else tv) s)
        ]

release-signalled :
    (c : Waiter) (s : Scheduler) → (release c s).signalled ≡ s.signalled ++ c.conn_id ∷ []
unfolding release
release-signalled c s = refl

-- One more signal in front of those of the rest.
pub signalled_next :
    (c : Waiter) (s t : Scheduler) (xs : List ℕ)
    → t.signalled ≡ (release c s).signalled ++ xs
    → t.signalled ≡ s.signalled ++ c.conn_id ∷ xs
signalled_next c s t xs h =
    h ∙ ap (λ l. l ++ xs) (release-signalled c s) ∙ append_assoc s.signalled (c.conn_id ∷ []) xs

scan_timeouts_signals :
    (now : TimeVal) (cs : List Waiter) (tv : Option TimeVal) (s : Scheduler)
    → (scan_timeouts now cs tv s).sched.signalled ≡ s.signalled ++ ids (filter (is_due now) cs)
unfolding scan_timeouts filter
scan_timeouts_signals now [] tv s = sym (append-nil s.signalled)
scan_timeouts_signals now (c ∷ cs) tv s =
    elim (is_due now c)
      as (λ b.
        (scan_timeouts now cs
          (if b then tv else if c.wait_timeout then nearest (time_left now c.timeout) tv else tv)
          (if b then release c s else s)).sched.signalled
        ≡ s.signalled ++ ids (if b then c ∷ filter (is_due now) cs else filter (is_due now) cs)) [
          | true ↦
              signalled_next c s (scan_timeouts now cs tv (release c s)).sched
                (ids (filter (is_due now) cs)) (scan_timeouts_signals now cs tv (release c s))
          | false ↦
              scan_timeouts_signals now cs
                (if c.wait_timeout then nearest (time_left now c.timeout) tv else tv) s
        ]

-- A time is given, and it is not later.
abbrev pub IsBy : TimeVal → Option TimeVal → Type 0
IsBy t none = false ≡ true
IsBy t (some u) = is_sooner t u ≡ false

sooner_self : (t : TimeVal) → is_sooner t t ≡ false
sooner_self t = ground arith

sooner_swap :
    (t u v : TimeVal) → is_sooner t v ≡ true → is_sooner u v ≡ false → is_sooner u t ≡ false
sooner_swap t u v h k = ground arith

nearest-IsBy : (t : TimeVal) (tv : Option TimeVal) → IsBy t (nearest t tv)
unfolding nearest
nearest-IsBy t none = sooner_self t
nearest-IsBy t (some u) = elim (Bool-cases (is_sooner t u)) [
  | inl e ↦ rw e (sooner_self t)
  | inr e ↦ rw e e
]

nearest-IsBy-other : (t u : TimeVal) (tv : Option TimeVal) → IsBy u tv → IsBy u (nearest t tv)
unfolding nearest
nearest-IsBy-other t u none h = cc
nearest-IsBy-other t u (some v) h = elim (Bool-cases (is_sooner t v)) [
  | inl e ↦ rw e (sooner_swap t u v e h)
  | inr e ↦ rw e h
]

-- One of the connections waits for this time and no longer.
abbrev pub IsEndOf : TimeVal → TimeVal → List Waiter → Type 0
IsEndOf now u [] = false ≡ true
IsEndOf now u (c ∷ cs) =
    ((c.wait_timeout ≡ true) × (time_left now c.timeout ≡ u)) ⊎ IsEndOf now u cs

nearest_is : (t u : TimeVal) (tv : Option TimeVal) → nearest t tv ≡ some u → (tv ≡ some u) ⊎ (t ≡ u)
unfolding nearest
nearest_is t u none = λ e. inr (ap (λ o. elim o [ none ↦ t | some x ↦ x ]) e)
nearest_is t u (some v) =
    elim (is_sooner t v)
      as (λ b. (if b then some t else some v) ≡ some u → (some v ≡ some u) ⊎ (t ≡ u)) [
        | true ↦ λ e. inr (ap (λ o. elim o [ none ↦ t | some x ↦ x ]) e)
        | false ↦ λ e. inl e
      ]

-- No connection of `cs` has less time left than `tv`, and `tv` is what one has left or is `start`.
abbrev IsNearest : TimeVal → Option TimeVal → List Waiter → Option TimeVal → Type 0
IsNearest now start cs tv =
    All (λ c. c.wait_timeout ≡ true → IsBy (time_left now c.timeout) tv) cs
    × ((u : TimeVal) → IsBy u start → IsBy u tv)
    × ((u : TimeVal) → tv ≡ some u → (start ≡ some u) ⊎ IsEndOf now u cs)

-- One more connection stays, with or without a timeout.
IsNearest-stays :
    (now : TimeVal) (start tv : Option TimeVal) (c : Waiter) (cs : List Waiter)
    → IsNearest now
        (if c.wait_timeout then nearest (time_left now c.timeout) start else start)
        cs
        tv
    → IsNearest now start (c ∷ cs) tv
IsNearest-stays now start tv c cs =
    let t = time_left now c.timeout in
    elim c.wait_timeout
      as (λ b.
        IsNearest now (if b then nearest t start else start) cs tv
        → ((b ≡ true → IsBy t tv)
            × All (λ d. d.wait_timeout ≡ true → IsBy (time_left now d.timeout) tv) cs)
          × ((u : TimeVal) → IsBy u start → IsBy u tv)
          × ((u : TimeVal)
              → tv ≡ some u
              → (start ≡ some u) ⊎ (((b ≡ true) × (t ≡ u)) ⊎ IsEndOf now u cs))) [
                | true ↦ λ h. (
                  (λ e. h.1 t (nearest-IsBy t start), h.0),
                  λ u k. h.1 u (nearest-IsBy-other t u start k),
                  λ u e. elim (h.2 u e) [
                    | inl f ↦ elim (nearest_is t u start f) [
                      | inl g ↦ inl g
                      | inr g ↦ inr (inl (refl, g))
                    ]
                    | inr f ↦ inr (inr f)
                  ],
                )
                | false ↦ λ h. (
                  (λ e. cc, h.0),
                  h.1,
                  λ u e. elim (h.2 u e) [ inl f ↦ inl f | inr f ↦ inr (inr f) ],
                )
              ]

scan_timeouts-IsNearest :
    (now : TimeVal) (cs : List Waiter) (tv : Option TimeVal) (s : Scheduler)
    → IsNearest now tv (scan_timeouts now cs tv s).queue (scan_timeouts now cs tv s).tv
unfolding scan_timeouts
scan_timeouts-IsNearest now [] tv s = (tt, λ u h. h, λ u e. inl e)
scan_timeouts-IsNearest now (c ∷ cs) tv s =
    elim (is_due now c)
      as (λ b.
        let r =
          scan_timeouts now cs
            (if b then tv else if c.wait_timeout then nearest (time_left now c.timeout) tv else tv)
            (if b then release c s else s) in
        IsNearest now tv (if b then r.queue else c ∷ r.queue) r.tv) [
          | true ↦ scan_timeouts-IsNearest now cs tv (release c s)
          | false ↦
              let start = if c.wait_timeout then nearest (time_left now c.timeout) tv else tv in
              let r = scan_timeouts now cs start s in
              IsNearest-stays now tv r.tv c r.queue (scan_timeouts-IsNearest now cs start s)
        ]

-- Up to select() a turn takes from the queue the connections that were cancelled or have less than
-- 20 ms left, and signals just these, in the order of the queue; the others stay, in their order.
-- The time for select() is the least that one of these has left, and where none of them has a
-- timeout there is none.
pub before_select_wakes :
    (now : TimeVal) (s : Scheduler)
    → let r = before_select now s in
      (r.sched.waitqueue ≡ filter (is_kept now) s.waitqueue)
      × (r.sched.signalled ≡ s.signalled ++ ids (filter (is_due now) s.waitqueue))
      × All (λ c. c.wait_timeout ≡ true → IsBy (time_left now c.timeout) r.tv) r.sched.waitqueue
      × ((u : TimeVal) → r.tv ≡ some u → IsEndOf now u r.sched.waitqueue)
unfolding before_select
before_select_wakes now s =
    let x = scan_timeouts-IsNearest now s.waitqueue none s in
    (
      scan_timeouts_queue now s.waitqueue none s,
      scan_timeouts_signals now s.waitqueue none s,
      x.0,
      λ u e. elim (x.2 u e) [ inl f ↦ cc | inr f ↦ f ],
    )
