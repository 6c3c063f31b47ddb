-- ===== src/Monitor/Stack.antt =====
-- The stack of src/slon/monitor_thread.c stays within its slots, and gives back what was stored.
use slony1_engine.Base.{
  suc, ◌≤◌, ◌<◌, ◌≡◌, Bool, true, false, Option, none, some, List, [], ◌∷◌, if◌then◌else◌, length,
  leb, arith, All, Option-cases, Bool-cases, inl, inr,
}
use slony1_engine.Monitor.{
  ThreadState, Monitor, initial, stack_init, allocate, reallocate, below_entry, write_entry,
  monitor_state, stack_pop,
}

abbrev pub IsNamed : ThreadState → Type 0
IsNamed x = elim x.actor [ none ↦ ⊥ | some a ↦ Unit ]

-- The entries have actors, and fit into the slots.
pub record IsSound (m : Monitor) : Type 0 where
  pub positive : 0 < m.stack_maxlength
  pub fits : length m.mstack ≤ suc m.stack_maxlength
  pub named : All IsNamed m.mstack

pub data Op : Type 0 where
  state : Bool → ThreadState → Op
  pop : Op

abbrev pub IsNamedOp : Op → Type 0
IsNamedOp (state b x) = IsNamed x
IsNamedOp pop = Unit

unfoldable pub run : Op → Monitor → Option Monitor
unfolding monitor_state stack_pop
run (state b x) m = monitor_state b x m
run pop m = some (stack_pop m).1

-- The calls of the threads, in the order of stack_lock.
unfoldable pub run_all : List Op → Monitor → Option Monitor
unfolding run
run_all [] m = some m
run_all (op ∷ ops) m = elim (run op m) [ none ↦ none | some n ↦ run_all ops n ]

abbrev pub EndsSound : Option Monitor → Type 0
EndsSound none = ⊥
EndsSound (some m) = IsSound m

allocate-IsSound : (m : Monitor) → IsSound m → IsSound (allocate m)
unfolding allocate stack_init
allocate-IsSound m s = elim m.is_allocated as (λ b. IsSound (if b then m else stack_init m)) [
  | true ↦ s
  | false ↦ record { positive = omega arith; fits = omega arith; named = tt }
]

-- There is a free slot afterwards.
reallocate-IsSound :
    (m : Monitor)
    → IsSound m
    → IsSound (reallocate m) × (length (reallocate m).mstack ≤ (reallocate m).stack_maxlength)
unfolding reallocate
reallocate-IsSound m s = elim (Bool-cases (leb (suc m.stack_maxlength) (length m.mstack))) [
  | inl full ↦ rw full (
    record {
      positive = omega (arith, s.positive);
      fits = omega (arith, s.positive, s.fits);
      named = s.named;
    },
    omega (arith, s.positive, s.fits),
  )
  | inr free ↦ rw free (s, ground arith)
]

write_entry-IsSound :
    (x : ThreadState) (m : Monitor)
    → IsNamed x
    → IsSound m
    → length m.mstack ≤ m.stack_maxlength
    → EndsSound (write_entry x m)
unfolding write_entry below_entry
write_entry-IsSound x m n s f = ground arith

monitor_state-EndsSound :
    (b : Bool) (x : ThreadState) (m : Monitor)
    → IsNamed x
    → IsSound m
    → EndsSound (monitor_state b x m)
unfolding monitor_state
monitor_state-EndsSound true x m n s =
    let ready = reallocate-IsSound (allocate m) (allocate-IsSound m s) in
    write_entry-IsSound x (reallocate (allocate m)) n ready.0 ready.1
monitor_state-EndsSound false x m n s = s

stack_pop-IsSound : (m : Monitor) → IsSound m → IsSound (stack_pop m).1
unfolding stack_pop
stack_pop-IsSound m s =
    elim m.mstack
        as (λ xs.
          length xs ≤ suc m.stack_maxlength
          → All IsNamed xs
          → IsSound
              (elim xs as (λ ys. Option ThreadState × Monitor) [
                | [] ↦ (none, m)
                | x ∷ rest ↦ (some x, record m { mstack = rest })
              ]).1) [
                | [] ↦ λ f n. s
                | x ∷ rest ↦
                    λ f n. record { positive = s.positive; fits = omega (arith, f); named = n.1 }
              ]
      s.fits s.named

run-EndsSound : (op : Op) (m : Monitor) → IsNamedOp op → IsSound m → EndsSound (run op m)
unfolding run
run-EndsSound (state b x) m n s = monitor_state-EndsSound b x m n s
run-EndsSound pop m n s = stack_pop-IsSound m s

run_all-EndsSound :
    (ops : List Op) (m : Monitor) → All IsNamedOp ops → IsSound m → EndsSound (run_all ops m)
unfolding run_all
run_all-EndsSound [] m n s = s
run_all-EndsSound (op ∷ ops) m n s =
    go (run op m) (run-EndsSound op m n.0 s) (λ k t. run_all-EndsSound ops k n.1 t)
  where
    go :
        (r : Option Monitor)
        → EndsSound r
        → ((k : Monitor) → IsSound k → EndsSound (run_all ops k))
        → EndsSound (elim r [ none ↦ none | some k ↦ run_all ops k ])
    go none e ih = e
    go (some k) e ih = ih k e

-- From the start, any calls and pops with actors that are not NULL, in any order: each is carried out
-- within the allocated slots, and there are never more entries than slots.
pub run_all-initial : (ops : List Op) → All IsNamedOp ops → EndsSound (run_all ops initial)
unfolding initial
run_all-initial ops n =
    run_all-EndsSound ops initial n
      (record { positive = omega arith; fits = omega arith; named = tt })

-- What a call leaves of the stack: an entry on top whose actor's name begins with the new one's is
-- replaced, and every other one stays below the new entry. The next pop gives the new entry.
pub stack_pop-write_entry :
    (x : ThreadState) (m n : Monitor)
    → write_entry x m ≡ some n
    → ((stack_pop n).0 ≡ some x) × (below_entry x.actor m.mstack ≡ some (stack_pop n).1.mstack)
unfolding write_entry stack_pop
stack_pop-write_entry x m n h = elim (Option-cases (below_entry x.actor m.mstack)) [
  | inl bad ↦ absurd (ground arith)
  | inr (rest, ok) ↦ ground arith
]
