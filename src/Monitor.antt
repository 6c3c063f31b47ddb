-- ===== src/Monitor.antt =====
-- The stack of states that the threads of slon leave for the monitor thread to write down:
-- stack_init(), monitor_state() and stack_pop() of src/slon/monitor_thread.c. An access out of the
-- allocated slots and a measured NULL end in `none`. The last entry stands first in the list, so
-- that the code's `stack_size`, an index, is one less than its length.
pub mod Stack
mod Examples
use slony1_engine.Base.{
  ℕ, suc, ◌+◌, ◌*◌, Bool, true, false, ◌&&◌, Option, none, some, List, [], ◌∷◌, if◌then◌else◌,
  length, leb, ◌==◌,
}
use slony1_engine.Base.Int.{ℤ}

-- SlonState_s
pub record ThreadState : Type 0 where
  pub actor : Option (List ℕ)
  pub pid : ℤ
  pub node : ℤ
  pub conn_pid : ℤ
  pub activity : Option (List ℕ)
  pub start_time : ℤ
  pub event : ℤ
  pub event_type : Option (List ℕ)

-- `is_allocated` says that mstack is not NULL; it has stack_maxlength + 1 slots then.
pub record Monitor : Type 0 where
  pub is_allocated : Bool
  pub stack_maxlength : ℕ
  pub mstack : List ThreadState

unfoldable pub initial : Monitor
initial = record { is_allocated = false; stack_maxlength = 1; mstack = [] }

-- malloc() and realloc() succeed: otherwise slon retries.
unfoldable pub stack_init : Monitor → Monitor
stack_init m = record { is_allocated = true; stack_maxlength = 6; mstack = [] }

unfoldable pub allocate : Monitor → Monitor
unfolding stack_init
allocate m = if m.is_allocated then m else stack_init m

-- "Need to reallocate stack": `stack_size >= stack_maxlength`
unfoldable pub reallocate : Monitor → Monitor
reallocate m =
    if leb (suc m.stack_maxlength) (length m.mstack)
    then record m { stack_maxlength = m.stack_maxlength * 2 }
    else m

-- strncmp(actor, other, strlen(actor)) == 0
unfoldable pub begins_with : List ℕ → List ℕ → Bool
begins_with [] other = true
begins_with (c ∷ cs) [] = false
begins_with (c ∷ cs) (d ∷ ds) = c == d && begins_with cs ds

-- "if actor matches, then we can do an in-place update": what stays below the new entry.
unfoldable pub below_entry : Option (List ℕ) → List ThreadState → Option (List ThreadState)
unfolding begins_with
below_entry actor [] = some []
below_entry none (tos ∷ rest) = none
below_entry (some a) (tos ∷ rest) = elim tos.actor [
  | none ↦ none
  | some b ↦ some (if begins_with a b then rest else tos ∷ rest)
]

-- The entry is written to the slot of the new stack_size.
unfoldable pub write_entry : ThreadState → Monitor → Option Monitor
unfolding below_entry
write_entry x m = elim (below_entry x.actor m.mstack) [
  | none ↦ none
  | some rest ↦
      if leb (length rest) m.stack_maxlength then some (record m { mstack = x ∷ rest }) else none
]

-- The entry has the time and the process of the call.
unfoldable pub monitor_state : Bool → ThreadState → Monitor → Option Monitor
unfolding allocate reallocate write_entry
monitor_state monitor_threads x m =
    if monitor_threads then write_entry x (reallocate (allocate m)) else some m

-- The entry, unless the stack is empty, and the stack without it.
unfoldable pub stack_pop : Monitor → Option ThreadState × Monitor
stack_pop m = elim m.mstack [ [] ↦ (none, m) | x ∷ rest ↦ (some x, record m { mstack = rest }) ]
