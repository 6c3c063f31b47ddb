-- ===== src/Monitor/Examples.antt =====
-- Two calls and a pop on the stack of src/slon/monitor_thread.c.
use slony1_engine.Base.{true, false, none, some, List, [], ◌∷◌}
use slony1_engine.Base.Int.{pos}
use slony1_engine.Monitor.{ThreadState, initial}
use slony1_engine.Monitor.Stack.{Op, state, pop, EndsSound, run_all, run_all-initial}

abbrev sync_state : ThreadState
sync_state = record {
  actor = some (b's' ∷ b'y' ∷ b'n' ∷ b'c' ∷ []);
  pid = pos 100;
  node = pos 1;
  conn_pid = pos 7;
  activity = none;
  start_time = pos 0;
  event = pos 5;
  event_type = none;
}

abbrev ops : List Op
ops = state true sync_state ∷ state false sync_state ∷ state true sync_state ∷ pop ∷ pop ∷ []

run_all-initial_example : EndsSound (run_all ops initial)
run_all-initial_example = run_all-initial ops (tt, (tt, (tt, (tt, (tt, tt)))))
