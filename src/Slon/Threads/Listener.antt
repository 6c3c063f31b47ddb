-- ===== src/Slon/Threads/Listener.antt =====
-- What rtcfg_startStopNodeThread() of src/slon/runtime_config.c makes of the threads of a node, when
-- it is called again and again.
use slony1_engine.Base.{
  ℕ, ◌+◌, ◌≤◌, ◌≡◌, refl, ap, ◌∙◌, Bool, true, false, ◌&&◌, List, [], ◌∷◌, ◌++◌, arith,
}
use slony1_engine.Slon.{
  ThreadStatus, tstat_none, running, shutdown, restart, done, SlonNode, Action, create_worker,
  create_listen, join_worker, join_listen, signal_worker, write_pipe,
}
use slony1_engine.Slon.Threads.{start_worker, need_listen, listen_step, start_stop}

-- A listener that is needed runs, or restarts; one that is not needed is gone, or shuts down.
abbrev pub is_settled : Bool → ThreadStatus → Bool
is_settled true running = true
is_settled true restart = true
is_settled false tstat_none = true
is_settled false shutdown = true
is_settled _ _ = false

listen_step_twice :
    (b : Bool) (st : ThreadStatus) (n m : SlonNode)
    → is_settled b (listen_step b (listen_step b st n).node.listen_status m).node.listen_status
      ≡ true
unfolding listen_step
listen_step_twice true tstat_none n m = refl
listen_step_twice true running n m = refl
listen_step_twice true shutdown n m = refl
listen_step_twice true restart n m = refl
listen_step_twice true done n m = refl
listen_step_twice false tstat_none n m = refl
listen_step_twice false running n m = refl
listen_step_twice false shutdown n m = refl
listen_step_twice false restart n m = refl
listen_step_twice false done n m = refl

need_listen-start_stop :
    (ok : Bool) (n : SlonNode) → need_listen (start_stop ok n).node ≡ need_listen n
unfolding start_stop need_listen start_worker listen_step
need_listen-start_stop ok n = ground arith

-- Two calls settle the listener of a node, whatever its status was: if it is needed it runs or
-- restarts, and if not it is gone or shuts down. One call is not enough for a listener that is done
-- but needed, which the first call joins and the second one starts.
pub is_settled-start_stop :
    (ok : Bool) (n : SlonNode)
    → is_settled (need_listen n) (start_stop ok (start_stop ok n).node).node.listen_status ≡ true
unfolding start_stop
is_settled-start_stop ok n =
    let m = (start_stop ok n).node in
    let w = (start_worker (ok && n.no_active) n).node in
    let v = (start_worker (ok && m.no_active) m).node in
    ap (λ b. is_settled (need_listen n) (listen_step b m.listen_status v).node.listen_status)
      (need_listen-start_stop ok n)
    ∙ listen_step_twice (need_listen n) n.listen_status w v

-- The requests of a series of calls, with the status of the scheduler at each.
unfoldable pub requests_of : List Bool → SlonNode → List Action
requests_of [] n = []
requests_of (ok ∷ oks) n = (start_stop ok n).requests ++ requests_of oks (start_stop ok n).node

abbrev pub workers : List Action → ℕ
workers [] = 0
workers (create_worker i ∷ xs) = workers xs + 1
workers (create_listen i ∷ xs) = workers xs
workers (join_worker i ∷ xs) = workers xs
workers (join_listen i ∷ xs) = workers xs
workers (signal_worker i ∷ xs) = workers xs
workers (write_pipe ∷ xs) = workers xs

-- A worker that may still be started.
abbrev pub missing : ThreadStatus → ℕ
missing tstat_none = 1
missing _ = 0

workers-append : (xs ys : List Action) → workers (xs ++ ys) ≡ workers xs + workers ys
workers-append [] ys = omega arith
workers-append (create_worker i ∷ xs) ys = ground (arith, workers-append xs ys)
workers-append (create_listen i ∷ xs) ys = workers-append xs ys
workers-append (join_worker i ∷ xs) ys = workers-append xs ys
workers-append (join_listen i ∷ xs) ys = workers-append xs ys
workers-append (signal_worker i ∷ xs) ys = workers-append xs ys
workers-append (write_pipe ∷ xs) ys = workers-append xs ys

workers-start_stop :
    (ok : Bool) (n : SlonNode)
    → workers (start_stop ok n).requests + missing (start_stop ok n).node.worker_status
      ≤ missing n.worker_status
unfolding start_stop start_worker listen_step
workers-start_stop ok n = ground arith

-- However often the threads of a node are started and stopped, its worker is created at most once,
-- and never where it already has one.
pub workers-requests_of :
    (oks : List Bool) (n : SlonNode) → workers (requests_of oks n) ≤ missing n.worker_status
unfolding requests_of
workers-requests_of [] n = omega arith
workers-requests_of (ok ∷ oks) n = omega (
  arith,
  workers-append (start_stop ok n).requests (requests_of oks (start_stop ok n).node),
  workers-start_stop ok n,
  workers-requests_of oks (start_stop ok n).node,
)
