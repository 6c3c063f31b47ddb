-- ===== src/Slon/Threads.antt =====
-- rtcfg_startStopNodeThread(), rtcfg_joinAllRemoteThreads() and the functions on last events of
-- src/slon/runtime_config.c. pthread_create() returns no negative number, so the branches for its
-- failure are never taken, and are left out.
pub mod Listener
use slony1_engine.Base.{Bool, true, false, ◌&&◌, none, some, List, [], ◌∷◌, ◌++◌}
use slony1_engine.Base.Int.{ℤ}
use slony1_engine.Slon.{
  ThreadStatus, tstat_none, running, shutdown, restart, done, SchedStatus, SlonNode, Action,
  create_worker, create_listen, join_listen, M, ◌>>=◌, ◌>>◌, return, get, modify, when, rtcfg_lock,
  rtcfg_unlock, find_node, update_node,
}
use slony1_engine.Slon.Wakeup.{sched_get_status, sched_wakeup_node}

-- SCHED_STATUS_OK
unfoldable pub is_ok : SchedStatus → Bool
is_ok SchedStatus.ok = true
is_ok _ = false

-- What a step makes of a node: its new value, the requests to the threads library, and whether the
-- node's threads need a wakeup.
pub record NodeStep : Type 0 where
  pub node : SlonNode
  pub requests : List Action
  pub need_wakeup : Bool

-- "Make sure the node worker exists": only a missing worker is started.
unfoldable pub start_worker : Bool → SlonNode → NodeStep
start_worker wanted node = elim wanted [
  | true ↦ elim node.worker_status [
    | tstat_none ↦ record {
      node = record node { worker_status = running };
      requests = create_worker node.no_id ∷ [];
      need_wakeup = false;
    }
    | _ ↦ record { node = node; requests = []; need_wakeup = false }
  ]
  | false ↦ record { node = node; requests = []; need_wakeup = false }
]

abbrev pub is_nonempty {ℓ} : {A : Type ℓ} → List A → Bool
is_nonempty [] = false
is_nonempty (x ∷ xs) = true

unfoldable pub need_listen : SlonNode → Bool
need_listen node = is_nonempty node.listen && node.no_active

abbrev to_status : SlonNode → ThreadStatus → List Action → Bool → NodeStep
to_status node st reqs wake = record {
  node = record node { listen_status = st };
  requests = reqs;
  need_wakeup = wake;
}

-- "Start or stop the remoteListenThread", by whether it is needed and by its status.
unfoldable pub listen_step : Bool → ThreadStatus → SlonNode → NodeStep
listen_step true tstat_none node = to_status node running (create_listen node.no_id ∷ []) false
listen_step true running node = to_status node running [] true
listen_step true shutdown node = to_status node restart [] true
listen_step true restart node = to_status node restart [] true
listen_step true done node = to_status node tstat_none (join_listen node.no_id ∷ []) false
listen_step false tstat_none node = to_status node tstat_none [] false
listen_step false running node = to_status node shutdown [] true
listen_step false shutdown node = to_status node shutdown [] true
listen_step false restart node = to_status node shutdown [] true
listen_step false done node = to_status node tstat_none (join_listen node.no_id ∷ []) false

-- The two steps of rtcfg_startStopNodeThread() on its node.
unfoldable pub start_stop : Bool → SlonNode → NodeStep
unfolding start_worker need_listen listen_step
start_stop sched_ok node =
    let w = start_worker (sched_ok && node.no_active) node in
    let l = listen_step (need_listen node) node.listen_status w.node in
    record { node = l.node; requests = w.requests ++ l.requests; need_wakeup = l.need_wakeup }

unfoldable pub start_stop_node_thread : ℤ → M (Unit {0})
unfolding is_ok rtcfg_lock rtcfg_unlock
start_stop_node_thread no_id = do
  rtcfg_lock
  status ← sched_get_status
  s ← get
  elim (find_node no_id s.node_list) [
    | none ↦ rtcfg_unlock
    | some node ↦ do
      modify (λ t. record t {
        node_list = update_node no_id (λ n. (start_stop (is_ok status) n).node) t.node_list;
        actions = t.actions ++ (start_stop (is_ok status) node).requests;
      })
      rtcfg_unlock
      when (start_stop (is_ok status) node).need_wakeup (sched_wakeup_node no_id >>= λ _. return tt)
  ]
