-- ===== src/Slon/Nodes.antt =====
-- The nodes of src/slon/runtime_config.c: rtcfg_storeNode() to rtcfg_disableNode(), the activation
-- queue, and rtcfg_joinAllRemoteThreads(). Log lines are left out; malloc() succeeds.
use Prim.Native.String.{String}
use slony1_engine.Base.{Bool, true, false, Option, none, some, List, [], ◌∷◌, ◌++◌, if◌then◌else◌}
use slony1_engine.Base.Int.{ℤ, pos, negsuc, ltb_ℤ}
use slony1_engine.Slon.{
  ThreadStatus, tstat_none, shutdown, done, SlonNode, join_worker, join_listen, M, ◌>>=◌, ◌>>◌,
  return, get, modify, when, act, slon_retry, rtcfg_lock, rtcfg_unlock, rtcfg_seq_bump, find_node,
  with_node,
}
use slony1_engine.Slon.Wakeup.{sched_wakeup_node, remote_worker_wakeup}
use slony1_engine.Slon.Threads.{start_stop_node_thread}

-- The node that memset() and the assignments of rtcfg_storeNode() make.
unfoldable pub new_node : ℤ → String → SlonNode
new_node no_id comment = record {
  no_id = no_id;
  no_active = false;
  no_comment = comment;
  pa_conninfo = none;
  pa_connretry = pos 0;
  last_event = pos 0;
  last_snapshot = "1:1:";
  listen_status = tstat_none;
  listen = [];
  worker_status = tstat_none;
  messages = [];
}

unfoldable pub store_node : ℤ → String → M (Unit {0})
unfolding new_node rtcfg_lock rtcfg_unlock rtcfg_seq_bump
store_node no_id comment = do
  rtcfg_lock
  s ← get
  elim (find_node no_id s.node_list) [
    | some node ↦ do with_node no_id (λ n. record n { no_comment = comment }); rtcfg_unlock
    | none ↦ do
      modify (λ t. record t { node_list = t.node_list ++ new_node no_id comment ∷ [] })
      rtcfg_unlock
      rtcfg_seq_bump
  ]

-- Returns 0 if the event is not newer than the known one, -1 if the node is unknown.
unfoldable pub set_node_last_event : ℤ → ℤ → M ℤ
unfolding rtcfg_lock rtcfg_unlock
set_node_last_event no_id event_seq = do
  rtcfg_lock
  s ← get
  elim (find_node no_id s.node_list) [
    | none ↦ do rtcfg_unlock; return (negsuc 0)
    | some node ↦
        if ltb_ℤ node.last_event event_seq
        then (do
          with_node no_id (λ n. record n { last_event = event_seq })
          rtcfg_unlock
          return event_seq)
        else (do rtcfg_unlock; return (pos 0))
  ]

unfoldable pub get_node_last_event : ℤ → M ℤ
unfolding rtcfg_lock rtcfg_unlock
get_node_last_event no_id = do
  rtcfg_lock
  s ← get
  rtcfg_unlock
  return (elim (find_node no_id s.node_list) [ none ↦ negsuc 0 | some node ↦ node.last_event ])

-- NULL and the empty snapshot stand for the first one.
unfoldable pub snapshot_or_first : Option String → String
snapshot_or_first none = "1:1:"
snapshot_or_first (some String.[]) = "1:1:"
snapshot_or_first (some (String.◌∷◌ c s)) = String.◌∷◌ c s

unfoldable pub set_node_last_snapshot : ℤ → Option String → M (Unit {0})
unfolding snapshot_or_first rtcfg_lock rtcfg_unlock
set_node_last_snapshot no_id snapshot = do
  rtcfg_lock
  with_node no_id (λ n. record n { last_snapshot = snapshot_or_first snapshot })
  rtcfg_unlock

unfoldable pub get_node_last_snapshot : ℤ → M (Option String)
unfolding rtcfg_lock rtcfg_unlock
get_node_last_snapshot no_id = do
  rtcfg_lock
  s ← get
  rtcfg_unlock
  return (elim (find_node no_id s.node_list) [ none ↦ none | some node ↦ some node.last_snapshot ])

unfoldable pub enable_node : ℤ → M (Unit {0})
unfolding rtcfg_lock rtcfg_unlock rtcfg_seq_bump
enable_node no_id = do
  rtcfg_lock
  s ← get
  elim (find_node no_id s.node_list) [
    | none ↦ do rtcfg_unlock; slon_retry
    | some node ↦ do
      with_node no_id (λ n. record n { no_active = true })
      rtcfg_unlock
      rtcfg_seq_bump
      start_stop_node_thread no_id
  ]

unfoldable pub disable_node : ℤ → M (Unit {0})
unfolding rtcfg_lock rtcfg_unlock rtcfg_seq_bump
disable_node no_id = do
  rtcfg_lock
  s ← get
  elim (find_node no_id s.node_list) [
    | none ↦ do rtcfg_unlock; slon_retry
    | some node ↦ do
      with_node no_id (λ n. record n { no_active = false })
      rtcfg_unlock
      rtcfg_seq_bump
  ]

unfoldable pub need_activate : ℤ → M (Unit {0})
need_activate no_id = modify λ s. record s { to_activate = s.to_activate ++ no_id ∷ [] }

-- The loop of rtcfg_doActivate() over the queue it finds; each node leaves the queue when enabled.
unfoldable pub activate_all : List ℤ → M (Unit {0})
activate_all [] = return tt
activate_all (i ∷ is) = do
  enable_node i
  modify (λ s. record s { to_activate = is })
  activate_all is

unfoldable pub do_activate : M (Unit {0})
do_activate = get >>= λ s. activate_all s.to_activate

-- Whether rtcfg_joinAllRemoteThreads() has a thread to join.
unfoldable pub is_started : ThreadStatus → Bool
is_started tstat_none = false
is_started _ = true

-- Every status but NONE and DONE is set to SHUTDOWN before the join.
unfoldable pub shut : ThreadStatus → ThreadStatus
shut tstat_none = tstat_none
shut done = done
shut _ = shutdown

unfoldable pub join_listener : SlonNode → M (Unit {0})
unfolding is_started shut rtcfg_lock rtcfg_unlock
join_listener node = when (is_started node.listen_status) (do
  with_node node.no_id (λ n. record n { listen_status = shut n.listen_status })
  rtcfg_unlock
  sched_wakeup_node node.no_id >>= λ _. return tt
  act (join_listen node.no_id)
  rtcfg_lock
  with_node node.no_id (λ n. record n { listen_status = tstat_none }))

unfoldable pub join_worker_thread : SlonNode → M (Unit {0})
unfolding is_started shut rtcfg_lock rtcfg_unlock
join_worker_thread node = when (is_started node.worker_status) (do
  with_node node.no_id (λ n. record n { worker_status = shut n.worker_status })
  rtcfg_unlock
  remote_worker_wakeup node.no_id
  act (join_worker node.no_id)
  rtcfg_lock
  with_node node.no_id (λ n. record n { worker_status = tstat_none }))

-- The walk over the node list, whose nodes keep their ids and statuses of other nodes.
unfoldable pub join_nodes : List SlonNode → M (Unit {0})
join_nodes [] = return tt
join_nodes (node ∷ nodes) = do join_listener node; join_worker_thread node; join_nodes nodes

unfoldable pub join_all_remote_threads : M (Unit {0})
unfolding rtcfg_lock rtcfg_unlock
join_all_remote_threads = do rtcfg_lock; s ← get; join_nodes s.node_list; rtcfg_unlock
