-- ===== src/Slon/Wakeup.antt =====
-- sched_wakeup_node() and sched_get_status() of src/slon/scheduler.c, and remoteWorker_wakeup() of
-- src/slon/remote_worker.c. The scheduler's own mutex is taken and released inside each of these
-- functions, with no call of ours between, and is not modelled.
use slony1_engine.Base.{
  ℕ, ◌+◌, Bool, true, false, not, ◌||◌, none, some, List, [], ◌∷◌, ◌==◌, if◌then◌else◌, map,
}
use slony1_engine.Base.Int.{ℤ, ◌==ℤ◌, is_negative}
use slony1_engine.Slon.{
  tstat_none, SchedStatus, wakeup, SlonConn, M, ◌>>=◌, ◌>>◌, return, get, modify, when, act,
  rtcfg_lock, rtcfg_unlock, find_node, with_node, write_pipe, signal_worker,
}

unfoldable pub sched_get_status : M SchedStatus
sched_get_status = get >>= λ s. return s.sched_status

-- The waiters that a wakeup of `no_id` cancels: those of the node, or of every node if it is negative.
unfoldable pub is_woken : ℤ → SlonConn → Bool
is_woken no_id c = elim c.conn_node [ none ↦ false | some n ↦ is_negative no_id || n ==ℤ no_id ]

unfoldable pub cancel_waiter : ℤ → SlonConn → SlonConn
unfolding is_woken
cancel_waiter no_id c = if is_woken no_id c then record c { wait_cancel = true } else c

unfoldable pub count_woken : ℤ → List SlonConn → ℕ
unfolding is_woken
count_woken no_id [] = 0
count_woken no_id (c ∷ cs) =
    if is_woken no_id c then count_woken no_id cs + 1 else count_woken no_id cs

-- The worker of the own node does not exist; a node with no worker gets no message.
unfoldable pub remote_worker_wakeup : ℤ → M (Unit {0})
unfolding rtcfg_lock rtcfg_unlock
remote_worker_wakeup no_id = do
  s ← get
  when (not (no_id ==ℤ s.nodeid)) (do
    rtcfg_lock
    t ← get
    elim (find_node no_id t.node_list) [
      | none ↦ rtcfg_unlock
      | some node ↦ elim node.worker_status [
        | tstat_none ↦ rtcfg_unlock
        | _ ↦ do
          rtcfg_unlock
          with_node no_id (λ n. record n { messages = wakeup ∷ n.messages })
          act (signal_worker no_id)
      ]
    ])

unfoldable pub sched_wakeup_node : ℤ → M ℕ
unfolding cancel_waiter count_woken
sched_wakeup_node no_id = do
  s ← get
  modify (λ t. record t { waitqueue = map (cancel_waiter no_id) t.waitqueue })
  when (not (count_woken no_id s.waitqueue == 0)) (act write_pipe)
  remote_worker_wakeup no_id
  return (count_woken no_id s.waitqueue)
