-- ===== src/Slon/Queue.antt =====
-- The message queue of a remote worker, src/slon/remote_worker.c: remoteWorker_event(),
-- remoteWorker_confirm(), and the take of remoteWorkerThread_main(). Each of these holds the node's
-- message lock over its whole use of the queue, so the queue changes in one step; the lock itself is
-- not modelled. The numbers of a confirmation are the ones that strtol() and slon_scanint64() read.
pub mod Rising
pub mod Changes
pub mod Order
pub mod Confirms
use Prim.Native.String.{String}
use slony1_engine.Base.{
  ℕ, Bool, true, false, not, ◌&&◌, ◌||◌, Option, none, some, List, [], ◌∷◌, ◌++◌, if◌then◌else◌,
}
use slony1_engine.Base.Int.{ℤ, ◌==ℤ◌, ltb_ℤ}
use slony1_engine.Slon.{
  ThreadStatus, tstat_none, EventMsg, ConfirmMsg, WorkMsg, wakeup, event, confirm, SlonNode,
  SlonState, M, ◌>>=◌, ◌>>◌, return, get, modify, when, act, rtcfg_lock, rtcfg_unlock, find_node,
  with_node, signal_worker,
}
use slony1_engine.Slon.Wakeup.{sched_get_status}
use slony1_engine.Slon.Threads.{is_ok}

-- An event is taken up if the engine runs, its origin is known and active, and it is newer than the
-- last one of its origin.
unfoldable pub remote_worker_event : EventMsg → M (Unit {0})
unfolding is_ok rtcfg_lock rtcfg_unlock sched_get_status
remote_worker_event msg = do
  status ← sched_get_status
  when (is_ok status) (do
    rtcfg_lock
    s ← get
    elim (find_node msg.ev_origin s.node_list) [
      | none ↦ rtcfg_unlock
      | some node ↦
          if not node.no_active || not (ltb_ℤ node.last_event msg.ev_seqno)
          then rtcfg_unlock
          else (do
            with_node msg.ev_origin (λ n. record n { last_event = msg.ev_seqno })
            rtcfg_unlock
            with_node msg.ev_origin (λ n. record n { messages = n.messages ++ event msg ∷ [] })
            act (signal_worker msg.ev_origin))
    ])

unfoldable pub same_pair : ConfirmMsg → ConfirmMsg → Bool
same_pair a b = a.con_origin ==ℤ b.con_origin && a.con_received ==ℤ b.con_received

-- The confirmation of the same origin and receiver that is queued.
unfoldable pub find_confirm : ConfirmMsg → List WorkMsg → Option ConfirmMsg
unfolding same_pair
find_confirm m [] = none
find_confirm m (confirm c ∷ msgs) = if same_pair c m then some c else find_confirm m msgs
find_confirm m (wakeup ∷ msgs) = find_confirm m msgs
find_confirm m (event e ∷ msgs) = find_confirm m msgs

unfoldable pub remove_confirm : ConfirmMsg → List WorkMsg → List WorkMsg
unfolding same_pair
remove_confirm m [] = []
remove_confirm m (confirm c ∷ msgs) =
    if same_pair c m then msgs else confirm c ∷ remove_confirm m msgs
remove_confirm m (wakeup ∷ msgs) = wakeup ∷ remove_confirm m msgs
remove_confirm m (event e ∷ msgs) = event e ∷ remove_confirm m msgs

-- An older confirmation of the pair is raised and moved to the head; a newer one stays; a new pair
-- goes to the head.
unfoldable pub queue_confirm : ConfirmMsg → List WorkMsg → List WorkMsg
unfolding find_confirm remove_confirm
queue_confirm m msgs = elim (find_confirm m msgs) [
  | none ↦ confirm m ∷ msgs
  | some old ↦
      if ltb_ℤ old.con_seqno m.con_seqno
      then (confirm (record old { con_seqno = m.con_seqno; con_timestamp = m.con_timestamp })
          ∷ remove_confirm m msgs)
      else msgs
]

abbrev is_none {ℓ} : {A : Type ℓ} → Option A → Bool
is_none none = true
is_none (some a) = false

-- Only a new message signals the worker.
unfoldable pub remote_worker_confirm : ℤ → ConfirmMsg → M (Unit {0})
unfolding queue_confirm rtcfg_lock rtcfg_unlock
remote_worker_confirm no_id m = do
  rtcfg_lock
  s ← get
  elim (find_node no_id s.node_list) [
    | none ↦ rtcfg_unlock
    | some node ↦ elim node.worker_status [
      | tstat_none ↦ rtcfg_unlock
      | _ ↦ do
        rtcfg_unlock
        with_node no_id (λ n. record n { messages = queue_confirm m n.messages })
        when (is_none (find_confirm m node.messages)) (act (signal_worker no_id))
    ]
  ]

-- The worker removes the head of its queue.
unfoldable pub take_message : List WorkMsg → Option (WorkMsg × List WorkMsg)
take_message [] = none
take_message (m ∷ msgs) = some (m, msgs)
