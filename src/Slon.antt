-- ===== src/Slon.antt =====
-- The state of a slon daemon that its threads share: src/slon/slon.h, the lists of
-- src/slon/runtime_config.c, the wait queue of src/slon/scheduler.c and the message queues of
-- src/slon/remote_worker.c, with the monad in which their functions are written.
-- A doubly linked list is a List. A node is named by its id: nodes are only ever appended, so a
-- `SlonNode *` stays the first node with its id. Strings are data; NULL is `none` where it may occur.
pub mod Wakeup
pub mod Threads
pub mod Nodes
pub mod Paths
pub mod Sets
pub mod Queue
pub mod Providers
pub mod Listat
pub mod Forward
pub mod Config
mod Examples
use Prim.Native.String.{String}
use slony1_engine.Base.{
  ℕ, ◌+◌, Bool, true, false, ◌||◌, ◌&&◌, Option, none, some, List, [], ◌∷◌, ◌++◌, if◌then◌else◌,
}
use slony1_engine.Base.Int.{ℤ, ◌==ℤ◌}

-- SlonThreadStatus
pub data ThreadStatus : Type 0 where
  tstat_none running shutdown restart done : ThreadStatus

-- ScheduleStatus
pub data SchedStatus : Type 0 where
  ok shutdown done cancel error : SchedStatus

-- SlonWorkMsg_event, with the payload columns in one list.
pub record EventMsg : Type 0 where
  pub event_provider : ℤ
  pub ev_origin : ℤ
  pub ev_seqno : ℤ
  pub ev_timestamp : String
  pub ev_snapshot : String
  pub ev_mintxid : String
  pub ev_maxtxid : String
  pub ev_type : String
  pub ev_data : List (Option String)

-- SlonWorkMsg_confirm
pub record ConfirmMsg : Type 0 where
  pub con_origin : ℤ
  pub con_received : ℤ
  pub con_seqno : ℤ
  pub con_timestamp : String

-- SlonWorkMsg, by its `msg_type`.
pub data WorkMsg : Type 0 where
  wakeup : WorkMsg
  event : EventMsg → WorkMsg
  confirm : ConfirmMsg → WorkMsg

-- SlonNode_s, less the archive fields; `listen` is the list of the `li_origin`.
pub record SlonNode : Type 0 where
  pub no_id : ℤ
  pub no_active : Bool
  pub no_comment : String
  pub pa_conninfo : Option String
  pub pa_connretry : ℤ
  pub last_event : ℤ
  pub last_snapshot : String
  pub listen_status : ThreadStatus
  pub listen : List ℤ
  pub worker_status : ThreadStatus
  pub messages : List WorkMsg

-- SlonSet_s
pub record SlonSet : Type 0 where
  pub set_id : ℤ
  pub set_origin : ℤ
  pub set_comment : String
  pub sub_provider : ℤ
  pub sub_forward : Bool
  pub sub_active : Bool

-- SlonConn_s, as the wait queue sees it: the node, and the bits of `condition`.
pub record SlonConn : Type 0 where
  pub conn_node : Option ℤ
  pub wait_read : Bool
  pub wait_write : Bool
  pub wait_timeout : Bool
  pub wait_cancel : Bool

-- What the threads library and the scheduler pipe are asked to do.
pub data Action : Type 0 where
  create_worker create_listen join_worker join_listen signal_worker : ℤ → Action
  write_pipe : Action

pub record SlonState : Type 0 where
  pub nodeid : ℤ
  pub cfgseq : ℕ
  pub node_list : List SlonNode
  pub set_list : List SlonSet
  pub to_activate : List ℤ
  pub config_lock : Bool
  pub sched_status : SchedStatus
  pub waitqueue : List SlonConn
  pub actions : List Action

-- How a call ends: it returns; it ends its thread by slon_retry(); or it waits for ever, since it
-- locks a mutex that it holds.
pub data Outcome {ℓ} (A : Type ℓ) : Type ℓ where
  returned : A → SlonState → Outcome A
  retried : SlonState → Outcome A
  deadlocked : Outcome A

abbrev pub M {ℓ} : Type ℓ → Type ℓ
M A = SlonState → Outcome A

infixl 5 ◌>>=◌ ◌>>◌
abbrev pub ◌>>=◌ {ℓ κ} : {A : Type ℓ} {B : Type κ} → M A → (A → M B) → M B
◌>>=◌ m f s = elim (m s) [ returned a t ↦ f a t | retried t ↦ retried t | deadlocked ↦ deadlocked ]

abbrev pub ◌>>◌ {ℓ} : {B : Type ℓ} → M (Unit {0}) → M B → M B
m >> k = m >>= λ _. k

abbrev pub return {ℓ} : {A : Type ℓ} → A → M A
return a s = returned a s

abbrev pub get : M SlonState
get s = returned s s

abbrev pub modify : (SlonState → SlonState) → M (Unit {0})
modify f s = returned tt (f s)

abbrev pub when : Bool → M (Unit {0}) → M (Unit {0})
when true m = m
when false m = return tt

abbrev pub act : Action → M (Unit {0})
act a = modify λ s. record s { actions = s.actions ++ a ∷ [] }

-- slon_retry(): the watchdog is told to restart the worker, and the thread exits.
abbrev pub slon_retry {ℓ} : {A : Type ℓ} → M A
slon_retry s = retried s

-- rtcfg_lock() on a default mutex, by the thread that may hold it.
unfoldable pub rtcfg_lock : M (Unit {0})
rtcfg_lock s = elim s.config_lock [
  | true ↦ deadlocked
  | false ↦ returned tt (record s { config_lock = true })
]

unfoldable pub rtcfg_unlock : M (Unit {0})
rtcfg_unlock s = returned tt (record s { config_lock = false })

unfoldable pub rtcfg_seq_bump : M (Unit {0})
rtcfg_seq_bump s = returned tt (record s { cfgseq = s.cfgseq + 1 })

unfoldable pub rtcfg_seq_get : M ℕ
rtcfg_seq_get s = returned s.cfgseq s

-- rtcfg_findNode()
unfoldable pub find_node : ℤ → List SlonNode → Option SlonNode
find_node i [] = none
find_node i (n ∷ ns) = if n.no_id ==ℤ i then some n else find_node i ns

-- A store through the pointer that rtcfg_findNode() returned.
unfoldable pub update_node : ℤ → (SlonNode → SlonNode) → List SlonNode → List SlonNode
update_node i f [] = []
update_node i f (n ∷ ns) = if n.no_id ==ℤ i then f n ∷ ns else n ∷ update_node i f ns

abbrev pub with_node : ℤ → (SlonNode → SlonNode) → M (Unit {0})
with_node i f = modify λ s. record s { node_list = update_node i f s.node_list }
