-- ===== src/Slon/Queue/Changes.antt =====
-- How the calls that touch a queue of src/slon/remote_worker.c change the node list, and what that
-- shows of a node.
use slony1_engine.Base.{
  ◌≡◌, ◌≢◌, refl, ◌⊎◌, inl, inr, ◌&&◌, Option, none, some, List, [], ◌∷◌, ◌++◌, if◌then◌else◌,
  arith, Option-cases, Bool-cases,
}
use slony1_engine.Base.Int.{ℤ, ◌==ℤ◌, ==ℤ_iff, ltb_ℤ}
use slony1_engine.Slon.{
  ThreadStatus, tstat_none, EventMsg, ConfirmMsg, WorkMsg, wakeup, event, SlonNode, SlonState,
  returned, find_node, update_node,
}
use slony1_engine.Slon.Wakeup.{remote_worker_wakeup}
use slony1_engine.Slon.Threads.{is_ok}
use slony1_engine.Slon.Nodes.{set_node_last_event}
use slony1_engine.Slon.Queue.{remote_worker_event, remote_worker_confirm, queue_confirm}
use slony1_engine.Slon.Queue.Rising.{◌<ℤ◌}

-- What is known of a node here: its last event and its queue.
abbrev pub queue_of : ℤ → SlonState → Option (ℤ × List WorkMsg)
queue_of i s = elim (find_node i s.node_list) [
  | none ↦ none
  | some n ↦ some (n.last_event, n.messages)
]

pub find_node-update_node :
    (i j : ℤ) (f : SlonNode → SlonNode) (ns : List SlonNode)
    → ((n : SlonNode) → (f n).no_id ≡ n.no_id)
    → find_node i (update_node j f ns)
      ≡ elim (find_node i ns) [ none ↦ none | some n ↦ some (if i ==ℤ j then f n else n) ]
unfolding find_node update_node
find_node-update_node i j f [] h = refl
find_node-update_node i j f (n ∷ ns) h = ground (
  arith,
  find_node-update_node i j f ns h,
  h n,
  ==ℤ_iff n.no_id i,
  ==ℤ_iff n.no_id j,
  ==ℤ_iff i j,
)

pub started_cases : (st : ThreadStatus) → (st ≡ tstat_none) ⊎ (st ≢ tstat_none)
started_cases tstat_none = inl refl
started_cases _ = inr (λ e. cc)

-- How a delivered event enters the node list: not at all, or at a known node whose last event is older.
pub event-node_list :
    (msg : EventMsg) (s t : SlonState)
    → remote_worker_event msg s ≡ returned tt t
    → (t.node_list ≡ s.node_list)
      ⊎ ((n : SlonNode) × (find_node msg.ev_origin s.node_list ≡ some n)
          × (n.last_event <ℤ msg.ev_seqno)
          × (t.node_list
              ≡ update_node msg.ev_origin
                  (λ n. record n { messages = n.messages ++ event msg ∷ [] })
                  (update_node msg.ev_origin
                    (λ n. record n { last_event = msg.ev_seqno })
                    s.node_list)))
unfolding remote_worker_event
event-node_list msg s t h = elim (Bool-cases (is_ok s.sched_status)) [
  | inr stopped ↦ inl (ground arith)
  | inl ok ↦ elim (Option-cases (find_node msg.ev_origin s.node_list)) [
    | inl missing ↦ inl (ground arith)
    | inr (n, found) ↦ elim (Bool-cases (n.no_active && ltb_ℤ n.last_event msg.ev_seqno)) [
      | inl new ↦ inr (n, found, ground arith, ground arith)
      | inr old ↦ inl (ground arith)
    ]
  ]
]

-- The view of a node after two updates of one.
pub view_updates :
    (i j : ℤ) (f g : SlonNode → SlonNode) (s t : SlonState) (n : SlonNode)
    → ((n : SlonNode) → (f n).no_id ≡ n.no_id)
    → ((n : SlonNode) → (g n).no_id ≡ n.no_id)
    → find_node j s.node_list ≡ some n
    → t.node_list ≡ update_node j g (update_node j f s.node_list)
    → queue_of i t
      ≡ (if i ==ℤ j then some ((g (f n)).last_event, (g (f n)).messages) else queue_of i s)
view_updates i j f g s t n hf hg found e = ground (
  arith,
  find_node-update_node i j g (update_node j f s.node_list) hg,
  find_node-update_node i j f s.node_list hf,
  ==ℤ_iff i j,
)

pub view_update :
    (i j : ℤ) (f : SlonNode → SlonNode) (s t : SlonState) (n : SlonNode)
    → ((n : SlonNode) → (f n).no_id ≡ n.no_id)
    → find_node j s.node_list ≡ some n
    → t.node_list ≡ update_node j f s.node_list
    → queue_of i t ≡ (if i ==ℤ j then some ((f n).last_event, (f n).messages) else queue_of i s)
view_update i j f s t n hf found e =
    ground (arith, find_node-update_node i j f s.node_list hf, ==ℤ_iff i j)

pub confirm-node_list :
    (j : ℤ) (m : ConfirmMsg) (s t : SlonState)
    → remote_worker_confirm j m s ≡ returned tt t
    → (t.node_list ≡ s.node_list)
      ⊎ ((n : SlonNode) × (find_node j s.node_list ≡ some n)
          × (t.node_list
              ≡ update_node j
                  (λ n. record n { messages = queue_confirm m n.messages })
                  s.node_list))
unfolding remote_worker_confirm
confirm-node_list j m s t h = elim (Option-cases (find_node j s.node_list)) [
  | inl missing ↦ inl (ground arith)
  | inr (n, found) ↦ elim (started_cases n.worker_status) [
    | inl unstarted ↦ inl (ground arith)
    | inr started ↦ inr (n, found, ground arith)
  ]
]

pub wakeup-node_list :
    (j : ℤ) (s t : SlonState)
    → remote_worker_wakeup j s ≡ returned tt t
    → (t.node_list ≡ s.node_list)
      ⊎ ((n : SlonNode) × (find_node j s.node_list ≡ some n)
          × (t.node_list
              ≡ update_node j (λ n. record n { messages = wakeup ∷ n.messages }) s.node_list))
unfolding remote_worker_wakeup
wakeup-node_list j s t h = elim (Bool-cases (j ==ℤ s.nodeid)) [
  | inl own ↦ inl (ground arith)
  | inr other ↦ elim (Option-cases (find_node j s.node_list)) [
    | inl missing ↦ inl (ground arith)
    | inr (n, found) ↦ elim (started_cases n.worker_status) [
      | inl unstarted ↦ inl (ground arith)
      | inr started ↦ inr (n, found, ground arith)
    ]
  ]
]

pub last_event-node_list :
    (j e a : ℤ) (s t : SlonState)
    → set_node_last_event j e s ≡ returned a t
    → (t.node_list ≡ s.node_list)
      ⊎ ((n : SlonNode) × (find_node j s.node_list ≡ some n)
          × (n.last_event <ℤ e)
          × (t.node_list ≡ update_node j (λ n. record n { last_event = e }) s.node_list))
unfolding set_node_last_event
last_event-node_list j e a s t h = elim (Option-cases (find_node j s.node_list)) [
  | inl missing ↦ inl (ground arith)
  | inr (n, found) ↦ elim (Bool-cases (ltb_ℤ n.last_event e)) [
    | inl newer ↦ inr (n, found, ground arith, ground arith)
    | inr older ↦ inl (ground arith)
  ]
]
