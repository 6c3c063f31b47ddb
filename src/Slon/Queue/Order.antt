-- ===== src/Slon/Queue/Order.antt =====
-- The events of an origin reach its remote worker once and in ascending order, however the listeners
-- and the worker of src/slon/remote_worker.c interleave.
use slony1_engine.Base.{
  ◌≡◌, refl, sym, subst, ◌∙◌, inl, inr, Option, none, some, List, [], ◌∷◌, ◌++◌, arith,
  append_assoc, Bool-cases,
}
use slony1_engine.Base.Int.{ℤ, ◌==ℤ◌, ==ℤ_iff, ==ℤ_refl}
use slony1_engine.Slon.{
  EventMsg, ConfirmMsg, WorkMsg, wakeup, event, SlonNode, SlonState, returned, find_node,
  update_node,
}
use slony1_engine.Slon.Wakeup.{remote_worker_wakeup}
use slony1_engine.Slon.Nodes.{set_node_last_event}
use slony1_engine.Slon.Queue.{remote_worker_event, remote_worker_confirm, take_message}
use slony1_engine.Slon.Queue.Rising.{
  seqnos, IsRising, seqnos-append, IsRising-mono, IsRising-snoc, seqnos-queue_confirm, keeps_seqnos,
}
use slony1_engine.Slon.Queue.Changes.{
  queue_of, event-node_list, confirm-node_list, wakeup-node_list, last_event-node_list,
  view_updates, view_update,
}

-- The state, with the messages that the worker of a node has taken.
pub record Run : Type 0 where
  pub slon : SlonState
  pub taken : List WorkMsg

abbrev advance : ℤ → List WorkMsg → SlonState → SlonState
advance i rest s = record s {
  node_list = update_node i (λ n. record n { messages = rest }) s.node_list;
}

-- What may happen next, seen from the worker of node `i`: a listener delivers an event or a
-- confirmation, of any node; a thread wakes up a worker or records a last event; the worker takes
-- a message.
pub data Step (i : ℤ) : Run → Run → Type 0 where
  arrives :
      (msg : EventMsg) (r : Run) (t : SlonState)
      → remote_worker_event msg r.slon ≡ returned tt t
      → Step i r (record r { slon = t })
  confirms :
      (j : ℤ) (m : ConfirmMsg) (r : Run) (t : SlonState)
      → remote_worker_confirm j m r.slon ≡ returned tt t
      → Step i r (record r { slon = t })
  wakes :
      (j : ℤ) (r : Run) (t : SlonState)
      → remote_worker_wakeup j r.slon ≡ returned tt t
      → Step i r (record r { slon = t })
  learns :
      (j e a : ℤ) (r : Run) (t : SlonState)
      → set_node_last_event j e r.slon ≡ returned a t
      → Step i r (record r { slon = t })
  takes :
      (n : SlonNode) (m : WorkMsg) (rest : List WorkMsg) (r : Run)
      → find_node i r.slon.node_list ≡ some n
      → take_message n.messages ≡ some (m, rest)
      → Step i r (record { slon = advance i rest r.slon; taken = r.taken ++ m ∷ [] })

pub data Reach (i : ℤ) (r : Run) : Run → Type 0 where
  here : Reach i r r
  next : {t u : Run} → Reach i r t → Step i t u → Reach i r u

abbrev pub IsOrderedAt : List WorkMsg → Option (ℤ × List WorkMsg) → Type 0
IsOrderedAt taken none = Unit
IsOrderedAt taken (some (l, q)) = IsRising l (seqnos (taken ++ q))

-- The events that were taken and those that are queued, in this order, are strictly ascending, and
-- the last event of the node bounds them.
abbrev pub IsOrdered : ℤ → Run → Type 0
IsOrdered i r = IsOrderedAt r.taken (queue_of i r.slon)

-- The same, for what is known of the node.
abbrev Rises : ℤ → Run → Type 0
Rises i r =
    (l : ℤ) (q : List WorkMsg)
    → queue_of i r.slon ≡ some (l, q)
    → IsRising l (seqnos (r.taken ++ q))

module _ (i : ℤ) (r : Run) (t : SlonState) (v : Rises i r) where
  -- A step that leaves the view of the node alone.
  same_view : queue_of i t ≡ queue_of i r.slon → Rises i (record r { slon = t })
  same_view p l q e = v l q (sym p ∙ e)

  changed_view :
      (k : ℤ) (u : List WorkMsg)
      → queue_of i t ≡ some (k, u)
      → IsRising k (seqnos (r.taken ++ u))
      → Rises i (record r { slon = t })
  changed_view k u p h l q e = let a : k ≡ l = cc in let b : u ≡ q = cc in rw (← a, ← b) h

  -- A step that may change one node, of id `j`, by `f`, and keeps what the order needs.
  updated_view :
      (j : ℤ) (f : SlonNode → SlonNode) (n : SlonNode)
      → ((n : SlonNode) → (f n).no_id ≡ n.no_id)
      → find_node j r.slon.node_list ≡ some n
      → t.node_list ≡ update_node j f r.slon.node_list
      → (IsRising n.last_event (seqnos (r.taken ++ n.messages))
          → IsRising (f n).last_event (seqnos (r.taken ++ (f n).messages)))
      → Rises i (record r { slon = t })
  updated_view j f n hf found e k = elim (Bool-cases (i ==ℤ j)) [
    | inl hit ↦
        changed_view (f n).last_event (f n).messages
          (ground (arith, view_update i j f r.slon t n hf found e))
          (k (v n.last_event n.messages (ground (arith, ==ℤ_iff i j))))
    | inr miss ↦ same_view (ground (arith, view_update i j f r.slon t n hf found e))
  ]

  arrives-Rises :
      (msg : EventMsg)
      → remote_worker_event msg r.slon ≡ returned tt t
      → Rises i (record r { slon = t })
  arrives-Rises msg h = elim (event-node_list msg r.slon t h) [
    | inl same ↦ same_view (ground arith)
    | inr (n, found, newer, changed) ↦
        let f : SlonNode → SlonNode = λ n. record n { last_event = msg.ev_seqno } in
        let g : SlonNode → SlonNode = λ n. record n { messages = n.messages ++ event msg ∷ [] } in
        let p = view_updates i msg.ev_origin f g r.slon t n (λ n. refl) (λ n. refl) found changed in
        elim (Bool-cases (i ==ℤ msg.ev_origin)) [
          | inl hit ↦ changed_view msg.ev_seqno (n.messages ++ event msg ∷ []) (ground (arith, p)) (
              rw
                (
                  ← append_assoc r.taken n.messages (event msg ∷ []),
                  seqnos-append (r.taken ++ n.messages) (event msg ∷ []),
                )
                (IsRising-snoc n.last_event msg.ev_seqno _ newer
                  (v n.last_event n.messages (ground (arith, ==ℤ_iff i msg.ev_origin)))))
          | inr miss ↦ same_view (ground (arith, p))
        ]
  ]

take_parts :
    (q : List WorkMsg) (m : WorkMsg) (rest : List WorkMsg)
    → take_message q ≡ some (m, rest)
    → q ≡ m ∷ rest
unfolding take_message
take_parts [] m rest e = cc
take_parts (x ∷ q) m rest e = ground arith

takes-Rises :
    (i : ℤ) (n : SlonNode) (m : WorkMsg) (rest : List WorkMsg) (r : Run)
    → find_node i r.slon.node_list ≡ some n
    → n.messages ≡ m ∷ rest
    → Rises i r
    → Rises i (record { slon = advance i rest r.slon; taken = r.taken ++ m ∷ [] })
takes-Rises i n m rest r found e v l q p =
    let f : SlonNode → SlonNode = λ n. record n { messages = rest } in
    let w = view_update i i f r.slon (advance i rest r.slon) n (λ n. refl) found refl in
    let a : n.last_event ≡ l = ground (arith, w, ==ℤ_refl i) in
    let b : rest ≡ q = ground (arith, w, ==ℤ_refl i) in
    let h = v n.last_event n.messages (ground arith) in
    rw (← a, ← b, append_assoc r.taken (m ∷ []) rest) (rw e at h)

Step-Rises : {i : ℤ} {r u : Run} → Step i r u → Rises i r → Rises i u
Step-Rises {i} (arrives msg r t h) v = arrives-Rises i r t v msg h
Step-Rises {i} (confirms j m r t h) v = elim (confirm-node_list j m r.slon t h) [
  | inl same ↦ same_view i r t v (ground arith)
  | inr (n, found, changed) ↦
      updated_view i r t v j _ n (λ n. refl) found changed
        (keeps_seqnos n.last_event r.taken n.messages _ (seqnos-queue_confirm m n.messages))
]
Step-Rises {i} (wakes j r t h) v = elim (wakeup-node_list j r.slon t h) [
  | inl same ↦ same_view i r t v (ground arith)
  | inr (n, found, changed) ↦
      updated_view i r t v j _ n (λ n. refl) found changed
        (keeps_seqnos n.last_event r.taken n.messages (wakeup ∷ n.messages) refl)
]
Step-Rises {i} (learns j e a r t h) v = elim (last_event-node_list j e a r.slon t h) [
  | inl same ↦ same_view i r t v (ground arith)
  | inr (n, found, newer, changed) ↦
      updated_view i r t v j _ n (λ n. refl) found changed
        (IsRising-mono n.last_event e (seqnos (r.taken ++ n.messages)) (omega arith))
]
Step-Rises {i} (takes n m rest r found e) v =
    takes-Rises i n m rest r found (take_parts n.messages m rest e) v

Rises-IsOrdered : (i : ℤ) (r : Run) → Rises i r → IsOrdered i r
Rises-IsOrdered i r v = go (queue_of i r.slon) v
  where
    go :
        (o : Option (ℤ × List WorkMsg))
        → ((l : ℤ) (q : List WorkMsg) → o ≡ some (l, q) → IsRising l (seqnos (r.taken ++ q)))
        → IsOrderedAt r.taken o
    go none v = tt
    go (some (l, q)) v = v l q refl

IsOrdered-Rises : (i : ℤ) (r : Run) → IsOrdered i r → Rises i r
IsOrdered-Rises i r v l q known = subst (IsOrderedAt r.taken) known v

-- Every step keeps the events of a node, those that its worker took and those that are queued, in
-- this order strictly ascending and bounded by the node's last event.
pub Step-IsOrdered : {i : ℤ} {r u : Run} → Step i r u → IsOrdered i r → IsOrdered i u
Step-IsOrdered {i} {r} {u} st v = Rises-IsOrdered i u (Step-Rises st (IsOrdered-Rises i r v))

-- From a start in which node i is known, nothing was taken and nothing is queued for it, however
-- deliveries of events and confirmations, wakeups, records of a last event and the takes of the
-- worker of i follow one another, this worker takes its events in strictly ascending order, so none
-- twice, and those still queued continue the sequence, up to the last event of i.
pub Reach-IsOrdered :
    {i : ℤ} {s : SlonState} {r : Run} (l : ℤ)
    → queue_of i s ≡ some (l, [])
    → Reach i (record { slon = s; taken = [] }) r
    → IsOrdered i r
Reach-IsOrdered l e here = subst (IsOrderedAt []) (sym e) tt
Reach-IsOrdered l e (next p st) = Step-IsOrdered st (Reach-IsOrdered l e p)
