-- ===== src/Slon/Config/Quiet.antt =====
-- Wakeups and the starting and stopping of threads change no configuration and keep the lock free.
use slony1_engine.Base.{
  ◌≡◌, refl, Bool, false, none, some, List, [], ◌∷◌, ◌++◌, map, arith, Option-cases, inl, inr,
}
use slony1_engine.Base.Int.{ℤ}
use slony1_engine.Slon.{
  wakeup, SlonNode, SlonState, Outcome, returned, retried, deadlocked, M, ◌>>=◌, find_node,
  update_node, write_pipe,
}
use slony1_engine.Slon.Wakeup.{
  sched_get_status, sched_wakeup_node, remote_worker_wakeup, cancel_waiter,
}
use slony1_engine.Slon.Threads.{start_stop, start_stop_node_thread, is_ok}
use slony1_engine.Slon.Config.{NodeConfig, node_config, Config, config, find_config, update_config}

-- The call returns, with the lock free, and has made the configuration `c`.
abbrev pub Keeps {ℓ} : {A : Type ℓ} → Config → Outcome A → Type 0
Keeps c (returned a t) = (t.config_lock ≡ false) × (config t ≡ c)
Keeps c (retried t) = ⊥
Keeps c deadlocked = ⊥

pub map-update_node :
    (i : ℤ) (f : SlonNode → SlonNode) (g : NodeConfig → NodeConfig) (ns : List SlonNode)
    → ((n : SlonNode) → node_config (f n) ≡ g (node_config n))
    → map node_config (update_node i f ns) ≡ update_config i g (map node_config ns)
unfolding update_node update_config
map-update_node i f g [] h = refl
map-update_node i f g (n ∷ ns) h = ground (arith, map-update_node i f g ns h, h n)

-- The same, where the update is known at the node that is found only.
pub map-update_found :
    (i : ℤ) (f : SlonNode → SlonNode) (g : NodeConfig → NodeConfig) (n : SlonNode)
    (ns : List SlonNode)
    → find_node i ns ≡ some n
    → node_config (f n) ≡ g (node_config n)
    → map node_config (update_node i f ns) ≡ update_config i g (map node_config ns)
unfolding update_node update_config find_node
map-update_found i f g n [] e h = cc
map-update_found i f g n (x ∷ ns) e h = ground (arith, map-update_found i f g n ns)

pub update_config-none :
    (i : ℤ) (g : NodeConfig → NodeConfig) (ns : List SlonNode)
    → find_node i ns ≡ none
    → update_config i g (map node_config ns) ≡ map node_config ns
unfolding update_config find_node
update_config-none i g [] h = refl
update_config-none i g (x ∷ ns) h = ground (arith, update_config-none i g ns)

pub update_config-same :
    (i : ℤ) (g : NodeConfig → NodeConfig) (n : SlonNode) (ns : List SlonNode)
    → find_node i ns ≡ some n
    → g (node_config n) ≡ node_config n
    → update_config i g (map node_config ns) ≡ map node_config ns
unfolding update_config find_node
update_config-same i g n [] e h = refl
update_config-same i g n (x ∷ ns) e h = ground (arith, update_config-same i g n ns)

-- An update of what is no configuration.
pub map-update_node_quiet :
    (i : ℤ) (f : SlonNode → SlonNode) (ns : List SlonNode)
    → ((n : SlonNode) → node_config (f n) ≡ node_config n)
    → map node_config (update_node i f ns) ≡ map node_config ns
unfolding update_node
map-update_node_quiet i f [] h = refl
map-update_node_quiet i f (n ∷ ns) h = ground (arith, map-update_node_quiet i f ns h, h n)

pub find_config-map :
    (i : ℤ) (ns : List SlonNode)
    → find_config i (map node_config ns)
      ≡ elim (find_node i ns) [ none ↦ none | some n ↦ some (node_config n) ]
unfolding find_config find_node
find_config-map i [] = refl
find_config-map i (n ∷ ns) = ground (arith, find_config-map i ns)

pub remote_worker_wakeup-Keeps :
    (i : ℤ) (s : SlonState) → s.config_lock ≡ false → Keeps (config s) (remote_worker_wakeup i s)
unfolding remote_worker_wakeup
remote_worker_wakeup-Keeps i s h = ground (
  arith,
  map-update_node_quiet i (λ n. record n { messages = wakeup ∷ n.messages }) s.node_list
      (λ n. refl),
)

-- A call after one that keeps the lock free.
pub bind-Keeps {ℓ κ} :
    {A : Type ℓ} {B : Type κ} (m : M A) (f : A → M B) (s : SlonState) (c d : Config)
    → Keeps c (m s)
    → ((a : A) (t : SlonState) → t.config_lock ≡ false → config t ≡ c → Keeps d (f a t))
    → Keeps d ((m >>= f) s)
bind-Keeps m f s c d h k = go (m s) h
  where
    go :
        (o : Outcome _)
        → Keeps c o
        → Keeps d
            (elim o [ returned a t ↦ f a t | retried t ↦ retried t | deadlocked ↦ deadlocked ])
    go (returned a t) h = k a t h.0 h.1
    go (retried t) h = absurd h
    go deadlocked h = absurd h

pub sched_wakeup_node-Keeps :
    (i : ℤ) (s : SlonState) → s.config_lock ≡ false → Keeps (config s) (sched_wakeup_node i s)
unfolding sched_wakeup_node
sched_wakeup_node-Keeps i s h =
    let w : SlonState = record s { waitqueue = map (cancel_waiter i) s.waitqueue } in
    ground (
      arith,
      remote_worker_wakeup-Keeps i w h,
      remote_worker_wakeup-Keeps i (record w { actions = s.actions ++ write_pipe ∷ [] }) h,
    )

node_config-start_stop :
    (b : Bool) (n : SlonNode) → node_config (start_stop b n).node ≡ node_config n
unfolding start_stop
node_config-start_stop b n = ground arith

pub start_stop_node_thread-Keeps :
    (i : ℤ) (s : SlonState) → s.config_lock ≡ false → Keeps (config s) (start_stop_node_thread i s)
unfolding start_stop_node_thread sched_get_status
start_stop_node_thread-Keeps i s h =
    let b = is_ok s.sched_status in
    let ns = update_node i (λ n. (start_stop b n).node) s.node_list in
    let same =
      map-update_node_quiet i (λ n. (start_stop b n).node) s.node_list (node_config-start_stop b) in
    elim (Option-cases (find_node i s.node_list)) [
      | inl missing ↦ ground arith
      | inr (n, found) ↦
          let t : SlonState = record s {
            node_list = ns;
            actions = s.actions ++ (start_stop b n).requests;
            config_lock = false;
          } in
          ground (arith, same, sched_wakeup_node-Keeps i t refl)
    ]
