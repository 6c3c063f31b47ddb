-- ===== src/Slon/Config/Loops.antt =====
-- The calls of src/slon/runtime_config.c that make others, or loop: against what they mean for
-- the configuration. The whole interface follows.
use Prim.Native.String.{String}
use slony1_engine.Base.{
  ◌≡◌, refl, ap, true, false, Option, none, some, List, [], ◌∷◌, map, arith, Option-cases, inl, inr,
}
use slony1_engine.Base.Int.{ℤ}
use slony1_engine.Slon.{
  SlonNode, SlonState, Outcome, returned, retried, deadlocked, M, ◌>>◌, return, rtcfg_lock,
  rtcfg_unlock, rtcfg_seq_bump, find_node, update_node, with_node,
}
use slony1_engine.Slon.Threads.{start_stop_node_thread}
use slony1_engine.Slon.Nodes.{store_node, need_activate, do_activate, activate_all, enable_node}
use slony1_engine.Slon.Paths.{
  store_path, store_listen, reload_listen, store_listens, start_stop_nodes, clear_listen,
}
use slony1_engine.Slon.Config.{
  NodeConfig, node_config, Config, config, find_config, Applied, ok, retry, ◌>=>◌, Call, apply,
  perform, activate, activate_pending, add_listen, add_listens, add_node, edit_node, with_server,
  with_path, silent, stores_node, sets_last_event, sets_last_snapshot, enables_node, disables_node,
  needs_activate, activates, stores_path, drops_path, stores_listen, drops_listen, reloads_listen,
  reloads_sets, stores_set, drops_set, moves_set, stores_subscribe, enables_subscription,
  unsubscribes_set,
}
use slony1_engine.Slon.Config.Quiet.{
  Keeps, map-update_node, find_config-map, bind-Keeps, start_stop_node_thread-Keeps,
}
use slony1_engine.Slon.Config.Refinement.{
  Meets, with_nodes, store_node-Meets, enable_node-Meets, disable_node-Meets, set_last_event-Meets,
  set_last_snapshot-Meets, drop_path-Meets, store_listen-Meets, drop_listen-Meets, store_set-Meets,
  drop_set-Meets, reload_sets-Meets, move_set-Meets, store_subscribe-Meets,
  enable_subscription-Meets, unsubscribe_set-Meets,
}

-- A call after one that meets its meaning.
bind-Meets :
    (m k : M (Unit {0})) (s : SlonState) (a : Applied) (f : Config → Applied)
    → Meets a (m s)
    → ((t : SlonState) → t.config_lock ≡ false → Meets (f (config t)) (k t))
    → Meets (a >=> f) ((m >> k) s)
bind-Meets m k s a f h g = go a (m s) h
  where
    go :
        (a : Applied) (o : Outcome (Unit {0}))
        → Meets a o
        → Meets
            (a >=> f)
            (elim o [ returned _ t ↦ k t | retried t ↦ retried t | deadlocked ↦ deadlocked ])
    go (ok c) (returned _ t) h = rw h.1 at (g t h.0)
    go (ok c) (retried t) h = absurd h
    go (ok c) deadlocked h = absurd h
    go (retry c) (returned _ t) h = absurd h
    go (retry c) (retried t) h = h
    go (retry c) deadlocked h = absurd h

activate_all-Meets :
    (is : List ℤ) (s : SlonState)
    → s.config_lock ≡ false
    → Meets (activate_pending is (config s)) (activate_all is s)
unfolding activate_all activate_pending
activate_all-Meets [] s h = (h, refl)
activate_all-Meets (i ∷ is) s h =
    bind-Meets (enable_node i) _ s (activate i (config s)) _ (enable_node-Meets i s h)
      (λ t u. activate_all-Meets is (record t { to_activate = is }) u)

start_stop_nodes-Keeps :
    (ns : List SlonNode) (s : SlonState)
    → s.config_lock ≡ false
    → Keeps (config s) (start_stop_nodes ns s)
unfolding start_stop_nodes
start_stop_nodes-Keeps [] s h = (h, refl)
start_stop_nodes-Keeps (n ∷ ns) s h =
    bind-Keeps (start_stop_node_thread n.no_id) _ s (config s) (config s)
      (start_stop_node_thread-Keeps n.no_id s h)
      (λ a t u e. rw e at (start_stop_nodes-Keeps ns t u))

-- The listen entries of a reload, and the round over the nodes that follows.
store_listens-Meets :
    (rows : List (ℤ × ℤ)) (s : SlonState)
    → s.config_lock ≡ false
    → Meets (add_listens rows (config s)) (store_listens rows s)
unfolding store_listens add_listens apply
store_listens-Meets [] s h = (h, refl)
store_listens-Meets ((o, p) ∷ rows) s h =
    bind-Meets (store_listen o p) (store_listens rows) s (add_listen o p (config s))
      (add_listens rows) (store_listen-Meets s h o p) (store_listens-Meets rows)

map-clear_listen :
    (ns : List SlonNode) → map node_config (map clear_listen ns) ≡ map silent (map node_config ns)
map-clear_listen [] = refl
map-clear_listen (n ∷ ns) =
    ap (λ (t : List NodeConfig). silent (node_config n) ∷ t) (map-clear_listen ns)

ok_right : (a : Applied) → (a >=> ok) ≡ a
ok_right (ok c) = refl
ok_right (retry c) = refl

reload_listen-Meets :
    (rows : Option (List (ℤ × ℤ))) (s : SlonState)
    → s.config_lock ≡ false
    → Meets (apply (reloads_listen rows) (config s)) (reload_listen rows s)
unfolding reload_listen apply
reload_listen-Meets none s h = ground (arith, map-clear_listen s.node_list)
reload_listen-Meets (some rows) s h =
    let t : SlonState = with_nodes (map clear_listen s.node_list) s in
    let k =
      bind-Meets (store_listens rows) (λ u. start_stop_nodes u.node_list u) t
        (add_listens rows (config t)) ok (store_listens-Meets rows t refl)
        (λ u unlocked. start_stop_nodes-Keeps u.node_list u unlocked) in
    rw (h, reload_listen) (rw (map-clear_listen s.node_list, ok_right) at k)

-- The part of rtcfg_storePath() that follows once the node is there, with the lock held.
path_tail : ℤ → String → ℤ → M (Unit {0})
unfolding rtcfg_unlock rtcfg_seq_bump
path_tail i c r = do
  with_node i (λ n. record n { pa_conninfo = some c; pa_connretry = r })
  rtcfg_unlock
  rtcfg_seq_bump
  start_stop_node_thread i

path_tail-Keeps :
    (i : ℤ) (c : String) (r : ℤ) (s : SlonState)
    → Keeps (edit_node i (with_path c r) (config s)) (path_tail i c r s)
unfolding path_tail
path_tail-Keeps i c r s = ground (
  arith,
  map-update_node i (λ n. record n { pa_conninfo = some c; pa_connretry = r }) (with_path c r)
      s.node_list (λ n. refl),
  start_stop_node_thread-Keeps i
      (with_nodes
        (update_node i (λ n. record n { pa_conninfo = some c; pa_connretry = r }) s.node_list) s)
      refl,
)

-- The branch for an unknown server, by how rtcfg_storeNode() ends.
store_path_unknown :
    (o : Outcome (Unit {0})) (k : M (Unit {0})) (c : Config) (f : Config → Config)
    → Keeps c o
    → ((t : SlonState) → Keeps (f (config t)) (k t))
    → (s : SlonState) → Keeps (f c) ((((λ _. o) >> rtcfg_lock) >> k) s)
unfolding rtcfg_lock
store_path_unknown (returned _ t) k c f h g s =
    rw h.0 (rw h.1 at (g (record t { config_lock = true })))
store_path_unknown (retried t) k c f h g s = absurd h
store_path_unknown deadlocked k c f h g s = absurd h

store_path-Meets :
    (i : ℤ) (c : String) (r : ℤ) (s : SlonState)
    → s.config_lock ≡ false
    → Meets (apply (stores_path i c r) (config s)) (store_path i c r s)
unfolding store_path apply with_server path_tail
store_path-Meets i c r s h = elim (Option-cases (find_node i s.node_list)) [
  | inl missing ↦
      (let k =
          store_path_unknown (store_node i "<event pending>" (record s { config_lock = false }))
            (path_tail i c r) (add_node i "<event pending>" (config s))
            (edit_node i (with_path c r))
            (store_node-Meets i "<event pending>" (record s { config_lock = false }) refl)
            (path_tail-Keeps i c r) s in
        let unknown : find_config i (map node_config s.node_list) ≡ none =
          ground (arith, find_config-map i s.node_list) in
        rw (h, store_path) (rw (missing, store_path) (rw (unknown, with_server) k)))
  | inr (n, found) ↦ ground (
    arith,
    find_config-map i s.node_list,
    path_tail-Keeps i c r (record s { config_lock = true }),
  )
]

-- Every call of the configuration interface that starts with the lock free ends as its meaning says:
-- it returns with the lock free and the configuration that `apply` gives, or gives up by slon_retry()
-- with that configuration. It never locks the mutex twice, and neither the wakeups nor the threads
-- that it starts and stops show in the configuration.
pub perform-Meets :
    (call : Call) (s : SlonState)
    → s.config_lock ≡ false
    → Meets (apply call (config s)) (perform call s)
unfolding perform apply
perform-Meets (stores_node i c) s h = store_node-Meets i c s h
perform-Meets (sets_last_event i e) s h = set_last_event-Meets s h i e
perform-Meets (sets_last_snapshot i x) s h = set_last_snapshot-Meets s h i x
perform-Meets (enables_node i) s h = enable_node-Meets i s h
perform-Meets (disables_node i) s h = disable_node-Meets s h i
perform-Meets (needs_activate i) s h = unfold need_activate in (h, refl)
perform-Meets activates s h = unfold do_activate in activate_all-Meets s.to_activate s h
perform-Meets (stores_path i c r) s h = store_path-Meets i c r s h
perform-Meets (drops_path i) s h = drop_path-Meets s h i
perform-Meets (stores_listen o p) s h = store_listen-Meets s h o p
perform-Meets (drops_listen o p) s h = drop_listen-Meets s h o p
perform-Meets (reloads_listen rows) s h = reload_listen-Meets rows s h
perform-Meets (reloads_sets rows) s h = reload_sets-Meets s h rows
perform-Meets (stores_set i o c) s h = store_set-Meets s h i o c
perform-Meets (drops_set i) s h = drop_set-Meets s h i
perform-Meets (moves_set i o n p) s h = move_set-Meets s h i o n p
perform-Meets (stores_subscribe i p f) s h = store_subscribe-Meets s h i p f
perform-Meets (enables_subscription i p f) s h = enable_subscription-Meets s h i p f
perform-Meets (unsubscribes_set i) s h = unsubscribe_set-Meets s h i

unfoldable pub perform_all : List Call → M (Unit {0})
perform_all [] = return tt
perform_all (call ∷ calls) = do perform call; perform_all calls

unfoldable pub apply_all : List Call → Config → Applied
apply_all [] c = ok c
apply_all (call ∷ calls) c = apply call c >=> apply_all calls

-- A series of calls, from a state with the lock free, ends as the series of their meanings: up to the
-- first call that gives up, and with the configuration that they make.
pub perform_all-Meets :
    (calls : List Call) (s : SlonState)
    → s.config_lock ≡ false
    → Meets (apply_all calls (config s)) (perform_all calls s)
unfolding perform_all apply_all
perform_all-Meets [] s h = (h, refl)
perform_all-Meets (call ∷ calls) s h =
    bind-Meets (perform call) (perform_all calls) s (apply call (config s)) (apply_all calls)
      (perform-Meets call s h) (perform_all-Meets calls)
