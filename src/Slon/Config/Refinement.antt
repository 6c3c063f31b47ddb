-- ===== src/Slon/Config/Refinement.antt =====
-- Each call of src/slon/runtime_config.c against what it means for the configuration.
use Prim.Native.String.{String}
use mathlib.Core.List.{map-append}
use slony1_engine.Base.{
  ◌+◌, ◌≡◌, refl, Bool, true, false, not, ◌&&◌, Option, none, some, List, [], ◌∷◌, ◌++◌, arith,
  Option-cases, Bool-cases, inl, inr,
}
use slony1_engine.Base.Int.{ℤ, pos, ◌==ℤ◌, ltb_ℤ, is_negative}
use slony1_engine.Slon.{
  SlonNode, SlonSet, SlonState, Outcome, returned, retried, deadlocked, ◌>>◌, return, when,
  find_node, update_node,
}
use slony1_engine.Slon.Wakeup.{sched_wakeup_node}
use slony1_engine.Slon.Nodes.{
  new_node, store_node, set_node_last_event, set_node_last_snapshot, snapshot_or_first, enable_node,
  disable_node,
}
use slony1_engine.Slon.Paths.{drop_path, store_listen, drop_listen, remove_listen}
use slony1_engine.Slon.Sets.{
  store_set, drop_set, reload_sets, move_set, store_subscribe, enable_subscription, unsubscribe_set,
  find_set, update_set, wake, remove_set, new_set, set_with_origin, moved_set, subscribed_set,
  enabled_set, unsubscribed_set, is_true_text,
}
use slony1_engine.Slon.Config.{
  node_config, config, Applied, ok, retry, apply, perform, activate, add_listen, add_node,
  edit_known_set, without_path, newer_event, sets_last_event, sets_last_snapshot, disables_node,
  drops_path, stores_listen, drops_listen, reloads_sets, stores_set, drops_set, moves_set,
  stores_subscribe, enables_subscription, unsubscribes_set,
}
use slony1_engine.Slon.Config.Quiet.{
  Keeps, map-update_node, map-update_found, update_config-none, update_config-same, find_config-map,
  bind-Keeps, sched_wakeup_node-Keeps, start_stop_node_thread-Keeps,
}

-- The call ends as the meaning says: it returns with the lock free, or gives up.
abbrev pub Meets : Applied → Outcome (Unit {0}) → Type 0
Meets (ok c) o = Keeps c o
Meets (retry c) (returned a t) = ⊥
Meets (retry c) (retried t) = config t ≡ c
Meets (retry c) deadlocked = ⊥

-- The state in which a call of rtcfg_startStopNodeThread() or sched_wakeup_node() is made.
abbrev pub with_nodes : List SlonNode → SlonState → SlonState
with_nodes ns s = record s { node_list = ns; config_lock = false; cfgseq = s.cfgseq + 1 }

pub store_node-Meets :
    (i : ℤ) (c : String) (s : SlonState)
    → s.config_lock ≡ false
    → Meets (ok (add_node i c (config s))) (store_node i c s)
unfolding store_node add_node
store_node-Meets i c s h = ground (
  arith,
  find_config-map i s.node_list,
  map-update_node i (λ n. record n { no_comment = c }) (λ n. record n { no_comment = c })
      s.node_list (λ n. refl),
  map-append node_config s.node_list (new_node i c ∷ []),
)

pub enable_node-Meets :
    (i : ℤ) (s : SlonState)
    → s.config_lock ≡ false
    → Meets (activate i (config s)) (enable_node i s)
unfolding enable_node activate
enable_node-Meets i s h = ground (
  arith,
  find_config-map i s.node_list,
  map-update_node i (λ n. record n { no_active = true }) (λ n. record n { no_active = true })
      s.node_list (λ n. refl),
  start_stop_node_thread-Keeps i
      (with_nodes (update_node i (λ n. record n { no_active = true }) s.node_list) s) refl,
)

module _ (s : SlonState) (h : s.config_lock ≡ false) where
  pub disable_node-Meets : (i : ℤ) → Meets (apply (disables_node i) (config s)) (disable_node i s)
  unfolding disable_node apply
  disable_node-Meets i = ground (
    arith,
    find_config-map i s.node_list,
    map-update_node i (λ n. record n { no_active = false }) (λ n. record n { no_active = false })
        s.node_list (λ n. refl),
  )

  pub set_last_event-Meets :
      (i e : ℤ) → Meets (apply (sets_last_event i e) (config s)) (perform (sets_last_event i e) s)
  unfolding set_node_last_event apply perform
  set_last_event-Meets i e = elim (Option-cases (find_node i s.node_list)) [
    | inl missing ↦ ground (arith, update_config-none i (newer_event e) s.node_list missing)
    | inr (n, found) ↦ elim (Bool-cases (ltb_ℤ n.last_event e)) [
      | inl newer ↦ ground (
        arith,
        map-update_found i (λ n. record n { last_event = e }) (newer_event e) n s.node_list found,
      )
      | inr older ↦ ground (arith, update_config-same i (newer_event e) n s.node_list found)
    ]
  ]

  pub set_last_snapshot-Meets :
      (i : ℤ) (x : Option String)
      → Meets (apply (sets_last_snapshot i x) (config s)) (set_node_last_snapshot i x s)
  unfolding set_node_last_snapshot apply
  set_last_snapshot-Meets i x = ground (
    arith,
    map-update_node i (λ n. record n { last_snapshot = snapshot_or_first x })
        (λ n. record n { last_snapshot = snapshot_or_first x }) s.node_list (λ n. refl),
  )

  pub drop_path-Meets : (i : ℤ) → Meets (apply (drops_path i) (config s)) (drop_path i s)
  unfolding drop_path apply
  drop_path-Meets i = ground (
    arith,
    find_config-map i s.node_list,
    map-update_node i (λ n. record n { listen = []; pa_conninfo = none; pa_connretry = pos 0 })
        without_path s.node_list (λ n. refl),
    start_stop_node_thread-Keeps i
        (with_nodes
          (update_node i (λ n. record n { listen = []; pa_conninfo = none; pa_connretry = pos 0 })
            s.node_list)
          s)
        refl,
  )

  pub store_listen-Meets :
      (o p : ℤ) → Meets (apply (stores_listen o p) (config s)) (store_listen o p s)
  unfolding store_listen apply add_listen
  store_listen-Meets o p = ground (
    arith,
    find_config-map p s.node_list,
    map-update_node p (λ n. record n { listen = n.listen ++ o ∷ [] })
        (λ n. record n { listen = n.listen ++ o ∷ [] }) s.node_list (λ n. refl),
    start_stop_node_thread-Keeps p
        (with_nodes (update_node p (λ n. record n { listen = n.listen ++ o ∷ [] }) s.node_list) s)
        refl,
  )

  pub drop_listen-Meets :
      (o p : ℤ) → Meets (apply (drops_listen o p) (config s)) (drop_listen o p s)
  unfolding drop_listen apply
  drop_listen-Meets o p = ground (
    arith,
    find_config-map p s.node_list,
    map-update_node p (λ n. record n { listen = remove_listen o n.listen })
        (λ n. record n { listen = remove_listen o n.listen }) s.node_list (λ n. refl),
    start_stop_node_thread-Keeps p
        (with_nodes
          (update_node p (λ n. record n { listen = remove_listen o n.listen }) s.node_list) s)
        refl,
  )

-- The state in which the set functions wake up nodes.
abbrev with_sets : List SlonSet → SlonState → SlonState
with_sets xs s = record s { set_list = xs; config_lock = false; cfgseq = s.cfgseq + 1 }

wake-when-Keeps :
    (b : Bool) (i : ℤ) (s : SlonState)
    → s.config_lock ≡ false
    → Keeps (config s) (when b (wake i) s)
wake-when-Keeps true i s h =
    bind-Keeps (sched_wakeup_node i) (λ _. return tt) s (config s) (config s)
      (sched_wakeup_node-Keeps i s h) (λ a t u e. (u, e))
wake-when-Keeps false i s h = (h, refl)

wake_two-Keeps :
    (b : Bool) (i : ℤ) (d : Bool) (j : ℤ) (s : SlonState)
    → s.config_lock ≡ false
    → Keeps (config s) ((when b (wake i) >> when d (wake j)) s)
wake_two-Keeps b i d j s h =
    bind-Keeps (when b (wake i)) (λ _. when d (wake j)) s (config s) (config s)
      (wake-when-Keeps b i s h) (λ a t u e. rw e at (wake-when-Keeps d j t u))

module _ (s : SlonState) (h : s.config_lock ≡ false) where
  pub store_set-Meets :
      (i o : ℤ) (c : Option String)
      → Meets (apply (stores_set i o c) (config s)) (store_set i o c s)
  unfolding store_set apply
  store_set-Meets i o c = elim (Option-cases (find_set i s.set_list)) [
    | inl missing ↦
        ground (arith, wake-when-Keeps true o (with_sets (s.set_list ++ new_set i o c ∷ []) s) refl)
    | inr (x, found) ↦ ground (
      arith,
      wake_two-Keeps (not (x.set_origin ==ℤ o)) x.set_origin true o
          (with_sets (update_set i (set_with_origin o c) s.set_list) s) refl,
    )
  ]

  pub drop_set-Meets : (i : ℤ) → Meets (apply (drops_set i) (config s)) (drop_set i s)
  unfolding drop_set apply
  drop_set-Meets i = elim (Option-cases (find_set i s.set_list)) [
    | inl missing ↦ ground arith
    | inr (x, found) ↦
        ground
          (arith, wake-when-Keeps true x.set_origin (with_sets (remove_set i s.set_list) s) refl)
  ]

  pub reload_sets-Meets :
      (rows : Option (List (ℤ × ℤ)))
      → Meets (apply (reloads_sets rows) (config s)) (reload_sets rows s)
  unfolding reload_sets apply
  reload_sets-Meets none = ground arith
  reload_sets-Meets (some rows) = ground arith

  pub move_set-Meets :
      (i o n p : ℤ) → Meets (apply (moves_set i o n p) (config s)) (move_set i o n p s)
  unfolding move_set apply edit_known_set
  move_set-Meets i o n p = ground (
    arith,
    wake_two-Keeps true o true n
        (with_sets (update_set i (moved_set (s.nodeid ==ℤ o) n p) s.set_list) s) refl,
  )

  pub store_subscribe-Meets :
      (i p : ℤ) (f : String)
      → Meets (apply (stores_subscribe i p f) (config s)) (store_subscribe i p f s)
  unfolding store_subscribe apply edit_known_set
  store_subscribe-Meets i p f = elim (Option-cases (find_set i s.set_list)) [
    | inl missing ↦ ground arith
    | inr (x, found) ↦ ground (
      arith,
      wake_two-Keeps (not (is_negative x.sub_provider) && not (x.sub_provider ==ℤ p)) x.sub_provider
          (not (is_negative p)) p
          (with_sets (update_set i (subscribed_set p (is_true_text f)) s.set_list) s) refl,
    )
  ]

  pub enable_subscription-Meets :
      (i p : ℤ) (f : String)
      → Meets (apply (enables_subscription i p f) (config s)) (enable_subscription i p f s)
  unfolding enable_subscription apply edit_known_set
  enable_subscription-Meets i p f = elim (Option-cases (find_set i s.set_list)) [
    | inl missing ↦ ground arith
    | inr (x, found) ↦ ground (
      arith,
      wake_two-Keeps (ltb_ℤ (pos 0) x.sub_provider && not (x.sub_provider ==ℤ p)) x.sub_provider
          (ltb_ℤ (pos 0) p) p
          (with_sets (update_set i (enabled_set p (is_true_text f)) s.set_list) s) refl,
    )
  ]

  pub unsubscribe_set-Meets :
      (i : ℤ) → Meets (apply (unsubscribes_set i) (config s)) (unsubscribe_set i s)
  unfolding unsubscribe_set apply edit_known_set
  unsubscribe_set-Meets i = elim (Option-cases (find_set i s.set_list)) [
    | inl missing ↦ ground arith
    | inr (x, found) ↦ ground (
      arith,
      wake-when-Keeps (not (is_negative x.sub_provider)) x.sub_provider
          (with_sets (update_set i unsubscribed_set s.set_list) s) refl,
    )
  ]
