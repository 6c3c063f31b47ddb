-- ===== src/Slon/Paths.antt =====
-- The paths and listen entries of src/slon/runtime_config.c.
use Prim.Native.String.{String}
use slony1_engine.Base.{
  Bool, false, ◌||◌, Option, none, some, List, [], ◌∷◌, ◌++◌, if◌then◌else◌, map,
}
use slony1_engine.Base.Int.{ℤ, pos, ◌==ℤ◌}
use slony1_engine.Slon.{
  SlonNode, M, ◌>>=◌, ◌>>◌, return, get, modify, slon_retry, rtcfg_lock, rtcfg_unlock,
  rtcfg_seq_bump, find_node, with_node,
}
use slony1_engine.Slon.Nodes.{store_node}
use slony1_engine.Slon.Threads.{start_stop_node_thread}

-- An unknown server gets a node first, with the lock released for the call.
unfoldable pub store_path : ℤ → String → ℤ → M (Unit {0})
unfolding rtcfg_lock rtcfg_unlock rtcfg_seq_bump
store_path pa_server pa_conninfo pa_connretry = do
  rtcfg_lock
  s ← get
  elim (find_node pa_server s.node_list) [
    | none ↦ do rtcfg_unlock; store_node pa_server "<event pending>"; rtcfg_lock
    | some node ↦ return tt
  ]
  with_node pa_server
      (λ n. record n { pa_conninfo = some pa_conninfo; pa_connretry = pa_connretry })
  rtcfg_unlock
  rtcfg_seq_bump
  start_stop_node_thread pa_server

-- Without a path there is nothing to listen at.
unfoldable pub drop_path : ℤ → M (Unit {0})
unfolding rtcfg_lock rtcfg_unlock rtcfg_seq_bump
drop_path pa_server = do
  rtcfg_lock
  s ← get
  elim (find_node pa_server s.node_list) [
    | none ↦ rtcfg_unlock
    | some node ↦ do
      with_node pa_server (λ n. record n { listen = []; pa_conninfo = none; pa_connretry = pos 0 })
      rtcfg_unlock
      rtcfg_seq_bump
      start_stop_node_thread pa_server
  ]

unfoldable pub listens_for : ℤ → List ℤ → Bool
listens_for li_origin [] = false
listens_for li_origin (o ∷ os) = o ==ℤ li_origin || listens_for li_origin os

-- DLLIST_REMOVE of the first entry for the origin.
unfoldable pub remove_listen : ℤ → List ℤ → List ℤ
remove_listen li_origin [] = []
remove_listen li_origin (o ∷ os) = if o ==ℤ li_origin then os else o ∷ remove_listen li_origin os

-- The branch for an unknown provider does not release the lock.
unfoldable pub store_listen : ℤ → ℤ → M (Unit {0})
unfolding listens_for rtcfg_lock rtcfg_unlock rtcfg_seq_bump
store_listen li_origin li_provider = do
  rtcfg_lock
  s ← get
  elim (find_node li_provider s.node_list) [
    | none ↦ slon_retry
    | some node ↦ if listens_for li_origin node.listen then rtcfg_unlock else (do
      with_node li_provider (λ n. record n { listen = n.listen ++ li_origin ∷ [] })
      rtcfg_unlock
      rtcfg_seq_bump
      start_stop_node_thread li_provider)
  ]

unfoldable pub drop_listen : ℤ → ℤ → M (Unit {0})
unfolding listens_for remove_listen rtcfg_lock rtcfg_unlock rtcfg_seq_bump
drop_listen li_origin li_provider = do
  rtcfg_lock
  s ← get
  elim (find_node li_provider s.node_list) [
    | none ↦ slon_retry
    | some node ↦
        if listens_for li_origin node.listen
        then (do
          with_node li_provider (λ n. record n { listen = remove_listen li_origin n.listen })
          rtcfg_unlock
          rtcfg_seq_bump
          start_stop_node_thread li_provider)
        else rtcfg_unlock
  ]

abbrev pub clear_listen : SlonNode → SlonNode
clear_listen n = record n { listen = [] }

unfoldable pub store_listens : List (ℤ × ℤ) → M (Unit {0})
store_listens [] = return tt
store_listens ((li_origin, li_provider) ∷ rows) = do
  store_listen li_origin li_provider
  store_listens rows

unfoldable pub start_stop_nodes : List SlonNode → M (Unit {0})
start_stop_nodes [] = return tt
start_stop_nodes (node ∷ nodes) = do start_stop_node_thread node.no_id; start_stop_nodes nodes

-- `rows` is what the query on sl_listen returns, origin and provider; `none` is a failed query.
unfoldable pub reload_listen : Option (List (ℤ × ℤ)) → M (Unit {0})
unfolding rtcfg_lock rtcfg_unlock rtcfg_seq_bump
reload_listen rows = do
  rtcfg_lock
  modify (λ s. record s { node_list = map clear_listen s.node_list })
  rtcfg_unlock
  rtcfg_seq_bump
  elim rows [
    | none ↦ slon_retry
    | some found ↦ do store_listens found; s ← get; start_stop_nodes s.node_list
  ]
