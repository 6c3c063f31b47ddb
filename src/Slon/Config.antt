-- ===== src/Slon/Config.antt =====
-- The configuration that src/slon/runtime_config.c keeps, without the threads, the locks and the
-- wakeups, and what each of its calls means for it.
pub mod Quiet
pub mod Refinement
pub mod Loops
pub mod Invariants
pub mod Edits
pub mod Validity
use Prim.Native.String.{String}
use slony1_engine.Base.{
  ℕ, ◌+◌, Bool, true, false, not, ◌||◌, ◌&&◌, Option, none, some, List, [], ◌∷◌, ◌++◌, ◌==◌,
  if◌then◌else◌, map,
}
use slony1_engine.Base.Int.{ℤ, pos, negsuc, ◌==ℤ◌, ltb_ℤ}
use slony1_engine.Slon.{
  SlonNode, SlonSet, SlonState, M, ◌>>=◌, ◌>>◌, return, get, modify, slon_retry,
}
use slony1_engine.Slon.Nodes.{
  new_node, store_node, set_node_last_event, set_node_last_snapshot, snapshot_or_first, enable_node,
  disable_node, need_activate, do_activate, join_all_remote_threads,
}
use slony1_engine.Slon.Paths.{
  store_path, drop_path, store_listen, drop_listen, reload_listen, listens_for, remove_listen,
}
use slony1_engine.Slon.Sets.{
  store_set, drop_set, reload_sets, move_set, store_subscribe, enable_subscription, unsubscribe_set,
  find_set, update_set, remove_set, new_set, set_with_origin, set_all_origins, moved_set,
  subscribed_set, enabled_set, unsubscribed_set, is_true_text,
}

-- What is configured of a node.
pub record NodeConfig : Type 0 where
  pub no_id : ℤ
  pub no_active : Bool
  pub no_comment : String
  pub pa_conninfo : Option String
  pub pa_connretry : ℤ
  pub last_event : ℤ
  pub last_snapshot : String
  pub listen : List ℤ

abbrev pub node_config : SlonNode → NodeConfig
node_config n = record {
  no_id = n.no_id;
  no_active = n.no_active;
  no_comment = n.no_comment;
  pa_conninfo = n.pa_conninfo;
  pa_connretry = n.pa_connretry;
  last_event = n.last_event;
  last_snapshot = n.last_snapshot;
  listen = n.listen;
}

pub record Config : Type 0 where
  pub nodeid : ℤ
  pub seq : ℕ
  pub nodes : List NodeConfig
  pub sets : List SlonSet
  pub pending : List ℤ

abbrev pub config : SlonState → Config
config s = record {
  nodeid = s.nodeid;
  seq = s.cfgseq;
  nodes = map node_config s.node_list;
  sets = s.set_list;
  pending = s.to_activate;
}

-- The calls that change the configuration, with what the database answers where they ask it.
pub data Call : Type 0 where
  stores_node : ℤ → String → Call
  sets_last_event : ℤ → ℤ → Call
  sets_last_snapshot : ℤ → Option String → Call
  enables_node disables_node needs_activate : ℤ → Call
  activates : Call
  stores_path : ℤ → String → ℤ → Call
  drops_path : ℤ → Call
  stores_listen drops_listen : ℤ → ℤ → Call
  reloads_listen reloads_sets : Option (List (ℤ × ℤ)) → Call
  stores_set : ℤ → ℤ → Option String → Call
  drops_set : ℤ → Call
  moves_set : ℤ → ℤ → ℤ → ℤ → Call
  stores_subscribe enables_subscription : ℤ → ℤ → String → Call
  unsubscribes_set : ℤ → Call

unfoldable pub perform : Call → M (Unit {0})
perform (stores_node i c) = store_node i c
perform (sets_last_event i e) = set_node_last_event i e >>= λ _. return tt
perform (sets_last_snapshot i x) = set_node_last_snapshot i x
perform (enables_node i) = enable_node i
perform (disables_node i) = disable_node i
perform (needs_activate i) = need_activate i
perform activates = do_activate
perform (stores_path i c r) = store_path i c r
perform (drops_path i) = drop_path i
perform (stores_listen o p) = store_listen o p
perform (drops_listen o p) = drop_listen o p
perform (reloads_listen rows) = reload_listen rows
perform (reloads_sets rows) = reload_sets rows
perform (stores_set i o c) = store_set i o c
perform (drops_set i) = drop_set i
perform (moves_set i o n p) = move_set i o n p
perform (stores_subscribe i p f) = store_subscribe i p f
perform (enables_subscription i p f) = enable_subscription i p f
perform (unsubscribes_set i) = unsubscribe_set i

-- The configuration after a call: the call returned, or it gave up by slon_retry().
pub data Applied : Type 0 where
  ok : Config → Applied
  retry : Config → Applied

infixl 5 ◌>=>◌
abbrev pub ◌>=>◌ : Applied → (Config → Applied) → Applied
ok c >=> f = f c
retry c >=> f = retry c

unfoldable pub find_config : ℤ → List NodeConfig → Option NodeConfig
find_config i [] = none
find_config i (n ∷ ns) = if n.no_id ==ℤ i then some n else find_config i ns

unfoldable pub update_config : ℤ → (NodeConfig → NodeConfig) → List NodeConfig → List NodeConfig
update_config i f [] = []
update_config i f (n ∷ ns) = if n.no_id ==ℤ i then f n ∷ ns else n ∷ update_config i f ns

-- An edit of a known node, which bumps the sequence; the other branch for an unknown one.
abbrev pub edit_node : ℤ → (NodeConfig → NodeConfig) → Config → Config
edit_node i f c = record c { nodes = update_config i f c.nodes; seq = c.seq + 1 }

abbrev pub edit_set : ℤ → (SlonSet → SlonSet) → Config → Config
edit_set i f c = record c { sets = update_set i f c.sets; seq = c.seq + 1 }

unfoldable pub add_node : ℤ → String → Config → Config
add_node i comment c = elim (find_config i c.nodes) [
  | some n ↦ record c { nodes = update_config i (λ n. record n { no_comment = comment }) c.nodes }
  | none ↦ record c { nodes = c.nodes ++ node_config (new_node i comment) ∷ []; seq = c.seq + 1 }
]

unfoldable pub activate : ℤ → Config → Applied
activate i c = elim (find_config i c.nodes) [
  | some n ↦ ok (edit_node i (λ n. record n { no_active = true }) c)
  | none ↦ retry c
]

-- A node leaves the queue when it is active.
unfoldable pub activate_pending : List ℤ → Config → Applied
unfolding activate
activate_pending [] c = ok c
activate_pending (i ∷ is) c = activate i c >=> λ d. activate_pending is (record d { pending = is })

unfoldable pub add_listen : ℤ → ℤ → Config → Applied
add_listen o p c = elim (find_config p c.nodes) [
  | none ↦ retry c
  | some n ↦
      if listens_for o n.listen
      then ok c
      else ok (edit_node p (λ n. record n { listen = n.listen ++ o ∷ [] }) c)
]

unfoldable pub add_listens : List (ℤ × ℤ) → Config → Applied
unfolding add_listen
add_listens [] c = ok c
add_listens ((o, p) ∷ rows) c = add_listen o p c >=> add_listens rows

abbrev pub silent : NodeConfig → NodeConfig
silent n = record n { listen = [] }

abbrev pub deaf : Config → Config
deaf c = record c { nodes = map silent c.nodes; seq = c.seq + 1 }

abbrev pub newer_event : ℤ → NodeConfig → NodeConfig
newer_event e n = if ltb_ℤ n.last_event e then record n { last_event = e } else n

abbrev pub with_path : String → ℤ → NodeConfig → NodeConfig
with_path conninfo connretry n = record n { pa_conninfo = some conninfo; pa_connretry = connretry }

abbrev pub without_path : NodeConfig → NodeConfig
without_path n = record n { listen = []; pa_conninfo = none; pa_connretry = pos 0 }

-- A server with no node gets one first.
unfoldable pub with_server : ℤ → Config → Config
unfolding add_node
with_server i c = elim (find_config i c.nodes) [
  | none ↦ add_node i "<event pending>" c
  | some n ↦ c
]

-- An edit of the set, or the refusal of an unknown one.
unfoldable pub edit_known_set : ℤ → (SlonSet → SlonSet) → Config → Applied
edit_known_set i f c = elim (find_set i c.sets) [ some x ↦ ok (edit_set i f c) | none ↦ retry c ]

-- What each call means for the configuration.
unfoldable pub apply : Call → Config → Applied
apply (stores_node i comment) c = ok (add_node i comment c)
apply (sets_last_event i e) c = ok (record c { nodes = update_config i (newer_event e) c.nodes })
apply (sets_last_snapshot i x) c = ok (record c {
  nodes = update_config i (λ n. record n { last_snapshot = snapshot_or_first x }) c.nodes;
})
apply (enables_node i) c = activate i c
apply (disables_node i) c = elim (find_config i c.nodes) [
  | some n ↦ ok (edit_node i (λ n. record n { no_active = false }) c)
  | none ↦ retry c
]
apply (needs_activate i) c = ok (record c { pending = c.pending ++ i ∷ [] })
apply activates c = activate_pending c.pending c
apply (stores_path i conninfo connretry) c =
    ok (edit_node i (with_path conninfo connretry) (with_server i c))
apply (drops_path i) c = elim (find_config i c.nodes) [
  | some n ↦ ok (edit_node i without_path c)
  | none ↦ ok c
]
apply (stores_listen o p) c = add_listen o p c
apply (drops_listen o p) c = elim (find_config p c.nodes) [
  | none ↦ retry c
  | some n ↦
      if listens_for o n.listen
      then ok (edit_node p (λ n. record n { listen = remove_listen o n.listen }) c)
      else ok c
]
apply (reloads_listen none) c = retry (deaf c)
apply (reloads_listen (some rows)) c = add_listens rows (deaf c)
apply (reloads_sets none) c = retry c
apply (reloads_sets (some rows)) c = ok (record c { sets = set_all_origins rows c.sets })
apply (stores_set i origin comment) c = elim (find_set i c.sets) [
  | some x ↦ ok (edit_set i (set_with_origin origin comment) c)
  | none ↦ ok (record c { sets = c.sets ++ new_set i origin comment ∷ []; seq = c.seq + 1 })
]
apply (drops_set i) c = elim (find_set i c.sets) [
  | some x ↦ ok (record c { sets = remove_set i c.sets; seq = c.seq + 1 })
  | none ↦ ok c
]
apply (moves_set i old_origin new_origin provider) c =
    edit_known_set i (moved_set (c.nodeid ==ℤ old_origin) new_origin provider) c
apply (stores_subscribe i provider forward) c =
    edit_known_set i (subscribed_set provider (is_true_text forward)) c
apply (enables_subscription i provider forward) c =
    edit_known_set i (enabled_set provider (is_true_text forward)) c
apply (unsubscribes_set i) c = edit_known_set i unsubscribed_set c
