-- ===== src/Slon/Config/Edits.antt =====
-- The edits of the configuration that the calls of src/slon/runtime_config.c are made of keep it well
-- formed.
use Prim.Native.String.{String}
use mathlib.Core.List.{map-append}
use slony1_engine.Base.{
  ℕ, ◌+◌, ◌≡◌, refl, ap, true, Option, none, some, List, [], ◌∷◌, ◌++◌, map, Option-cases,
  Bool-cases, inl, inr, All, All-append,
}
use slony1_engine.Base.Int.{ℤ}
use slony1_engine.Slon.{SlonSet}
use slony1_engine.Slon.Nodes.{new_node}
use slony1_engine.Slon.Paths.{listens_for}
use slony1_engine.Slon.Sets.{find_set, set_with_origin, set_origins, set_all_origins}
use slony1_engine.Slon.Config.{
  NodeConfig, node_config, Config, find_config, update_config, Applied, ok, retry, ◌>=>◌, activate,
  activate_pending, add_listen, add_listens, add_node, edit_set, edit_known_set, deaf, silent,
}
use slony1_engine.Slon.Config.Invariants.{
  Nodup, node_ids, IsSubscribed, IsValid, Nodup-snoc, update_config-ids, update_config-All,
  update_config-All_found, update_set-ids, update_set-All, find_config-Absent, listens_for-Absent,
  set_origins-ids, set_origins-All,
}

-- The configuration after a call, whether or not it gave up.
abbrev pub after : Applied → Config
after (ok c) = c
after (retry c) = c

pub set_with_origin-id :
    (o : ℤ) (c : Option String) (x : SlonSet) → (set_with_origin o c x).set_id ≡ x.set_id
unfolding set_with_origin
set_with_origin-id o none x = refl
set_with_origin-id o (some s) x = refl

pub set_with_origin-IsSubscribed :
    (o : ℤ) (c : Option String) (x : SlonSet)
    → IsSubscribed x
    → IsSubscribed (set_with_origin o c x)
unfolding set_with_origin
set_with_origin-IsSubscribed o none x h = h
set_with_origin-IsSubscribed o (some s) x h = h

-- An edit that keeps the id of a node and its listen entries apart.
module _ (c : Config) (v : IsValid c) where
  pub edit_nodes-IsValid :
      (i : ℤ) (f : NodeConfig → NodeConfig) (k : ℕ)
      → ((n : NodeConfig) → (f n).no_id ≡ n.no_id)
      → All (λ n. Nodup n.listen) (update_config i f c.nodes)
      → IsValid (record c { nodes = update_config i f c.nodes; seq = k })
  edit_nodes-IsValid i f k h a = record {
    nodes_nodup = rw (update_config-ids i f c.nodes h) v.nodes_nodup;
    listens_nodup = a;
    sets_nodup = v.sets_nodup;
    subscribed = v.subscribed;
  }

  pub edit_same_listen-IsValid :
      (i : ℤ) (f : NodeConfig → NodeConfig) (k : ℕ)
      → ((n : NodeConfig) → (f n).no_id ≡ n.no_id)
      → ((n : NodeConfig) → Nodup n.listen → Nodup (f n).listen)
      → IsValid (record c { nodes = update_config i f c.nodes; seq = k })
  edit_same_listen-IsValid i f k h g =
      edit_nodes-IsValid i f k h
        (update_config-All (λ n. Nodup n.listen) i f c.nodes g v.listens_nodup)

  pub edit_set-IsValid :
      (i : ℤ) (f : SlonSet → SlonSet)
      → ((x : SlonSet) → (f x).set_id ≡ x.set_id)
      → ((x : SlonSet) → IsSubscribed x → IsSubscribed (f x))
      → IsValid (edit_set i f c)
  edit_set-IsValid i f h g = record {
    nodes_nodup = v.nodes_nodup;
    listens_nodup = v.listens_nodup;
    sets_nodup = rw (update_set-ids i f c.sets h) v.sets_nodup;
    subscribed = update_set-All IsSubscribed i f c.sets g v.subscribed;
  }

  pub edit_known_set-IsValid :
      (i : ℤ) (f : SlonSet → SlonSet)
      → ((x : SlonSet) → (f x).set_id ≡ x.set_id)
      → ((x : SlonSet) → IsSubscribed x → IsSubscribed (f x))
      → IsValid (after (edit_known_set i f c))
  unfolding edit_known_set
  edit_known_set-IsValid i f h g = elim (Option-cases (find_set i c.sets)) [
    | inl missing ↦ rw (missing, after, edit_known_set) v
    | inr (x, found) ↦ rw (found, after, edit_known_set) (edit_set-IsValid i f h g)
  ]

  pub add_node-IsValid : (i : ℤ) (s : String) → IsValid (add_node i s c)
  unfolding add_node new_node
  add_node-IsValid i s = elim (Option-cases (find_config i c.nodes)) [
    | inl missing ↦
        rw (missing, add_node)
          (record {
            nodes_nodup =
                rw
                  (map-append (λ (n : NodeConfig). n.no_id) c.nodes
                    (node_config (new_node i s) ∷ []))
                  (Nodup-snoc i (node_ids c.nodes) (find_config-Absent i c.nodes missing)
                    v.nodes_nodup);
            listens_nodup = All-append (λ n. Nodup n.listen) c.nodes _ v.listens_nodup (tt, tt);
            sets_nodup = v.sets_nodup;
            subscribed = v.subscribed;
          })
    | inr (n, found) ↦
        rw (found, add_node)
          (edit_same_listen-IsValid i (λ n. record n { no_comment = s }) c.seq (λ n. refl)
            (λ n h. h))
  ]

  pub activate-IsValid : (i : ℤ) → IsValid (after (activate i c))
  unfolding activate
  activate-IsValid i = elim (Option-cases (find_config i c.nodes)) [
    | inl missing ↦ rw (missing, after, activate) v
    | inr (n, found) ↦
        rw (found, after, activate)
          (edit_same_listen-IsValid i (λ n. record n { no_active = true }) (c.seq + 1) (λ n. refl)
            (λ n h. h))
  ]

  pub add_listen-IsValid : (o p : ℤ) → IsValid (after (add_listen o p c))
  unfolding add_listen
  add_listen-IsValid o p = elim (Option-cases (find_config p c.nodes)) [
    | inl missing ↦ rw (missing, after, add_listen) v
    | inr (n, found) ↦ elim (Bool-cases (listens_for o n.listen)) [
      | inl present ↦ rw (found, after, add_listen) (rw (present, after) v)
      | inr new ↦
          rw (found, after, add_listen)
            (rw (new, after)
              (edit_nodes-IsValid p (λ n. record n { listen = n.listen ++ o ∷ [] }) (c.seq + 1)
                (λ n. refl)
                (update_config-All_found (λ n. Nodup n.listen) p _ n c.nodes found
                  (Nodup-snoc o n.listen (listens_for-Absent o n.listen new)) v.listens_nodup)))
    ]
  ]

  pub set_origins-IsValid : (i o : ℤ) → IsValid (record c { sets = set_origins i o c.sets })
  set_origins-IsValid i o = record {
    nodes_nodup = v.nodes_nodup;
    listens_nodup = v.listens_nodup;
    sets_nodup = rw (set_origins-ids i o c.sets) v.sets_nodup;
    subscribed = set_origins-All i o c.sets v.subscribed;
  }

pub bind-IsValid :
    (a : Applied) (f : Config → Applied)
    → IsValid (after a)
    → ((c : Config) → IsValid c → IsValid (after (f c)))
    → IsValid (after (a >=> f))
bind-IsValid (ok c) f v k = k c v
bind-IsValid (retry c) f v k = v

pub activate_pending-IsValid :
    (is : List ℤ) (c : Config) → IsValid c → IsValid (after (activate_pending is c))
unfolding activate_pending
activate_pending-IsValid [] c v = v
activate_pending-IsValid (i ∷ is) c v =
    bind-IsValid (activate i c) _ (activate-IsValid c v i) (λ d w.
      activate_pending-IsValid is (record d { pending = is })
        (record {
          nodes_nodup = w.nodes_nodup;
          listens_nodup = w.listens_nodup;
          sets_nodup = w.sets_nodup;
          subscribed = w.subscribed;
        }))

pub add_listens-IsValid :
    (rows : List (ℤ × ℤ)) (c : Config) → IsValid c → IsValid (after (add_listens rows c))
unfolding add_listens
add_listens-IsValid [] c v = v
add_listens-IsValid ((o, p) ∷ rows) c v =
    bind-IsValid (add_listen o p c) (add_listens rows) (add_listen-IsValid c v o p)
      (add_listens-IsValid rows)

pub silent-ids : (ns : List NodeConfig) → node_ids (map silent ns) ≡ node_ids ns
silent-ids [] = refl
silent-ids (n ∷ ns) = ap (λ (t : List ℤ). n.no_id ∷ t) (silent-ids ns)

pub silent-Nodup : (ns : List NodeConfig) → All (λ n. Nodup n.listen) (map silent ns)
silent-Nodup [] = tt
silent-Nodup (n ∷ ns) = (tt, silent-Nodup ns)

pub deaf-IsValid : (c : Config) → IsValid c → IsValid (deaf c)
deaf-IsValid c v = record {
  nodes_nodup = rw (silent-ids c.nodes) v.nodes_nodup;
  listens_nodup = silent-Nodup c.nodes;
  sets_nodup = v.sets_nodup;
  subscribed = v.subscribed;
}

pub set_all_origins-IsValid :
    (rows : List (ℤ × ℤ)) (c : Config)
    → IsValid c
    → IsValid (record c { sets = set_all_origins rows c.sets })
unfolding set_all_origins
set_all_origins-IsValid [] c v = v
set_all_origins-IsValid ((i, o) ∷ rows) c v =
    set_all_origins-IsValid rows (record c { sets = set_origins i o c.sets })
      (set_origins-IsValid c v i o)
