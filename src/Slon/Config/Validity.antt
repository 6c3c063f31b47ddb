-- ===== src/Slon/Config/Validity.antt =====
-- The well-formed configurations of src/slon/runtime_config.c, and that every call keeps them.
use mathlib.Core.List.{map-append}
use slony1_engine.Base.{
  ◌+◌, ◌≡◌, refl, false, none, some, List, [], ◌∷◌, arith, Option-cases, Bool-cases, inl, inr, All,
  All-append,
}
use slony1_engine.Base.Int.{ℤ, ◌==ℤ◌, is_negative}
use slony1_engine.Slon.{SlonSet, SlonState, Outcome, returned, retried, deadlocked}
use slony1_engine.Slon.Paths.{listens_for}
use slony1_engine.Slon.Sets.{
  find_set, new_set, set_with_origin, moved_set, subscribed_set, enabled_set, unsubscribed_set,
  is_true_text,
}
use slony1_engine.Slon.Config.{
  Config, config, find_config, Applied, ok, retry, Call, apply, with_server, with_path, deaf,
  newer_event, without_path, stores_node, sets_last_event, sets_last_snapshot, enables_node,
  disables_node, needs_activate, activates, stores_path, drops_path, stores_listen, drops_listen,
  reloads_listen, reloads_sets, stores_set, drops_set, moves_set, stores_subscribe,
  enables_subscription, unsubscribes_set,
}
use slony1_engine.Slon.Config.Refinement.{Meets}
use slony1_engine.Slon.Config.Loops.{perform_all, apply_all, perform_all-Meets}
use slony1_engine.Slon.Config.Invariants.{
  set_ids, IsSubscribed, IsValid, Nodup-snoc, find_set-Absent, remove_listen-Nodup, remove_set-All,
  remove_set-Nodup,
}
use slony1_engine.Slon.Config.Edits.{
  after, set_with_origin-id, set_with_origin-IsSubscribed, edit_same_listen-IsValid,
  edit_set-IsValid, edit_known_set-IsValid, add_node-IsValid, activate-IsValid, add_listen-IsValid,
  bind-IsValid, activate_pending-IsValid, add_listens-IsValid, deaf-IsValid,
  set_all_origins-IsValid,
}

-- A subscription is stored with a provider.
abbrev pub IsProper : Call → Type 0
IsProper (stores_subscribe i p f) = is_negative p ≡ false
IsProper _ = Unit

with_server-IsValid : (i : ℤ) (c : Config) → IsValid c → IsValid (with_server i c)
unfolding with_server
with_server-IsValid i c v = elim (Option-cases (find_config i c.nodes)) [
  | inl missing ↦ rw (missing, with_server) (add_node-IsValid c v i "<event pending>")
  | inr (n, found) ↦ rw (found, with_server) v
]

-- Every call, one that gives up too, keeps a configuration well formed: node ids, set ids and the
-- listen entries of a node stay distinct, and no set without a provider is active. A subscription
-- has to be stored with a provider id that is not negative.
pub apply-IsValid :
    (call : Call) (c : Config) → IsProper call → IsValid c → IsValid (after (apply call c))
unfolding apply
apply-IsValid (stores_node i s) c p v = add_node-IsValid c v i s
apply-IsValid (sets_last_event i e) c p v =
    edit_same_listen-IsValid c v i (newer_event e) c.seq (λ n. ground arith) (λ n h. ground arith)
apply-IsValid (sets_last_snapshot i x) c p v =
    edit_same_listen-IsValid c v i _ c.seq (λ n. refl) (λ n h. h)
apply-IsValid (enables_node i) c p v = activate-IsValid c v i
apply-IsValid (disables_node i) c p v = elim (Option-cases (find_config i c.nodes)) [
  | inl missing ↦ rw (missing, after) v
  | inr (n, found) ↦
      rw (found, after) (edit_same_listen-IsValid c v i _ (c.seq + 1) (λ n. refl) (λ n h. h))
]
apply-IsValid (needs_activate i) c p v = record {
  nodes_nodup = v.nodes_nodup;
  listens_nodup = v.listens_nodup;
  sets_nodup = v.sets_nodup;
  subscribed = v.subscribed;
}
apply-IsValid activates c p v = activate_pending-IsValid c.pending c v
apply-IsValid (stores_path i s r) c p v =
    edit_same_listen-IsValid (with_server i c) (with_server-IsValid i c v) i (with_path s r) _
      (λ n. refl) (λ n h. h)
apply-IsValid (drops_path i) c p v = elim (Option-cases (find_config i c.nodes)) [
  | inl missing ↦ rw (missing, after) v
  | inr (n, found) ↦
      rw (found, after)
        (edit_same_listen-IsValid c v i without_path (c.seq + 1) (λ n. refl) (λ n h. tt))
]
apply-IsValid (stores_listen o i) c p v = add_listen-IsValid c v o i
apply-IsValid (drops_listen o i) c p v = elim (Option-cases (find_config i c.nodes)) [
  | inl missing ↦ rw (missing, after) v
  | inr (n, found) ↦ elim (Bool-cases (listens_for o n.listen)) [
    | inl present ↦
        rw (found, after)
          (rw (present, after)
            (edit_same_listen-IsValid c v i _ (c.seq + 1) (λ n. refl)
              (λ n h. remove_listen-Nodup o n.listen h)))
    | inr absent ↦ rw (found, after) (rw (absent, after) v)
  ]
]
apply-IsValid (reloads_listen none) c p v = deaf-IsValid c v
apply-IsValid (reloads_listen (some rows)) c p v =
    add_listens-IsValid rows (deaf c) (deaf-IsValid c v)
apply-IsValid (reloads_sets none) c p v = v
apply-IsValid (reloads_sets (some rows)) c p v = set_all_origins-IsValid rows c v
apply-IsValid (stores_set i o s) c p v = elim (Option-cases (find_set i c.sets)) [
  | inl missing ↦
      rw (missing, after)
        (record {
          nodes_nodup = v.nodes_nodup;
          listens_nodup = v.listens_nodup;
          sets_nodup = rw (map-append (λ (x : SlonSet). x.set_id) c.sets (new_set i o s ∷ [])) (
              unfold new_set in
              Nodup-snoc i (set_ids c.sets) (find_set-Absent i c.sets missing) v.sets_nodup);
          subscribed =
              All-append IsSubscribed c.sets (new_set i o s ∷ []) v.subscribed
                ((unfold new_set in refl), tt);
        })
  | inr (x, found) ↦
      rw (found, after)
        (edit_set-IsValid c v i (set_with_origin o s) (set_with_origin-id o s)
          (set_with_origin-IsSubscribed o s))
]
apply-IsValid (drops_set i) c p v = elim (Option-cases (find_set i c.sets)) [
  | inl missing ↦ rw (missing, after) v
  | inr (x, found) ↦
      rw (found, after)
        (record {
          nodes_nodup = v.nodes_nodup;
          listens_nodup = v.listens_nodup;
          sets_nodup = remove_set-Nodup i c.sets v.sets_nodup;
          subscribed = remove_set-All IsSubscribed i c.sets v.subscribed;
        })
]
apply-IsValid (moves_set i o n q) c p v =
    edit_known_set-IsValid c v i (moved_set (c.nodeid ==ℤ o) n q) (λ x. unfold moved_set in refl)
      (λ x h. unfold moved_set in ground arith)
apply-IsValid (stores_subscribe i q f) c p v =
    edit_known_set-IsValid c v i (subscribed_set q (is_true_text f))
      (λ x. unfold subscribed_set in refl) (λ x h. unfold subscribed_set in ground arith)
apply-IsValid (enables_subscription i q f) c p v =
    edit_known_set-IsValid c v i (enabled_set q (is_true_text f)) (λ x. unfold enabled_set in refl)
      (λ x h. unfold enabled_set in ground arith)
apply-IsValid (unsubscribes_set i) c p v =
    edit_known_set-IsValid c v i unsubscribed_set (λ x. unfold unsubscribed_set in refl)
      (λ x h. unfold unsubscribed_set in refl)

apply_all-IsValid :
    (calls : List Call) (c : Config)
    → All IsProper calls
    → IsValid c
    → IsValid (after (apply_all calls c))
unfolding apply_all
apply_all-IsValid [] c p v = v
apply_all-IsValid (call ∷ calls) c p v =
    bind-IsValid (apply call c) (apply_all calls) (apply-IsValid call c p.0 v)
      (λ d w. apply_all-IsValid calls d p.1 w)

-- How a series of calls may end: it returns with the lock free, or gives up, and the configuration
-- is well formed.
abbrev pub EndsValid : Outcome (Unit {0}) → Type 0
EndsValid (returned a t) = (t.config_lock ≡ false) × IsValid (config t)
EndsValid (retried t) = IsValid (config t)
EndsValid deadlocked = ⊥

-- A series of calls, made one after another from a state with the lock free and a well-formed
-- configuration, in which every subscription is stored with a provider id that is not negative,
-- does not block on the configuration lock: it returns with the lock free or gives up, and the
-- configuration that it leaves is well formed. Node ids, set ids and the listen entries of a node
-- are distinct, and no set without a provider is active.
pub perform_all-EndsValid :
    (calls : List Call) (s : SlonState)
    → All IsProper calls
    → s.config_lock ≡ false
    → IsValid (config s)
    → EndsValid (perform_all calls s)
perform_all-EndsValid calls s p h v =
    go (apply_all calls (config s)) (perform_all calls s) (perform_all-Meets calls s h)
      (apply_all-IsValid calls (config s) p v)
  where
    go : (a : Applied) (o : Outcome (Unit {0})) → Meets a o → IsValid (after a) → EndsValid o
    go (ok c) (returned _ t) m w = (m.0, rw m.1 w)
    go (ok c) (retried t) m w = absurd m
    go (ok c) deadlocked m w = absurd m
    go (retry c) (returned _ t) m w = absurd m
    go (retry c) (retried t) m w = rw m w
    go (retry c) deadlocked m w = absurd m
