-- ===== src/Slon/Sets.antt =====
-- The sets and subscriptions of src/slon/runtime_config.c.
use Prim.Native.Char.{code}
use Prim.Native.String.{String}
use slony1_engine.Base.{
  Bool, false, not, ◌||◌, ◌&&◌, Option, none, some, List, [], ◌∷◌, ◌++◌, ◌==◌, if◌then◌else◌,
}
use slony1_engine.Base.Int.{ℤ, pos, negsuc, ◌==ℤ◌, is_negative, ltb_ℤ}
use slony1_engine.Slon.{
  SlonSet, M, ◌>>=◌, ◌>>◌, return, get, modify, when, slon_retry, rtcfg_lock, rtcfg_unlock,
  rtcfg_seq_bump,
}
use slony1_engine.Slon.Wakeup.{sched_wakeup_node}

-- The loop that looks for a set, and a store through its pointer.
unfoldable pub find_set : ℤ → List SlonSet → Option SlonSet
find_set i [] = none
find_set i (x ∷ xs) = if x.set_id ==ℤ i then some x else find_set i xs

unfoldable pub update_set : ℤ → (SlonSet → SlonSet) → List SlonSet → List SlonSet
update_set i f [] = []
update_set i f (x ∷ xs) = if x.set_id ==ℤ i then f x ∷ xs else x ∷ update_set i f xs

unfoldable pub remove_set : ℤ → List SlonSet → List SlonSet
remove_set i [] = []
remove_set i (x ∷ xs) = if x.set_id ==ℤ i then xs else x ∷ remove_set i xs

abbrev with_set : ℤ → (SlonSet → SlonSet) → M (Unit {0})
with_set i f = modify λ s. record s { set_list = update_set i f s.set_list }

abbrev pub wake : ℤ → M (Unit {0})
wake i = sched_wakeup_node i >>= λ _. return tt

-- `*sub_forward == 't'`
unfoldable pub is_true_text : String → Bool
is_true_text String.[] = false
is_true_text (String.◌∷◌ c s) = code c == b't'

unfoldable pub new_set : ℤ → ℤ → Option String → SlonSet
new_set set_id set_origin set_comment = record {
  set_id = set_id;
  set_origin = set_origin;
  set_comment = elim set_comment [ none ↦ "<unknown>" | some c ↦ c ];
  sub_provider = negsuc 0;
  sub_forward = false;
  sub_active = false;
}

unfoldable pub set_with_origin : ℤ → Option String → SlonSet → SlonSet
set_with_origin set_origin none x = record x { set_origin = set_origin }
set_with_origin set_origin (some c) x = record x { set_origin = set_origin; set_comment = c }

unfoldable pub store_set : ℤ → ℤ → Option String → M (Unit {0})
unfolding new_set set_with_origin rtcfg_lock rtcfg_unlock rtcfg_seq_bump
store_set set_id set_origin set_comment = do
  rtcfg_lock
  s ← get
  elim (find_set set_id s.set_list) [
    | some old ↦ do
      with_set set_id (set_with_origin set_origin set_comment)
      rtcfg_unlock
      rtcfg_seq_bump
      when (not (old.set_origin ==ℤ set_origin)) (wake old.set_origin)
      wake set_origin
    | none ↦ do
      modify (λ t. record t { set_list = t.set_list ++ new_set set_id set_origin set_comment ∷ [] })
      rtcfg_unlock
      rtcfg_seq_bump
      wake set_origin
  ]

unfoldable pub drop_set : ℤ → M (Unit {0})
unfolding rtcfg_lock rtcfg_unlock rtcfg_seq_bump
drop_set set_id = do
  rtcfg_lock
  s ← get
  elim (find_set set_id s.set_list) [
    | some old ↦ do
      modify (λ t. record t { set_list = remove_set set_id t.set_list })
      rtcfg_unlock
      rtcfg_seq_bump
      wake old.set_origin
    | none ↦ rtcfg_unlock
  ]

-- The inner loop of rtcfg_reloadSets(), which goes on after a match.
unfoldable pub set_origins : ℤ → ℤ → List SlonSet → List SlonSet
set_origins set_id set_origin [] = []
set_origins set_id set_origin (x ∷ xs) =
    (if x.set_id ==ℤ set_id then record x { set_origin = set_origin } else x)
    ∷ set_origins set_id set_origin xs

unfoldable pub set_all_origins : List (ℤ × ℤ) → List SlonSet → List SlonSet
unfolding set_origins
set_all_origins [] xs = xs
set_all_origins ((set_id, set_origin) ∷ rows) xs =
    set_all_origins rows (set_origins set_id set_origin xs)

-- `rows` is what the query on sl_set returns, id and origin; a failed query keeps the lock.
unfoldable pub reload_sets : Option (List (ℤ × ℤ)) → M (Unit {0})
unfolding set_all_origins rtcfg_lock rtcfg_unlock
reload_sets rows = do
  rtcfg_lock
  elim rows [
    | none ↦ slon_retry
    | some found ↦ do
      modify (λ s. record s { set_list = set_all_origins found s.set_list })
      rtcfg_unlock
  ]

-- The assignments of rtcfg_moveSet(), in their order.
unfoldable pub moved_set : Bool → ℤ → ℤ → SlonSet → SlonSet
moved_set was_origin new_origin sub_provider x = record x {
  set_origin = new_origin;
  sub_provider = sub_provider;
  sub_active = not (is_negative sub_provider) && (was_origin || x.sub_active);
  sub_forward = not (is_negative sub_provider) && (was_origin || x.sub_forward);
}

unfoldable pub move_set : ℤ → ℤ → ℤ → ℤ → M (Unit {0})
unfolding moved_set rtcfg_lock rtcfg_unlock rtcfg_seq_bump
move_set set_id old_origin new_origin sub_provider = do
  rtcfg_lock
  s ← get
  elim (find_set set_id s.set_list) [
    | some x ↦ do
      with_set set_id (moved_set (s.nodeid ==ℤ old_origin) new_origin sub_provider)
      rtcfg_unlock
      rtcfg_seq_bump
      wake old_origin
      wake new_origin
    | none ↦ do rtcfg_unlock; slon_retry
  ]

unfoldable pub subscribed_set : ℤ → Bool → SlonSet → SlonSet
subscribed_set sub_provider sub_forward x = record x {
  sub_provider = sub_provider;
  sub_forward = sub_forward;
  sub_active = not (is_negative x.sub_provider) && x.sub_active;
}

-- Wakes up the old provider, if it was one and is another, and the new one.
unfoldable pub store_subscribe : ℤ → ℤ → String → M (Unit {0})
unfolding subscribed_set is_true_text rtcfg_lock rtcfg_unlock rtcfg_seq_bump
store_subscribe sub_set sub_provider sub_forward = do
  rtcfg_lock
  s ← get
  elim (find_set sub_set s.set_list) [
    | some x ↦ do
      with_set sub_set (subscribed_set sub_provider (is_true_text sub_forward))
      rtcfg_unlock
      rtcfg_seq_bump
      when (not (is_negative x.sub_provider) && not (x.sub_provider ==ℤ sub_provider))
          (wake x.sub_provider)
      when (not (is_negative sub_provider)) (wake sub_provider)
    | none ↦ do rtcfg_unlock; slon_retry
  ]

unfoldable pub enabled_set : ℤ → Bool → SlonSet → SlonSet
enabled_set sub_provider sub_forward x = record x {
  sub_provider = sub_provider;
  sub_forward = sub_forward;
  sub_active = not (is_negative sub_provider);
}

-- Here the tests for a wakeup are `> 0`.
unfoldable pub enable_subscription : ℤ → ℤ → String → M (Unit {0})
unfolding enabled_set is_true_text rtcfg_lock rtcfg_unlock rtcfg_seq_bump
enable_subscription sub_set sub_provider sub_forward = do
  rtcfg_lock
  s ← get
  elim (find_set sub_set s.set_list) [
    | some x ↦ do
      with_set sub_set (enabled_set sub_provider (is_true_text sub_forward))
      rtcfg_unlock
      rtcfg_seq_bump
      when (ltb_ℤ (pos 0) x.sub_provider && not (x.sub_provider ==ℤ sub_provider))
          (wake x.sub_provider)
      when (ltb_ℤ (pos 0) sub_provider) (wake sub_provider)
    | none ↦ do rtcfg_unlock; slon_retry
  ]

unfoldable pub unsubscribed_set : SlonSet → SlonSet
unsubscribed_set x = record x { sub_provider = negsuc 0; sub_active = false; sub_forward = false }

unfoldable pub unsubscribe_set : ℤ → M (Unit {0})
unfolding unsubscribed_set rtcfg_lock rtcfg_unlock rtcfg_seq_bump
unsubscribe_set sub_set = do
  rtcfg_lock
  s ← get
  elim (find_set sub_set s.set_list) [
    | some x ↦ do
      with_set sub_set unsubscribed_set
      rtcfg_unlock
      rtcfg_seq_bump
      when (not (is_negative x.sub_provider)) (wake x.sub_provider)
    | none ↦ do rtcfg_unlock; slon_retry
  ]
