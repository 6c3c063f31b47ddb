-- ===== src/Slon/Config/Invariants.antt =====
-- What every call of src/slon/runtime_config.c keeps of the configuration.
use slony1_engine.Base.{
  ◌≡◌, ◌≢◌, refl, sym, ◌&&◌, false, none, some, List, [], ◌∷◌, ◌++◌, map, arith, Bool-cases, inl,
  inr, All, All-append,
}
use slony1_engine.Base.Int.{ℤ, ◌==ℤ◌, ==ℤ_iff, is_negative}
use slony1_engine.Slon.{SlonSet}
use slony1_engine.Slon.Paths.{listens_for, remove_listen}
use slony1_engine.Slon.Sets.{find_set, update_set, remove_set, set_origins}
use slony1_engine.Slon.Config.{NodeConfig, Config, find_config, update_config}

abbrev pub Absent : ℤ → List ℤ → Type 0
Absent i is = All (λ j. j ≢ i) is

abbrev pub Nodup : List ℤ → Type 0
Nodup [] = Unit
Nodup (i ∷ is) = Absent i is × Nodup is

pub Nodup-snoc : (i : ℤ) (is : List ℤ) → Absent i is → Nodup is → Nodup (is ++ i ∷ [])
Nodup-snoc i [] a h = (tt, tt)
Nodup-snoc i (j ∷ is) a h =
    (All-append (λ k. k ≢ j) is (i ∷ []) h.0 ((λ e. a.0 (sym e)), tt), Nodup-snoc i is a.1 h.1)

abbrev pub node_ids : List NodeConfig → List ℤ
node_ids ns = map (λ n. n.no_id) ns

abbrev pub set_ids : List SlonSet → List ℤ
set_ids xs = map (λ x. x.set_id) xs

-- A set without a provider is not active.
abbrev pub IsSubscribed : SlonSet → Type 0
IsSubscribed x = (is_negative x.sub_provider && x.sub_active) ≡ false

pub record IsValid (c : Config) : Type 0 where
  pub nodes_nodup : Nodup (node_ids c.nodes)
  pub listens_nodup : All (λ n. Nodup n.listen) c.nodes
  pub sets_nodup : Nodup (set_ids c.sets)
  pub subscribed : All IsSubscribed c.sets

pub update_config-ids :
    (i : ℤ) (f : NodeConfig → NodeConfig) (ns : List NodeConfig)
    → ((n : NodeConfig) → (f n).no_id ≡ n.no_id)
    → node_ids (update_config i f ns) ≡ node_ids ns
unfolding update_config
update_config-ids i f [] h = refl
update_config-ids i f (n ∷ ns) h = ground (arith, update_config-ids i f ns h, h n)

pub update_config-All {κ} :
    (P : NodeConfig → Type κ) (i : ℤ) (f : NodeConfig → NodeConfig) (ns : List NodeConfig)
    → ((n : NodeConfig) → P n → P (f n))
    → All P ns
    → All P (update_config i f ns)
unfolding update_config
update_config-All P i f [] h a = tt
update_config-All P i f (n ∷ ns) h a = ground (arith, update_config-All P i f ns h, h n)

subst_at {κ} :
    (P : NodeConfig → Type κ) (f : NodeConfig → NodeConfig) (m n : NodeConfig)
    → m ≡ n
    → (P n → P (f n))
    → P m
    → P (f m)
subst_at P f m n e h p = rw e (h (rw e at p))

-- The same, where the update is known at the node that is found only.
pub update_config-All_found {κ} :
    (P : NodeConfig → Type κ) (i : ℤ) (f : NodeConfig → NodeConfig) (n : NodeConfig)
    (ns : List NodeConfig)
    → find_config i ns ≡ some n
    → (P n → P (f n))
    → All P ns
    → All P (update_config i f ns)
unfolding update_config find_config
update_config-All_found P i f n [] e h a = tt
update_config-All_found P i f n (m ∷ ns) e h a =
    ground (arith, update_config-All_found P i f n ns, subst_at P f m n)

pub update_set-ids :
    (i : ℤ) (f : SlonSet → SlonSet) (xs : List SlonSet)
    → ((x : SlonSet) → (f x).set_id ≡ x.set_id)
    → set_ids (update_set i f xs) ≡ set_ids xs
unfolding update_set
update_set-ids i f [] h = refl
update_set-ids i f (x ∷ xs) h = ground (arith, update_set-ids i f xs h, h x)

pub update_set-All {κ} :
    (P : SlonSet → Type κ) (i : ℤ) (f : SlonSet → SlonSet) (xs : List SlonSet)
    → ((x : SlonSet) → P x → P (f x))
    → All P xs
    → All P (update_set i f xs)
unfolding update_set
update_set-All P i f [] h a = tt
update_set-All P i f (x ∷ xs) h a = ground (arith, update_set-All P i f xs h, h x)

pub find_config-Absent :
    (i : ℤ) (ns : List NodeConfig) → find_config i ns ≡ none → Absent i (node_ids ns)
unfolding find_config
find_config-Absent i [] h = tt
find_config-Absent i (n ∷ ns) h = ground (arith, find_config-Absent i ns, ==ℤ_iff n.no_id i)

pub find_set-Absent : (i : ℤ) (xs : List SlonSet) → find_set i xs ≡ none → Absent i (set_ids xs)
unfolding find_set
find_set-Absent i [] h = tt
find_set-Absent i (x ∷ xs) h = ground (arith, find_set-Absent i xs, ==ℤ_iff x.set_id i)

pub listens_for-Absent : (o : ℤ) (os : List ℤ) → listens_for o os ≡ false → Absent o os
unfolding listens_for
listens_for-Absent o [] h = tt
listens_for-Absent o (p ∷ os) h = ground (arith, listens_for-Absent o os, ==ℤ_iff p o)

remove_listen-All {κ} :
    (P : ℤ → Type κ) (o : ℤ) (os : List ℤ) → All P os → All P (remove_listen o os)
unfolding remove_listen
remove_listen-All P o [] h = tt
remove_listen-All P o (p ∷ os) h = ground (arith, remove_listen-All P o os)

pub remove_listen-Nodup : (o : ℤ) (os : List ℤ) → Nodup os → Nodup (remove_listen o os)
unfolding remove_listen
remove_listen-Nodup o [] h = tt
remove_listen-Nodup o (p ∷ os) h =
    ground (arith, remove_listen-Nodup o os, remove_listen-All (λ j. j ≢ p) o os)

pub remove_set-All {κ} :
    (P : SlonSet → Type κ) (i : ℤ) (xs : List SlonSet) → All P xs → All P (remove_set i xs)
unfolding remove_set
remove_set-All P i [] h = tt
remove_set-All P i (x ∷ xs) h = ground (arith, remove_set-All P i xs)

remove_set-Absent :
    (j i : ℤ) (xs : List SlonSet) → Absent j (set_ids xs) → Absent j (set_ids (remove_set i xs))
unfolding remove_set
remove_set-Absent j i [] h = tt
remove_set-Absent j i (x ∷ xs) h = ground (arith, remove_set-Absent j i xs)

pub remove_set-Nodup :
    (i : ℤ) (xs : List SlonSet) → Nodup (set_ids xs) → Nodup (set_ids (remove_set i xs))
unfolding remove_set
remove_set-Nodup i [] h = tt
remove_set-Nodup i (x ∷ xs) h =
    ground (arith, remove_set-Nodup i xs, remove_set-Absent x.set_id i xs)

pub set_origins-ids : (i o : ℤ) (xs : List SlonSet) → set_ids (set_origins i o xs) ≡ set_ids xs
unfolding set_origins
set_origins-ids i o [] = refl
set_origins-ids i o (x ∷ xs) = ground (arith, set_origins-ids i o xs)

pub set_origins-All :
    (i o : ℤ) (xs : List SlonSet) → All IsSubscribed xs → All IsSubscribed (set_origins i o xs)
unfolding set_origins
set_origins-All i o [] h = tt
set_origins-All i o (x ∷ xs) h = elim (Bool-cases (x.set_id ==ℤ i)) [
  | inl hit ↦ rw hit (h.0, set_origins-All i o xs h.1)
  | inr miss ↦ rw miss (h.0, set_origins-All i o xs h.1)
]
