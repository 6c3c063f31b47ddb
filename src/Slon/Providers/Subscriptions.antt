-- ===== src/Slon/Providers/Subscriptions.antt =====
-- Which sets adjust_provider_info() of src/slon/remote_worker.c puts under which provider.
use slony1_engine.Base.{
  ℕ, ◌≡◌, refl, sym, Bool, true, false, ◌&&◌, List, [], ◌∷◌, ◌++◌, if◌then◌else◌, map, arith,
  append_assoc, append-nil,
}
use slony1_engine.Base.Int.{ℤ, pos, ◌==ℤ◌, ==ℤ_iff}
use slony1_engine.Slon.{SlonNode, SlonSet}
use slony1_engine.Slon.Config.Invariants.{Absent, Nodup}
use slony1_engine.Slon.Providers.{
  ProviderInfo, ProviderSet, clear_sets, new_provider, has_provider, add_provider, add_pset,
  add_set, add_sets, provider_set, is_replicated, refresh, keep_providers, ensure_provider,
  adjust_provider_info,
}
use slony1_engine.Slon.Providers.Distinct.{provider_ids, ids-clear_sets, add_sets-Nodup}

-- The sets that the worker gets from provider p.
unfoldable pub sets_from : ℤ → List ProviderInfo → List ProviderSet
sets_from p [] = []
sets_from p (q ∷ qs) = if q.no_id ==ℤ p then q.sets else sets_from p qs

abbrev pub is_subscribed : ℤ → ℕ → SlonSet → Bool
is_subscribed origin p x = x.sub_active && x.set_origin ==ℤ origin && x.sub_provider ==ℤ pos p

-- The active subscriptions to sets of an origin from a provider, in the order of the configuration.
unfoldable pub subscriptions : ℤ → ℕ → List SlonSet → List ProviderSet
subscriptions origin p [] = []
subscriptions origin p (x ∷ xs) =
    if is_subscribed origin p x
    then provider_set x ∷ subscriptions origin p xs
    else subscriptions origin p xs

sets_from-clear_sets : (p : ℤ) (ps : List ProviderInfo) → sets_from p (map clear_sets ps) ≡ []
unfolding sets_from clear_sets
sets_from-clear_sets p [] = refl
sets_from-clear_sets p (q ∷ qs) = ground (arith, sets_from-clear_sets p qs)

sets_from-new_provider :
    (p : ℤ) (nodes : List SlonNode) (i : ℤ) (ps : List ProviderInfo)
    → sets_from p (ps ++ new_provider nodes i ∷ []) ≡ sets_from p ps
unfolding sets_from new_provider
sets_from-new_provider p nodes i [] = ground arith
sets_from-new_provider p nodes i (q ∷ qs) = ground (arith, sets_from-new_provider p nodes i qs)

sets_from-add_provider :
    (p : ℤ) (nodes : List SlonNode) (i : ℤ) (ps : List ProviderInfo)
    → sets_from p (add_provider nodes i ps) ≡ sets_from p ps
unfolding add_provider
sets_from-add_provider p nodes i ps = ground (arith, sets_from-new_provider p nodes i ps)

has_provider-new_provider :
    (nodes : List SlonNode) (i : ℤ) (ps : List ProviderInfo)
    → has_provider i (ps ++ new_provider nodes i ∷ []) ≡ true
unfolding has_provider new_provider
has_provider-new_provider nodes i [] = ground (arith, ==ℤ_iff i i)
has_provider-new_provider nodes i (q ∷ qs) = ground (arith, has_provider-new_provider nodes i qs)

has_provider-add_provider :
    (nodes : List SlonNode) (i : ℤ) (ps : List ProviderInfo)
    → has_provider i (add_provider nodes i ps) ≡ true
unfolding add_provider
has_provider-add_provider nodes i ps = ground (arith, has_provider-new_provider nodes i ps)

sets_from-add_pset :
    (p i : ℤ) (x : ProviderSet) (ps : List ProviderInfo)
    → has_provider i ps ≡ true
    → sets_from p (add_pset i x ps) ≡ (if i ==ℤ p then sets_from p ps ++ x ∷ [] else sets_from p ps)
unfolding sets_from add_pset has_provider
sets_from-add_pset p i x [] h = ground arith
sets_from-add_pset p i x (q ∷ qs) h =
    ground (arith, sets_from-add_pset p i x qs, ==ℤ_iff q.no_id i, ==ℤ_iff i p, ==ℤ_iff q.no_id p)

sets_from-add_set :
    (p : ℤ) (nodes : List SlonNode) (x : SlonSet) (ps : List ProviderInfo)
    → sets_from p (add_set nodes x ps)
      ≡ (if x.sub_provider ==ℤ p then sets_from p ps ++ provider_set x ∷ [] else sets_from p ps)
unfolding add_set
sets_from-add_set p nodes x ps =
    rw
      (
        sets_from-add_pset p x.sub_provider (provider_set x) (add_provider nodes x.sub_provider ps)
            (has_provider-add_provider nodes x.sub_provider ps),
        sets_from-add_provider p nodes x.sub_provider ps,
      )
      refl

-- A set that is replicated from p stands under p.
is_replicated-is_subscribed :
    (origin : ℤ) (p : ℕ) (x : SlonSet)
    → (is_replicated origin x && x.sub_provider ==ℤ pos p) ≡ is_subscribed origin p x
unfolding is_replicated
is_replicated-is_subscribed origin p x = ground (arith, ==ℤ_iff x.sub_provider (pos p))

sets_from-add_sets :
    (p : ℕ) (origin : ℤ) (nodes : List SlonNode) (xs : List SlonSet) (ps : List ProviderInfo)
    → sets_from (pos p) (add_sets origin nodes xs ps)
      ≡ sets_from (pos p) ps ++ subscriptions origin p xs
unfolding add_sets subscriptions
sets_from-add_sets p origin nodes [] ps = sym (append-nil (sets_from (pos p) ps))
sets_from-add_sets p origin nodes (x ∷ xs) ps = ground (
  arith,
  sets_from-add_sets p origin nodes xs ps,
  sets_from-add_sets p origin nodes xs (add_set nodes x ps),
  sets_from-add_set (pos p) nodes x ps,
  append_assoc (sets_from (pos p) ps) (provider_set x ∷ []) (subscriptions origin p xs),
  is_replicated-is_subscribed origin p x,
)

sets_from-Absent :
    (p : ℤ) (ps : List ProviderInfo) → Absent p (provider_ids ps) → sets_from p ps ≡ []
unfolding sets_from
sets_from-Absent p [] h = refl
sets_from-Absent p (q ∷ qs) h = ground (arith, sets_from-Absent p qs, ==ℤ_iff q.no_id p)

sets_from-keep_providers :
    (p : ℤ) (nodes : List SlonNode) (ps : List ProviderInfo)
    → Nodup (provider_ids ps)
    → sets_from p (keep_providers nodes ps) ≡ sets_from p ps
unfolding sets_from keep_providers refresh
sets_from-keep_providers p nodes [] d = refl
sets_from-keep_providers p nodes (q ∷ qs) d = ground (
  arith,
  sets_from-keep_providers p nodes qs d.1,
  ==ℤ_iff q.no_id p,
  sets_from-Absent q.no_id qs d.0,
)

sets_from-ensure_provider :
    (p : ℤ) (nodes : List SlonNode) (i : ℤ) (ps : List ProviderInfo)
    → sets_from p (ensure_provider nodes i ps) ≡ sets_from p ps
unfolding ensure_provider
sets_from-ensure_provider p nodes i ps = ground (arith, sets_from-new_provider p nodes i ps)

module _ (origin : ℤ) (nodes : List SlonNode) (sets : List SlonSet) (event_provider : ℤ)
    (ps : List ProviderInfo) (distinct : Nodup (provider_ids ps)) where
  cleared : Nodup (provider_ids (map clear_sets ps))
  cleared = rw (ids-clear_sets ps) distinct

  -- For distinct providers, outside of the cleanup mode and whatever the event provider is: afterwards
  -- the sets under a provider are exactly the active subscriptions to the origin's sets from it, in
  -- their order.
  pub sets_from-adjust_provider_info :
      (p : ℕ)
      → sets_from (pos p) (adjust_provider_info origin nodes sets false event_provider ps)
        ≡ subscriptions origin p sets
  unfolding adjust_provider_info
  sets_from-adjust_provider_info p = ground (
    arith,
    sets_from-ensure_provider (pos p) nodes event_provider
        (keep_providers nodes (add_sets origin nodes sets (map clear_sets ps))),
    sets_from-ensure_provider (pos p) nodes event_provider
        (add_sets origin nodes sets (map clear_sets ps)),
    sets_from-keep_providers (pos p) nodes (add_sets origin nodes sets (map clear_sets ps))
        (add_sets-Nodup origin nodes sets (map clear_sets ps) cleared),
    sets_from-add_sets p origin nodes sets (map clear_sets ps),
    sets_from-clear_sets (pos p) ps,
  )
