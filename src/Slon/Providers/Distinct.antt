-- ===== src/Slon/Providers/Distinct.antt =====
-- The providers of a worker stay distinct, src/slon/remote_worker.c.
use slony1_engine.Base.{
  ◌≡◌, refl, ap, Bool, true, false, not, ◌&&◌, List, [], ◌∷◌, ◌++◌, if◌then◌else◌, map, arith,
  Bool-cases, inl, inr,
}
use mathlib.Core.List.{map-append}
use slony1_engine.Base.Int.{ℤ, negsuc, ◌==ℤ◌, ==ℤ_iff, is_negative}
use slony1_engine.Slon.{SlonNode, SlonSet}
use slony1_engine.Slon.Config.Invariants.{Absent, Nodup, Nodup-snoc}
use slony1_engine.Slon.Providers.{
  ProviderInfo, ProviderSet, clear_sets, new_provider, has_provider, add_provider, add_pset,
  add_set, add_sets, provider_set, is_replicated, refresh, has_sets, keep_providers, at_provider,
  ensure_provider, adjust_provider_info,
}

abbrev pub provider_ids : List ProviderInfo → List ℤ
provider_ids ps = map (λ p. p.no_id) ps

pub ids-clear_sets : (ps : List ProviderInfo) → provider_ids (map clear_sets ps) ≡ provider_ids ps
unfolding clear_sets
ids-clear_sets [] = refl
ids-clear_sets (p ∷ ps) = ap (λ (t : List ℤ). p.no_id ∷ t) (ids-clear_sets ps)

has_provider-Absent :
    (i : ℤ) (ps : List ProviderInfo) → has_provider i ps ≡ false → Absent i (provider_ids ps)
unfolding has_provider
has_provider-Absent i [] h = tt
has_provider-Absent i (p ∷ ps) h = ground (arith, has_provider-Absent i ps, ==ℤ_iff p.no_id i)

append-Nodup :
    (nodes : List SlonNode) (i : ℤ) (ps : List ProviderInfo)
    → has_provider i ps ≡ false
    → Nodup (provider_ids ps)
    → Nodup (provider_ids (ps ++ new_provider nodes i ∷ []))
append-Nodup nodes i ps h d =
    rw (map-append (λ (p : ProviderInfo). p.no_id) ps (new_provider nodes i ∷ []))
      (unfold new_provider in Nodup-snoc i (provider_ids ps) (has_provider-Absent i ps h) d)

add_provider-Nodup :
    (nodes : List SlonNode) (i : ℤ) (ps : List ProviderInfo)
    → Nodup (provider_ids ps)
    → Nodup (provider_ids (add_provider nodes i ps))
unfolding add_provider
add_provider-Nodup nodes i ps d = elim (Bool-cases (has_provider i ps)) [
  | inl old ↦ rw old d
  | inr new ↦ rw new (append-Nodup nodes i ps new d)
]

ids-add_pset :
    (i : ℤ) (x : ProviderSet) (ps : List ProviderInfo)
    → provider_ids (add_pset i x ps) ≡ provider_ids ps
unfolding add_pset
ids-add_pset i x [] = refl
ids-add_pset i x (p ∷ ps) = ground (arith, ids-add_pset i x ps)

pub add_sets-Nodup :
    (no_id : ℤ) (nodes : List SlonNode) (xs : List SlonSet) (ps : List ProviderInfo)
    → Nodup (provider_ids ps)
    → Nodup (provider_ids (add_sets no_id nodes xs ps))
unfolding add_sets
add_sets-Nodup no_id nodes [] ps d = d
add_sets-Nodup no_id nodes (x ∷ xs) ps d = elim (Bool-cases (is_replicated no_id x)) [
  | inl wanted ↦ rw wanted (
      add_sets-Nodup no_id nodes xs (add_set nodes x ps) (
        unfold add_set in
        rw (ids-add_pset x.sub_provider (provider_set x) (add_provider nodes x.sub_provider ps))
          (add_provider-Nodup nodes x.sub_provider ps d)))
  | inr other ↦ rw other (add_sets-Nodup no_id nodes xs ps d)
]

id-refresh : (nodes : List SlonNode) (p : ProviderInfo) → (refresh nodes p).no_id ≡ p.no_id
unfolding refresh
id-refresh nodes p = ground arith

pub keep_providers-Absent :
    (nodes : List SlonNode) (i : ℤ) (ps : List ProviderInfo)
    → Absent i (provider_ids ps)
    → Absent i (provider_ids (keep_providers nodes ps))
unfolding keep_providers
keep_providers-Absent nodes i [] h = tt
keep_providers-Absent nodes i (p ∷ ps) h = elim (Bool-cases (has_sets p)) [
  | inl kept ↦ rw kept (rw (id-refresh nodes p) (h.0, keep_providers-Absent nodes i ps h.1))
  | inr gone ↦ rw gone (keep_providers-Absent nodes i ps h.1)
]

keep_providers-Nodup :
    (nodes : List SlonNode) (ps : List ProviderInfo)
    → Nodup (provider_ids ps)
    → Nodup (provider_ids (keep_providers nodes ps))
unfolding keep_providers
keep_providers-Nodup nodes [] d = tt
keep_providers-Nodup nodes (p ∷ ps) d = elim (Bool-cases (has_sets p)) [
  | inl kept ↦ rw kept (
      rw (id-refresh nodes p)
        (keep_providers-Absent nodes p.no_id ps d.0, keep_providers-Nodup nodes ps d.1))
  | inr gone ↦ rw gone (keep_providers-Nodup nodes ps d.1)
]

at_provider_absent :
    (i : ℤ) (ps : List ProviderInfo) → at_provider i ps ≡ false → has_provider i ps ≡ false
unfolding at_provider has_provider
at_provider_absent i [] h = refl
at_provider_absent i (p ∷ ps) h = ground arith

ensure_provider-Nodup :
    (nodes : List SlonNode) (i : ℤ) (ps : List ProviderInfo)
    → Nodup (provider_ids ps)
    → Nodup (provider_ids (ensure_provider nodes i ps))
unfolding ensure_provider
ensure_provider-Nodup nodes i ps d =
    elim (Bool-cases (not (is_negative i) && not (at_provider i ps))) [
      | inl new ↦ rw new (append-Nodup nodes i ps (at_provider_absent i ps (ground arith)) d)
      | inr old ↦ rw old d
    ]

-- Whatever the configuration and the reason of the call are, distinct providers stay distinct.
pub adjust_provider_info-Nodup :
    (no_id : ℤ) (nodes : List SlonNode) (sets : List SlonSet) (cleanup : Bool) (event_provider : ℤ)
    (ps : List ProviderInfo)
    → Nodup (provider_ids ps)
    → Nodup (provider_ids (adjust_provider_info no_id nodes sets cleanup event_provider ps))
unfolding adjust_provider_info
adjust_provider_info-Nodup no_id nodes sets cleanup event_provider ps d =
    ensure_provider-Nodup nodes event_provider _ (kept _ (filled cleanup))
  where
    cleared : Nodup (provider_ids (map clear_sets ps))
    cleared = rw (ids-clear_sets ps) d

    filled :
        (b : Bool)
        → Nodup (
            provider_ids
              (if b then map clear_sets ps else add_sets no_id nodes sets (map clear_sets ps)))
    filled true = cleared
    filled false = add_sets-Nodup no_id nodes sets (map clear_sets ps) cleared

    kept :
        (qs : List ProviderInfo)
        → Nodup (provider_ids qs)
        → Nodup (provider_ids (if event_provider ==ℤ negsuc 0 then keep_providers nodes qs else qs))
    kept qs d = elim (Bool-cases (event_provider ==ℤ negsuc 0)) [
      | inl all ↦ rw all (keep_providers-Nodup nodes qs d)
      | inr one ↦ rw one d
    ]
