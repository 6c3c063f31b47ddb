-- ===== src/Slon/Providers/Connections.antt =====
-- The connections to the data providers across adjust_provider_info() of src/slon/remote_worker.c.
use text.Mathlib.TextEquality.{eq_iff}
use Prim.Native.String.{String}
use slony1_engine.Base.{
  ◌≡◌, refl, ap, true, false, Option, none, some, List, [], ◌∷◌, ◌++◌, map, Bool-cases, inl, inr,
  All, All-append,
}
use slony1_engine.Base.Int.{ℤ, negsuc, ◌==ℤ◌}
use slony1_engine.Slon.{SlonNode, SlonSet}
use slony1_engine.Slon.Providers.{
  ProviderInfo, ProviderSet, clear_sets, conninfo_of, new_provider, has_provider, add_provider,
  add_pset, add_set, add_sets, provider_set, is_replicated, same_conninfo, refresh, has_sets,
  keep_providers, ensure_provider, adjust_provider_info,
}

-- An open connection has property P of its node and conninfo.
abbrev pub Opened : (ℤ → Option String → Type 0) → ProviderInfo → Type 0
Opened P q = q.conn ≡ true → P q.no_id q.pa_conninfo

-- The provider is needed, and its conninfo is that of the configuration.
abbrev pub UpToDate : List SlonNode → ProviderInfo → Type 0
UpToDate nodes q = (q.pa_conninfo ≡ conninfo_of q.no_id nodes) × (has_sets q ≡ true)

same_conninfo_eq : (a b : Option String) → same_conninfo a b ≡ true → a ≡ b
unfolding same_conninfo
same_conninfo_eq none b h = cc
same_conninfo_eq (some a) none h = cc
same_conninfo_eq (some a) (some b) h = ap (λ (t : String). some t) ((eq_iff a b).0 h)

refresh-UpToDate :
    (nodes : List SlonNode) (q : ProviderInfo)
    → has_sets q ≡ true
    → UpToDate nodes (refresh nodes q)
unfolding refresh
refresh-UpToDate nodes q h =
    elim (Bool-cases (same_conninfo q.pa_conninfo (conninfo_of q.no_id nodes))) [
      | inl same ↦ rw same (same_conninfo_eq q.pa_conninfo (conninfo_of q.no_id nodes) same, h)
      | inr new ↦ rw new (refl, h)
    ]

keep_providers-UpToDate :
    (nodes : List SlonNode) (ps : List ProviderInfo)
    → All (UpToDate nodes) (keep_providers nodes ps)
unfolding keep_providers
keep_providers-UpToDate nodes [] = tt
keep_providers-UpToDate nodes (q ∷ qs) = elim (Bool-cases (has_sets q)) [
  | inl kept ↦ rw kept (refresh-UpToDate nodes q kept, keep_providers-UpToDate nodes qs)
  | inr gone ↦ rw gone (keep_providers-UpToDate nodes qs)
]

module _ (P : ℤ → Option String → Type 0) (nodes : List SlonNode) where
  clear_sets-Opened :
      (ps : List ProviderInfo) → All (Opened P) ps → All (Opened P) (map clear_sets ps)
  unfolding clear_sets
  clear_sets-Opened [] h = tt
  clear_sets-Opened (q ∷ qs) h = (h.0, clear_sets-Opened qs h.1)

  new_provider-Opened :
      (i : ℤ) (ps : List ProviderInfo)
      → All (Opened P) ps
      → All (Opened P) (ps ++ new_provider nodes i ∷ [])
  unfolding new_provider
  new_provider-Opened i ps h =
      All-append (Opened P) ps (new_provider nodes i ∷ []) h ((λ e. cc), tt)

  add_provider-Opened :
      (i : ℤ) (ps : List ProviderInfo)
      → All (Opened P) ps
      → All (Opened P) (add_provider nodes i ps)
  unfolding add_provider
  add_provider-Opened i ps h = elim (Bool-cases (has_provider i ps)) [
    | inl old ↦ rw old h
    | inr new ↦ rw new (new_provider-Opened i ps h)
  ]

  add_pset-Opened :
      (i : ℤ) (x : ProviderSet) (ps : List ProviderInfo)
      → All (Opened P) ps
      → All (Opened P) (add_pset i x ps)
  unfolding add_pset
  add_pset-Opened i x [] h = tt
  add_pset-Opened i x (q ∷ qs) h = elim (Bool-cases (q.no_id ==ℤ i)) [
    | inl here ↦ rw here h
    | inr there ↦ rw there (h.0, add_pset-Opened i x qs h.1)
  ]

  add_sets-Opened :
      (origin : ℤ) (xs : List SlonSet) (ps : List ProviderInfo)
      → All (Opened P) ps
      → All (Opened P) (add_sets origin nodes xs ps)
  unfolding add_sets add_set
  add_sets-Opened origin [] ps h = h
  add_sets-Opened origin (x ∷ xs) ps h = elim (Bool-cases (is_replicated origin x)) [
    | inl wanted ↦ rw wanted (
        add_sets-Opened origin xs (add_set nodes x ps) (
          add_pset-Opened x.sub_provider (provider_set x) (add_provider nodes x.sub_provider ps)
            (add_provider-Opened x.sub_provider ps h)))
    | inr other ↦ rw other (add_sets-Opened origin xs ps h)
  ]

  refresh-Opened : (q : ProviderInfo) → Opened P q → Opened P (refresh nodes q)
  unfolding refresh
  refresh-Opened q h = elim (Bool-cases (same_conninfo q.pa_conninfo (conninfo_of q.no_id nodes))) [
    | inl same ↦ rw same h
    | inr new ↦ rw new (λ e. cc)
  ]

  keep_providers-Opened :
      (ps : List ProviderInfo) → All (Opened P) ps → All (Opened P) (keep_providers nodes ps)
  unfolding keep_providers
  keep_providers-Opened [] h = tt
  keep_providers-Opened (q ∷ qs) h = elim (Bool-cases (has_sets q)) [
    | inl kept ↦ rw kept (refresh-Opened q h.0, keep_providers-Opened qs h.1)
    | inr gone ↦ rw gone (keep_providers-Opened qs h.1)
  ]

All-and {κ μ} :
    (P : ProviderInfo → Type κ) (Q : ProviderInfo → Type μ) (ps : List ProviderInfo)
    → All P ps
    → All Q ps
    → All (λ q. P q × Q q) ps
All-and P Q [] h k = tt
All-and P Q (q ∷ qs) h k = ((h.0, k.0), All-and P Q qs h.1 k.1)

-- A reconfiguration, the call with event provider -1 and outside of the cleanup mode, leaves the
-- providers that some set needs, each with the conninfo of the configuration, and an open connection
-- was open before to the same node by the same conninfo: what holds of every such pair before the
-- call holds of it afterwards.
pub adjust_provider_info-UpToDate :
    (P : ℤ → Option String → Type 0) (origin : ℤ) (nodes : List SlonNode) (sets : List SlonSet)
    (ps : List ProviderInfo)
    → All (Opened P) ps
    → All
        (λ q. UpToDate nodes q × Opened P q)
        (adjust_provider_info origin nodes sets false (negsuc 0) ps)
unfolding adjust_provider_info ensure_provider
adjust_provider_info-UpToDate P origin nodes sets ps h =
    All-and (UpToDate nodes) (Opened P) (keep_providers nodes filled)
      (keep_providers-UpToDate nodes filled)
      (keep_providers-Opened P nodes filled
        (add_sets-Opened P nodes origin sets (map clear_sets ps) (clear_sets-Opened P nodes ps h)))
  where
    filled : List ProviderInfo
    filled = add_sets origin nodes sets (map clear_sets ps)
