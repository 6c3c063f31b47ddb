-- ===== src/Slon/Providers.antt =====
-- adjust_provider_info() of src/slon/remote_worker.c: the data providers of a remote worker, brought
-- up to the runtime configuration. The helper query and the log status of a provider, and the SYNC
-- number of a set, are set at each event and left out. A connection is open or not.
pub mod Distinct
pub mod Subscriptions
pub mod Connections
mod Examples
use Prim.Native.String.{String}
use text.Mathlib.Text.{◌==◌ as str_eq}
use slony1_engine.Base.{
  Bool, true, false, not, ◌&&◌, ◌||◌, Option, none, some, List, [], ◌∷◌, ◌++◌, if◌then◌else◌, map,
}
use slony1_engine.Base.Int.{ℤ, pos, negsuc, ◌==ℤ◌, ltb_ℤ, is_negative}
use slony1_engine.Slon.{SlonNode, SlonSet, find_node}

-- ProviderSet_s
pub record ProviderSet : Type 0 where
  pub set_id : ℤ
  pub sub_forward : Bool

-- ProviderInfo_s
pub record ProviderInfo : Type 0 where
  pub no_id : ℤ
  pub pa_conninfo : Option String
  pub pa_connretry : ℤ
  pub conn : Bool
  pub sets : List ProviderSet

-- Step 1: "Remove all sets from the providers."
unfoldable pub clear_sets : ProviderInfo → ProviderInfo
clear_sets p = record p { sets = [] }

unfoldable pub conninfo_of : ℤ → List SlonNode → Option String
conninfo_of i nodes = elim (find_node i nodes) [ none ↦ none | some n ↦ n.pa_conninfo ]

unfoldable pub connretry_of : ℤ → List SlonNode → ℤ
connretry_of i nodes = elim (find_node i nodes) [ none ↦ pos 0 | some n ↦ n.pa_connretry ]

-- malloc(), memset() and the copy of the runtime configuration's conninfo.
unfoldable pub new_provider : List SlonNode → ℤ → ProviderInfo
unfolding conninfo_of connretry_of
new_provider nodes i = record {
  no_id = i;
  pa_conninfo = conninfo_of i nodes;
  pa_connretry = connretry_of i nodes;
  conn = false;
  sets = [];
}

unfoldable pub has_provider : ℤ → List ProviderInfo → Bool
has_provider i [] = false
has_provider i (p ∷ ps) = if p.no_id ==ℤ i then true else has_provider i ps

-- "Find or add the provider."
unfoldable pub add_provider : List SlonNode → ℤ → List ProviderInfo → List ProviderInfo
unfolding has_provider new_provider
add_provider nodes i ps = if has_provider i ps then ps else ps ++ new_provider nodes i ∷ []

-- "Add the set to the list of sets we get from this provider."
unfoldable pub add_pset : ℤ → ProviderSet → List ProviderInfo → List ProviderInfo
add_pset i x [] = []
add_pset i x (p ∷ ps) =
    if p.no_id ==ℤ i then record p { sets = p.sets ++ x ∷ [] } ∷ ps else p ∷ add_pset i x ps

-- Whether the worker of node `no_id` replicates the set.
unfoldable pub is_replicated : ℤ → SlonSet → Bool
is_replicated no_id x = x.set_origin ==ℤ no_id && not (is_negative x.sub_provider) && x.sub_active

abbrev pub provider_set : SlonSet → ProviderSet
provider_set x = record { set_id = x.set_id; sub_forward = x.sub_forward }

unfoldable pub add_set : List SlonNode → SlonSet → List ProviderInfo → List ProviderInfo
unfolding add_provider add_pset
add_set nodes x ps = add_pset x.sub_provider (provider_set x) (add_provider nodes x.sub_provider ps)

-- Step 2: "Add all currently replicated sets (back) to the providers."
unfoldable pub add_sets : ℤ → List SlonNode → List SlonSet → List ProviderInfo → List ProviderInfo
unfolding add_set is_replicated
add_sets no_id nodes [] ps = ps
add_sets no_id nodes (x ∷ xs) ps =
    add_sets no_id nodes xs (if is_replicated no_id x then add_set nodes x ps else ps)

unfoldable pub same_conninfo : Option String → Option String → Bool
same_conninfo (some a) (some b) = str_eq a b
same_conninfo none b = false
same_conninfo (some a) none = false

-- "If the connection info has changed, we have to reconnect."
unfoldable pub refresh : List SlonNode → ProviderInfo → ProviderInfo
unfolding same_conninfo conninfo_of
refresh nodes p =
    if same_conninfo p.pa_conninfo (conninfo_of p.no_id nodes)
    then p
    else record p { conn = false; pa_conninfo = conninfo_of p.no_id nodes }

abbrev pub has_sets : ProviderInfo → Bool
has_sets p = elim p.sets [ [] ↦ false | _ ∷ _ ↦ true ]

-- Step 3: "Remove all providers that we don't need any more."
unfoldable pub keep_providers : List SlonNode → List ProviderInfo → List ProviderInfo
unfolding refresh
keep_providers nodes [] = []
keep_providers nodes (p ∷ ps) =
    if has_sets p then refresh nodes p ∷ keep_providers nodes ps else keep_providers nodes ps

-- Where the search of step 4 ends: it is made for a positive id only, and else stays at the head.
unfoldable pub at_provider : ℤ → List ProviderInfo → Bool
unfolding has_provider
at_provider i [] = false
at_provider i (p ∷ ps) = if ltb_ℤ (pos 0) i then has_provider i (p ∷ ps) else true

-- Step 4: "make sure that the node we got this message from is in the provider list".
unfoldable pub ensure_provider : List SlonNode → ℤ → List ProviderInfo → List ProviderInfo
unfolding at_provider new_provider
ensure_provider nodes i ps =
    if not (is_negative i) && not (at_provider i ps) then ps ++ new_provider nodes i ∷ [] else ps

unfoldable pub adjust_provider_info :
    ℤ → List SlonNode → List SlonSet → Bool → ℤ → List ProviderInfo → List ProviderInfo
unfolding clear_sets add_sets keep_providers ensure_provider
adjust_provider_info no_id nodes sets cleanup event_provider ps =
    let cleared = map clear_sets ps in
    let filled = if cleanup then cleared else add_sets no_id nodes sets cleared in
    let kept = if event_provider ==ℤ negsuc 0 then keep_providers nodes filled else filled in
    ensure_provider nodes event_provider kept
