-- ===== src/Slon/Providers/Examples.antt =====
-- The worker of node 1 with one provider, src/slon/remote_worker.c.
use slony1_engine.Base.{◌≡◌, refl, true, false, some, List, [], ◌∷◌, All}
use slony1_engine.Base.Int.{pos, negsuc}
use slony1_engine.Slon.{SlonNode, SlonSet}
use slony1_engine.Slon.Nodes.{new_node}
use slony1_engine.Slon.Providers.{ProviderInfo, adjust_provider_info}
use slony1_engine.Slon.Providers.Subscriptions.{
  sets_from, subscriptions, sets_from-adjust_provider_info,
}
use slony1_engine.Slon.Providers.Connections.{Opened, UpToDate, adjust_provider_info-UpToDate}

abbrev nodes : List SlonNode
nodes = new_node (pos 1) "one" ∷ new_node (pos 3) "three" ∷ []

-- Sets of node 1, from it and from node 3.
abbrev sets : List SlonSet
sets =
    record {
      set_id = pos 1;
      set_origin = pos 1;
      set_comment = "";
      sub_provider = pos 1;
      sub_forward = true;
      sub_active = true;
    }
    ∷ record {
      set_id = pos 2;
      set_origin = pos 1;
      set_comment = "";
      sub_provider = pos 3;
      sub_forward = false;
      sub_active = true;
    }
    ∷ []

abbrev providers : List ProviderInfo
providers =
    record {
      no_id = pos 3;
      pa_conninfo = some "host=old";
      pa_connretry = pos 10;
      conn = true;
      sets = [];
    }
    ∷ []

sets_from-adjust_provider_info_example :
    sets_from (pos 3) (adjust_provider_info (pos 1) nodes sets false (negsuc 0) providers)
    ≡ subscriptions (pos 1) 3 sets
sets_from-adjust_provider_info_example =
    sets_from-adjust_provider_info (pos 1) nodes sets (negsuc 0) providers (tt, tt) 3

-- The connections were made by this conninfo.
adjust_provider_info-UpToDate_example :
    All
      (λ q. UpToDate nodes q × Opened (λ i c. c ≡ some "host=old") q)
      (adjust_provider_info (pos 1) nodes sets false (negsuc 0) providers)
adjust_provider_info-UpToDate_example =
    adjust_provider_info-UpToDate (λ i c. c ≡ some "host=old") (pos 1) nodes sets providers
      ((λ e. refl), tt)
