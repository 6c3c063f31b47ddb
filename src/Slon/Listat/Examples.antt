-- ===== src/Slon/Listat/Examples.antt =====
-- A listen thread that stops for one origin and starts for another, src/slon/remote_listen.c.
use slony1_engine.Base.{◌≡◌, true, List, [], ◌∷◌, ◌&&◌}
use slony1_engine.Base.Int.{ℤ, pos}
use slony1_engine.Slon.{SlonNode}
use slony1_engine.Slon.Nodes.{new_node}
use slony1_engine.Slon.Listat.{adjust_listat, has_listat, is_enabled, has_listat-adjust_listat}

abbrev provider : SlonNode
provider = record (new_node (pos 1) "one") { listen = pos 1 ∷ pos 3 ∷ [] }

abbrev nodes : List SlonNode
nodes = provider ∷ record (new_node (pos 3) "three") { no_active = true } ∷ []

abbrev listened : List ℤ
listened = pos 1 ∷ pos 2 ∷ []

has_listat-adjust_listat_example :
    has_listat (pos 3) (adjust_listat nodes provider listened)
    ≡ (has_listat (pos 3) provider.listen && is_enabled nodes (pos 3))
has_listat-adjust_listat_example = has_listat-adjust_listat nodes provider listened (pos 3)
