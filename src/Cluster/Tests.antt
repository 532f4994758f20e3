-- ===== src/Cluster/Tests.antt =====
-- The cluster's nodes for a concrete list of seed nodes.
use xsan.Base.{true, false, Option, none, some, List, [], ◌∷◌, take, arith, ◌≡◌, refl}
use xsan.Status.{Status}
use xsan.Volume.Create.{Node}
use xsan.Cluster.{
  Cluster, init, known_seeds, shutdown, get_node_by_id, find_node, get_all_known_nodes,
  max_known_nodes,
}
use xsan.Cluster.Known.{Found, answer, init-get_node_by_id}

abbrev at_start : Cluster
at_start = record { initialized = false; known = [] }

-- The first has no port, and the third no identifier.
abbrev seeds : List Node
seeds =
    record { id = 7; ip = 4; port = 0 }
    ∷ record { id = 7; ip = 5; port = 7777 }
    ∷ record { id = 0; ip = 6; port = 7777 }
    ∷ []

init-get_node_by_id_example :
    ((o : Option Node) × (get_node_by_id 7 (init true true seeds at_start).1 ≡ (answer o, o))
      × Found 7 (take max_known_nodes seeds) o)
    × (init true true [] (init true true seeds at_start).1
        ≡ (Status.ok, (init true true seeds at_start).1))
    × (get_node_by_id 7 (shutdown (init true true seeds at_start).1)
        ≡ (Status.not_initialized, none))
init-get_node_by_id_example = init-get_node_by_id at_start seeds [] 7 refl (omega arith)

second_seed :
    get_node_by_id 7 (init true true seeds at_start).1
    ≡ (Status.ok, some (record { id = 7; ip = 5; port = 7777 }))
unfolding get_node_by_id find_node init known_seeds
second_seed = refl

all_known :
    get_all_known_nodes true (init true true seeds at_start).1
    ≡ (Status.ok, record { id = 7; ip = 5; port = 7777 } ∷ [])
unfolding get_all_known_nodes init known_seeds
all_known = refl
