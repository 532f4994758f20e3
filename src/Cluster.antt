-- ===== src/Cluster.antt =====
-- src/cluster/xsan_cluster.c: the nodes that the cluster knows. In the file xsan_cluster_init ends
-- before the loop over the seed nodes, which then stands outside of any function, so that the file
-- does not compile; here the loop is the last part of xsan_cluster_init, as its text means it.
use xsan.Base.{
  ℕ, zero, suc, Bool, true, false, Option, none, some, List, [], ◌∷◌, ◌==◌, if◌then◌else◌, not,
  ◌||◌,
}
use xsan.Status.{Status}
use xsan.Volume.Create.{Node}
pub mod Known
mod Tests

-- The static variables; the count is the length of the list.
pub record Cluster : Type 0 where
  pub initialized : Bool
  pub known : List Node

-- The loop over the seed nodes, with room for `left` more: it skips one without an identifier, and
-- one without an address or a port. An identifier and an address that are 0 are the null identifier
-- and the empty text.
unfoldable pub known_seeds : (left : ℕ) → List Node → List Node
known_seeds zero seeds = []
known_seeds (suc left) [] = []
known_seeds (suc left) (k ∷ seeds) =
    let rest = known_seeds left seeds in
    if k.id == 0 then rest else if k.ip == 0 || k.port == 0 then rest else k ∷ rest

abbrev pub max_known_nodes : ℕ
max_known_nodes = 16

-- Whether the global configuration is there and names a cluster are arguments, and so are its seed
-- nodes.
unfoldable pub init :
    (config_loaded named : Bool) → (seed_nodes : List Node) → Cluster → Status × Cluster
init config_loaded named seed_nodes c =
    if c.initialized
    then (Status.ok, c)
    else if not config_loaded || not named
    then (Status.not_initialized, c)
    else (Status.ok, record { initialized = true; known = known_seeds max_known_nodes seed_nodes })

unfoldable pub shutdown : Cluster → Cluster
shutdown c = if c.initialized then record { initialized = false; known = [] } else c

-- The status and the array, NULL being no nodes; the pointers are not NULL.
unfoldable pub get_all_known_nodes : (memory : Bool) → Cluster → Status × List Node
get_all_known_nodes memory c =
    if not c.initialized then (Status.not_initialized, []) else elim c.known [
      | [] ↦ (Status.ok, [])
      | k ∷ ks ↦ if memory then (Status.ok, k ∷ ks) else (Status.out_of_memory, [])
    ]

unfoldable pub find_node : ℕ → List Node → Option Node
find_node id [] = none
find_node id (k ∷ ks) = let later = find_node id ks in if k.id == id then some k else later

-- The null identifier is 0.
unfoldable pub get_node_by_id : ℕ → Cluster → Status × Option Node
unfolding find_node
get_node_by_id id c =
    if id == 0
    then (Status.invalid_param, none)
    else if not c.initialized
    then (Status.not_initialized, none)
    else elim (find_node id c.known) [
      | none ↦ (Status.not_found, none)
      | some k ↦ (Status.ok, some k)
    ]
