-- ===== src/Cluster/Known.antt =====
-- Which nodes the cluster finds: src/cluster/xsan_cluster.c.
use xsan.Base.{
  ℕ, zero, suc, ◌<◌, true, false, Bool-cases, Option, none, some, Option-cases, pos-ne_zero, List,
  [], ◌∷◌, take, ◌==◌, ==_iff, ◌||◌, inl, inr, arith, ◌≡◌, ◌≢◌, refl,
}
use xsan.Status.{Status}
use xsan.Volume.Create.{Node}
use xsan.Cluster.{Cluster, known_seeds, max_known_nodes, init, shutdown, get_node_by_id, find_node}

-- A seed node that the cluster takes.
pub record IsUsable (k : Node) : Type 0 where
  pub identified : 0 < k.id
  pub addressed : 0 < k.ip
  pub reachable : 0 < k.port

-- The first usable node with an identifier, or none if there is no such node.
pub data Found (id : ℕ) : List Node → Option Node → Type 0 where
  nobody : Found id [] none
  this : (k : Node) (ks : List Node) → IsUsable k → k.id ≡ id → Found id (k ∷ ks) (some k)
  other :
      (k : Node) (ks : List Node) (o : Option Node)
      → (IsUsable k → k.id ≢ id)
      → Found id ks o
      → Found id (k ∷ ks) o

find_node-Found :
    (id left : ℕ) (seeds : List Node)
    → Found id (take left seeds) (find_node id (known_seeds left seeds))
unfolding find_node known_seeds
find_node-Found id zero [] = nobody
find_node-Found id zero (k ∷ seeds) = nobody
find_node-Found id (suc left) [] = nobody
find_node-Found id (suc left) (k ∷ seeds) = elim (Bool-cases (k.id == 0)) [
  | inl null ↦ simp null (other k _ _ (λ u e. ground arith) (find_node-Found id left seeds))
  | inr named ↦ simp named (elim (Bool-cases (k.ip == 0 || k.port == 0)) [
    | inl no_address ↦
        simp no_address (other k _ _ (λ u e. ground arith) (find_node-Found id left seeds))
    | inr address ↦ simp address (elim (Bool-cases (k.id == id)) [
      | inl same ↦ simp same (this k _ (ground arith) ((==_iff k.id id).0 same))
      | inr differs ↦
          simp differs (other k _ _ (λ u e. ground arith) (find_node-Found id left seeds))
    ])
  ])
]

abbrev pub answer : Option Node → Status
answer none = Status.not_found
answer (some k) = Status.ok

lookup :
    (id : ℕ) (ks : List Node)
    → 0 < id
    → get_node_by_id id (record { initialized = true; known = ks })
      ≡ (answer (find_node id ks), find_node id ks)
unfolding get_node_by_id
lookup id ks pos =
    rw (pos-ne_zero id pos)
      (elim (Option-cases (find_node id ks)) [ inl e ↦ simp e refl | inr (k, e) ↦ simp e refl ])

-- The cluster once it is initialized with some seed nodes.
abbrev running : List Node → Cluster
running seeds = record { initialized = true; known = known_seeds max_known_nodes seeds }

init-running :
    (c : Cluster) (seeds : List Node)
    → c.initialized ≡ false
    → init true true seeds c ≡ (Status.ok, running seeds)
unfolding init
init-running c seeds fresh = simp fresh refl

init-again :
    (seeds later : List Node) → init true true later (running seeds) ≡ (Status.ok, running seeds)
unfolding init
init-again seeds later = refl

shutdown-get_node_by_id :
    (seeds : List Node) (id : ℕ)
    → 0 < id
    → get_node_by_id id (shutdown (running seeds)) ≡ (Status.not_initialized, none)
unfolding shutdown get_node_by_id
shutdown-get_node_by_id seeds id pos = rw (pos-ne_zero id pos) refl

-- Once xsan_cluster_init has taken the seed nodes, xsan_cluster_get_node_by_id finds, under an
-- identifier that is not null, the first of the first 16 seed nodes that has this identifier, an
-- address and a port, and answers that there is none only if no such node is among them. A second
-- xsan_cluster_init answers XSAN_OK and changes nothing, whatever its seed nodes; and after
-- xsan_cluster_shutdown the module answers that it is not initialized.
pub init-get_node_by_id :
    (c : Cluster) (seeds later : List Node) (id : ℕ)
    → c.initialized ≡ false
    → 0 < id
    → ((o : Option Node) × (get_node_by_id id (init true true seeds c).1 ≡ (answer o, o))
        × Found id (take max_known_nodes seeds) o)
      × (init true true later (init true true seeds c).1 ≡ (Status.ok, (init true true seeds c).1))
      × (get_node_by_id id (shutdown (init true true seeds c).1) ≡ (Status.not_initialized, none))
init-get_node_by_id c seeds later id fresh pos = rw (init-running c seeds fresh) (
  (
    find_node id (known_seeds max_known_nodes seeds),
    lookup id (known_seeds max_known_nodes seeds) pos,
    find_node-Found id max_known_nodes seeds,
  ),
  init-again seeds later,
  shutdown-get_node_by_id seeds id pos,
)
