-- ===== src/Config/Seeds.antt =====
-- xsan_config_load_cluster_config of src/utils/config.c, with the list of seed nodes `uuid@ip:port`.
-- `spdk_uuid_parse` is a parameter: the identifier, or none where it refuses the text. The array of
-- seed nodes is followed up to the count.
use xsan.Base.{
  ℕ, zero, suc, Bool, true, Option, none, some, List, [], ◌∷◌, take, drop, leb, ◌&&◌, ◌==◌,
  if◌then◌else◌,
}
use mathlib.Core.Option.{map}
use xsan.StringUtils.Compare.{ℤ, pos, negsuc}
use xsan.StringUtils.Config.{find_byte}
use xsan.StringUtils.Numbers.{str_to_long}
use xsan.StringUtils.Split.{tokens_from}
use xsan.Config.{Config}
use xsan.Config.Sections.{text_field, to_unsigned, string_at, int_at, bool_at}

-- `strrchr`
unfoldable pub find_last : ℕ → List ℕ → Option ℕ
find_last b [] = none
find_last b (c ∷ s) = elim (find_last b s) [
  | none ↦ if c == b then some 0 else none
  | some i ↦ some (suc i)
]

pub record Address : Type 0 where
  pub ip : List ℕ
  pub port : ℕ

pub record SeedNode : Type 0 where
  pub id : List ℕ
  pub hostname : List ℕ
  pub mgmt_addr : Address
  pub storage_addr : Address

abbrev port_in_range : ℤ → Option ℕ
port_in_range (pos n) = if leb 1 n && leb n 65535 then some n else none
port_in_range (negsuc n) = none

abbrev port_from : Option ℤ → Option ℕ
port_from none = none
port_from (some n) = port_in_range n

unfoldable pub parse_port : List ℕ → Option ℕ
parse_port s = port_from (str_to_long (some s) true)

unfoldable pub seed_of : (ip : List ℕ) (port : ℕ) → (id : List ℕ) → SeedNode
unfolding text_field
seed_of ip port id =
    let addr : Address = record { ip = text_field 16 (some ip); port = port } in
    record { id = id; hostname = text_field 256 (some ip); mgmt_addr = addr; storage_addr = addr }

abbrev seed_at_port : (uuid : Option (List ℕ)) (ip : List ℕ) → Option ℕ → Option SeedNode
seed_at_port uuid ip none = none
seed_at_port none ip (some port) = none
seed_at_port (some id) ip (some port) = some (seed_of ip port id)

abbrev seed_at_colon : (uuid : Option (List ℕ)) (address : List ℕ) → Option ℕ → Option SeedNode
seed_at_colon uuid address none = none
seed_at_colon uuid address (some i) =
    seed_at_port uuid (take i address) (parse_port (drop (suc i) address))

module _ (uuid_parse : List ℕ → Option (List ℕ)) where
  abbrev seed_at : List ℕ → Option ℕ → Option SeedNode
  seed_at token none = none
  seed_at token (some i) =
      seed_at_colon (uuid_parse (take i token)) (drop (suc i) token)
        (find_last b':' (drop (suc i) token))

  -- One entry of the list, or none where it is skipped.
  unfoldable pub parse_seed : List ℕ → Option SeedNode
  unfolding parse_port seed_of
  parse_seed token = seed_at token (find_byte b'@' token)

  -- The loop over the tokens, with room for `left` more nodes.
  unfoldable pub seeds_from : (left : ℕ) → List (List ℕ) → List SeedNode
  unfolding parse_seed
  seeds_from left [] = []
  seeds_from zero (t ∷ ts) = []
  seeds_from (suc left) (t ∷ ts) = elim (parse_seed t) as (λ _. List SeedNode) [
    | none ↦ seeds_from (suc left) ts
    | some n ↦ n ∷ seeds_from left ts
  ]

  unfoldable pub parse_seeds : List ℕ → List SeedNode
  parse_seeds s = seeds_from 16 (tokens_from (b',' ∷ b' ' ∷ b'\t' ∷ b'\n' ∷ []) [] s)

pub record ClusterConfig : Type 0 where
  pub cluster_name : List ℕ
  pub seed_nodes : List SeedNode
  pub min_nodes : ℕ
  pub max_nodes : ℕ
  pub quorum_size : ℕ
  pub network_timeout : ℕ
  pub reconnect_interval : ℕ
  pub enable_auto_failover : Bool
  pub failover_timeout : ℕ

-- The seed nodes, or none where the copy of their list fails. `strlen` of a text that is NULL has no
-- answer.
abbrev pub seeds_of : (List ℕ → Option (List ℕ)) → (copied : Bool) → List ℕ → Option (List SeedNode)
seeds_of uuid_parse copied [] = some []
seeds_of uuid_parse copied (c ∷ s) = if copied then some (parse_seeds uuid_parse (c ∷ s)) else none

unfoldable pub cluster_config : Config → List SeedNode → ClusterConfig
unfolding text_field to_unsigned string_at int_at bool_at
cluster_config c seeds = record {
  cluster_name = text_field 128 (string_at c "cluster.name" "xsan-cluster");
  seed_nodes = seeds;
  min_nodes = to_unsigned 64 (int_at c "cluster.min_nodes" 3);
  max_nodes = to_unsigned 64 (int_at c "cluster.max_nodes" 64);
  quorum_size = to_unsigned 64 (int_at c "cluster.quorum_size" 2);
  network_timeout = to_unsigned 64 (int_at c "cluster.network_timeout" 30);
  reconnect_interval = to_unsigned 64 (int_at c "cluster.reconnect_interval" 5);
  enable_auto_failover = bool_at c "cluster.enable_auto_failover" true;
  failover_timeout = to_unsigned 64 (int_at c "cluster.failover_timeout" 300);
}

abbrev pub with_seeds :
    (List ℕ → Option (List ℕ)) → (copied : Bool) → Config → Option (List ℕ) → Option ClusterConfig
with_seeds uuid_parse copied c none = none
with_seeds uuid_parse copied c (some s) = map (cluster_config c) (seeds_of uuid_parse copied s)

-- None where it returns false, or where the list of the seed nodes is NULL.
unfoldable pub load_cluster_config :
    (List ℕ → Option (List ℕ))
    → (copied : Bool) → Option Config
    → (filled : Bool) → Option ClusterConfig
load_cluster_config uuid_parse copied none filled = none
load_cluster_config uuid_parse copied (some c) filled =
    if filled then with_seeds uuid_parse copied c (string_at c "cluster.seed_nodes" "") else none
