-- ===== src/Config/Validate.antt =====
-- xsan_config_validate of src/utils/config.c, and what a validated configuration is loaded as.
use mathlib.Core.Path.{subst}
use mathlib.Core.Option.{none-ne-some, some-injective}
use native.Mathlib.Nat.{mod-eq_of_lt}
use xsan.Base.{
  ℕ, suc, ◌≤◌, ◌<◌, ◌%◌, ◌^◌, Bool, true, false, Option, none, some, List, [], ◌∷◌, leb, ◌&&◌,
  arith, ◌≡◌, refl, sym,
}
use Prim.Native.String.{String}
use xsan.StringUtils.{codes}
use xsan.StringUtils.Compare.{ℤ, pos, negsuc}
use xsan.Config.{
  Value, string_val, int_val, long_val, double_val, bool_val, Config, has_key, get_int,
  find_config_item, int_of,
}
use xsan.Config.Sections.{
  to_unsigned, string_at, int_at, NodeConfig, node_config, load_node_config, StorageConfig,
  storage_config, load_storage_config,
}
use xsan.Config.Decimal.{fits_in}
use xsan.Config.Seeds.{
  SeedNode, parse_seeds, ClusterConfig, cluster_config, load_cluster_config, with_seeds,
}

abbrev at_least : ℕ → ℤ → Bool
at_least lo (pos n) = leb lo n
at_least lo (negsuc n) = false

abbrev between : ℕ → ℕ → ℤ → Bool
between lo hi (pos n) = leb lo n && leb n hi
between lo hi (negsuc n) = false

unfoldable pub validate : Option Config → Bool
unfolding has_key
validate none = false
validate (some c) =
    has_key (some c) (some (codes "node.id"))
    && (has_key (some c) (some (codes "node.name"))
        && (between 1024 65535 (int_at c "node.port" 0)
            && (between 1 10 (int_at c "storage.replication_factor" 0)
                && at_least 1 (int_at c "cluster.quorum_size" 0))))

-- An answer that is not the default 0 does not depend on the default.
int_of-at_least :
    (o : Option Value) (d : ℤ)
    → at_least 1 (int_of (pos 0) o) ≡ true
    → int_of d o ≡ int_of (pos 0) o
int_of-at_least none d h = absurd (ground arith)
int_of-at_least (some (string_val s)) d h = absurd (ground arith)
int_of-at_least (some (int_val n)) d h = refl
int_of-at_least (some (long_val n)) d h = absurd (ground arith)
int_of-at_least (some (double_val b)) d h = absurd (ground arith)
int_of-at_least (some (bool_val b)) d h = absurd (ground arith)

int_at-at_least :
    (c : Config) (key : String) (d : ℕ)
    → at_least 1 (int_at c key 0) ≡ true
    → int_at c key d ≡ int_at c key 0
unfolding int_at get_int
int_at-at_least c key d h = int_of-at_least (find_config_item (some c) (some (codes key))) (pos d) h

between-at_least : (lo hi : ℕ) (n : ℤ) → between (suc lo) hi n ≡ true → at_least 1 n ≡ true
between-at_least lo hi (pos n) h = ground arith
between-at_least lo hi (negsuc n) h = absurd (ground arith)

-- A field of `w` bits holds the number itself.
to_unsigned-between :
    (w lo hi : ℕ) (n : ℤ)
    → hi < 2 ^ w
    → between lo hi n ≡ true
    → (pos (to_unsigned w n) ≡ n) × (lo ≤ to_unsigned w n) × (to_unsigned w n ≤ hi)
unfolding to_unsigned
to_unsigned-between w lo hi (pos n) b h =
    let same : n % 2 ^ w ≡ n = mod-eq_of_lt (ground arith) in
    rw same (refl, ground arith, ground arith)
to_unsigned-between w lo hi (negsuc n) b h = absurd (ground arith)

-- The number that a field is loaded from, given that the check asked for the same key.
field_of-between :
    (c : Config) (key : String) (w lo hi d : ℕ)
    → hi < 2 ^ w
    → between (suc lo) hi (int_at c key 0) ≡ true
    → (pos (to_unsigned w (int_at c key d)) ≡ int_at c key 0)
      × (suc lo ≤ to_unsigned w (int_at c key d))
      × (to_unsigned w (int_at c key d) ≤ hi)
field_of-between c key w lo hi d b h =
    rw (int_at-at_least c key d (between-at_least lo hi (int_at c key 0) h))
      (to_unsigned-between w (suc lo) hi (int_at c key 0) b h)

at_least-between :
    (n : ℤ) → fits_in 32 n ≡ true → at_least 1 n ≡ true → between 1 2147483647 n ≡ true
at_least-between (pos n) f h = ground arith
at_least-between (negsuc n) f h = absurd (ground arith)

-- What the records say of a validated configuration: its own numbers, in the ranges that were checked.
pub record IsUsable (c : Config) (n : NodeConfig) (s : StorageConfig) (q : ClusterConfig)
    : Type 0 where
  pub has_id : has_key (some c) (some (codes "node.id")) ≡ true
  pub has_name : has_key (some c) (some (codes "node.name")) ≡ true
  pub port_is : pos n.port ≡ int_at c "node.port" 0
  pub port_bounds : (1024 ≤ n.port) × (n.port ≤ 65535)
  pub replication_is : pos s.replication_factor ≡ int_at c "storage.replication_factor" 0
  pub replication_bounds : (1 ≤ s.replication_factor) × (s.replication_factor ≤ 10)
  pub quorum_is : pos q.quorum_size ≡ int_at c "cluster.quorum_size" 0
  pub quorum_positive : 1 ≤ q.quorum_size

IsUsable-loaded :
    (c : Config) (seeds : List SeedNode)
    → fits_in 32 (int_at c "cluster.quorum_size" 0) ≡ true
    → validate (some c) ≡ true
    → IsUsable c (node_config c) (storage_config c) (cluster_config c seeds)
unfolding validate node_config storage_config cluster_config
IsUsable-loaded c seeds f h =
    let port = field_of-between c "node.port" 16 1023 65535 8080 (omega arith) (ground arith) in
    let factor =
      field_of-between c "storage.replication_factor" 64 0 10 3 (omega arith) (ground arith) in
    let quorum =
      field_of-between c "cluster.quorum_size" 64 0 2147483647 2 (omega arith)
        (at_least-between (int_at c "cluster.quorum_size" 0) f (ground arith)) in
    record {
      has_id = ground arith;
      has_name = ground arith;
      port_is = port.0;
      port_bounds = (port.1, port.2);
      replication_is = factor.0;
      replication_bounds = (factor.1, factor.2);
      quorum_is = quorum.0;
      quorum_positive = quorum.1;
    }

-- Whatever is loaded has some seed nodes.
load_cluster_config-cases :
    (uuid_parse : List ℕ → Option (List ℕ)) (c : Config) (o : Option (List ℕ)) (q : ClusterConfig)
    → with_seeds uuid_parse true c o ≡ some q
    → (seeds : List SeedNode) × (q ≡ cluster_config c seeds)
load_cluster_config-cases u c none q e = absurd (none-ne-some q e)
load_cluster_config-cases u c (some []) q e = ([], sym (some-injective _ q e))
load_cluster_config-cases u c (some (b ∷ s)) q e =
    (parse_seeds u (b ∷ s), sym (some-injective _ q e))

-- If xsan_config_validate accepts a configuration whose quorum size is in the range of `int`, then
-- the identifier and the name of the node are set, the node's and the storage's record are loaded,
-- and these and the cluster's record, if it is loaded (the copy of its list of seed nodes succeeds),
-- hold the configuration's own port, replication factor and quorum size, unchanged by the conversions: a port from 1024 to 65535, a factor from 1
-- to 10, and a quorum of at least 1.
pub validate-IsUsable :
    (uuid_parse : List ℕ → Option (List ℕ)) (c : Config) (q : ClusterConfig)
    → fits_in 32 (int_at c "cluster.quorum_size" 0) ≡ true
    → validate (some c) ≡ true
    → load_cluster_config uuid_parse true (some c) true ≡ some q
    → (n : NodeConfig) × (s : StorageConfig) × (load_node_config (some c) true ≡ some n)
      × (load_storage_config (some c) true ≡ some s)
      × IsUsable c n s q
unfolding load_node_config load_storage_config load_cluster_config
validate-IsUsable u c q f h e =
    let (seeds, is) = load_cluster_config-cases u c (string_at c "cluster.seed_nodes" "") q e in
    (
      node_config c,
      storage_config c,
      refl,
      refl,
      subst (λ r. IsUsable c (node_config c) (storage_config c) r) (sym is)
          (IsUsable-loaded c seeds f h),
    )
