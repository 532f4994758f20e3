-- ===== src/Config/Sections.antt =====
-- xsan_config_load_node_config and xsan_config_load_storage_config of src/utils/config.c: the records
-- that the rest of the program reads. A text field is all bytes of its array.
use xsan.Base.{
  ℕ, suc, ◌-◌, ◌*◌, ◌%◌, ◌^◌, Bool, true, false, Option, none, some, List, replicate, if◌then◌else◌,
}
use Prim.Native.String.{String}
use xsan.StringUtils.{codes}
use xsan.StringUtils.Copy.{strcpy_safe}
use xsan.StringUtils.Compare.{ℤ, pos, negsuc}
use xsan.Config.{Config, get_string, get_int, get_long, get_bool}

-- The conversion of an integer to an unsigned type of `w` bits.
unfoldable pub to_unsigned : (w : ℕ) → ℤ → ℕ
to_unsigned w (pos n) = n % 2 ^ w
to_unsigned w (negsuc n) = 2 ^ w - suc (n % 2 ^ w)

abbrev pub copied_into : ℕ × Option (List ℕ) → List ℕ → List ℕ
copied_into (n, none) zeros = zeros
copied_into (n, some d) zeros = d

-- A text copied into a zeroed array; one that is NULL leaves the zeros.
unfoldable pub text_field : (size : ℕ) → Option (List ℕ) → List ℕ
unfolding strcpy_safe
text_field size s = copied_into (strcpy_safe (some (replicate size 0)) s size) (replicate size 0)

module _ (c : Config) where
  unfoldable pub string_at : String → String → Option (List ℕ)
  unfolding get_string
  string_at key default = get_string (some c) (some (codes key)) (some (codes default))

  unfoldable pub int_at : String → ℕ → ℤ
  unfolding get_int
  int_at key default = get_int (some c) (some (codes key)) (pos default)

  unfoldable pub long_at : String → ℕ → ℤ
  unfolding get_long
  long_at key default = get_long (some c) (some (codes key)) (pos default)

  unfoldable pub bool_at : String → Bool → Bool
  unfolding get_bool
  bool_at key default = get_bool (some c) (some (codes key)) default

pub record NodeConfig : Type 0 where
  pub node_id : List ℕ
  pub node_name : List ℕ
  pub bind_address : List ℕ
  pub port : ℕ
  pub data_dir : List ℕ
  pub log_file : List ℕ
  pub log_level : List ℕ
  pub max_connections : ℕ
  pub heartbeat_interval : ℕ
  pub election_timeout : ℕ
  pub enable_ssl : Bool
  pub ssl_cert_file : List ℕ
  pub ssl_key_file : List ℕ
  pub nvmf_target_nqn : List ℕ
  pub nvmf_listen_port : List ℕ

unfoldable pub node_config : Config → NodeConfig
unfolding text_field to_unsigned string_at int_at bool_at
node_config c = record {
  node_id = text_field 64 (string_at c "node.id" "");
  node_name = text_field 128 (string_at c "node.name" "");
  bind_address = text_field 64 (string_at c "node.bind_address" "0.0.0.0");
  port = to_unsigned 16 (int_at c "node.port" 8080);
  data_dir = text_field 256 (string_at c "node.data_dir" "/var/lib/xsan");
  log_file = text_field 256 (string_at c "node.log_file" "/var/log/xsan/xsan.log");
  log_level = text_field 16 (string_at c "node.log_level" "INFO");
  max_connections = to_unsigned 64 (int_at c "node.max_connections" 1000);
  heartbeat_interval = to_unsigned 64 (int_at c "node.heartbeat_interval" 30);
  election_timeout = to_unsigned 64 (int_at c "node.election_timeout" 150);
  enable_ssl = bool_at c "node.enable_ssl" false;
  ssl_cert_file = text_field 256 (string_at c "node.ssl_cert_file" "");
  ssl_key_file = text_field 256 (string_at c "node.ssl_key_file" "");
  nvmf_target_nqn = text_field 256 (string_at c "nvmf.target_nqn" "");
  nvmf_listen_port = text_field 16 (string_at c "nvmf.listen_port" "4420");
}

-- The record that is filled, or none where false is returned; `filled` is whether there is one to fill.
unfoldable pub load_node_config : Option Config → (filled : Bool) → Option NodeConfig
load_node_config none filled = none
load_node_config (some c) filled = if filled then some (node_config c) else none

pub record StorageConfig : Type 0 where
  pub storage_dir : List ℕ
  pub block_size : ℕ
  pub max_file_size : ℕ
  pub cache_size : ℕ
  pub io_threads : ℕ
  pub sync_interval : ℕ
  pub enable_compression : Bool
  pub compression_algorithm : List ℕ
  pub replication_factor : ℕ
  pub enable_checksums : Bool

unfoldable pub storage_config : Config → StorageConfig
unfolding text_field to_unsigned string_at int_at long_at bool_at
storage_config c = record {
  storage_dir = text_field 256 (string_at c "storage.dir" "/var/lib/xsan/storage");
  block_size = to_unsigned 64 (int_at c "storage.block_size" (4 * 1024));
  max_file_size = to_unsigned 64 (long_at c "storage.max_file_size" (1024 * 1024 * 1024));
  cache_size = to_unsigned 64 (long_at c "storage.cache_size" (100 * 1024 * 1024));
  io_threads = to_unsigned 64 (int_at c "storage.io_threads" 4);
  sync_interval = to_unsigned 64 (int_at c "storage.sync_interval" 60);
  enable_compression = bool_at c "storage.enable_compression" false;
  compression_algorithm = text_field 32 (string_at c "storage.compression_algorithm" "lz4");
  replication_factor = to_unsigned 64 (int_at c "storage.replication_factor" 3);
  enable_checksums = bool_at c "storage.enable_checksums" true;
}

unfoldable pub load_storage_config : Option Config → (filled : Bool) → Option StorageConfig
load_storage_config none filled = none
load_storage_config (some c) filled = if filled then some (storage_config c) else none
