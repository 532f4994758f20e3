-- ===== src/Config/Fields.antt =====
-- What the text fields hold that xsan_config_load_node_config of src/utils/config.c fills.
use xsan.Base.{
  ℕ, zero, suc, ◌-◌, ◌<◌, true, Option, none, some, List, [], take, length, replicate,
  length-replicate, arith, ◌≡◌, refl, ◌∙◌,
}
use Prim.Native.String.{String}
use xsan.StringUtils.{codes, text, no_nul}
use xsan.StringUtils.Copy.{strcpy_safe}
use xsan.StringUtils.Bounds.{strcpy_safe-IsFilled}
use xsan.Config.{
  Value, string_val, int_val, long_val, double_val, bool_val, Config, find_in, string_of,
  get_string, find_config_item,
}
use xsan.Config.Sections.{text_field, string_at, NodeConfig, node_config, load_node_config}

-- The array has its size, and its text is as much of the given one as leaves room for a NUL.
abbrev pub IsCopy : (size : ℕ) → Option (List ℕ) → List ℕ → Type 0
IsCopy size none d = (length d ≡ size) × (text d ≡ [])
IsCopy size (some s) d = (length d ≡ size) × (text d ≡ take (size - 1) s)

abbrev NoNul : Option (List ℕ) → Type 0
NoNul none = Unit {0}
NoNul (some s) = no_nul s ≡ true

text-replicate : (n : ℕ) → text (replicate n 0) ≡ []
unfolding text
text-replicate zero = refl
text-replicate (suc n) = ground arith

pub text_field-IsCopy :
    (size : ℕ) (s : Option (List ℕ)) → 0 < size → NoNul s → IsCopy size s (text_field size s)
unfolding text_field
text_field-IsCopy size none h p =
    unfold strcpy_safe in (length-replicate size 0, text-replicate size)
text_field-IsCopy size (some s) h p =
    let (d, out, is_text, fits, same_length, rest) =
      strcpy_safe-IsFilled (replicate size 0) s size p h
        (omega (arith, length-replicate {A = ℕ} size 0)) in
    rw out (same_length ∙ length-replicate size 0, is_text)

-- The texts of the items, as C strings.
unfoldable pub NoNulTexts : Config → Type 0
NoNulTexts c = (k s : List ℕ) → find_in c.items k ≡ some (string_val (some s)) → no_nul s ≡ true

string_at-NoNul :
    (c : Config) (key default : String)
    → NoNulTexts c
    → no_nul (codes default) ≡ true
    → NoNul (string_at c key default)
unfolding string_at get_string find_config_item NoNulTexts
string_at-NoNul c key default h d = go (find_in c.items (codes key)) (h (codes key))
  where
    go :
        (o : Option Value)
        → ((s : List ℕ) → o ≡ some (string_val (some s)) → no_nul s ≡ true)
        → NoNul (string_of (some (codes default)) o)
    go none g = d
    go (some (string_val none)) g = tt
    go (some (string_val (some s))) g = g s refl
    go (some (int_val n)) g = d
    go (some (long_val n)) g = d
    go (some (double_val b)) g = d
    go (some (bool_val b)) g = d

-- The text fields of a node's record are copies of the texts that the configuration has under their
-- keys, or of the defaults.
pub record IsNodeTexts (c : Config) (n : NodeConfig) : Type 0 where
  pub node_id_is : IsCopy 64 (string_at c "node.id" "") n.node_id
  pub node_name_is : IsCopy 128 (string_at c "node.name" "") n.node_name
  pub bind_address_is : IsCopy 64 (string_at c "node.bind_address" "0.0.0.0") n.bind_address
  pub data_dir_is : IsCopy 256 (string_at c "node.data_dir" "/var/lib/xsan") n.data_dir
  pub log_file_is : IsCopy 256 (string_at c "node.log_file" "/var/log/xsan/xsan.log") n.log_file
  pub log_level_is : IsCopy 16 (string_at c "node.log_level" "INFO") n.log_level
  pub ssl_cert_file_is : IsCopy 256 (string_at c "node.ssl_cert_file" "") n.ssl_cert_file
  pub ssl_key_file_is : IsCopy 256 (string_at c "node.ssl_key_file" "") n.ssl_key_file
  pub nvmf_target_nqn_is : IsCopy 256 (string_at c "nvmf.target_nqn" "") n.nvmf_target_nqn
  pub nvmf_listen_port_is : IsCopy 16 (string_at c "nvmf.listen_port" "4420") n.nvmf_listen_port

module _ (c : Config) (h : NoNulTexts c) where
  string_at-IsCopy :
      (size : ℕ) (key default : String)
      → 0 < size
      → no_nul (codes default) ≡ true
      → IsCopy size (string_at c key default) (text_field size (string_at c key default))
  string_at-IsCopy size key default p d =
      text_field-IsCopy size _ p (string_at-NoNul c key default h d)

  node_config-IsNodeTexts : IsNodeTexts c (node_config c)
  unfolding node_config no_nul
  node_config-IsNodeTexts = record {
    node_id_is = string_at-IsCopy 64 "node.id" "" (omega arith) refl;
    node_name_is = string_at-IsCopy 128 "node.name" "" (omega arith) refl;
    bind_address_is = string_at-IsCopy 64 "node.bind_address" "0.0.0.0" (omega arith) refl;
    data_dir_is = string_at-IsCopy 256 "node.data_dir" "/var/lib/xsan" (omega arith) refl;
    log_file_is = string_at-IsCopy 256 "node.log_file" "/var/log/xsan/xsan.log" (omega arith) refl;
    log_level_is = string_at-IsCopy 16 "node.log_level" "INFO" (omega arith) refl;
    ssl_cert_file_is = string_at-IsCopy 256 "node.ssl_cert_file" "" (omega arith) refl;
    ssl_key_file_is = string_at-IsCopy 256 "node.ssl_key_file" "" (omega arith) refl;
    nvmf_target_nqn_is = string_at-IsCopy 256 "nvmf.target_nqn" "" (omega arith) refl;
    nvmf_listen_port_is = string_at-IsCopy 16 "nvmf.listen_port" "4420" (omega arith) refl;
  }

  -- Given a configuration whose texts hold no NUL, every text field of the record that
  -- xsan_config_load_node_config fills has the size of its array and holds, before a NUL, as much of
  -- the text under its key (or of the default) as leaves room for the NUL; it is empty if that text
  -- is NULL.
  pub load_node_config-IsNodeTexts :
      (n : NodeConfig) × (load_node_config (some c) true ≡ some n) × IsNodeTexts c n
  unfolding load_node_config
  load_node_config-IsNodeTexts = (node_config c, refl, node_config-IsNodeTexts)
