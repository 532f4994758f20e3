-- ===== src/Config/Tests.antt =====
-- Runs of src/utils/config.c.
use mathlib.Core.Option.{none-ne-some}
use xsan.Base.{
  ℕ, Bool, true, false, Option, none, some, List, [], ◌∷◌, ◌++◌, replicate, length, arith, ◌≡◌,
  refl, if◌then◌else◌, ◌==◌, take,
}
use xsan.StringUtils.{codes, text, no_nul, store}
use xsan.StringUtils.Copy.{strcpy_safe}
use xsan.StringUtils.Compare.{pos, negsuc}
use xsan.StringUtils.Convert.{same_text}
use xsan.StringUtils.Split.{member, tokens_from}
use xsan.StringUtils.Numbers.{Strtod, str_to_int, str_to_long}
use xsan.StringUtils.Config.{lacks}
use xsan.Config.{
  update, string_val, int_val, bool_val, Config, Memory, empty, find_in, has_key, get_int,
  get_string, find_config_item,
}
use xsan.Config.History.{IsMap, Call, sets, removes, run, map_run, run-IsMap}
use xsan.Config.Load.{load_from_string}
use xsan.Config.Loaded.{load_from_string-IsMap, calls_of}
use xsan.Config.Save.{Printing, print_long}
use xsan.Config.Decimal.{fits_in, str_to_long-print_long}
use xsan.Config.Saved.{plenty}
use xsan.Config.Sections.{
  NodeConfig, StorageConfig, node_config, load_node_config, load_storage_config, string_at, int_at,
  text_field,
}
use xsan.Config.Seeds.{cluster_config, load_cluster_config, parse_seeds}
use xsan.Config.SeedList.{SeedEntry, print_entries, AllSeeds, parse_seeds-AllSeeds, avoids}
use xsan.Config.Validate.{validate, validate-IsUsable, IsUsable}
use xsan.Config.Fields.{NoNulTexts, IsNodeTexts, load_node_config-IsNodeTexts}

abbrev all_memory : Memory
all_memory = record { for_item = true; for_key = true; for_text = true }

abbrev no_text_memory : Memory
no_text_memory = record { for_item = true; for_key = true; for_text = false }

-- Setting, replacing and removing.
abbrev some_calls : List Call
some_calls =
    sets all_memory (codes "a") (int_val (pos 1))
    ∷ sets all_memory (codes "b") (bool_val true)
    ∷ sets all_memory (codes "a") (string_val (some (codes "x")))
    ∷ removes (codes "b")
    ∷ []

some_calls_count : (run empty some_calls).item_count ≡ 1
unfolding run empty same_text update
some_calls_count = refl

empty-IsMap : IsMap empty (λ j. none)
unfolding empty find_in
empty-IsMap = (record { distinct = tt; counted = omega arith }, λ j. refl)

run-IsMap_example : IsMap (run empty some_calls) (map_run (λ j. none) some_calls)
run-IsMap_example = run-IsMap empty (λ j. none) some_calls empty-IsMap

-- A `strtod` that takes no text for a number, and texts without floating-point numbers.
abbrev no_strtod : List ℕ → Strtod
no_strtod s = record { bits = 0; rest = s; erange = false }

abbrev some_libc : Printing
some_libc = record {
  print_double = λ d. codes "0.000000";
  ctime = codes "Thu Jan  1 00:00:00 1970" ++ b'\n' ∷ [];
  null_text = codes "(null)";
}

abbrev key_buffer : List ℕ
key_buffer = replicate 256 0

abbrev value_buffer : List ℕ
value_buffer = replicate 512 0

abbrev some_text : List ℕ
some_text = codes "# a node" ++ b'\n' ∷ codes "node.port = 9000" ++ b'\n' ∷ codes "ssl = yes"

load_from_string-IsMap_example :
    (loaded : Config) × (load_from_string no_strtod key_buffer value_buffer true plenty
        (some empty)
        (some some_text)
      ≡ (true, some loaded))
    × IsMap loaded (
        map_run
          (λ j. none)
          (calls_of no_strtod key_buffer value_buffer plenty 0
            (tokens_from (b'\n' ∷ []) [] some_text)))
load_from_string-IsMap_example =
    load_from_string-IsMap no_strtod key_buffer value_buffer plenty empty some_text

str_to_long-print_long_example :
    (str_to_long (some (print_long (negsuc 41))) true ≡ some (negsuc 41))
    × (str_to_int (some (print_long (negsuc 41))) true
        ≡ (if fits_in 32 (negsuc 41) then some (negsuc 41) else none))
str_to_long-print_long_example = str_to_long-print_long (negsuc 41) refl

some_uuid_parse : List ℕ → Option (List ℕ)
some_uuid_parse s = if length s == 2 then some (replicate 16 (length s)) else none

abbrev some_entries : List SeedEntry
some_entries =
    (record { uuid = codes "u1"; id = replicate 16 2; ip = codes "10.0.0.1"; port = 7777 })
    ∷ (record { uuid = codes "u2"; id = replicate 16 2; ip = codes "fe80::2"; port = 1 })
    ∷ []

parse_seeds-AllSeeds_example :
    AllSeeds (take 16 some_entries) (parse_seeds some_uuid_parse (print_entries some_entries))
unfolding some_uuid_parse avoids member lacks no_nul
parse_seeds-AllSeeds_example = parse_seeds-AllSeeds some_uuid_parse some_entries (
  record {
    parses = refl;
    no_at = refl;
    uuid_whole = refl;
    ip_whole = refl;
    ip_text = refl;
    port_positive = omega arith;
    port_small = omega arith;
  },
  (
    record {
      parses = refl;
      no_at = refl;
      uuid_whole = refl;
      ip_whole = refl;
      ip_text = refl;
      port_positive = omega arith;
      port_small = omega arith;
    },
    tt,
  ),
)

abbrev valid_config : Config
valid_config = record empty {
  items =
      (record { key = codes "node.id"; value = string_val (some (codes "n1")) })
      ∷ (record { key = codes "node.name"; value = string_val (some (codes "one")) })
      ∷ (record { key = codes "node.port"; value = int_val (pos 9000) })
      ∷ (record { key = codes "storage.replication_factor"; value = int_val (pos 2) })
      ∷ (record { key = codes "cluster.quorum_size"; value = int_val (pos 2) })
      ∷ [];
  item_count = 5;
}

validate-IsUsable_example :
    (n : NodeConfig) × (s : StorageConfig) × (load_node_config (some valid_config) true ≡ some n)
    × (load_storage_config (some valid_config) true ≡ some s)
    × IsUsable valid_config n s (cluster_config valid_config [])
unfolding validate load_cluster_config string_at int_at get_string get_int has_key find_config_item
    find_in same_text empty
validate-IsUsable_example =
    validate-IsUsable some_uuid_parse valid_config (cluster_config valid_config []) refl refl refl

-- A node whose identifier reads as a number is validated, and has no identifier.
abbrev numbered_config : Config
numbered_config = record valid_config {
  items = (record { key = codes "node.id"; value = int_val (pos 42) }) ∷ valid_config.items;
}

numbered_config_lem :
    (validate (some numbered_config) ≡ true) × (text (node_config numbered_config).node_id ≡ [])
unfolding validate node_config text_field string_at int_at get_string get_int has_key
    find_config_item find_in same_text empty strcpy_safe text store
numbered_config_lem = (refl, refl)

named_config : Config
named_config = record empty {
  items = (record { key = codes "node.id"; value = string_val (some (codes "n1")) }) ∷ [];
  item_count = 1;
}

named_value :
    (found : Bool) (s : List ℕ)
    → (if found then some (string_val (some (codes "n1"))) else none) ≡ some (string_val (some s))
    → no_nul s ≡ true
unfolding no_nul
named_value true s e = ground (arith, e)
named_value false s e = absurd (none-ne-some _ e)

named_config-NoNulTexts : NoNulTexts named_config
unfolding NoNulTexts named_config find_in
named_config-NoNulTexts k s e = named_value (same_text (codes "node.id") k) s e

load_node_config-IsNodeTexts_example :
    (n : NodeConfig) × (load_node_config (some named_config) true ≡ some n)
    × IsNodeTexts named_config n
load_node_config-IsNodeTexts_example =
    load_node_config-IsNodeTexts named_config named_config-NoNulTexts
