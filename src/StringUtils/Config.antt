-- ===== src/StringUtils/Config.antt =====
-- xsan_parse_config_line: a line `key = value` of a configuration file.
use xsan.Base.{
  ℕ, suc, Bool, true, false, Option, none, some, List, [], ◌∷◌, leb, ◌==◌, if◌then◌else◌, length,
  set, take, drop, not, ◌&&◌, ◌||◌,
}
use mathlib.Core.Option.{map}
use xsan.StringUtils.{store}
use xsan.StringUtils.Trim.{skip_spaces, trimmed_len}

-- `strchr`
unfoldable pub find_byte : ℕ → List ℕ → Option ℕ
find_byte b [] = none
find_byte b (c ∷ s) = let rest = find_byte b s in if c == b then some 0 else map suc rest

unfoldable pub lacks : ℕ → List ℕ → Bool
lacks b [] = true
lacks b (c ∷ s) = not (c == b) && lacks b s

-- A text and its NUL at the start of a buffer.
unfoldable pub put_text : List ℕ → List ℕ → List ℕ
put_text dest s = set (store dest 0 s) (length s) 0

abbrev pub Parsed : Type 0
Parsed = Bool × Option (List ℕ) × Option (List ℕ)

module _ (key value : List ℕ) (key_size value_size : ℕ) where
  abbrev rejected_line : Parsed
  rejected_line = (false, some key, some value)

  unfoldable pub extract_value : List ℕ → List ℕ → Parsed
  unfolding put_text
  extract_value key' v =
      let value_len = trimmed_len v (length v) in
      if leb value_size value_len
      then (false, some key', some value)
      else (true, some key', some (put_text value (take value_len v)))

  unfoldable pub extract_fields : List ℕ → ℕ → Parsed
  unfolding put_text
  extract_fields line equal_pos =
      let key_len = trimmed_len line equal_pos in
      if leb key_size key_len
      then rejected_line
      else extract_value (put_text key (take key_len line))
          (skip_spaces (drop (suc equal_pos) line))

  unfoldable pub parse_line : List ℕ → Parsed
  parse_line [] = rejected_line
  parse_line (c ∷ s) = if c == b'#' then rejected_line else elim (find_byte b'=' (c ∷ s)) [
    | none ↦ rejected_line
    | some equal_pos ↦ extract_fields (c ∷ s) equal_pos
  ]

unfoldable pub parse_config_line :
    Option (List ℕ) → Option (List ℕ) → Option (List ℕ) → ℕ → ℕ → Parsed
parse_config_line none key value key_size value_size = (false, key, value)
parse_config_line (some line) none value key_size value_size = (false, none, value)
parse_config_line (some line) (some key) none key_size value_size = (false, some key, none)
parse_config_line (some line) (some key) (some value) key_size value_size =
    if key_size == 0 || value_size == 0
    then (false, some key, some value)
    else parse_line key value key_size value_size (skip_spaces line)
