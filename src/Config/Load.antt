-- ===== src/Config/Load.antt =====
-- xsan_config_load_from_string and xsan_config_load_from_file of src/utils/config.c. What `fopen` and
-- `stat` find, the allocations that succeed, and the bytes that are in the two line buffers before
-- they are written, are arguments; `strtod` is a parameter.
use xsan.Base.{
  ℕ, suc, ◌-◌, Bool, true, false, Option, none, some, List, [], ◌∷◌, ◌++◌, if◌then◌else◌, leb, ◌==◌,
  ◌||◌,
}
use xsan.StringUtils.{text}
use xsan.StringUtils.Compare.{ℤ}
use xsan.StringUtils.Convert.{str_to_bool}
use xsan.StringUtils.Numbers.{Strtod, str_to_int, str_to_long, str_to_double}
use xsan.StringUtils.Config.{Parsed, parse_config_line}
use xsan.StringUtils.Split.{flushed, tokens_from}
use xsan.Config.{
  Value, string_val, int_val, long_val, double_val, bool_val, Config, Memory, set_config_item,
  clear,
}

-- The allocations of one line: the copy in lower case, and those of the item.
pub record LineMemory : Type 0 where
  pub for_lower : Bool
  pub for_set : Memory

-- The five attempts at a value, in order.
abbrev typed_string : List ℕ → Option Bool → Value
typed_string v none = string_val (some v)
typed_string v (some b) = bool_val b

abbrev typed_bool : List ℕ → Option Bool → Option ℕ → Value
typed_bool v b none = typed_string v b
typed_bool v b (some d) = double_val d

abbrev typed_long : List ℕ → Option Bool → Option ℕ → Option ℤ → Value
typed_long v b d none = typed_bool v b d
typed_long v b d (some n) = long_val n

abbrev typed_int : List ℕ → Option Bool → Option ℕ → Option ℤ → Option ℤ → Value
typed_int v b d l none = typed_long v b d l
typed_int v b d l (some n) = int_val n

abbrev after_set : Config → Option Config → Config
after_set c none = c
after_set c (some d) = d

-- `fgets` into a buffer of 1024 bytes: at most 1023 bytes up to a newline; `cur` has been read and
-- `room` bytes fit.
unfoldable pub fgets_from : (room : ℕ) (cur : List ℕ) → List ℕ → List (List ℕ)
fgets_from room cur [] = flushed cur []
fgets_from room cur (c ∷ s) =
    let ends = c == b'\n' || leb room 1 in
    let rest =
      fgets_from (if ends then 1023 else room - 1) (if ends then [] else cur ++ c ∷ []) s in
    if ends then (cur ++ c ∷ []) ∷ rest else rest

module _ (strtod : List ℕ → Strtod) where
  unfoldable pub typed_value : Bool → List ℕ → Value
  typed_value lower v =
      typed_int v (str_to_bool lower (some v)) (str_to_double strtod (some v) true)
        (str_to_long (some v) true) (str_to_int (some v) true)

  module _ (key value : List ℕ) where
    -- A line of the file, or a token of the string.
    unfoldable pub load_parsed : LineMemory → Config → Parsed → Config
    unfolding typed_value set_config_item
    load_parsed m c (true, some k, some v) =
        after_set c
          (set_config_item m.for_set (some c) (some (text k)) (typed_value m.for_lower (text v))).1
    load_parsed m c _ = c

    unfoldable pub load_line : LineMemory → Config → List ℕ → Config
    unfolding load_parsed
    load_line m c line =
        load_parsed m c (parse_config_line (some line) (some key) (some value) 256 512)

    -- The lines from line `i` on. What follows a NUL is not looked at.
    unfoldable pub load_lines : (ℕ → LineMemory) → (i : ℕ) → Config → List (List ℕ) → Config
    unfolding load_line
    load_lines m i c [] = c
    load_lines m i c (l ∷ ls) = load_lines m (suc i) (load_line (m i) c (text l)) ls

    unfoldable pub load_from_string :
        Bool → (ℕ → LineMemory) → Option Config → Option (List ℕ) → Bool × Option Config
    unfolding load_lines clear
    load_from_string copied m none s = (false, none)
    load_from_string copied m (some c) none = (false, some c)
    load_from_string copied m (some c) (some s) =
        if copied
        then (true, some (load_lines m 0 (clear c) (tokens_from (b'\n' ∷ []) [] s)))
        else (false, some (clear c))

    -- What is done once the file is open; `path` is the copy of its name.
    unfoldable pub load_opened :
        (ℕ → LineMemory) → Config → (path : Option (List ℕ)) (mtime : ℕ) (bytes : List ℕ) → Config
    unfolding load_lines clear
    load_opened m c path mtime bytes =
        load_lines m 0 (clear (record c { config_file = path; last_modified = mtime }))
          (fgets_from 1023 [] bytes)

    abbrev pub mtime_of : Config → Option ℕ → ℕ
    mtime_of c none = c.last_modified
    mtime_of c (some t) = t

    unfoldable pub load_from_file :
        Bool
        → (ℕ → LineMemory)
        → Option Config
        → (path : Option (List ℕ)) → (mtime : Option ℕ) (bytes : Option (List ℕ))
        → Bool × Option Config
    unfolding load_opened
    load_from_file copied m none path mtime bytes = (false, none)
    load_from_file copied m (some c) none mtime bytes = (false, some c)
    load_from_file copied m (some c) (some path) mtime none = (false, some c)
    load_from_file copied m (some c) (some path) mtime (some bytes) =
        (true, some (load_opened m c (if copied then some path else none) (mtime_of c mtime) bytes))

    -- The path is the configuration's own, which is freed before it is copied: `stale` is what its
    -- memory holds by then.
    unfoldable pub reload :
        Bool
        → (ℕ → LineMemory)
        → Option Config
        → (stale : List ℕ) → (mtime : Option ℕ) (bytes : Option (List ℕ)) → Bool × Option Config
    unfolding load_opened
    reload copied m none stale mtime bytes = (false, none)
    reload copied m (some c) stale mtime bytes = elim c.config_file as (λ _. Bool × Option Config) [
      | none ↦ (false, some c)
      | some path ↦ elim bytes as (λ _. Bool × Option Config) [
        | none ↦ (false, some c)
        | some b ↦ (
          true,
          some (load_opened m c (if copied then some stale else none) (mtime_of c mtime) b),
        )
      ]
    ]
