-- ===== src/Config/SavedTests.antt =====
-- A saved configuration of src/utils/config.c.
use xsan.Base.{
  ℕ, true, false, some, List, [], ◌∷◌, ◌++◌, replicate, length, length-replicate, ◌<◌, get_or, ap,
  ◌∙◌, arith, ◌≡◌, refl, ◌==◌,
}
use xsan.StringUtils.{codes, no_nul, isspace, tolower}
use xsan.StringUtils.Compare.{pos}
use xsan.StringUtils.Convert.{same_text, strlower, bool_of, str_to_bool}
use xsan.StringUtils.Numbers.{Strtod, str_to_int, str_to_long, str_to_double}
use xsan.StringUtils.Config.{lacks}
use xsan.Config.{Value, string_val, int_val, long_val, bool_val, Item, Config, empty, find_in}
use xsan.Config.History.{IsDistinct, IsValid}
use xsan.Config.Load.{load_from_file}
use xsan.Config.Save.{Printing, save_to_file}
use xsan.Config.Saved.{plenty, IsStorable, IsSaved, AllSaved, IsLibc, IsLineText}
use xsan.Config.RoundTrip.{load_from_file-save_to_file}

-- A `strtod` that takes no text for a number, and texts without floating-point numbers.
abbrev no_strtod : List ℕ → Strtod
no_strtod s = record { bits = 0; rest = s; erange = false }

abbrev some_libc : Printing
some_libc = record {
  print_double = λ d. codes "0.000000";
  ctime = codes "Thu Jan  1 00:00:00 1970" ++ b'\n' ∷ [];
  null_text = codes "(null)";
}

abbrev key_buffer : List ℕ
key_buffer = replicate 256 0

abbrev value_buffer : List ℕ
value_buffer = replicate 512 0

abbrev saved_config : Config
saved_config = record empty {
  items =
      (record { key = codes "node.port"; value = int_val (pos 9000) })
      ∷ (record { key = codes "storage.cache_size"; value = long_val (pos 8589934592) })
      ∷ (record { key = codes "node.name"; value = string_val (some (codes "node one")) })
      ∷ (record { key = codes "node.enable_ssl"; value = bool_val true })
      ∷ [];
  item_count = 4;
}

some-IsLibc : IsLibc some_libc no_strtod key_buffer value_buffer
unfolding str_to_double lacks
some-IsLibc = record {
  not_true = refl;
  not_false = refl;
  date = codes "Thu Jan  1 00:00:00 1970";
  ctime_is = refl;
  date_line = refl;
  date_short = omega arith;
  key_room = omega (arith, length-replicate {A = ℕ} 256 0);
  value_room = omega (arith, length-replicate {A = ℕ} 512 0);
}

abbrev IsSavedHere : Item → Type 0
IsSavedHere = IsSaved some_libc no_strtod key_buffer value_buffer

item-IsSavedHere :
    (c : ℕ) (s : List ℕ) (v : Value)
    → (isspace c ≡ false) × (isspace (get_or (c ∷ s) (length s) 0) ≡ false)
    → (no_nul (c ∷ s) ≡ true) × ((c == b'#') ≡ false)
    → (lacks b'=' (c ∷ s) ≡ true) × (lacks b'\n' (c ∷ s) ≡ true)
    → length (c ∷ s) < 256
    → IsStorable some_libc no_strtod key_buffer value_buffer v
    → IsSavedHere (record { key = c ∷ s; value = v })
item-IsSavedHere c s v b n l h w = record {
  first = c;
  others = s;
  key_is = refl;
  key_ok = record {
    field = record {
      bare = (b.0, ap (λ i. isspace (get_or (c ∷ s) i 0)) (omega arith) ∙ b.1);
      no_nul_byte = n.0;
      fits = h;
      room = omega (arith, length-replicate {A = ℕ} 256 0);
    };
    no_comment = n.1;
    no_equals = l.0;
  };
  key_line = l.1;
  value_ok = w;
}

name_line : IsLineText value_buffer (codes "node one")
unfolding lacks no_nul isspace
name_line = record {
  field = record {
    bare = (refl, refl);
    no_nul_byte = refl;
    fits = omega arith;
    room = omega (arith, length-replicate {A = ℕ} 512 0);
  };
  one_line = refl;
}

port_item : IsSavedHere (record { key = codes "node.port"; value = int_val (pos 9000) })
unfolding lacks no_nul isspace str_to_int str_to_long str_to_double str_to_bool strlower tolower
    bool_of
port_item =
    item-IsSavedHere b'n' (codes "ode.port") (int_val (pos 9000)) (refl, refl) (refl, refl)
      (refl, refl) (omega arith) refl

cache_item :
    IsSavedHere (record { key = codes "storage.cache_size"; value = long_val (pos 8589934592) })
unfolding lacks no_nul isspace str_to_int str_to_long str_to_double str_to_bool strlower tolower
    bool_of
cache_item =
    item-IsSavedHere b's' (codes "torage.cache_size") (long_val (pos 8589934592)) (refl, refl)
      (refl, refl) (refl, refl) (omega arith) (refl, refl)

name_item :
    IsSavedHere (record { key = codes "node.name"; value = string_val (some (codes "node one")) })
unfolding lacks no_nul isspace str_to_int str_to_long str_to_double str_to_bool strlower tolower
    bool_of
name_item =
    item-IsSavedHere b'n' (codes "ode.name") (string_val (some (codes "node one"))) (refl, refl)
      (refl, refl) (refl, refl) (omega arith) (name_line, refl, refl, refl, refl)

ssl_item : IsSavedHere (record { key = codes "node.enable_ssl"; value = bool_val true })
unfolding lacks no_nul isspace str_to_int str_to_long str_to_double str_to_bool strlower tolower
    bool_of
ssl_item =
    item-IsSavedHere b'n' (codes "ode.enable_ssl") (bool_val true) (refl, refl) (refl, refl)
      (refl, refl) (omega arith) tt

saved_config-AllSaved : AllSaved some_libc no_strtod key_buffer value_buffer saved_config.items
unfolding empty
saved_config-AllSaved = (port_item, (cache_item, (name_item, (ssl_item, tt))))

saved_config-IsDistinct : IsDistinct saved_config.items
unfolding empty find_in same_text
saved_config-IsDistinct = (refl, (refl, (refl, (refl, tt))))

load_from_file-save_to_file_example :
    (bytes : List ℕ) × (loaded : Config) × (save_to_file some_libc
        (some saved_config)
        (some (codes "n.conf"))
        true
      ≡ (true, some bytes))
    × (load_from_file no_strtod key_buffer value_buffer true plenty
          (some empty)
          (some (codes "n.conf"))
          (some 5)
          (some bytes)
        ≡ (true, some loaded))
    × IsValid loaded
    × ((j : List ℕ) → find_in loaded.items j ≡ find_in saved_config.items j)
load_from_file-save_to_file_example =
    load_from_file-save_to_file some_libc no_strtod key_buffer value_buffer some-IsLibc saved_config
      empty (codes "n.conf") (some 5) saved_config-AllSaved saved_config-IsDistinct
