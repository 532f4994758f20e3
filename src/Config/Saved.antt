-- ===== src/Config/Saved.antt =====
-- The items of src/utils/config.c that can be saved to a file and read back.
use xsan.Base.{ℕ, ◌≤◌, ◌<◌, true, false, none, some, List, [], ◌∷◌, ◌++◌, length, arith, ◌≡◌, refl}
use xsan.StringUtils.{codes, tolower}
use xsan.StringUtils.Compare.{ℤ, pos, negsuc}
use xsan.StringUtils.Convert.{str_to_bool, strlower, bool_of}
use xsan.StringUtils.Numbers.{Strtod, str_to_int, str_to_long, str_to_double}
use xsan.StringUtils.Config.{lacks}
use xsan.StringUtils.Fields.{IsField, IsKey}
use xsan.Config.{
  Value, string_val, int_val, long_val, double_val, bool_val, Item, kept_value, is_null,
}
use xsan.Config.Load.{LineMemory, typed_value}
use xsan.Config.Save.{Printing, print_long, print_value}
use xsan.Config.Decimal.{
  fits_in, str_to_long-print_long, all_graph-print_long, length-print_long, no_nul-all_graph,
  lacks-all_graph, all_graph-IsBare, all_graph,
}

-- No allocation fails.
abbrev pub plenty : ℕ → LineMemory
plenty i = record {
  for_lower = true;
  for_set = record { for_item = true; for_key = true; for_text = true };
}

-- What a saved text has to be so that it is read as a value again: no white space around it, no
-- newline, short enough.
pub record IsLineText (buffer s : List ℕ) : Type 0 where
  pub field : IsField buffer 512 s
  pub one_line : lacks b'\n' s ≡ true

module _ (libc : Printing) (strtod : List ℕ → Strtod) (key_buf value_buf : List ℕ) where
  -- A value that is read back: texts and doubles that do not read as a value of an earlier type, and
  -- integers in the range of their type, a `long` only out of the range of `int`.
  abbrev pub IsStorable : Value → Type 0
  IsStorable (string_val none) = ⊥
  IsStorable (string_val (some s)) =
      IsLineText value_buf s
      × (str_to_int (some s) true ≡ none)
      × (str_to_long (some s) true ≡ none)
      × (str_to_double strtod (some s) true ≡ none)
      × (str_to_bool true (some s) ≡ none)
  IsStorable (int_val n) = fits_in 32 n ≡ true
  IsStorable (long_val n) = (fits_in 64 n ≡ true) × (fits_in 32 n ≡ false)
  IsStorable (double_val d) =
      IsLineText value_buf (libc.print_double d)
      × (str_to_int (some (libc.print_double d)) true ≡ none)
      × (str_to_long (some (libc.print_double d)) true ≡ none)
      × (str_to_double strtod (some (libc.print_double d)) true ≡ some d)
  IsStorable (bool_val b) = Unit {0}

  pub record IsSaved (it : Item) : Type 0 where
    pub first : ℕ
    pub others : List ℕ
    pub key_is : it.key ≡ first ∷ others
    pub key_ok : IsKey key_buf 256 first others
    pub key_line : lacks b'\n' it.key ≡ true
    pub value_ok : IsStorable it.value

  abbrev pub AllSaved : List Item → Type 0
  AllSaved [] = Unit {0}
  AllSaved (it ∷ its) = IsSaved it × AllSaved its

  -- What is relied on of the C library: `strtod` does not take the names of the Booleans for numbers,
  -- `ctime` ends its only line with a newline, and the buffers have their declared sizes.
  pub record IsLibc : Type 0 where
    pub not_true : str_to_double strtod (some (codes "true")) true ≡ none
    pub not_false : str_to_double strtod (some (codes "false")) true ≡ none
    pub date : List ℕ
    pub ctime_is : libc.ctime ≡ date ++ b'\n' ∷ []
    pub date_line : lacks b'\n' date ≡ true
    pub date_short : length date < 1000
    pub key_room : 256 ≤ length key_buf
    pub value_room : 512 ≤ length value_buf

  module _ (l : IsLibc) where
    graph_line : (s : List ℕ) → all_graph s ≡ true → length s < 512 → IsLineText value_buf s
    graph_line s g h = record {
      field = record {
        bare = all_graph-IsBare s g;
        no_nul_byte = no_nul-all_graph s g;
        fits = h;
        room = l.value_room;
      };
      one_line = lacks-all_graph s g;
    }

    long_line : (n : ℤ) → IsLineText value_buf (print_long n)
    long_line n =
        graph_line (print_long n) (all_graph-print_long n) (omega (arith, length-print_long n))

    pub value_line : (v : Value) → IsStorable v → IsLineText value_buf (print_value libc v)
    unfolding print_value
    value_line (string_val none) h = absurd h
    value_line (string_val (some s)) h = h.0
    value_line (int_val n) h = long_line n
    value_line (long_val n) h = long_line n
    value_line (double_val d) h = h.0
    value_line (bool_val true) h =
        graph_line (codes "true") (unfold all_graph in refl) (omega arith)
    value_line (bool_val false) h =
        graph_line (codes "false") (unfold all_graph in refl) (omega arith)

    fits_64 : (n : ℤ) → fits_in 32 n ≡ true → fits_in 64 n ≡ true
    fits_64 (pos n) h = ground arith
    fits_64 (negsuc n) h = ground arith

    pub typed-print_value :
        (v : Value) → IsStorable v → typed_value strtod true (print_value libc v) ≡ v
    unfolding print_value typed_value
    typed-print_value (string_val none) h = absurd h
    typed-print_value (string_val (some s)) (f, i, g, d, b) = rw (i, g, d, b) refl
    typed-print_value (int_val n) h = rw ((str_to_long-print_long n (fits_64 n h)).1, h) refl
    typed-print_value (long_val n) (h, g) =
        rw ((str_to_long-print_long n h).1, (str_to_long-print_long n h).0, g) refl
    typed-print_value (double_val d) (f, i, g, e) = rw (i, g, e) refl
    typed-print_value (bool_val true) h =
        rw l.not_true (unfold str_to_int str_to_long str_to_bool strlower bool_of tolower in refl)
    typed-print_value (bool_val false) h =
        rw l.not_false (unfold str_to_int str_to_long str_to_bool strlower bool_of tolower in refl)

    pub IsStorable-is_null : (v : Value) → IsStorable v → is_null v ≡ false
    IsStorable-is_null (string_val none) h = absurd h
    IsStorable-is_null (string_val (some s)) h = refl
    IsStorable-is_null (int_val n) h = refl
    IsStorable-is_null (long_val n) h = refl
    IsStorable-is_null (double_val d) h = refl
    IsStorable-is_null (bool_val b) h = refl

    pub IsStorable-kept_value :
        (v : Value) → IsStorable v → kept_value (plenty 0).for_set v ≡ (true, v)
    unfolding kept_value
    IsStorable-kept_value (string_val none) h = absurd h
    IsStorable-kept_value (string_val (some s)) h = refl
    IsStorable-kept_value (int_val n) h = refl
    IsStorable-kept_value (long_val n) h = refl
    IsStorable-kept_value (double_val d) h = refl
    IsStorable-kept_value (bool_val b) h = refl
