-- ===== src/StringUtils/Tests.antt =====
-- Runs of the string functions, and the theorems at concrete texts.
use xsan.Base.{[], none, ℕ, true, some, List, ◌∷◌, ◌++◌, replicate, arith, ◌≡◌, refl}
use xsan.StringUtils.{codes, no_nul, isspace, tolower}
use xsan.StringUtils.Copy.{strcpy_safe}
use xsan.StringUtils.Bounds.{IsFilled, strcpy_safe-IsFilled}
use xsan.StringUtils.Escape.{
  str_escape, str_unescape, escape_bytes, escape_char, str_unescape-str_escape,
}
use xsan.StringUtils.Trim.{all_space}
use xsan.StringUtils.Config.{parse_config_line, lacks}
use xsan.StringUtils.Fields.{IsParsed, IsField, IsKey, parse_config_line-IsParsed}
use xsan.StringUtils.Replace.{str_replace, written, starts}
use xsan.StringUtils.Split.{strsplit, tokens_from, member, keep_tokens}
use xsan.StringUtils.Numbers.{str_to_int, in_hours, duration_to_human_readable}
use xsan.StringUtils.Compare.{negsuc}
use xsan.StringUtils.Replaced.{replaced, str_replace_lem}
use xsan.StringUtils.Convert.{str_hash, str_to_bool, str_reverse}

abbrev buffer : List ℕ
buffer = replicate 12 b'?'

strcpy_safe-IsFilled_example :
    IsFilled 4 buffer (codes "xsa") (strcpy_safe (some buffer) (some (codes "xsan node")) 4)
unfolding no_nul
strcpy_safe-IsFilled_example =
    strcpy_safe-IsFilled buffer (codes "xsan node") 4 refl (omega arith) (omega arith)

abbrev greeting : List ℕ
greeting = codes "disk" ++ 0 ∷ replicate 5 b'?'

str_unescape-str_escape_example :
    str_unescape true (str_escape true (some (codes "a\\nb\n\"c\""))) ≡ some (codes "a\\nb\n\"c\"")
str_unescape-str_escape_example = str_unescape-str_escape (codes "a\\nb\n\"c\"")

escaped : escape_bytes (codes "a\n'") ≡ codes "a\\n\\'"
unfolding escape_bytes escape_char
escaped = refl

abbrev port_key : IsKey buffer 12 b'p' (codes "ort")
unfolding no_nul isspace lacks
port_key = record {
  field = record {
    bare = (refl, refl);
    no_nul_byte = refl;
    fits = omega arith;
    room = omega arith;
  };
  no_comment = refl;
  no_equals = refl;
}

abbrev port_value : IsField buffer 12 (codes "8080")
unfolding no_nul isspace
port_value = record {
  bare = (refl, refl);
  no_nul_byte = refl;
  fits = omega arith;
  room = omega arith;
}

parse_config_line-IsParsed_example :
    IsParsed
      (codes "port")
      (codes "8080")
      (parse_config_line (some (codes " port = 8080\n")) (some buffer) (some buffer) 12 12)
unfolding all_space isspace
parse_config_line-IsParsed_example =
    parse_config_line-IsParsed buffer buffer 12 12 b'p' (codes "ort") (codes "8080") (codes " ")
      (codes " ") (codes " ") (codes "\n") port_key port_value refl refl refl refl

str_replace_lem_example :
    str_replace true (some (codes "a--b--c")) (some (codes "--")) (some (codes "+"))
    ≡ written 6 (codes "a+b+c")
unfolding replaced starts
str_replace_lem_example =
    str_replace_lem b'-' (codes "-") (codes "a--b--c") (codes "+") (omega arith) (omega arith)
      (omega arith)

hashed : str_hash (some (codes "a")) ≡ 177670
unfolding str_hash
hashed = refl

read_as_bool : str_to_bool true (some (codes "Yes")) ≡ some true
unfolding str_to_bool tolower
read_as_bool = refl

reversed : str_reverse true (some (codes "node")) ≡ some (codes "edon")
unfolding str_reverse
reversed = refl

split_words :
    strsplit true (λ i. true) (some (codes " a,bc")) (some (codes " ,")) true 8
    ≡ codes "a" ∷ codes "bc" ∷ []
unfolding strsplit tokens_from member keep_tokens
split_words = refl

read_int : str_to_int (some (codes " -42")) true ≡ some (negsuc 41)
unfolding str_to_int
read_int = refl

int_overflow : str_to_int (some (codes "2147483648")) true ≡ none
unfolding str_to_int
int_overflow = refl

ninety_minutes : duration_to_human_readable 5400 true 32 ≡ some (in_hours 1 30)
unfolding duration_to_human_readable
ninety_minutes = refl
