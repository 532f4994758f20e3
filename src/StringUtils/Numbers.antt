-- ===== src/StringUtils/Numbers.antt =====
-- xsan_str_to_int, xsan_str_to_long, xsan_str_to_double (`strtod` is a parameter) and the units of xsan_duration_to_human_readable, whose printing
-- is snprintf's.
use xsan.Base.{
  ℕ, ◌+◌, ◌-◌, ◌*◌, ◌/◌, ◌%◌, ◌^◌, Bool, true, false, Option, none, some, List, [], ◌∷◌, leb, ltb,
  ◌==◌, if◌then◌else◌, not, ◌&&◌, ◌||◌, length,
}
use xsan.StringUtils.{isspace}
use xsan.StringUtils.Trim.{skip_spaces}
use xsan.StringUtils.Compare.{ℤ, pos, negsuc}

-- `strtol` in base 10: the digits from here on, and what follows them.
unfoldable pub digits : ℕ → List ℕ → ℕ × List ℕ
digits acc [] = (acc, [])
digits acc (c ∷ s) =
    let rest = digits (acc * 10 + (c - b'0')) s in
    if leb b'0' c && leb c b'9' then rest else (acc, c ∷ s)

abbrev pub signed : Bool → ℕ → ℤ
signed negative n = if negative && not (n == 0) then negsuc (n - 1) else pos n

-- Does the magnitude leave `bits` bits in two's complement?
abbrev pub out_of_range : (bits : ℕ) (negative : Bool) → ℕ → Bool
out_of_range bits negative n = ltb (if negative then 2 ^ (bits - 1) else 2 ^ (bits - 1) - 1) n

-- A number of at least one digit that ends the text and fits.
unfoldable pub whole_number : (bits : ℕ) (negative : Bool) → List ℕ → Option ℤ
unfolding digits
whole_number bits negative s =
    let (n, rest) = digits 0 s in
    if length s == 0 || (not (length rest == 0) || out_of_range bits negative n)
    then none
    else some (signed negative n)

unfoldable pub signed_number : (bits : ℕ) → List ℕ → Option ℤ
unfolding whole_number
signed_number bits [] = none
signed_number bits (c ∷ s) =
    if c == b'-'
    then whole_number bits true s
    else if c == b'+'
    then whole_number bits false s
    else whole_number bits false (c ∷ s)

-- The value that is stored, or `none` where the source returns false; `int` has 32 bits, `long` 64.
unfoldable pub str_to_int : Option (List ℕ) → (has_value : Bool) → Option ℤ
unfolding signed_number skip_spaces isspace
str_to_int none has_value = none
str_to_int (some s) has_value = if has_value then signed_number 32 (skip_spaces s) else none

unfoldable pub str_to_long : Option (List ℕ) → (has_value : Bool) → Option ℤ
unfolding signed_number skip_spaces isspace
str_to_long none has_value = none
str_to_long (some s) has_value = if has_value then signed_number 64 (skip_spaces s) else none

-- What `strtod` answers: the number's bits, the text behind it, and whether it is out of range.
pub record Strtod : Type 0 where
  pub bits : ℕ
  pub rest : List ℕ
  pub erange : Bool

unfoldable pub str_to_double :
    (strtod : List ℕ → Strtod) → Option (List ℕ) → (has_value : Bool) → Option ℕ
str_to_double strtod none has_value = none
str_to_double strtod (some s) has_value =
    if not has_value
      || ((strtod s).erange
          || (not (length (strtod s).rest == 0) || length (strtod s).rest == length s))
    then none
    else some (strtod s).bits

pub data Duration : Type 0 where
  in_seconds : (seconds : ℕ) → Duration
  in_minutes : (minutes seconds : ℕ) → Duration
  in_hours : (hours minutes : ℕ) → Duration
  in_days : (days hours : ℕ) → Duration

unfoldable pub duration_to_human_readable :
    (seconds : ℕ) (has_buffer : Bool) (size : ℕ) → Option Duration
duration_to_human_readable seconds has_buffer size =
    if not has_buffer || ltb size 32
    then none
    else if ltb seconds 60
    then some (in_seconds seconds)
    else if ltb seconds 3600
    then some (in_minutes (seconds / 60) (seconds % 60))
    else if ltb seconds 86400
    then some (in_hours (seconds / 3600) ((seconds % 3600) / 60))
    else some (in_days (seconds / 86400) ((seconds % 86400) / 3600))
