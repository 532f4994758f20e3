-- ===== src/StringUtils/Convert.antt =====
-- xsan_strupper, xsan_strlower, xsan_str_reverse, xsan_str_hash and xsan_str_to_bool. Whether the
-- allocation succeeds is an argument.
use xsan.Base.{
  ℕ, zero, suc, ◌+◌, ◌-◌, ◌*◌, ◌%◌, ◌^◌, Bool, true, false, Option, none, some, List, [], ◌∷◌, map,
  ltb, ◌==◌, if◌then◌else◌, ◌&&◌, ◌||◌, length, get_or,
}
use xsan.StringUtils.{codes, toupper, tolower}

unfoldable pub strupper : Bool → Option (List ℕ) → Option (List ℕ)
strupper memory none = none
strupper memory (some s) = if memory then some (map toupper s) else none

unfoldable pub strlower : Bool → Option (List ℕ) → Option (List ℕ)
strlower memory none = none
strlower memory (some s) = if memory then some (map tolower s) else none

-- The bytes before position `n`, from the last to the first.
unfoldable pub backwards : List ℕ → ℕ → List ℕ
backwards s zero = []
backwards s (suc n) = get_or s n 0 ∷ backwards s n

unfoldable pub str_reverse : Bool → Option (List ℕ) → Option (List ℕ)
unfolding backwards
str_reverse memory none = none
str_reverse memory (some s) = if memory then some (backwards s (length s)) else none

-- `char` is signed here: a byte from 128 on adds its value less 256, modulo 2 ^ 32.
abbrev signed_char : ℕ → ℕ
signed_char c = if ltb c 128 then c else c + 2 ^ 32 - 256

unfoldable pub hash_from : ℕ → List ℕ → ℕ
hash_from hash [] = hash
hash_from hash (c ∷ s) = hash_from (((hash * 32) % 2 ^ 32 + hash + signed_char c) % 2 ^ 32) s

unfoldable pub str_hash : Option (List ℕ) → ℕ
unfolding hash_from
str_hash none = 0
str_hash (some s) = hash_from 5381 s

-- `strcmp(s, t) == 0`
unfoldable pub same_text : List ℕ → List ℕ → Bool
same_text [] [] = true
same_text [] (d ∷ t) = false
same_text (c ∷ s) [] = false
same_text (c ∷ s) (d ∷ t) = c == d && same_text s t

abbrev is_one_of : List ℕ → List ℕ → List ℕ → List ℕ → List ℕ → Bool
is_one_of s a b c d = same_text s a || same_text s b || same_text s c || same_text s d

unfoldable pub bool_of : List ℕ → Option Bool
unfolding same_text
bool_of s =
    if is_one_of s (codes "true") (codes "yes") (codes "on") (codes "1")
    then some true
    else if is_one_of s (codes "false") (codes "no") (codes "off") (codes "0")
    then some false
    else none

-- The value that is stored, or `none` where the source returns false.
unfoldable pub str_to_bool : Bool → Option (List ℕ) → Option Bool
unfolding strlower bool_of
str_to_bool memory s = elim (strlower memory s) [ none ↦ none | some t ↦ bool_of t ]
