-- ===== src/StringUtils.antt =====
-- The string functions of src/utils/string_utils.c and the texts that they work on: a C string is the
-- list of its bytes before the NUL, a buffer the list of all its bytes. The character classes are
-- those of the C locale.
use Prim.Native.Char.{code}
use Prim.Native.String.{String}
use xsan.Base.{
  ℕ, suc, ◌+◌, ◌-◌, Bool, true, false, List, [], ◌∷◌, leb, ◌==◌, if◌then◌else◌, not, ◌&&◌, ◌||◌,
  set,
}
pub mod Copy
pub mod Bounds
pub mod Escape
pub mod Trim
pub mod Config
pub mod Fields
pub mod Compare
pub mod Replace
pub mod Replaced
pub mod Convert
pub mod Split
pub mod Numbers
mod Tests

-- The bytes of an ASCII literal.
abbrev pub codes : String → List ℕ
codes String.[] = []
codes (String.◌∷◌ c s) = code c ∷ codes s

-- `strlen` counts the bytes of this list.
unfoldable pub text : List ℕ → List ℕ
text [] = []
text (c ∷ s) = let rest = text s in if c == 0 then [] else c ∷ rest

unfoldable pub no_nul : List ℕ → Bool
no_nul [] = true
no_nul (c ∷ s) = not (c == 0) && no_nul s

-- `memcpy` to position `i`.
unfoldable pub store : List ℕ → ℕ → List ℕ → List ℕ
store dest i [] = dest
store dest i (c ∷ s) = store (set dest i c) (suc i) s

unfoldable pub isspace : ℕ → Bool
isspace c = c == b' ' || leb 9 c && leb c 13

unfoldable pub tolower : ℕ → ℕ
tolower c = if leb b'A' c && leb c b'Z' then c + 32 else c

unfoldable pub toupper : ℕ → ℕ
toupper c = if leb b'a' c && leb c b'z' then c - 32 else c
