-- ===== src/StringUtils/Escape.antt =====
-- xsan_str_escape and xsan_str_unescape. Whether the allocation succeeds is an argument.
use xsan.Base.{
  ℕ, ◌+◌, Bool, true, false, Option, none, some, List, [], ◌∷◌, ◌==◌, if◌then◌else◌, length,
  Option-cases, ◌∙◌, inl, inr, arith, ◌≡◌, refl, ap, ◌||◌,
}

abbrev backslash : ℕ
backslash = b'\\'

-- The cases of the switch: what follows the backslash, if there is one.
unfoldable pub escape_char : ℕ → Option ℕ
escape_char c =
    if c == b'\n'
    then some b'n'
    else if c == b'\r'
    then some b'r'
    else if c == b'\t'
    then some b't'
    else if c == backslash || c == b'"' || c == b'\''
    then some c
    else none

abbrev width : Option ℕ → ℕ
width none = 1
width (some _) = 2

unfoldable pub escaped_len : List ℕ → ℕ
escaped_len [] = 0
escaped_len (c ∷ s) = width (escape_char c) + escaped_len s

abbrev emit_char : ℕ → Option ℕ → List ℕ → List ℕ
emit_char c none out = c ∷ out
emit_char c (some d) out = backslash ∷ d ∷ out

unfoldable pub escape_bytes : List ℕ → List ℕ
escape_bytes [] = []
escape_bytes (c ∷ s) = emit_char c (escape_char c) (escape_bytes s)

unfoldable pub str_escape : Bool → Option (List ℕ) → Option (List ℕ)
unfolding escape_bytes
str_escape memory none = none
str_escape memory (some s) = if memory then some (escape_bytes s) else none

-- The byte that `\c` stands for.
unfoldable pub unescape_char : ℕ → Option ℕ
unescape_char c =
    if c == b'n'
    then some b'\n'
    else if c == b'r'
    then some b'\r'
    else if c == b't'
    then some b'\t'
    else if c == backslash || c == b'"' || c == b'\''
    then some c
    else none

-- A backslash before any other byte, or at the end, stays.
unfoldable pub unescape_bytes : List ℕ → List ℕ
unescape_bytes [] = []
unescape_bytes (c ∷ []) = c ∷ []
unescape_bytes (c ∷ d ∷ s) =
    let plain = c ∷ unescape_bytes (d ∷ s) in
    let shorter = unescape_bytes s in
    if c == backslash then elim (unescape_char d) [ none ↦ plain | some e ↦ e ∷ shorter ] else plain

unfoldable pub str_unescape : Bool → Option (List ℕ) → Option (List ℕ)
unfolding unescape_bytes
str_unescape memory none = none
str_unescape memory (some s) = if memory then some (unescape_bytes s) else none

unescape-escape_char : (c d : ℕ) → escape_char c ≡ some d → unescape_char d ≡ some c
unfolding escape_char unescape_char
unescape-escape_char c d h = ground arith

escape_char-plain : (c : ℕ) → escape_char c ≡ none → (c == backslash) ≡ false
unfolding escape_char
escape_char-plain c h = ground arith

unescape-plain :
    (c : ℕ) (s : List ℕ) → (c == backslash) ≡ false → unescape_bytes (c ∷ s) ≡ c ∷ unescape_bytes s
unfolding unescape_bytes
unescape-plain c [] h = refl
unescape-plain c (d ∷ s) h = simp h refl

unescape-pair :
    (c d : ℕ) (s : List ℕ)
    → unescape_char d ≡ some c
    → unescape_bytes (backslash ∷ d ∷ s) ≡ c ∷ unescape_bytes s
unfolding unescape_bytes
unescape-pair c d s h = simp h refl

unescape_escape_bytes : (s : List ℕ) → unescape_bytes (escape_bytes s) ≡ s
unfolding escape_bytes unescape_bytes
unescape_escape_bytes [] = refl
unescape_escape_bytes (c ∷ s) = elim (Option-cases (escape_char c)) [
  | inl e ↦ simp e (
      unescape-plain c (escape_bytes s) (escape_char-plain c e)
      ∙ ap (λ r. c ∷ r) (unescape_escape_bytes s))
  | inr (d, e) ↦ simp e (
      unescape-pair c d (escape_bytes s) (unescape-escape_char c d e)
      ∙ ap (λ r. c ∷ r) (unescape_escape_bytes s))
]

-- Where both allocations succeed, unescaping what xsan_str_escape returns gives the text back.
pub str_unescape-str_escape : (s : List ℕ) → str_unescape true (str_escape true (some s)) ≡ some s
unfolding str_unescape str_escape
str_unescape-str_escape s = ap some (unescape_escape_bytes s)

length-escape_bytes : (s : List ℕ) → length (escape_bytes s) ≡ escaped_len s
unfolding escape_bytes escaped_len
length-escape_bytes [] = refl
length-escape_bytes (c ∷ s) = elim (Option-cases (escape_char c)) [
  | inl e ↦ simp e (omega (arith, length-escape_bytes s))
  | inr (d, e) ↦ simp e (omega (arith, length-escape_bytes s))
]
