-- ===== src/StringUtils/Fields.antt =====
-- What xsan_parse_config_line reads from a line `key = value`.
use xsan.Base.{
  ℕ, zero, suc, ◌≤◌, ◌<◌, true, false, some, List, [], ◌∷◌, ◌++◌, ◌==◌, length, length-append, drop,
  arith, ◌≡◌, refl, ap, ◌∙◌, gt→leb, ==_self, Bool-cases, inl, inr, pos-ne_zero,
}
use mathlib.Core.List.{append_assoc}
use xsan.StringUtils.{text, no_nul, isspace}
use xsan.StringUtils.Bounds.{terminated, text-append}
use xsan.StringUtils.Trim.{
  skip_spaces-append, skip_spaces_bare, skip_spaces_first, trimmed_len-append, skip_spaces_all,
  all_space-append, trimmed_len_whole, take_text, skip_spaces, all_space, IsBare,
}
use xsan.StringUtils.Config.{
  find_byte, lacks, put_text, Parsed, extract_value, extract_fields, parse_line, parse_config_line,
}

text-put_text :
    (dest s : List ℕ) → no_nul s ≡ true → length s < length dest → text (put_text dest s) ≡ s
unfolding put_text
text-put_text dest s p h =
    ap text (terminated dest 0 s (length s) (omega arith) h)
    ∙ text-append s (drop (suc (length s)) dest) p

pub find_byte-append :
    (b : ℕ) (s t : List ℕ) → lacks b s ≡ true → find_byte b (s ++ b ∷ t) ≡ some (length s)
unfolding find_byte lacks
find_byte-append b [] t h = rw (==_self b) refl
find_byte-append b (c ∷ s) t h = elim (Bool-cases (c == b)) [
  | inl e ↦ absurd (ground arith)
  | inr e ↦ simp (e, find_byte-append b s t (ground arith)) refl
]

lacks_blank : (a : List ℕ) → all_space a ≡ true → lacks b'=' a ≡ true
unfolding lacks all_space isspace
lacks_blank [] h = refl
lacks_blank (c ∷ a) h = ground (arith, lacks_blank a)

pub lacks-append :
    (b : ℕ) (s t : List ℕ) → lacks b s ≡ true → lacks b t ≡ true → lacks b (s ++ t) ≡ true
unfolding lacks
lacks-append b [] t h k = k
lacks-append b (c ∷ s) t h k = ground (arith, lacks-append b s t)

-- After the white space around a text, at most white space is left.
skip_spaces-padded :
    (a t b : List ℕ)
    → all_space a ≡ true
    → IsBare t
    → all_space b ≡ true
    → (z : List ℕ) × (skip_spaces (a ++ (t ++ b)) ≡ t ++ z) × (all_space z ≡ true)
unfolding all_space
skip_spaces-padded a [] b p h q = ([], skip_spaces_all (a ++ b) (all_space-append a b p q), refl)
skip_spaces-padded a (c ∷ t) b p h q =
    (b, skip_spaces-append a (c ∷ t ++ b) p ∙ skip_spaces_bare (c ∷ t) b (omega arith) h.0, q)

pub drop_past : (n : ℕ) (s t : List ℕ) (c : ℕ) → n ≡ suc (length s) → drop n (s ++ c ∷ t) ≡ t
drop_past zero s t c e = absurd (omega arith)
drop_past (suc zero) [] t c e = refl
drop_past (suc (suc n)) [] t c e = absurd (omega arith)
drop_past (suc n) (x ∷ s) t c e = drop_past n s t c (omega arith)

-- A text that a buffer of the stated size can hold with its NUL, without white space around it.
pub record IsField (buffer : List ℕ) (size : ℕ) (s : List ℕ) : Type 0 where
  pub bare : IsBare s
  pub no_nul_byte : no_nul s ≡ true
  pub fits : length s < size
  pub room : size ≤ length buffer

-- Such a text that can be a key: it is not empty, starts no comment and holds no equals sign.
pub record IsKey (buffer : List ℕ) (size c : ℕ) (s : List ℕ) : Type 0 where
  pub field : IsField buffer size (c ∷ s)
  pub no_comment : (c == b'#') ≡ false
  pub no_equals : lacks b'=' (c ∷ s) ≡ true

abbrev pub IsParsed : List ℕ → List ℕ → Parsed → Type 0
IsParsed key value out =
    (key' : List ℕ) × (value' : List ℕ) × (out ≡ (true, some key', some value'))
    × (text key' ≡ key)
    × (text value' ≡ value)

module _ (key_buf value_buf : List ℕ) (key_size value_size : ℕ) where
  extract_value_lem :
      (key' value z : List ℕ)
      → IsField value_buf value_size value
      → all_space z ≡ true
      → extract_value key_buf value_buf key_size value_size key' (value ++ z)
        ≡ (true, some key', some (put_text value_buf value))
  unfolding extract_value
  extract_value_lem key' value z v q =
      rw
        (
          trimmed_len_whole value z v.bare.1 q,
          gt→leb value_size (length value) v.fits,
          take_text value z,
        )
        refl

  extract_fields_lem :
      (key w r : List ℕ)
      → IsField key_buf key_size key
      → all_space w ≡ true
      → extract_fields key_buf value_buf key_size value_size
          (key ++ w ++ b'=' ∷ r)
          (length (key ++ w))
        ≡ extract_value key_buf value_buf key_size value_size (put_text key_buf key) (skip_spaces r)
  unfolding extract_fields
  extract_fields_lem key w r k q =
      rw
        (
          trimmed_len-append key w (b'=' ∷ r) _ (length-append key w) k.bare.1 q,
          gt→leb key_size (length key) k.fits,
          drop_past _ (key ++ w) r b'=' refl,
          append_assoc key w (b'=' ∷ r),
          take_text key (w ++ b'=' ∷ r),
        )
        refl

  -- White space w before the equals sign, x after it.
  parse_line_lem :
      (c : ℕ) (key w r : List ℕ)
      → IsKey key_buf key_size c key
      → all_space w ≡ true
      → parse_line key_buf value_buf key_size value_size (c ∷ key ++ w ++ b'=' ∷ r)
        ≡ extract_value key_buf value_buf key_size value_size
            (put_text key_buf (c ∷ key))
            (skip_spaces r)
  unfolding parse_line
  parse_line_lem c key w r k q =
      rw (k.no_comment, found) (extract_fields_lem (c ∷ key) w r k.field q)
    where
      found : find_byte b'=' (c ∷ key ++ w ++ b'=' ∷ r) ≡ some (length (c ∷ key ++ w))
      found =
          find_byte-append b'=' (c ∷ key ++ w) r
            (lacks-append b'=' (c ∷ key) w k.no_equals (lacks_blank w q))

  -- A line with a key, an equals sign and a value, each with any white space around it, is parsed to
  -- that key and that value, given buffers in which they fit with their NUL. The key is not empty,
  -- starts no comment and holds no equals sign.
  pub parse_config_line-IsParsed :
      (c : ℕ) (key value a w x y : List ℕ)
      → IsKey key_buf key_size c key
      → IsField value_buf value_size value
      → all_space a ≡ true
      → all_space w ≡ true
      → all_space x ≡ true
      → all_space y ≡ true
      → IsParsed (c ∷ key) value (
          parse_config_line
            (some (a ++ (c ∷ key ++ w ++ b'=' ∷ (x ++ (value ++ y)))))
            (some key_buf)
            (some value_buf)
            key_size
            value_size)
  unfolding parse_config_line
  parse_config_line-IsParsed c key value a w x y k v pa pw px py =
      let (z, tail, blank) = skip_spaces-padded x value y px v.bare py in
      (
        put_text key_buf (c ∷ key),
        put_text value_buf value,
        rw
            (
              pos-ne_zero key_size (omega (arith, k.field.fits)),
              pos-ne_zero value_size (omega (arith, v.fits)),
              skip_spaces-append a (c ∷ key ++ w ++ b'=' ∷ (x ++ (value ++ y))) pa,
              skip_spaces_first c (key ++ w ++ b'=' ∷ (x ++ (value ++ y))) k.field.bare.0,
            )
            (parse_line_lem c key w (x ++ (value ++ y)) k pw
              ∙ ap
                  (extract_value key_buf value_buf key_size value_size (put_text key_buf (c ∷ key)))
                  tail
              ∙ extract_value_lem (put_text key_buf (c ∷ key)) value z v blank),
        text-put_text key_buf (c ∷ key) k.field.no_nul_byte
            (omega (arith, k.field.fits, k.field.room)),
        text-put_text value_buf value v.no_nul_byte (omega (arith, v.fits, v.room)),
      )
