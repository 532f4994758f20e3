-- ===== src/Config/SavedLines.antt =====
-- The lines of a file that xsan_config_save_to_file of src/utils/config.c writes, as `fgets` and
-- xsan_parse_config_line read them.
use xsan.Base.{
  ℕ, ◌-◌, ◌<◌, true, Bool-cases, some, List, [], ◌∷◌, ◌++◌, map, leb, ◌==◌, ◌||◌, length,
  length-append, inl, inr, arith, ◌≡◌, refl, sym, ap, ◌∙◌,
}
use mathlib.Core.List.{append_assoc}
use xsan.StringUtils.{codes, text, no_nul, isspace}
use xsan.StringUtils.Bounds.{no_nul-append}
use xsan.StringUtils.Trim.{all_space}
use xsan.StringUtils.Numbers.{Strtod}
use xsan.StringUtils.Config.{lacks, parse_config_line}
use xsan.StringUtils.Fields.{lacks-append, parse_config_line-IsParsed}
use xsan.Config.{Item, Config, set_item, set_config_item}
use xsan.Config.Load.{fgets_from, load_parsed, load_line}
use xsan.Config.Save.{Printing, print_value, print_item, print_items}
use xsan.Config.Saved.{
  plenty, IsSaved, AllSaved, IsLibc, value_line, typed-print_value, IsStorable-is_null,
}

pub fgets_from-line :
    (room : ℕ) (cur body rest : List ℕ)
    → lacks b'\n' body ≡ true
    → length body < room
    → fgets_from room cur (body ++ b'\n' ∷ rest)
      ≡ (cur ++ (body ++ b'\n' ∷ [])) ∷ fgets_from 1023 [] rest
unfolding fgets_from lacks
fgets_from-line room cur [] rest h l = refl
fgets_from-line room cur (c ∷ body) rest h l = elim (Bool-cases (c == b'\n' || leb room 1)) [
  | inl e ↦ absurd (ground arith)
  | inr e ↦ rw e (
      fgets_from-line (room - 1) (cur ++ c ∷ []) body rest (ground arith) (omega arith)
      ∙ ap (λ s. s ∷ fgets_from 1023 [] rest) (append_assoc cur (c ∷ []) (body ++ b'\n' ∷ [])))
]

text_whole : (s : List ℕ) → no_nul s ≡ true → text s ≡ s
unfolding text no_nul
text_whole [] h = refl
text_whole (c ∷ s) h = ground (arith, text_whole s)

module _ (libc : Printing) (strtod : List ℕ → Strtod) (key_buf value_buf : List ℕ)
    (l : IsLibc libc strtod key_buf value_buf) where
  -- The line without its newline.
  body_of : Item → List ℕ
  body_of it = it.key ++ (codes " = " ++ print_value libc it.value)

  print_item-body : (it : Item) → print_item libc it ≡ body_of it ++ b'\n' ∷ []
  unfolding print_item body_of
  print_item-body it =
      sym (append_assoc it.key (codes " = " ++ print_value libc it.value) (b'\n' ∷ []))

  pub print_item-no_nul :
      (it : Item) → IsSaved libc strtod key_buf value_buf it → no_nul (print_item libc it) ≡ true
  unfolding print_item
  print_item-no_nul it h =
      no_nul-append it.key _ (ap no_nul h.key_is ∙ h.key_ok.field.no_nul_byte) (
        no_nul-append (codes " = ") _ (unfold no_nul in refl) (
          no_nul-append (print_value libc it.value) (b'\n' ∷ [])
            (value_line libc strtod key_buf value_buf l it.value h.value_ok).field.no_nul_byte
            (unfold no_nul in refl)))

  body_line :
      (it : Item) → IsSaved libc strtod key_buf value_buf it → lacks b'\n' (body_of it) ≡ true
  unfolding body_of
  body_line it h = lacks-append b'\n' it.key _ h.key_line (
      lacks-append b'\n' (codes " = ") _ (unfold lacks in refl)
        (value_line libc strtod key_buf value_buf l it.value h.value_ok).one_line)

  body_short : (it : Item) → IsSaved libc strtod key_buf value_buf it → length (body_of it) < 1023
  unfolding body_of
  body_short it h = omega (
    arith,
    h.key_ok.field.fits,
    ap length h.key_is,
    (value_line libc strtod key_buf value_buf l it.value h.value_ok).field.fits,
    length-append {0} it.key (codes " = " ++ print_value libc it.value),
  )

  fgets_from-item :
      (it : Item) (rest : List ℕ)
      → IsSaved libc strtod key_buf value_buf it
      → fgets_from 1023 [] (print_item libc it ++ rest)
        ≡ print_item libc it ∷ fgets_from 1023 [] rest
  fgets_from-item it rest h =
      rw (print_item-body it, append_assoc (body_of it) (b'\n' ∷ []) rest)
        (fgets_from-line 1023 [] (body_of it) rest (body_line it h) (body_short it h))

  pub fgets_from-items :
      (its : List Item)
      → AllSaved libc strtod key_buf value_buf its
      → fgets_from 1023 [] (print_items libc its) ≡ map (print_item libc) its
  unfolding print_items
  fgets_from-items [] h = unfold fgets_from in refl
  fgets_from-items (it ∷ its) (h, hs) =
      fgets_from-item it (print_items libc its) h
      ∙ ap (λ ls. print_item libc it ∷ ls) (fgets_from-items its hs)

  line_is :
      (it : Item) (h : IsSaved libc strtod key_buf value_buf it)
      → text (print_item libc it)
        ≡ []
          ++ (h.first ∷ h.others
              ++ (b' ' ∷ [])
              ++ b'=' ∷ ((b' ' ∷ []) ++ (print_value libc it.value ++ b'\n' ∷ [])))
  unfolding print_item
  line_is it h =
      text_whole (print_item libc it) (print_item-no_nul it h)
      ∙ ap (λ k. k ++ (codes " = " ++ (print_value libc it.value ++ b'\n' ∷ []))) h.key_is
      ∙ sym (append_assoc (h.first ∷ h.others) (b' ' ∷ []) _)

  -- A printed item is read as a call that sets its key to its value.
  pub load_line-print_item :
      (c : Config) (it : Item)
      → IsSaved libc strtod key_buf value_buf it
      → load_line strtod key_buf value_buf (plenty 0) c (text (print_item libc it))
        ≡ (set_item (plenty 0).for_set c it.key it.value).1
  unfolding load_line all_space isspace
  load_line-print_item c it h =
      let (k, v, read, is_key, is_value) =
        parse_config_line-IsParsed key_buf value_buf 256 512 h.first h.others
          (print_value libc it.value) [] (b' ' ∷ []) (b' ' ∷ []) (b'\n' ∷ []) h.key_ok
          (value_line libc strtod key_buf value_buf l it.value h.value_ok).field refl refl refl
          refl in
      ap
        (λ line.
          load_parsed strtod key_buf value_buf (plenty 0) c
            (parse_config_line (some line) (some key_buf) (some value_buf) 256 512))
        (line_is it h)
      ∙ ap (load_parsed strtod key_buf value_buf (plenty 0) c) read
      ∙ unfold load_parsed set_config_item in
        rw
          (
            is_key,
            is_value,
            sym h.key_is,
            typed-print_value libc strtod key_buf value_buf l it.value h.value_ok,
            IsStorable-is_null libc strtod key_buf value_buf l it.value h.value_ok,
          )
          refl
