-- ===== src/Config/RoundTrip.antt =====
-- xsan_config_load_from_file of src/utils/config.c on what xsan_config_save_to_file writes.
use xsan.Base.{
  ℕ, suc, true, Bool-cases, Option, none, some, List, [], ◌∷◌, ◌++◌, map, if◌then◌else◌, ◌&&◌, ◌||◌,
  inl, inr, arith, ◌≡◌, refl, sym, ap, ◌∙◌,
}
use mathlib.Core.List.{append_assoc}
use xsan.StringUtils.{codes, text, isspace}
use xsan.StringUtils.Trim.{skip_spaces}
use xsan.StringUtils.Convert.{same_text}
use xsan.StringUtils.Numbers.{Strtod}
use xsan.StringUtils.Config.{lacks, parse_line, parse_config_line}
use xsan.StringUtils.Fields.{lacks-append}
use xsan.Config.{Value, Item, Config, find_in, is_present, set_item, clear}
use xsan.Config.Items.{same_text_eq, same_text_self, find_in-set_item}
use xsan.Config.History.{IsDistinct, IsValid, set_item-IsValid}
use xsan.Config.Load.{
  fgets_from, load_parsed, load_line, load_lines, load_opened, load_from_file, mtime_of,
}
use xsan.Config.Save.{Printing, print_item, print_items, file_of, save_to_file}
use xsan.Config.Saved.{plenty, IsStorable, AllSaved, IsLibc, IsStorable-kept_value}
use xsan.Config.SavedLines.{fgets_from-line, load_line-print_item, fgets_from-items}

module _ (libc : Printing) (strtod : List ℕ → Strtod) (key_buf value_buf : List ℕ)
    (l : IsLibc libc strtod key_buf value_buf) where
  -- The first of the two answers.
  abbrev or_else : Option Value → Option Value → Option Value
  or_else none o = o
  or_else (some v) o = some v

  or_else-none : (o : Option Value) → or_else o none ≡ o
  or_else-none none = refl
  or_else-none (some v) = refl

  or_else-set_item :
      (it : Item) (its : List Item) (c : Config) (j : List ℕ)
      → IsStorable libc strtod key_buf value_buf it.value
      → find_in its it.key ≡ none
      → or_else (find_in its j) (find_in (set_item (plenty 0).for_set c it.key it.value).1.items j)
        ≡ or_else (find_in (it ∷ its) j) (find_in c.items j)
  unfolding find_in
  or_else-set_item it its c j v d =
      ap (or_else (find_in its j)) (
        (find_in-set_item (plenty 0).for_set c it.key j it.value).1
        ∙ ap
            (λ r.
              if same_text it.key j && (is_present (find_in c.items it.key) || true)
              then some r.1
              else find_in c.items j)
            (IsStorable-kept_value libc strtod key_buf value_buf l it.value v))
      ∙ elim (Bool-cases (same_text it.key j)) [
        | inl e ↦ rw (sym (same_text_eq it.key j e), d) (ground (arith, same_text_self it.key))
        | inr e ↦ rw e refl
      ]

  -- What loading the lines of `its` on top of `c` leaves.
  abbrev IsLoaded : List Item → Config → Config → Type 0
  IsLoaded its c out =
      IsValid out
      × ((j : List ℕ) → find_in out.items j ≡ or_else (find_in its j) (find_in c.items j))

  load_lines-IsLoaded :
      (its : List Item) (c : Config) (i : ℕ)
      → AllSaved libc strtod key_buf value_buf its
      → IsDistinct its
      → IsValid c
      → IsLoaded its c (load_lines strtod key_buf value_buf plenty i c (map (print_item libc) its))
  unfolding load_lines
  load_lines-IsLoaded [] c i h d w = (w, λ j. unfold find_in in refl)
  load_lines-IsLoaded (it ∷ its) c i (h, hs) (d, ds) w =
      let (valid, found) =
        load_lines-IsLoaded its (set_item (plenty 0).for_set c it.key it.value).1 (suc i) hs ds
          (set_item-IsValid (plenty 0).for_set c it.key it.value w) in
      rw (load_line-print_item libc strtod key_buf value_buf l c it h, load_lines)
        (valid, λ j. found j ∙ or_else-set_item it its c j h.value_ok d)

  -- A comment and an empty line set nothing.
  load_line_comment :
      (c : Config) (s : List ℕ)
      → load_line strtod key_buf value_buf (plenty 0) c (text (b'#' ∷ s)) ≡ c
  unfolding load_line load_parsed text skip_spaces isspace parse_config_line parse_line
  load_line_comment c s = refl

  load_line_empty :
      (c : Config) → load_line strtod key_buf value_buf (plenty 0) c (text (b'\n' ∷ [])) ≡ c
  unfolding load_line load_parsed text skip_spaces isspace parse_config_line parse_line
  load_line_empty c = refl

  -- The lines of a saved file.
  date_comment : List ℕ
  date_comment = codes "# Generated at " ++ l.date

  date_bytes :
      (rest : List ℕ)
      → (codes "# Generated at " ++ (libc.ctime ++ b'\n' ∷ [])) ++ ((b'\n' ∷ []) ++ rest)
        ≡ date_comment ++ b'\n' ∷ b'\n' ∷ b'\n' ∷ rest
  unfolding date_comment
  date_bytes rest = simp (l.ctime_is, append_assoc) refl

  fgets_from-file :
      (c : Config)
      → AllSaved libc strtod key_buf value_buf c.items
      → fgets_from 1023 [] (file_of libc c)
        ≡ (codes "# XSAN Configuration File" ++ b'\n' ∷ [])
          ∷ (date_comment ++ b'\n' ∷ [])
          ∷ (b'\n' ∷ [])
          ∷ (b'\n' ∷ [])
          ∷ map (print_item libc) c.items
  unfolding file_of
  fgets_from-file c h =
      fgets_from-line 1023 [] (codes "# XSAN Configuration File") _ (unfold lacks in refl)
        (omega arith)
      ∙ ap (λ ls. (codes "# XSAN Configuration File" ++ b'\n' ∷ []) ∷ ls)
          (ap (fgets_from 1023 []) (date_bytes (print_items libc c.items))
            ∙ fgets_from-line 1023 [] date_comment _
                (unfold date_comment in
                  lacks-append b'\n' (codes "# Generated at ") l.date (unfold lacks in refl)
                    l.date_line)
                (unfold date_comment in omega (arith, l.date_short))
            ∙ ap (λ ls. (date_comment ++ b'\n' ∷ []) ∷ ls)
                (fgets_from-line 1023 [] [] _ (unfold lacks in refl) (omega arith)
                  ∙ ap (λ ls. (b'\n' ∷ []) ∷ ls)
                      (fgets_from-line 1023 [] [] _ (unfold lacks in refl) (omega arith)
                        ∙ ap (λ ls. (b'\n' ∷ []) ∷ ls)
                            (fgets_from-items libc strtod key_buf value_buf l c.items h))))

  load_lines_skip :
      (i : ℕ) (c : Config) (line : List ℕ) (ls : List (List ℕ))
      → load_line strtod key_buf value_buf (plenty 0) c (text line) ≡ c
      → load_lines strtod key_buf value_buf plenty i c (line ∷ ls)
        ≡ load_lines strtod key_buf value_buf plenty (suc i) c ls
  unfolding load_lines
  load_lines_skip i c line ls e =
      ap (λ d. load_lines strtod key_buf value_buf plenty (suc i) d ls) e

  load_lines-file :
      (saved c : Config)
      → AllSaved libc strtod key_buf value_buf saved.items
      → load_lines strtod key_buf value_buf plenty 0 c (fgets_from 1023 [] (file_of libc saved))
        ≡ load_lines strtod key_buf value_buf plenty 4 c (map (print_item libc) saved.items)
  unfolding date_comment
  load_lines-file saved c h =
      ap (load_lines strtod key_buf value_buf plenty 0 c) (fgets_from-file saved h)
      ∙ load_lines_skip 0 c _ _ (load_line_comment c _)
      ∙ load_lines_skip 1 c _ _ (load_line_comment c _)
      ∙ load_lines_skip 2 c _ _ (load_line_empty c)
      ∙ load_lines_skip 3 c _ _ (load_line_empty c)

  -- A configuration with distinct keys, whose keys and values can be saved (a key as
  -- xsan_parse_config_line reads it, without a newline; a value as `IsStorable` says), is saved to a
  -- file from which, if it can be opened and no allocation fails, any configuration loads the same
  -- answers to all lookups. What is loaded is well formed.
  pub load_from_file-save_to_file :
      (saved c : Config) (path : List ℕ) (mtime : Option ℕ)
      → AllSaved libc strtod key_buf value_buf saved.items
      → IsDistinct saved.items
      → (bytes : List ℕ) × (loaded : Config) × (save_to_file libc (some saved) (some path) true
          ≡ (true, some bytes))
        × (load_from_file strtod key_buf value_buf true plenty
              (some c)
              (some path)
              mtime
              (some bytes)
            ≡ (true, some loaded))
        × IsValid loaded
        × ((j : List ℕ) → find_in loaded.items j ≡ find_in saved.items j)
  unfolding save_to_file load_from_file load_opened
  load_from_file-save_to_file saved c path mtime h d =
      let opened : Config = record c {
        config_file = some path;
        last_modified = mtime_of strtod key_buf value_buf c mtime;
      } in
      let (valid, found) =
        load_lines-IsLoaded saved.items (clear opened) 4 h d
          (unfold clear in record { distinct = tt; counted = omega arith }) in
      (
        file_of libc saved,
        load_lines strtod key_buf value_buf plenty 4 (clear opened)
            (map (print_item libc) saved.items),
        refl,
        ap (λ out. (true, some out)) (load_lines-file saved (clear opened) h),
        valid,
        λ j. found j ∙ unfold clear find_in in or_else-none (find_in saved.items j),
      )
