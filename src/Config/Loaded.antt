-- ===== src/Config/Loaded.antt =====
-- Loading a text in src/utils/config.c as a sequence of calls that set keys.
use xsan.Base.{ℕ, suc, true, false, none, some, List, [], ◌∷◌, ◌++◌, arith, ◌≡◌, refl, sym, ap, ◌∙◌}
use xsan.StringUtils.{text}
use xsan.StringUtils.Numbers.{Strtod}
use xsan.StringUtils.Config.{Parsed, parse_config_line}
use xsan.StringUtils.Split.{tokens_from}
use xsan.Config.{Config, find_in, set_config_item, clear}
use xsan.Config.History.{Call, sets, step, run, map_run, IsMap, run-IsMap}
use xsan.Config.Load.{LineMemory, typed_value, load_parsed, load_line, load_lines, load_from_string}

module _ (strtod : List ℕ → Strtod) (key value : List ℕ) where
  -- The call that a parsed line makes, if it makes one.
  abbrev call_of : LineMemory → Parsed → List Call
  call_of m (true, some k, some v) =
      sets m.for_set (text k) (typed_value strtod m.for_lower (text v)) ∷ []
  call_of m _ = []

  -- The calls of the lines from line `i` on.
  unfoldable pub calls_of : (ℕ → LineMemory) → (i : ℕ) → List (List ℕ) → List Call
  calls_of m i [] = []
  calls_of m i (line ∷ lines) =
      call_of (m i) (parse_config_line (some (text line)) (some key) (some value) 256 512)
      ++ calls_of m (suc i) lines

  run-append : (c : Config) (xs ys : List Call) → run c (xs ++ ys) ≡ run (run c xs) ys
  unfolding run
  run-append c [] ys = refl
  run-append c (x ∷ xs) ys = run-append (step c x) xs ys

  load_parsed-run :
      (m : LineMemory) (c : Config) (p : Parsed)
      → load_parsed strtod key value m c p ≡ run c (call_of m p)
  unfolding load_parsed run step set_config_item
  load_parsed-run m c (true, some k, some v) = ground arith
  load_parsed-run m c (true, some k, none) = refl
  load_parsed-run m c (true, none, v) = refl
  load_parsed-run m c (false, k, v) = refl

  load_lines-run :
      (m : ℕ → LineMemory) (i : ℕ) (c : Config) (lines : List (List ℕ))
      → load_lines strtod key value m i c lines ≡ run c (calls_of m i lines)
  unfolding load_lines load_line calls_of
  load_lines-run m i c [] = unfold run in refl
  load_lines-run m i c (line ∷ lines) =
      load_lines-run m (suc i) _ lines
      ∙ ap (λ d. run d (calls_of m (suc i) lines)) (load_parsed-run (m i) c _)
      ∙ sym (run-append c (call_of (m i) _) (calls_of m (suc i) lines))

  -- Whatever a configuration held before, xsan_config_load_from_string succeeds if the text can be
  -- copied, and leaves a well-formed configuration whose lookups answer as a map does in which each
  -- line of the text that parses has set its key, in their order, whichever of these fail.
  pub load_from_string-IsMap :
      (m : ℕ → LineMemory) (c : Config) (s : List ℕ)
      → (loaded : Config) × (load_from_string strtod key value true m (some c) (some s)
          ≡ (true, some loaded))
        × IsMap loaded (map_run (λ j. none) (calls_of m 0 (tokens_from (b'\n' ∷ []) [] s)))
  unfolding load_from_string clear
  load_from_string-IsMap m c s = (
    run (clear c) (calls_of m 0 (tokens_from (b'\n' ∷ []) [] s)),
    ap (λ d. (true, some d)) (load_lines-run m 0 (clear c) (tokens_from (b'\n' ∷ []) [] s)),
    run-IsMap (clear c) (λ j. none) (calls_of m 0 (tokens_from (b'\n' ∷ []) [] s))
        (record { distinct = tt; counted = omega arith }, λ j. unfold find_in in refl),
  )
