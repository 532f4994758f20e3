-- ===== src/StringUtils/Split.antt =====
-- xsan_strsplit. Which allocations succeed are arguments.
use mathlib.Core.Option.{map}
use xsan.Base.{
  ℕ, zero, suc, Bool, false, Option, none, some, List, [], ◌∷◌, ◌++◌, ◌==◌, if◌then◌else◌, ◌||◌,
}

unfoldable pub member : ℕ → List ℕ → Bool
member c [] = false
member c (d ∷ ds) = c == d || member c ds

abbrev pub flushed : List ℕ → List (List ℕ) → List (List ℕ)
flushed [] ts = ts
flushed (c ∷ cur) ts = (c ∷ cur) ∷ ts

-- The texts that `strtok` finds, `cur` being the one that it is in.
unfoldable pub tokens_from : (delim cur : List ℕ) → List ℕ → List (List ℕ)
tokens_from delim cur [] = flushed cur []
tokens_from delim cur (c ∷ s) =
    let ends = member c delim in
    let rest = tokens_from delim (if ends then [] else cur ++ c ∷ []) s in
    if ends then flushed cur rest else rest

-- The loop: `none` where copying a token fails.
unfoldable pub keep_tokens :
    (memory : ℕ → Bool) (i max : ℕ) → List (List ℕ) → Option (List (List ℕ))
keep_tokens memory i max [] = some []
keep_tokens memory i zero (t ∷ ts) = some []
keep_tokens memory i (suc max) (t ∷ ts) =
    let rest = keep_tokens memory (suc i) max ts in if memory i then map (λ r. t ∷ r) rest else none

-- The tokens stored; the source returns their number.
unfoldable pub strsplit :
    (copy : Bool) (memory : ℕ → Bool) (s delim : Option (List ℕ)) (has_tokens : Bool) (max : ℕ)
    → List (List ℕ)
strsplit copy memory none delim has_tokens max = []
strsplit copy memory (some s) none has_tokens max = []
strsplit copy memory (some s) (some delim) has_tokens max =
    let kept = keep_tokens memory 0 max (tokens_from delim [] s) in
    if has_tokens
    then if max == 0
      then []
      else if copy
      then elim kept as (λ _. List (List ℕ)) [ none ↦ [] | some ts ↦ ts ]
      else []
    else []
