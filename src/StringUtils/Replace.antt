-- ===== src/StringUtils/Replace.antt =====
-- xsan_str_contains and xsan_str_replace. The two loops over the occurrences run on fuel.
use mathlib.Core.Option.{map}
use xsan.Base.{
  ℕ, zero, suc, ◌+◌, ◌*◌, ◌%◌, Bool, true, false, Option, none, some, List, [], ◌∷◌, ◌++◌, ◌==◌,
  if◌then◌else◌, ◌&&◌, length, take, drop, size_mod, add_size, sub_size,
}

unfoldable pub starts : List ℕ → List ℕ → Bool
starts [] s = true
starts (d ∷ p) [] = false
starts (d ∷ p) (c ∷ s) = d == c && starts p s

-- `strstr`, as a position
unfoldable pub find_text : List ℕ → List ℕ → Option ℕ
find_text p [] = if starts p [] then some 0 else none
find_text p (c ∷ s) =
    let later = find_text p s in if starts p (c ∷ s) then some 0 else map suc later

unfoldable pub str_contains : Option (List ℕ) → Option (List ℕ) → Bool
str_contains none p = false
str_contains (some s) none = false
str_contains (some s) (some p) = elim (find_text p s) [ none ↦ false | some i ↦ true ]

-- The first loop: `none` when it runs out of fuel.
unfoldable pub count_occurrences : List ℕ → ℕ → List ℕ → Option ℕ
count_occurrences old zero s = none
count_occurrences old (suc fuel) s = elim (find_text old s) [
  | none ↦ some 0
  | some i ↦ map suc (count_occurrences old fuel (drop (i + length old) s))
]

module _ (old new : List ℕ) where
  -- The second loop: what it writes.
  unfoldable pub copy_replaced : ℕ → List ℕ → Option (List ℕ)
  copy_replaced zero s = none
  copy_replaced (suc fuel) s = elim (find_text old s) [
    | none ↦ some s
    | some i ↦ map (λ r. take i s ++ (new ++ r)) (copy_replaced fuel (drop (i + length old) s))
  ]

-- The bytes that were asked for and the text written to them.
pub data Replaced : Type 0 where
  out_of_fuel : Replaced
  null : Replaced
  written : (capacity : ℕ) (content : List ℕ) → Replaced

abbrev copied : Bool → List ℕ → Replaced
copied memory s = if memory then written (length s + 1) s else null

-- `str_len + count * (new_len - old_len) + 1` in `size_t`
abbrev pub result_size : List ℕ → List ℕ → List ℕ → ℕ → ℕ
result_size s old new count =
    add_size (add_size (length s) ((count * sub_size (length new) (length old)) % size_mod)) 1

unfoldable pub replace_counted : Bool → List ℕ → List ℕ → List ℕ → ℕ → ℕ → Replaced
replace_counted memory s old new fuel zero = copied memory s
replace_counted memory s old new fuel (suc n) =
    if memory
    then elim (copy_replaced old new fuel s) [
      | none ↦ out_of_fuel
      | some r ↦ written (result_size s old new (suc n)) r
    ]
    else null

unfoldable pub replace_text : Bool → List ℕ → List ℕ → List ℕ → Replaced
replace_text memory s [] new = copied memory s
replace_text memory s (d ∷ old) new = elim (count_occurrences (d ∷ old) (length s + 1) s) [
  | none ↦ out_of_fuel
  | some n ↦ replace_counted memory s (d ∷ old) new (length s + 1) n
]

unfoldable pub str_replace : Bool → Option (List ℕ) → Option (List ℕ) → Option (List ℕ) → Replaced
str_replace memory none old new = null
str_replace memory (some s) none new = null
str_replace memory (some s) (some old) none = null
str_replace memory (some s) (some old) (some new) = replace_text memory s old new
