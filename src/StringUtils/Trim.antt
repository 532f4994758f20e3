-- ===== src/StringUtils/Trim.antt =====
-- xsan_strtrim, xsan_strtrim_left and xsan_strtrim_right. Whether the allocation succeeds is an
-- argument. A walk back from the end is a recursion on the number of bytes that are kept.
use xsan.Base.{
  ℕ, zero, suc, ◌+◌, ◌-◌, ◌<◌, Bool, true, false, Option, none, some, List, [], ◌∷◌, ◌++◌,
  if◌then◌else◌, length, length-append, get_or, take, ◌&&◌, ◌⊎◌, inl, inr, arith, ◌≡◌, refl, sym,
  ap, ◌∙◌, take-length_append,
}
use mathlib.Core.List.{append-nil}
use xsan.StringUtils.{isspace}

unfoldable pub skip_spaces : List ℕ → List ℕ
skip_spaces [] = []
skip_spaces (c ∷ s) = let rest = skip_spaces s in if isspace c then rest else c ∷ s

-- `while (end >= str && isspace(*end)) end--;` with `end` before position `n`
unfoldable pub trimmed_len : List ℕ → ℕ → ℕ
trimmed_len s zero = 0
trimmed_len s (suc n) =
    let shorter = trimmed_len s n in if isspace (get_or s n 0) then shorter else suc n

-- The same loop with `end > str`.
unfoldable pub kept_len : List ℕ → ℕ → ℕ
kept_len s zero = 0
kept_len s (suc zero) = 1
kept_len s (suc (suc n)) =
    let shorter = kept_len s (suc n) in
    if isspace (get_or s (suc n) 0) then shorter else suc (suc n)

abbrev pub strdup : Bool → List ℕ → Option (List ℕ)
strdup memory s = if memory then some s else none

unfoldable pub trim_from : Bool → List ℕ → Option (List ℕ)
trim_from memory [] = strdup memory []
trim_from memory (c ∷ s) = strdup memory (take (kept_len (c ∷ s) (length (c ∷ s))) (c ∷ s))

unfoldable pub strtrim : Bool → Option (List ℕ) → Option (List ℕ)
strtrim memory none = none
strtrim memory (some s) = trim_from memory (skip_spaces s)

unfoldable pub strtrim_left : Bool → Option (List ℕ) → Option (List ℕ)
strtrim_left memory none = none
strtrim_left memory (some s) = strdup memory (skip_spaces s)

unfoldable pub strtrim_right : Bool → Option (List ℕ) → Option (List ℕ)
strtrim_right memory none = none
strtrim_right memory (some s) = strdup memory (take (trimmed_len s (length s)) s)

unfoldable pub all_space : List ℕ → Bool
all_space [] = true
all_space (c ∷ s) = isspace c && all_space s

-- The first and the last byte are no white space.
abbrev pub IsBare : List ℕ → Type 0
IsBare s = (isspace (get_or s 0 0) ≡ false) × (isspace (get_or s (length s - 1) 0) ≡ false)

pub skip_spaces-append : (a s : List ℕ) → all_space a ≡ true → skip_spaces (a ++ s) ≡ skip_spaces s
unfolding all_space skip_spaces
skip_spaces-append [] s h = refl
skip_spaces-append (c ∷ a) s h = ground (arith, skip_spaces-append a s)

pub get_or_append : (s t : List ℕ) (n i : ℕ) → n ≡ length s + i → get_or (s ++ t) n 0 ≡ get_or t i 0
get_or_append [] t n i e = ap (λ k. get_or t k 0) (omega (arith, e))
get_or_append (c ∷ s) t zero i e = absurd (omega arith)
get_or_append (c ∷ s) t (suc n) i e = get_or_append s t n i (omega arith)

pub get_or_inside : (s t : List ℕ) (i : ℕ) → i < length s → get_or (s ++ t) i 0 ≡ get_or s i 0
get_or_inside [] t i h = absurd (omega arith)
get_or_inside (c ∷ s) t zero h = refl
get_or_inside (c ∷ s) t (suc i) h = get_or_inside s t i (omega arith)

get_or-isspace :
    (u : List ℕ) (i : ℕ) → all_space u ≡ true → i < length u → isspace (get_or u i 0) ≡ true
unfolding all_space
get_or-isspace [] i p h = absurd (omega arith)
get_or-isspace (c ∷ u) zero p h = ground arith
get_or-isspace (c ∷ u) (suc i) p h = get_or-isspace u i (ground arith) (omega arith)

trimmed_len_skip :
    (s : List ℕ) (m n k : ℕ)
    → k ≡ m + n
    → ((i : ℕ) → i < n → isspace (get_or s (m + i) 0) ≡ true)
    → trimmed_len s k ≡ trimmed_len s m
unfolding trimmed_len
trimmed_len_skip s m zero k e h = ap (trimmed_len s) (omega arith)
trimmed_len_skip s m (suc n) zero e h = absurd (omega arith)
trimmed_len_skip s m (suc n) (suc k) e h =
    let last : k ≡ m + n = omega arith in
    rw (last, h n (omega arith)) (trimmed_len_skip s m n (m + n) refl λ i p. h i (omega arith))

trimmed_len_stop : (s : List ℕ) (m : ℕ) → isspace (get_or s (m - 1) 0) ≡ false → trimmed_len s m ≡ m
unfolding trimmed_len
trimmed_len_stop s zero h = refl
trimmed_len_stop s (suc m) h =
    let first : isspace (get_or s m 0) ≡ false =
      ap (λ i. isspace (get_or s i 0)) (omega arith) ∙ h in
    simp first refl

pub list_cases : (t : List ℕ) → (length t ≡ 0) ⊎ (0 < length t)
list_cases [] = inl refl
list_cases (c ∷ t) = inr (omega arith)

-- White space after a text that does not end in it is not counted.
pub trimmed_len-append :
    (t u r : List ℕ) (n : ℕ)
    → n ≡ length t + length u
    → isspace (get_or t (length t - 1) 0) ≡ false
    → all_space u ≡ true
    → trimmed_len (t ++ u ++ r) n ≡ length t
unfolding trimmed_len
trimmed_len-append t u r n e h p =
    trimmed_len_skip (t ++ u ++ r) (length t) (length u) n e blank ∙ elim (list_cases t) [
      | inl empty ↦ ap (λ l. trimmed_len (t ++ u ++ r) l) empty ∙ sym empty
      | inr pos ↦
          trimmed_len_stop (t ++ u ++ r) (length t) (
            ap isspace (inner (length t - 1) (omega arith) ∙ get_or_inside t u _ (omega arith)) ∙ h)
    ]
  where
    inner : (i : ℕ) → i < length t + length u → get_or (t ++ u ++ r) i 0 ≡ get_or (t ++ u) i 0
    inner i q = get_or_inside (t ++ u) r i (omega (arith, length-append t u))

    blank : (i : ℕ) → i < length u → isspace (get_or (t ++ u ++ r) (length t + i) 0) ≡ true
    blank i q =
        ap isspace (inner (length t + i) (omega arith) ∙ get_or_append t u _ i refl)
        ∙ get_or-isspace u i p q

pub trimmed_len_whole :
    (t b : List ℕ)
    → isspace (get_or t (length t - 1) 0) ≡ false
    → all_space b ≡ true
    → trimmed_len (t ++ b) (length (t ++ b)) ≡ length t
trimmed_len_whole t b h q =
    ap (λ s. trimmed_len s (length (t ++ b))) (sym (append-nil (t ++ b)))
    ∙ trimmed_len-append t b [] _ (length-append t b) h q

pub take_text : (t b : List ℕ) → take (length t) (t ++ b) ≡ t
take_text t b = take-length_append _ t b refl

kept_len-trimmed_len :
    (s : List ℕ) (n : ℕ) → isspace (get_or s 0 0) ≡ false → kept_len s n ≡ trimmed_len s n
unfolding kept_len trimmed_len
kept_len-trimmed_len s zero h = refl
kept_len-trimmed_len s (suc zero) h = simp h refl
kept_len-trimmed_len s (suc (suc n)) h = simp (kept_len-trimmed_len s (suc n) h) refl

pub skip_spaces_all : (s : List ℕ) → all_space s ≡ true → skip_spaces s ≡ []
unfolding all_space skip_spaces
skip_spaces_all [] h = refl
skip_spaces_all (c ∷ s) h = ground (arith, skip_spaces_all s)

pub all_space-append :
    (s t : List ℕ) → all_space s ≡ true → all_space t ≡ true → all_space (s ++ t) ≡ true
unfolding all_space
all_space-append [] t h k = k
all_space-append (c ∷ s) t h k = ground (arith, all_space-append s t)

pub skip_spaces_first : (c : ℕ) (s : List ℕ) → isspace c ≡ false → skip_spaces (c ∷ s) ≡ c ∷ s
unfolding skip_spaces
skip_spaces_first c s h = simp h refl

pub skip_spaces_bare :
    (t b : List ℕ) → 0 < length t → isspace (get_or t 0 0) ≡ false → skip_spaces (t ++ b) ≡ t ++ b
skip_spaces_bare [] b l h = absurd (omega arith)
skip_spaces_bare (c ∷ t) b l h = skip_spaces_first c (t ++ b) h

-- xsan_strtrim removes exactly the white space around a text that neither starts nor ends with it,
-- where its allocation succeeds.
pub strtrim-padded :
    (a t b : List ℕ)
    → all_space a ≡ true
    → IsBare t
    → all_space b ≡ true
    → strtrim true (some (a ++ (t ++ b))) ≡ some t
unfolding strtrim trim_from
strtrim-padded a [] b p h q =
    ap (trim_from true) (skip_spaces_all (a ++ b) (all_space-append a b p q))
strtrim-padded a (c ∷ t) b p h q =
    rw (skip_spaces-append a (c ∷ t ++ b) p, skip_spaces_bare (c ∷ t) b (omega arith) h.0)
      (ap some (
        ap (λ n. take n (c ∷ t ++ b))
          (kept_len-trimmed_len (c ∷ t ++ b) _ h.0 ∙ trimmed_len_whole (c ∷ t) b h.1 q)
        ∙ take_text (c ∷ t) b))
