-- ===== src/StringUtils/Compare.antt =====
-- xsan_strcasecmp, xsan_strncasecmp, xsan_str_starts_with and xsan_str_ends_with.
use xsan.Base.{
  ℕ, zero, suc, ◌-◌, ◌<◌, Bool, true, false, Bool-cases, Option, none, some, List, [], ◌∷◌, map,
  leb, ltb, ◌==◌, if◌then◌else◌, length, take, drop, ◌&&◌, inl, inr, ◌↔◌, arith, ◌≡◌, refl, sym, ap,
  ap₂, ==_iff, pos-ne_zero,
}
use xsan.StringUtils.{no_nul, tolower}

pub data ℤ : Type 0 where
  pos : ℕ → ℤ
  negsuc : ℕ → ℤ

abbrev pub sub_int : ℕ → ℕ → ℤ
sub_int a b = if leb b a then pos (a - b) else negsuc (b - a - 1)

-- The texts from here on; the byte at the end of a text is 0.
unfoldable pub case_compare : List ℕ → List ℕ → ℤ
case_compare [] [] = sub_int (tolower 0) (tolower 0)
case_compare [] (d ∷ t) = sub_int (tolower 0) (tolower d)
case_compare (c ∷ s) [] = sub_int (tolower c) (tolower 0)
case_compare (c ∷ s) (d ∷ t) =
    let rest = case_compare s t in
    if tolower c == tolower d then rest else sub_int (tolower c) (tolower d)

unfoldable pub strcasecmp : Option (List ℕ) → Option (List ℕ) → ℤ
strcasecmp none none = pos 0
strcasecmp none (some t) = negsuc 0
strcasecmp (some s) none = pos 1
strcasecmp (some s) (some t) = case_compare s t

unfoldable pub case_compare_n : ℕ → List ℕ → List ℕ → ℤ
case_compare_n zero s t = pos 0
case_compare_n (suc n) [] t = pos 0
case_compare_n (suc n) (c ∷ s) [] = pos 0
case_compare_n (suc n) (c ∷ s) (d ∷ t) =
    let rest = case_compare_n n s t in
    if tolower c == tolower d then rest else sub_int (tolower c) (tolower d)

-- `same` is whether the two pointers are equal.
unfoldable pub strncasecmp : Bool → Option (List ℕ) → Option (List ℕ) → ℕ → ℤ
strncasecmp same none none n = pos 0
strncasecmp same none (some t) n = negsuc 0
strncasecmp same (some s) none n = pos 1
strncasecmp same (some s) (some t) n =
    if n == 0 then if same then pos 0 else pos 1 else case_compare_n n s t

-- `memcmp(s, t, n) == 0`
unfoldable pub same_bytes : ℕ → List ℕ → List ℕ → Bool
same_bytes zero s t = true
same_bytes (suc n) (c ∷ s) (d ∷ t) = c == d && same_bytes n s t
same_bytes (suc n) [] t = false
same_bytes (suc n) (c ∷ s) [] = false

unfoldable pub str_starts_with : Option (List ℕ) → Option (List ℕ) → Bool
unfolding same_bytes
str_starts_with none p = false
str_starts_with (some s) none = false
str_starts_with (some s) (some p) =
    if ltb (length s) (length p) then false else same_bytes (length p) s p

unfoldable pub str_ends_with : Option (List ℕ) → Option (List ℕ) → Bool
unfolding same_bytes
str_ends_with none p = false
str_ends_with (some s) none = false
str_ends_with (some s) (some p) =
    if ltb (length s) (length p)
    then false
    else same_bytes (length p) (drop (length s - length p) s) p

sub_int-zero : (a b : ℕ) → sub_int a b ≡ pos 0 → a ≡ b
sub_int-zero a b h = ground arith

sub_int_self : (a b : ℕ) → a ≡ b → sub_int a b ≡ pos 0
sub_int_self a b h = ground arith

tolower-zero : (c : ℕ) → tolower c ≡ tolower 0 → c ≡ 0
unfolding tolower
tolower-zero c h = ground arith

case_compare-zero :
    (s t : List ℕ)
    → no_nul s ≡ true
    → no_nul t ≡ true
    → case_compare s t ≡ pos 0
    → map tolower s ≡ map tolower t
unfolding case_compare no_nul
case_compare-zero [] [] p q h = refl
case_compare-zero [] (d ∷ t) p q h =
    let nul : d ≡ 0 = tolower-zero d (sym (sub_int-zero (tolower 0) (tolower d) h)) in
    absurd (ground arith)
case_compare-zero (c ∷ s) [] p q h =
    let nul : c ≡ 0 = tolower-zero c (sub_int-zero (tolower c) (tolower 0) h) in
    absurd (ground arith)
case_compare-zero (c ∷ s) (d ∷ t) p q h = elim (Bool-cases (tolower c == tolower d)) [
  | inl e ↦
      ap₂ (λ a b. a ∷ b) ((==_iff (tolower c) (tolower d)).0 e)
        (case_compare-zero s t (ground arith) (ground arith) (simp e at h))
  | inr e ↦ absurd (ground (arith, e, sub_int-zero (tolower c) (tolower d) (simp e at h)))
]

zero-case_compare : (s t : List ℕ) → map tolower s ≡ map tolower t → case_compare s t ≡ pos 0
unfolding case_compare
zero-case_compare [] [] h = sub_int_self (tolower 0) (tolower 0) refl
zero-case_compare [] (d ∷ t) h = absurd (omega (arith, ap length h))
zero-case_compare (c ∷ s) [] h = absurd (omega (arith, ap length h))
zero-case_compare (c ∷ s) (d ∷ t) h =
    let e : (tolower c == tolower d) ≡ true = (==_iff (tolower c) (tolower d)).1 (cc h) in
    simp e (zero-case_compare s t (cc h))

-- xsan_strcasecmp answers 0 for two texts exactly when they agree once every letter is a small one.
pub strcasecmp_lem :
    (s t : List ℕ)
    → no_nul s ≡ true
    → no_nul t ≡ true
    → (strcasecmp (some s) (some t) ≡ pos 0) ↔ (map tolower s ≡ map tolower t)
unfolding strcasecmp
strcasecmp_lem s t p q = (case_compare-zero s t p q, zero-case_compare s t)

-- The bytes of `s` in small letters, as far as `n` and the other text reach.
abbrev pub compared : ℕ → List ℕ → List ℕ → List ℕ
compared n s t = take n (take (length t) (map tolower s))

case_compare_n-zero :
    (n : ℕ) (s t : List ℕ) → case_compare_n n s t ≡ pos 0 → compared n s t ≡ compared n t s
unfolding case_compare_n
case_compare_n-zero zero s t h = refl
case_compare_n-zero (suc n) [] [] h = refl
case_compare_n-zero (suc n) [] (d ∷ t) h = refl
case_compare_n-zero (suc n) (c ∷ s) [] h = refl
case_compare_n-zero (suc n) (c ∷ s) (d ∷ t) h = elim (Bool-cases (tolower c == tolower d)) [
  | inl e ↦
      ap₂ (λ a b. a ∷ b) ((==_iff (tolower c) (tolower d)).0 e)
        (case_compare_n-zero n s t (simp e at h))
  | inr e ↦ absurd (ground (arith, e, sub_int-zero (tolower c) (tolower d) (simp e at h)))
]

zero-case_compare_n :
    (n : ℕ) (s t : List ℕ) → compared n s t ≡ compared n t s → case_compare_n n s t ≡ pos 0
unfolding case_compare_n
zero-case_compare_n zero s t h = refl
zero-case_compare_n (suc n) [] [] h = refl
zero-case_compare_n (suc n) [] (d ∷ t) h = refl
zero-case_compare_n (suc n) (c ∷ s) [] h = refl
zero-case_compare_n (suc n) (c ∷ s) (d ∷ t) h =
    let e : (tolower c == tolower d) ≡ true = (==_iff (tolower c) (tolower d)).1 (cc h) in
    simp e (zero-case_compare_n n s t (cc h))

-- For a limit other than 0, xsan_strncasecmp answers 0 for two texts exactly when their bytes, in
-- small letters, agree up to the limit and to the end of the shorter text. How the longer text goes
-- on has no effect.
pub strncasecmp_lem :
    (same : Bool) (s t : List ℕ) (n : ℕ)
    → 0 < n
    → (strncasecmp same (some s) (some t) n ≡ pos 0) ↔ (compared n s t ≡ compared n t s)
unfolding strncasecmp
strncasecmp_lem same s t n h =
    rw (pos-ne_zero n h) (case_compare_n-zero n s t, zero-case_compare_n n s t)
