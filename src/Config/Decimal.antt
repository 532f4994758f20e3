-- ===== src/Config/Decimal.antt =====
-- xsan_str_to_int and xsan_str_to_long of src/utils/string_utils.c on what `%d` and `%ld` print.
use xsan.Base.{
  ℕ, zero, suc, ◌+◌, ◌-◌, ◌/◌, ◌%◌, ◌^◌, ◌≤◌, ◌<◌, Bool, true, false, Bool-cases, none, some, List,
  [], ◌∷◌, ◌++◌, if◌then◌else◌, ltb, not, ◌&&◌, length, length-append, inl, inr, arith, ◌≡◌, refl,
  sym, ap, ◌∙◌, get_or, pos-ne_zero,
}
use mathlib.Core.List.{append-nil, append_assoc}
use xsan.StringUtils.{isspace, no_nul}
use xsan.StringUtils.Trim.{skip_spaces, skip_spaces_first, IsBare}
use xsan.StringUtils.Compare.{ℤ, pos, negsuc}
use xsan.StringUtils.Config.{lacks}
use xsan.StringUtils.Numbers.{
  digits, signed, out_of_range, whole_number, signed_number, str_to_int, str_to_long,
}
use xsan.Config.Save.{decimal, print_long}

digits-decimal :
    (fuel n : ℕ) (t : List ℕ)
    → n < 10 ^ suc fuel
    → digits 0 (decimal (suc fuel) n ++ t) ≡ digits n t
unfolding decimal digits
digits-decimal zero n t h = ground arith
digits-decimal (suc fuel) n t h = elim (Bool-cases (ltb n 10)) [
  | inl e ↦ ground arith
  | inr e ↦
      rw (e, append_assoc (decimal (suc fuel) (n / 10)) ((b'0' + n % 10) ∷ []) t)
        (digits-decimal fuel (n / 10) ((b'0' + n % 10) ∷ t) (omega (arith, h)) ∙ ground arith)
]

-- Bytes above the space: no white space, NUL or newline.
unfoldable pub all_graph : List ℕ → Bool
all_graph [] = true
all_graph (c ∷ s) = ltb b' ' c && all_graph s

all_graph-append :
    (s t : List ℕ) → all_graph s ≡ true → all_graph t ≡ true → all_graph (s ++ t) ≡ true
unfolding all_graph
all_graph-append [] t h k = k
all_graph-append (c ∷ s) t h k = ground (arith, all_graph-append s t)

all_graph-decimal : (fuel n : ℕ) → all_graph (decimal fuel n) ≡ true
unfolding decimal all_graph
all_graph-decimal zero n = refl
all_graph-decimal (suc fuel) n = elim (Bool-cases (ltb n 10)) [
  | inl e ↦ ground arith
  | inr e ↦ rw e (
      all_graph-append (decimal fuel (n / 10)) ((b'0' + n % 10) ∷ [])
        (all_graph-decimal fuel (n / 10)) (ground arith))
]

length-decimal : (fuel n : ℕ) → length (decimal fuel n) ≤ fuel
unfolding decimal
length-decimal zero n = omega arith
length-decimal (suc fuel) n = elim (Bool-cases (ltb n 10)) [
  | inl e ↦ ground arith
  | inr e ↦ rw e (
      omega (
        arith,
        length-decimal fuel (n / 10),
        length-append (decimal fuel (n / 10)) ((b'0' + n % 10) ∷ []),
      ))
]

-- The first byte is a digit.
abbrev IsDigits : List ℕ → Type 0
IsDigits s = (c : ℕ) × (t : List ℕ) × (s ≡ c ∷ t) × (b'0' ≤ c) × (c ≤ b'9')

IsDigits-append : (s t : List ℕ) → IsDigits s → IsDigits (s ++ t)
IsDigits-append s t (c, u, e, lo, hi) = (c, u ++ t, ap (λ x. x ++ t) e, lo, hi)

decimal-IsDigits : (fuel n : ℕ) → IsDigits (decimal (suc fuel) n)
unfolding decimal
decimal-IsDigits zero n = elim (Bool-cases (ltb n 10)) [
  | inl e ↦ rw e (b'0' + n, [], refl, omega arith, ground arith)
  | inr e ↦ rw e (b'0' + n % 10, [], refl, omega arith, omega arith)
]
decimal-IsDigits (suc fuel) n = elim (Bool-cases (ltb n 10)) [
  | inl e ↦ rw e (b'0' + n, [], refl, omega arith, ground arith)
  | inr e ↦ rw e (IsDigits-append (decimal (suc fuel) (n / 10)) _ (decimal-IsDigits fuel (n / 10)))
]

whole_number-decimal :
    (bits n : ℕ) (negative : Bool)
    → n < 10 ^ 20
    → whole_number bits negative (decimal 20 n)
      ≡ (if out_of_range bits negative n then none else some (signed negative n))
unfolding whole_number
whole_number-decimal bits n negative h =
    let read : digits 0 (decimal 20 n) ≡ (n, []) =
      ap (digits 0) (sym (append-nil (decimal 20 n)))
      ∙ (digits-decimal 19 n [] h ∙ unfold digits in refl) in
    let (c, t, e, lo, hi) = decimal-IsDigits 19 n in
    rw (read, e, pos-ne_zero (suc (length t)) (omega arith)) (ground arith)

-- Does a number fit `bits` bits in two's complement?
abbrev pub fits_in : ℕ → ℤ → Bool
fits_in bits (pos n) = not (out_of_range bits false n)
fits_in bits (negsuc n) = not (out_of_range bits true (suc n))

not-true : (b : Bool) → not b ≡ true → b ≡ false
not-true true h = sym h
not-true false h = refl

first_digit :
    (bits n : ℕ)
    → signed_number bits (skip_spaces (decimal 20 n)) ≡ whole_number bits false (decimal 20 n)
unfolding signed_number
first_digit bits n =
    let (c, t, e, lo, hi) = decimal-IsDigits 19 n in
    rw (e, skip_spaces_first c t (unfold isspace in ground arith)) (ground arith)

signed_number-print_long :
    (bits : ℕ) (n : ℤ)
    → fits_in 64 n ≡ true
    → signed_number bits (skip_spaces (print_long n)) ≡ (if fits_in bits n then some n else none)
unfolding print_long signed_number skip_spaces isspace
signed_number-print_long bits (pos n) h =
    first_digit bits n ∙ whole_number-decimal bits n false (ground arith) ∙ ground arith
signed_number-print_long bits (negsuc n) h =
    whole_number-decimal bits (suc n) true (ground arith) ∙ ground arith

-- A 64-bit number that is printed in decimal is read back by xsan_str_to_long, and by xsan_str_to_int
-- exactly if it fits 32 bits.
pub str_to_long-print_long :
    (n : ℤ)
    → fits_in 64 n ≡ true
    → (str_to_long (some (print_long n)) true ≡ some n)
      × (str_to_int (some (print_long n)) true ≡ (if fits_in 32 n then some n else none))
unfolding str_to_long str_to_int
str_to_long-print_long n h =
    (signed_number-print_long 64 n h ∙ rw h refl, signed_number-print_long 32 n h)

pub all_graph-print_long : (n : ℤ) → all_graph (print_long n) ≡ true
unfolding print_long all_graph
all_graph-print_long (pos n) = all_graph-decimal 20 n
all_graph-print_long (negsuc n) = all_graph-decimal 20 (suc n)

pub length-print_long : (n : ℤ) → length (print_long n) ≤ 21
unfolding print_long
length-print_long (pos n) = omega (arith, length-decimal 20 n)
length-print_long (negsuc n) = omega (arith, length-decimal 20 (suc n))

pub no_nul-all_graph : (s : List ℕ) → all_graph s ≡ true → no_nul s ≡ true
unfolding all_graph no_nul
no_nul-all_graph [] h = refl
no_nul-all_graph (c ∷ s) h = ground (arith, no_nul-all_graph s)

pub lacks-all_graph : (s : List ℕ) → all_graph s ≡ true → lacks b'\n' s ≡ true
unfolding all_graph lacks
lacks-all_graph [] h = refl
lacks-all_graph (c ∷ s) h = ground (arith, lacks-all_graph s)

get_or-all_graph : (s : List ℕ) (i : ℕ) → all_graph s ≡ true → isspace (get_or s i 0) ≡ false
unfolding all_graph isspace
get_or-all_graph [] i h = refl
get_or-all_graph (c ∷ s) zero h = ground arith
get_or-all_graph (c ∷ s) (suc i) h = get_or-all_graph s i (ground arith)

pub all_graph-IsBare : (s : List ℕ) → all_graph s ≡ true → IsBare s
all_graph-IsBare s h = (get_or-all_graph s 0 h, get_or-all_graph s (length s - 1) h)
